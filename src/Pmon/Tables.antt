-- ===== src/Pmon/Tables.antt =====
-- srcs/pmon.cpp, lines 13-120: the addresses of the performance monitoring registers of each CHA
-- unit, as the two initialisers fill them in. A `short` is a bit pattern below 2 ^ 16.
pub mod Layout
use core_map.Base.{
  ℕ, zero, suc, ◌+◌, ◌%◌, ◌^◌, List, [], ◌∷◌, Option, none, some, get_elem?, set, replicate,
}

-- The registers that both generations of the unit have.
pub record PmonUnit : Type 0 where
  pub unit_status : ℕ
  pub unit_ctl : ℕ
  pub ctr0 : ℕ
  pub ctr1 : ℕ
  pub ctr2 : ℕ
  pub ctr3 : ℕ
  pub ctl0 : ℕ
  pub ctl1 : ℕ
  pub ctl2 : ℕ
  pub ctl3 : ℕ

pub record LlcChaSkl : Type 0 where
  pub regs : PmonUnit
  pub open regs use *
  pub box_filter0 : ℕ
  pub box_filter1 : ℕ

pub record LlcChaIcl : Type 0 where
  pub regs : PmonUnit
  pub open regs use *
  pub box_filter : ℕ

abbrev num_units_skl : ℕ
num_units_skl = 28

abbrev num_units_icl : ℕ
num_units_icl = 40

-- `a + k`, computed as an `int` and stored as a `short`.
add_short : ℕ → ℕ → ℕ
add_short k a = (a + k) % 2 ^ 16

next_unit : ℕ → PmonUnit → PmonUnit
unfolding add_short
next_unit k u = record {
  unit_status = add_short k u.unit_status;
  unit_ctl = add_short k u.unit_ctl;
  ctr0 = add_short k u.ctr0;
  ctr1 = add_short k u.ctr1;
  ctr2 = add_short k u.ctr2;
  ctr3 = add_short k u.ctr3;
  ctl0 = add_short k u.ctl0;
  ctl1 = add_short k u.ctl1;
  ctl2 = add_short k u.ctl2;
  ctl3 = add_short k u.ctl3;
}

next_skl : LlcChaSkl → LlcChaSkl
unfolding next_unit
next_skl c = record {
  regs = next_unit 0x10 c.regs;
  box_filter0 = add_short 0x10 c.box_filter0;
  box_filter1 = add_short 0x10 c.box_filter1;
}

next_icl : LlcChaIcl → LlcChaIcl
unfolding next_unit
next_icl c = record { regs = next_unit 0xE c.regs; box_filter = add_short 0xE c.box_filter }

fill_at {ℓ} : {A : Type ℓ} → (A → A) → ℕ → List A → Option A → List A
fill_at next i t none = t
fill_at next i t (some u) = set t (suc i) (next u)

-- for (k = i; k < i + n; k++) t[k + 1] = next(t[k]). A read out of bounds does not occur below.
fill {ℓ} : {A : Type ℓ} → (A → A) → ℕ → ℕ → List A → List A
unfolding fill_at
fill next zero i t = t
fill next (suc n) i t = fill next n (suc i) (fill_at next i t (get_elem? t i))

abbrev zero_unit : PmonUnit
zero_unit = record {
  unit_status = 0;
  unit_ctl = 0;
  ctr0 = 0;
  ctr1 = 0;
  ctr2 = 0;
  ctr3 = 0;
  ctl0 = 0;
  ctl1 = 0;
  ctl2 = 0;
  ctl3 = 0;
}

-- The first entry of `C_SKL`; the language sets the others to zero.
abbrev first_skl : LlcChaSkl
first_skl = record {
  regs = record {
    unit_status = 0x0E07;
    unit_ctl = 0x0E00;
    ctr0 = 0x0E08;
    ctr1 = 0x0E09;
    ctr2 = 0x0E0A;
    ctr3 = 0x0E0B;
    ctl0 = 0x0E01;
    ctl1 = 0x0E02;
    ctl2 = 0x0E03;
    ctl3 = 0x0E04;
  };
  box_filter0 = 0x0E05;
  box_filter1 = 0x0E06;
}

abbrev zero_skl : LlcChaSkl
zero_skl = record { regs = zero_unit; box_filter0 = 0; box_filter1 = 0 }

abbrev zero_icl : LlcChaIcl
zero_icl = record { regs = zero_unit; box_filter = 0 }

init_llc_cha_ary_skl : List LlcChaSkl → List LlcChaSkl
unfolding fill next_skl
init_llc_cha_ary_skl t = fill next_skl 27 0 t

-- The global array after the initialiser.
unfoldable pub c_skl : List LlcChaSkl
unfolding init_llc_cha_ary_skl
c_skl = init_llc_cha_ary_skl (first_skl ∷ replicate 27 zero_skl)

-- C_ICL[0], C_ICL[18] and C_ICL[34].
abbrev icl_0 : LlcChaIcl
icl_0 = record {
  regs = record {
    unit_status = 0x0E07;
    unit_ctl = 0x0E00;
    ctr0 = 0x0E0B;
    ctr1 = 0x0E0A;
    ctr2 = 0x0E09;
    ctr3 = 0x0E08;
    ctl0 = 0x0E04;
    ctl1 = 0x0E03;
    ctl2 = 0x0E02;
    ctl3 = 0x0E01;
  };
  box_filter = 0x0E05;
}

abbrev icl_18 : LlcChaIcl
icl_18 = record {
  regs = record {
    unit_status = 0x0F11;
    unit_ctl = 0x0F0A;
    ctr0 = 0x0F15;
    ctr1 = 0x0F14;
    ctr2 = 0x0F13;
    ctr3 = 0x0F12;
    ctl0 = 0x0F0E;
    ctl1 = 0x0F0D;
    ctl2 = 0x0F0C;
    ctl3 = 0x0F0B;
  };
  box_filter = 0x0F0F;
}

abbrev icl_34 : LlcChaIcl
icl_34 = record {
  regs = record {
    unit_status = 0x0B67;
    unit_ctl = 0x0B60;
    ctr0 = 0x0B6B;
    ctr1 = 0x0B6A;
    ctr2 = 0x0B69;
    ctr3 = 0x0B68;
    ctl0 = 0x0B64;
    ctl1 = 0x0B63;
    ctl2 = 0x0B62;
    ctl3 = 0x0B61;
  };
  box_filter = 0x0B65;
}

init_llc_cha_ary_icl : List LlcChaIcl → List LlcChaIcl
unfolding fill next_icl
init_llc_cha_ary_icl t =
    let a = fill next_icl 17 0 (set t 0 icl_0) in
    let b = fill next_icl 15 18 (set a 18 icl_18) in fill next_icl 4 34 (set b 34 icl_34)

unfoldable pub c_icl : List LlcChaIcl
unfolding init_llc_cha_ary_icl
c_icl = init_llc_cha_ary_icl (replicate num_units_icl zero_icl)
