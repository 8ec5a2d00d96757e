-- ===== src/Pmon/Tables/Layout.antt =====
-- Where the two initialisers put the registers: closed forms of the tables, and that no two
-- registers of the units share an address.
use core_map.Base.{
  ℕ, zero, suc, ◌+◌, ◌-◌, ◌*◌, ◌<◌, ◌≡◌, refl, some, List, [], ◌∷◌, ◌++◌, length, get_elem?, ltb,
  if◌then◌else◌, arith,
}
use core_map.Pmon.Tables.{LlcChaSkl, LlcChaIcl, zero_icl, c_skl, c_icl}

-- f i ∷ f (i + 1) ∷ ..., n entries.
tabulate {ℓ} : {A : Type ℓ} → (ℕ → A) → ℕ → ℕ → List A
tabulate f zero i = []
tabulate f (suc n) i = f i ∷ tabulate f n (suc i)

get_elem?-tabulate {ℓ} :
    {A : Type ℓ} (f : ℕ → A) (n i k : ℕ) (rest : List A)
    → k < n
    → get_elem? (tabulate f n i ++ rest) k ≡ some (f (i + k))
unfolding tabulate
get_elem?-tabulate f zero i k rest h = elim h [ ]
get_elem?-tabulate f (suc n) i zero rest h = let e : i + 0 ≡ i = omega arith in rw e
get_elem?-tabulate f (suc n) i (suc k) rest h =
    let e : i + suc k ≡ suc i + k = omega arith in
    rw e (get_elem?-tabulate f n (suc i) k rest (omega arith))

-- The first register of a unit.
abbrev skl_base : ℕ → ℕ
skl_base i = 0x0E00 + 0x10 * i

abbrev pub icl_base : ℕ → ℕ
icl_base i =
    if ltb i 18
    then 0x0E00 + 0xE * i
    else if ltb i 34
    then 0x0F0A + 0xE * (i - 18)
    else 0x0B60 + 0xE * (i - 34)

abbrev pub skl_unit : ℕ → LlcChaSkl
skl_unit i = record {
  regs = record {
    unit_status = skl_base i + 7;
    unit_ctl = skl_base i;
    ctr0 = skl_base i + 8;
    ctr1 = skl_base i + 9;
    ctr2 = skl_base i + 10;
    ctr3 = skl_base i + 11;
    ctl0 = skl_base i + 1;
    ctl1 = skl_base i + 2;
    ctl2 = skl_base i + 3;
    ctl3 = skl_base i + 4;
  };
  box_filter0 = skl_base i + 5;
  box_filter1 = skl_base i + 6;
}

-- On this generation the four counters, and their controls, are numbered downwards.
abbrev pub icl_unit : ℕ → LlcChaIcl
icl_unit i = record {
  regs = record {
    unit_status = icl_base i + 7;
    unit_ctl = icl_base i;
    ctr0 = icl_base i + 11;
    ctr1 = icl_base i + 10;
    ctr2 = icl_base i + 9;
    ctr3 = icl_base i + 8;
    ctl0 = icl_base i + 4;
    ctl1 = icl_base i + 3;
    ctl2 = icl_base i + 2;
    ctl3 = icl_base i + 1;
  };
  box_filter = icl_base i + 5;
}

c_skl_lem : c_skl ≡ tabulate skl_unit 28 0 ++ []
unfolding c_skl tabulate
c_skl_lem = refl

c_icl_lem : c_icl ≡ tabulate icl_unit 39 0 ++ zero_icl ∷ []
unfolding c_icl tabulate
c_icl_lem = refl

-- The table that the Skylake initialiser builds entry by entry has unit i, for each i below 28,
-- with its registers at fixed offsets from 0xE00 + 16 i.
pub get_elem?-c_skl : (i : ℕ) → i < 28 → get_elem? c_skl i ≡ some (skl_unit i)
get_elem?-c_skl i h =
    let e : 0 + i ≡ i = omega arith in
    rw c_skl_lem (rw (get_elem?-tabulate skl_unit 28 0 i [] h, e))

-- The table that the Ice Lake initialiser builds in three runs has unit i, for each i below 39,
-- with its registers at fixed offsets from the start of the unit's window of 14 registers; the
-- windows start at 0xE00, at 0xF0A for unit 18 and at 0xB60 for unit 34.
pub get_elem?-c_icl : (i : ℕ) → i < 39 → get_elem? c_icl i ≡ some (icl_unit i)
get_elem?-c_icl i h =
    let e : 0 + i ≡ i = omega arith in
    rw c_icl_lem (rw (get_elem?-tabulate icl_unit 39 0 i (zero_icl ∷ []) h, e))

icl_last : get_elem? c_icl 39 ≡ some zero_icl
unfolding c_icl
icl_last = refl

pub length-c_skl : length c_skl ≡ 28
unfolding c_skl
length-c_skl = refl

pub length-c_icl : length c_icl ≡ 40
unfolding c_icl
length-c_icl = refl

-- Windows of 14 registers that start at the bases of distinct units do not meet.
icl_windows :
    (i j a b : ℕ)
    → i < 39
    → j < 39
    → a < 14
    → b < 14
    → icl_base i + a ≡ icl_base j + b
    → (i ≡ j) × (a ≡ b)
icl_windows i j a b hi hj ha hb e = ground arith

skl_windows : (i j a b : ℕ) → a < 16 → b < 16 → skl_base i + a ≡ skl_base j + b → (i ≡ j) × (a ≡ b)
skl_windows i j a b ha hb e = omega arith
