-- ===== src/Pmon/Ppin.antt =====
-- srcs/pmon.cpp, lines 145-156: `v & 0x3 != 0x2` compares before it masks, so it tests the lowest bit
-- of the control register alone.
use Prim.Native.Nat.{bit_and, bit_and-bitwise, digits, min}
use mathlib.Core.Option.{get_or}
use core_map.Base.{
  ℕ, zero, suc, ◌/◌, ◌%◌, ◌≡◌, refl, sym, ap, ◌∙◌, ◌⊎◌, inl, inr, ℤ, pos, minus_one, arith,
}
use core_map.Base.Effect.{State, ◌>>=◌}
use core_map.Base.Hoare.{Returns}
use core_map.Msr.{MsrDevice, read, uninitialised}
use core_map.Pmon.{Pmon, check_unique_ppin}

min-zero : (x : ℕ) → min x 0 ≡ 0
min-zero x = omega arith

min-one : (x : ℕ) → min (x % 2) 1 ≡ x % 2
min-one x = omega arith

digits-zero : (n a : ℕ) → digits (λ b. zero) min n a 0 ≡ 0
digits-zero zero a = refl
digits-zero (suc n) zero = refl
digits-zero (suc n) (suc a) = rw (digits-zero n (suc a / 2)) (rw (min-zero (suc a % 2)) refl)

-- Masking with 1 keeps the parity.
bit_and-one : (v : ℕ) → bit_and v 1 ≡ v % 2
bit_and-one zero = bit_and-bitwise 0 1
bit_and-one (suc v) =
    bit_and-bitwise (suc v) 1 ∙ rw (digits-zero v (suc v / 2)) (rw (min-one (suc v)) (omega arith))

parity : (v : ℕ) → (v % 2 ≡ 0) ⊎ (v % 2 ≡ 1)
parity v = ground arith

-- What the call did, if the control register was read as v and the number as id.
pub record CheckedPpin (p : Pmon) (v id : ℕ) (q : Pmon) (code : ℤ) : Type 0 where
  pub odd : v % 2 ≡ 1 → (code ≡ minus_one) × (q ≡ p)
  pub even : v % 2 ≡ 0 → (code ≡ pos 0) × (q ≡ record p { ppin = id })

module _ {W : Type 0} (d : MsrDevice W) (p : Pmon) (s : State W) where
  -- The control register as the program reads it; if the read leaves the buffer alone, what stood there.
  abbrev pub ctl_read : ℕ
  ctl_read = get_or (d.pread p.msr_h.fd 0x4E s.world).0.1 (d.indeterminate s.world)

  -- The number of the processor, read after that.
  abbrev pub id_read : ℕ
  id_read = get_or (d.pread p.msr_h.fd 0x4F (d.pread p.msr_h.fd 0x4E s.world).1).0.1 p.ppin

  -- For every device: if the control register reads as an odd number, the call returns -1 and the
  -- monitor is as it was; if it reads as an even one, whether or not bit 1 is set, the call returns
  -- 0 and the monitor's ppin is what the second register reads as.
  pub check_unique_ppin-CheckedPpin :
      Returns (λ got t. CheckedPpin p ctl_read id_read got.0 got.1) (check_unique_ppin d p s)
  unfolding check_unique_ppin read uninitialised ◌>>=◌
  check_unique_ppin-CheckedPpin = rw (bit_and-one ctl_read) (elim (parity ctl_read) [
    | inl e ↦ rw e (record { odd = λ f. absurd (omega arith); even = λ f. (refl, refl) })
    | inr e ↦ rw e (record { odd = λ f. (refl, refl); even = λ f. absurd (omega arith) })
  ])

-- Either way nothing but the ppin has changed.
pub CheckedPpin-same :
    (p q : Pmon) (v id : ℕ) (code : ℤ) → CheckedPpin p v id q code → q ≡ record p { ppin = q.ppin }
CheckedPpin-same p q v id code h = elim (parity v) [
  | inl e ↦
      (h.even e).1 ∙ ap (λ x. record p { ppin = x }) (sym (ap (λ (x : Pmon). x.ppin) (h.even e).1))
  | inr e ↦
      (h.odd e).1 ∙ ap (λ x. record p { ppin = x }) (sym (ap (λ (x : Pmon). x.ppin) (h.odd e).1))
]
