-- ===== src/Types/Or.antt =====
-- `|` of the native numbers: digit by digit, and on numbers whose digits do not meet.
use Prim.Native.Nat.{bit_or, bit_or-bitwise, digits, max}
use native.Mathlib.Nat.{pow-suc}
use core_map.Base.{ℕ, zero, suc, ◌+◌, ◌*◌, ◌/◌, ◌%◌, ◌^◌, ◌≤◌, ◌<◌, ◌≡◌, refl, ap, ◌∙◌, arith}

abbrev or_digits : ℕ → ℕ → ℕ → ℕ
or_digits count a b = digits (λ b. b) max count a b

-- Any count that is enough gives the same digits.
or_digits-enough : (n m a b : ℕ) → a ≤ n → a ≤ m → or_digits n a b ≡ or_digits m a b
or_digits-enough zero zero a b p q = refl
or_digits-enough zero (suc m) zero b p q = refl
or_digits-enough (suc n) zero zero b p q = refl
or_digits-enough (suc n) (suc m) zero b p q = refl
or_digits-enough zero (suc m) (suc a) b p q = absurd (omega arith)
or_digits-enough (suc n) zero (suc a) b p q = absurd (omega arith)
or_digits-enough (suc n) (suc m) (suc a) b p q =
    omega (arith, or_digits-enough n m (suc a / 2) (b / 2) (omega arith) (omega arith))

zero-bit_or : (b : ℕ) → bit_or 0 b ≡ b
zero-bit_or b = bit_or-bitwise 0 b

bit_or-digit : (a b : ℕ) → bit_or a b ≡ bit_or (a / 2) (b / 2) * 2 + max (a % 2) (b % 2)
bit_or-digit zero b = omega (arith, zero-bit_or b, zero-bit_or (b / 2))
bit_or-digit (suc a) b = omega (
  arith,
  bit_or-bitwise (suc a) b,
  bit_or-bitwise (suc a / 2) (b / 2),
  or_digits-enough a (suc a / 2) (suc a / 2) (b / 2) (omega arith) (omega arith),
)

twice-pow : (q k : ℕ) → q * 2 ^ suc k ≡ 2 * (q * 2 ^ k)
twice-pow q k = omega (arith, ap (λ (p : ℕ). q * p) (pow-suc 2 k))

-- The k lowest digits, and those above them, are joined apart.
pub bit_or-split :
    (k q r s t : ℕ)
    → r < 2 ^ k
    → t < 2 ^ k
    → bit_or (q * 2 ^ k + r) (s * 2 ^ k + t) ≡ bit_or q s * 2 ^ k + bit_or r t
bit_or-split zero q r s t hr ht =
    let er : r ≡ 0 = omega arith in
    let et : t ≡ 0 = omega arith in
    let eq : q * 1 + 0 ≡ q = omega arith in
    let es : s * 1 + 0 ≡ s = omega arith in rw (er, et, eq, es) (omega (arith, zero-bit_or 0))
bit_or-split (suc k) q r s t hr ht =
    let a : (q * 2 ^ suc k + r) / 2 ≡ q * 2 ^ k + r / 2 = omega (arith, twice-pow q k) in
    let b : (s * 2 ^ suc k + t) / 2 ≡ s * 2 ^ k + t / 2 = omega (arith, twice-pow s k) in
    let a' : (q * 2 ^ suc k + r) % 2 ≡ r % 2 = omega (arith, twice-pow q k) in
    let b' : (s * 2 ^ suc k + t) % 2 ≡ t % 2 = omega (arith, twice-pow s k) in
    let deep =
      bit_or-split k q (r / 2) s (t / 2) (omega (arith, pow-suc 2 k))
        (omega (arith, pow-suc 2 k)) in
    bit_or-digit (q * 2 ^ suc k + r) (s * 2 ^ suc k + t)
    ∙ rw (a, b, a', b', deep) (omega (arith, bit_or-digit r t, twice-pow (bit_or q s) k))

or_digits-zero : (n a : ℕ) → a ≤ n → or_digits n a 0 ≡ a
or_digits-zero zero zero h = refl
or_digits-zero zero (suc a) h = absurd (omega arith)
or_digits-zero (suc n) zero h = refl
or_digits-zero (suc n) (suc a) h = omega (arith, or_digits-zero n (suc a / 2) (omega arith))

pub bit_or-zero : (a : ℕ) → bit_or a 0 ≡ a
bit_or-zero a = bit_or-bitwise a 0 ∙ or_digits-zero a a (omega arith)

-- A number below 2 ^ k is put below a multiple of it.
pub bit_or-below : (k q t : ℕ) → t < 2 ^ k → bit_or (q * 2 ^ k) t ≡ q * 2 ^ k + t
bit_or-below k q t h =
    let left : q * 2 ^ k + 0 ≡ q * 2 ^ k = omega arith in
    let right : 0 * 2 ^ k + t ≡ t = omega arith in
    rw (left, right, bit_or-zero q, zero-bit_or t) at (bit_or-split k q 0 0 t (omega arith) h)
