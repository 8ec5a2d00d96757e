-- ===== src/Types/Fields.antt =====
-- srcs/types.h: structures of bit fields. The fields of a 64-bit word lie one after the other from the lowest bit,
-- as the compilers of the supported machines place them.
use native.Mathlib.Nat.{
  mod-mod, mod-eq_of_lt, div-eq_of_lt, div-lt_iff_lt-mul, mul_comm, zero-add, add-mul-div_left,
  add-mul-mod_self_left, mod-add-div, one-le-pow,
}
use core_map.Base.{
  ℕ, zero, suc, ◌+◌, ◌*◌, ◌/◌, ◌%◌, ◌^◌, ◌<◌, ◌≡◌, refl, ap, ◌∙◌, List, [], ◌∷◌, arith,
}

-- A field of w bits holds the remainder of what is stored into it.
abbrev pub pack : List ℕ → List ℕ → ℕ
pack [] vs = 0
pack (w ∷ ws) [] = 0
pack (w ∷ ws) (v ∷ vs) = v % 2 ^ w + 2 ^ w * pack ws vs

abbrev pub unpack : List ℕ → ℕ → List ℕ
unpack [] x = []
unpack (w ∷ ws) x = x % 2 ^ w ∷ unpack ws (x / 2 ^ w)

-- The value at a place, or 0.
abbrev pub nth : List ℕ → ℕ → ℕ
nth [] i = 0
nth (x ∷ xs) zero = x
nth (x ∷ xs) (suc i) = nth xs i

-- Each value fits its field.
abbrev pub FitsFields : List ℕ → List ℕ → Type 0
FitsFields [] [] = Unit {0}
FitsFields [] (v ∷ vs) = ⊥
FitsFields (w ∷ ws) [] = ⊥
FitsFields (w ∷ ws) (v ∷ vs) = (v < 2 ^ w) × FitsFields ws vs

-- The number of words that a layout tells apart.
abbrev capacity : List ℕ → ℕ
capacity [] = 1
capacity (w ∷ ws) = 2 ^ w * capacity ws

pub unpack-pack : (ws vs : List ℕ) → FitsFields ws vs → unpack ws (pack ws vs) ≡ vs
unpack-pack [] [] h = refl
unpack-pack [] (v ∷ vs) h = absurd h
unpack-pack (w ∷ ws) [] h = absurd h
unpack-pack (w ∷ ws) (v ∷ vs) h =
    let pos : 0 < 2 ^ w = one-le-pow w 2 (omega arith) in
    let small : v % 2 ^ w ≡ v = mod-eq_of_lt h.0 in
    let low : (v + 2 ^ w * pack ws vs) % 2 ^ w ≡ v =
      add-mul-mod_self_left v (2 ^ w) (pack ws vs) ∙ small in
    let high : (v + 2 ^ w * pack ws vs) / 2 ^ w ≡ pack ws vs =
      add-mul-div_left v (pack ws vs) pos
      ∙ ap (λ (t : ℕ). t + pack ws vs) (div-eq_of_lt h.0)
      ∙ zero-add (pack ws vs) in
    rw (small, low, high, unpack-pack ws vs h.1) refl

pub pack-unpack : (ws : List ℕ) (x : ℕ) → x < capacity ws → pack ws (unpack ws x) ≡ x
pack-unpack [] x h = omega arith
pack-unpack (w ∷ ws) x h =
    let pos : 0 < 2 ^ w = one-le-pow w 2 (omega arith) in
    rw
      (
        mod-mod x (2 ^ w),
        pack-unpack ws (x / 2 ^ w)
            ((div-lt_iff_lt-mul pos).1 (rw (mul_comm (capacity ws) (2 ^ w)) h)),
      )
      (mod-add-div x (2 ^ w))
