-- ===== src/MemLines/Locate/Lines.antt =====
-- srcs/mem_lines.cpp, lines 161-173: reading the buckets back.
use core_map.Base.{
  ℕ, zero, suc, ◌<◌, ◌≡◌, refl, some, List, [], ◌∷◌, length, get_elem?, get_elem?-lt_some, arith,
}
use core_map.Base.Effect.{State}
use core_map.Base.Hoare.{Returns, Any, Returns-index}
use core_map.MemLines.Object.{MemLines, line_at}
use core_map.MemLines.Locate.{get_lines_for_core, get_a_line_for_core}
use core_map.MemLines.Locate.Buckets.{Climbs}
use core_map.MemLines.Locate.Full.{AllFull}

pub AllFull-get :
    (hi : ℕ) (xss : List (List ℕ)) (i : ℕ) {xs : List ℕ}
    → AllFull hi xss
    → get_elem? xss i ≡ some xs
    → (length xs ≡ 22) × Climbs 0 hi xs
AllFull-get hi [] i f e = cc
AllFull-get hi (xs ∷ xss) zero f e = ground arith
AllFull-get hi (xs ∷ xss) (suc i) f e = AllFull-get hi xss i f.2 e

Climbs-top : (lo hi : ℕ) (xs : List ℕ) → Climbs lo hi xs → lo < suc hi
Climbs-top lo hi [] c = omega arith
Climbs-top lo hi (x ∷ xs) c = omega (arith, Climbs-top (suc x) hi xs c.1)

Climbs-head : (hi : ℕ) (xs : List ℕ) {x : ℕ} → Climbs 0 hi xs → get_elem? xs 0 ≡ some x → x < hi
Climbs-head hi [] c e = cc
Climbs-head hi (y ∷ ys) c e = ground (arith, Climbs-top (suc y) hi ys c.1)

module _ {W : Type 0} (ml : MemLines) (i : ℕ) where
  pub get_lines_for_core-Returns :
      (s : State W) → i < length ml.local_lines → Returns Any (get_lines_for_core ml i s)
  unfolding get_lines_for_core
  get_lines_for_core-Returns s h =
      let (b, eb) = get_elem?-lt_some ml.local_lines i h in Returns-index Any _ _ s eb tt

  -- The address of the first line in the core's bucket, which is a line below `hi`.
  abbrev pub FirstLine : ℕ → ℕ → State W → Type 0
  FirstLine hi addr t =
      (bucket : List ℕ) × (line : ℕ) × (get_elem? ml.local_lines i ≡ some bucket)
      × (get_elem? bucket 0 ≡ some line)
      × (line < hi)
      × (addr ≡ line_at ml line)

  -- When every bucket has 22 increasing lines below a bound, and there is a bucket for the core:
  -- the call returns the address of the first line of that core's own bucket, which is below that
  -- bound.
  pub get_a_line_for_core-Returns :
      (hi : ℕ) (s : State W)
      → AllFull hi ml.local_lines
      → i < length ml.local_lines
      → Returns (FirstLine hi) (get_a_line_for_core ml i s)
  unfolding get_a_line_for_core
  get_a_line_for_core-Returns hi s f h =
      let (b, eb) = get_elem?-lt_some ml.local_lines i h in
      let (size, climbs) = AllFull-get hi ml.local_lines i f eb in
      let (line, el) = get_elem?-lt_some b 0 (omega arith) in
      Returns-index (FirstLine hi) _ _ s eb
        (Returns-index (FirstLine hi) _ _ s el (b, line, eb, el, Climbs-head hi b climbs el, refl))

  -- The line that is read, in a bucket that is there.
  pub get_a_line_for_core-there :
      (bucket : List ℕ) (line : ℕ) (s : State W)
      → get_elem? ml.local_lines i ≡ some bucket
      → get_elem? bucket 0 ≡ some line
      → Returns (λ addr t. (addr ≡ line_at ml line) × (t ≡ s)) (get_a_line_for_core ml i s)
  unfolding get_a_line_for_core
  get_a_line_for_core-there bucket line s eb el =
      let Goal = λ (addr : ℕ) (t : State W). (addr ≡ line_at ml line) × (t ≡ s) in
      Returns-index Goal _ _ s eb (Returns-index Goal _ _ s el (refl, refl))
