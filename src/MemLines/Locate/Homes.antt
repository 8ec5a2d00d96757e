-- ===== src/MemLines/Locate/Homes.antt =====
-- srcs/mem_lines.cpp, lines 132-158: the first lines of each unit, as a list of their own.
use core_map.Base.{
  ℕ, zero, suc, ◌+◌, ◌*◌, ◌≤◌, ◌<◌, ◌≡◌, refl, sym, ap, ◌∙◌, Bool, true, false, List, [], ◌∷◌, ◌++◌,
  length, some, get_elem?, take, ltb, ◌&&◌, ◌==◌, if◌then◌else◌, Bool-cases, inl, inr,
  length-append, arith,
}
use core_map.Tasks.Stores.{All}
use core_map.Pmon.Report.{CoreCounters}
use core_map.MemLines.Locate.{resize}
use core_map.MemLines.Locate.Buckets.{total}
use core_map.MemLines.Locate.Rounds.{after_sample}

-- The lines below n that are sampled and at home at unit k, in increasing order.
unfoldable pub lines_of : (ℕ → Bool) → (ℕ → ℕ) → ℕ → ℕ → List ℕ
lines_of sampled home k zero = []
lines_of sampled home k (suc n) =
    let rest = lines_of sampled home k n in
    if sampled n && (home n == k) then rest ++ n ∷ [] else rest

take-append_last :
    (m line : ℕ) (xs : List ℕ)
    → take m (xs ++ line ∷ [])
      ≡ (if ltb (length (take m xs)) m then take m xs ++ line ∷ [] else take m xs)
take-append_last zero line xs = refl
take-append_last (suc m) line [] = let z : ltb 0 (suc m) ≡ true = ground arith in rw z (one m)
  where
    one : (m : ℕ) → line ∷ take m [] ≡ line ∷ []
    one zero = refl
    one (suc m) = refl
take-append_last (suc m) line (x ∷ xs) = ground (arith, take-append_last m line xs)

length-take-le : (m : ℕ) (xs : List ℕ) → length (take m xs) ≤ m
length-take-le zero xs = omega arith
length-take-le (suc m) [] = omega arith
length-take-le (suc m) (x ∷ xs) = omega (arith, length-take-le m xs)

pub length-take-full : (m : ℕ) (xs : List ℕ) → m ≤ length xs → length (take m xs) ≡ m
length-take-full zero xs h = refl
length-take-full (suc m) [] h = absurd (omega arith)
length-take-full (suc m) (x ∷ xs) h = omega (arith, length-take-full m xs (omega arith))

module _ (sampled : ℕ → Bool) (home : ℕ → ℕ) (k : ℕ) where
  pub lines_of-zero : lines_of sampled home k 0 ≡ []
  unfolding lines_of
  lines_of-zero = refl

  pub lines_of-skip :
      (n : ℕ) → sampled n ≡ false → lines_of sampled home k (suc n) ≡ lines_of sampled home k n
  unfolding lines_of
  lines_of-skip n e = rw e refl

  -- What a sample does to the bucket of a unit, if it is above the threshold as home tells.
  pub after_sample-take :
      (n : ℕ) (c : CoreCounters)
      → sampled n ≡ true
      → ltb 2000 c.ctr1 ≡ (home n == k)
      → after_sample n c (take 22 (lines_of sampled home k n))
        ≡ take 22 (lines_of sampled home k (suc n))
  unfolding lines_of after_sample
  after_sample-take n c e hot = elim (Bool-cases (home n == k)) [
    | inl here ↦ rw (hot, e, here) (sym (take-append_last 22 n (lines_of sampled home k n)))
    | inr away ↦ rw (hot, e, away) refl
  ]

  -- A full bucket stays as it is.
  take-suc :
      (n : ℕ)
      → length (take 22 (lines_of sampled home k n)) ≡ 22
      → take 22 (lines_of sampled home k (suc n)) ≡ take 22 (lines_of sampled home k n)
  unfolding lines_of
  take-suc n full = elim (Bool-cases (sampled n && (home n == k))) [
    | inl add ↦
        let stop : ltb (length (take 22 (lines_of sampled home k n))) 22 ≡ false = rw full refl in
        rw add (take-append_last 22 n (lines_of sampled home k n) ∙ step stop)
    | inr keep ↦ rw keep refl
  ]
    where
      step :
          ltb (length (take 22 (lines_of sampled home k n))) 22 ≡ false
          → (if ltb (length (take 22 (lines_of sampled home k n))) 22
              then take 22 (lines_of sampled home k n) ++ n ∷ []
              else take 22 (lines_of sampled home k n))
            ≡ take 22 (lines_of sampled home k n)
      step e = rw e refl

  pub take-later :
      (d n : ℕ)
      → length (take 22 (lines_of sampled home k n)) ≡ 22
      → take 22 (lines_of sampled home k (d + n)) ≡ take 22 (lines_of sampled home k n)
  take-later zero n full = let e : 0 + n ≡ n = omega arith in rw e refl
  take-later (suc d) n full =
      let e : suc d + n ≡ suc (d + n) = omega arith in
      let before = take-later d n full in rw e (take-suc (d + n) (ap length before ∙ full) ∙ before)

  length-lines_of-suc :
      (n : ℕ) → length (lines_of sampled home k n) ≤ length (lines_of sampled home k (suc n))
  unfolding lines_of
  length-lines_of-suc n = elim (Bool-cases (sampled n && (home n == k))) [
    | inl add ↦ rw add (omega (arith, length-append (lines_of sampled home k n) (n ∷ [])))
    | inr keep ↦ rw keep (omega arith)
  ]

  pub length-lines_of :
      (d n : ℕ) → length (lines_of sampled home k n) ≤ length (lines_of sampled home k (d + n))
  length-lines_of zero n = let e : 0 + n ≡ n = omega arith in rw e (omega arith)
  length-lines_of (suc d) n =
      let e : suc d + n ≡ suc (d + n) = omega arith in
      rw e (omega (arith, length-lines_of d n, length-lines_of-suc (d + n)))

  All-append :
      (ok : ℕ → Type 0) (ls : List ℕ) (line : ℕ) → All ok ls → ok line → All ok (ls ++ line ∷ [])
  All-append ok [] line h g = (g, tt)
  All-append ok (l ∷ ls) line h g = (h.0, All-append ok ls line h.1 g)

  All-take : (ok : ℕ → Type 0) (m : ℕ) (ls : List ℕ) → All ok ls → All ok (take m ls)
  All-take ok zero ls h = tt
  All-take ok (suc m) [] h = tt
  All-take ok (suc m) (l ∷ ls) h = (h.0, All-take ok m ls h.1)

  All-lines_of : (n : ℕ) → All (λ line. home line ≡ k) (lines_of sampled home k n)
  unfolding lines_of
  All-lines_of zero = tt
  All-lines_of (suc n) = elim (Bool-cases (sampled n && (home n == k))) [
    | inl add ↦ rw add (
        All-append (λ line. home line ≡ k) (lines_of sampled home k n) n (All-lines_of n)
          (ground arith))
    | inr keep ↦ rw keep (All-lines_of n)
  ]

  pub All-take-lines_of :
      (n : ℕ) → All (λ line. home line ≡ k) (take 22 (lines_of sampled home k n))
  All-take-lines_of n =
      All-take (λ line. home line ≡ k) 22 (lines_of sampled home k n) (All-lines_of n)

pub resize-get :
    (n : ℕ) (xss : List (List ℕ)) (k : ℕ) {xs : List ℕ}
    → k < n
    → get_elem? xss k ≡ some xs
    → get_elem? (resize n xss) k ≡ some xs
resize-get zero xss k lt e = absurd (omega arith)
resize-get (suc n) [] k lt e = cc
resize-get (suc n) (x ∷ xss) zero lt e = e
resize-get (suc n) (x ∷ xss) (suc k) lt e = resize-get n xss k (omega arith) e

pub resize-none : (n k : ℕ) → k < n → get_elem? (resize n []) k ≡ some []
resize-none zero k lt = absurd (omega arith)
resize-none (suc n) zero lt = refl
resize-none (suc n) (suc k) lt = resize-none n k (omega arith)

pub resize-same : (n : ℕ) (xss : List (List ℕ)) → length xss ≡ n → resize n xss ≡ xss
resize-same zero [] e = refl
resize-same zero (x ∷ xss) e = absurd (omega arith)
resize-same (suc n) [] e = absurd (omega arith)
resize-same (suc n) (x ∷ xss) e =
    ap (λ (ys : List (List ℕ)). x ∷ ys) (resize-same n xss (omega arith))

-- Buckets of 22 lines each have that many in all.
pub total-full :
    (xss : List (List ℕ))
    → ((k : ℕ) → k < length xss → (xs : List ℕ) × (get_elem? xss k ≡ some xs) × (length xs ≡ 22))
    → total xss ≡ length xss * 22
total-full [] h = refl
total-full (x ∷ xss) h =
    let (xs, e, len) = h 0 (omega arith) in
    let first : length x ≡ 22 = ground (arith, len) in
    omega (arith, first, total-full xss (λ k lt. h (suc k) (omega arith)))
