-- ===== src/MemLines/Locate/Buckets.antt =====
-- The buckets of lines: what is true of them while lines are being found.
use core_map.Base.{
  ℕ, zero, suc, ◌+◌, ◌≤◌, ◌≡◌, List, [], ◌∷◌, ◌++◌, length, get_elem?, set, some, arith,
}
use core_map.MemLines.Locate.{resize}

-- The list climbs from `lo`, and stays below `hi`.
abbrev pub Climbs : ℕ → ℕ → List ℕ → Type 0
Climbs lo hi [] = lo ≤ hi
Climbs lo hi (x ∷ xs) = (lo ≤ x) × Climbs (suc x) hi xs

pub Climbs-append :
    (lo hi line : ℕ) (xs : List ℕ)
    → Climbs lo hi xs
    → hi ≤ line
    → Climbs lo (suc line) (xs ++ line ∷ [])
Climbs-append lo hi line [] c h = (omega arith, omega arith)
Climbs-append lo hi line (x ∷ xs) c h = (c.0, Climbs-append (suc x) hi line xs c.1 h)

pub Climbs-mono : (lo hi hi' : ℕ) (xs : List ℕ) → Climbs lo hi xs → hi ≤ hi' → Climbs lo hi' xs
Climbs-mono lo hi hi' [] c h = omega arith
Climbs-mono lo hi hi' (x ∷ xs) c h = (c.0, Climbs-mono (suc x) hi hi' xs c.1 h)

-- A bucket holds at most 22 lines, each once, all of them below `hi`.
abbrev pub Bucket : ℕ → List ℕ → Type 0
Bucket hi xs = (length xs ≤ 22) × Climbs 0 hi xs

abbrev pub Buckets : ℕ → List (List ℕ) → Type 0
Buckets hi [] = Unit {0}
Buckets hi (xs ∷ xss) = Bucket hi xs × Buckets hi xss

abbrev pub total : List (List ℕ) → ℕ
total [] = 0
total (xs ∷ xss) = length xs + total xss

pub Buckets-mono : (hi hi' : ℕ) (xss : List (List ℕ)) → Buckets hi xss → hi ≤ hi' → Buckets hi' xss
Buckets-mono hi hi' [] b h = tt
Buckets-mono hi hi' (xs ∷ xss) b h =
    ((b.0.0, Climbs-mono 0 hi hi' xs b.0.1 h), Buckets-mono hi hi' xss b.1 h)

pub Buckets-get :
    (hi : ℕ) (xss : List (List ℕ)) (i : ℕ) {xs : List ℕ}
    → Buckets hi xss
    → get_elem? xss i ≡ some xs
    → Bucket hi xs
Buckets-get hi [] i b e = cc
Buckets-get hi (xs ∷ xss) zero b e = ground arith
Buckets-get hi (xs ∷ xss) (suc i) b e = Buckets-get hi xss i b.1 e

pub Buckets-set :
    (hi : ℕ) (xss : List (List ℕ)) (i : ℕ) (xs : List ℕ)
    → Buckets hi xss
    → Bucket hi xs
    → Buckets hi (set xss i xs)
Buckets-set hi [] i xs b h = tt
Buckets-set hi (ys ∷ xss) zero xs b h = (h, b.1)
Buckets-set hi (ys ∷ xss) (suc i) xs b h = (b.0, Buckets-set hi xss i xs b.1 h)

pub total-set :
    (xss : List (List ℕ)) (i : ℕ) (xs ys : List ℕ)
    → get_elem? xss i ≡ some xs
    → total (set xss i ys) + length xs ≡ total xss + length ys
total-set [] i xs ys e = cc
total-set (x ∷ xss) zero xs ys e = ground arith
total-set (x ∷ xss) (suc i) xs ys e = omega (arith, total-set xss i xs ys e)

pub total-resize : (n : ℕ) (xss : List (List ℕ)) → length xss ≤ n → total (resize n xss) ≡ total xss
total-resize zero [] h = omega arith
total-resize zero (xs ∷ xss) h = absurd (omega arith)
total-resize (suc n) [] h = omega (arith, total-resize n [] (omega arith))
total-resize (suc n) (xs ∷ xss) h = omega (arith, total-resize n xss (omega arith))

pub length-resize : (n : ℕ) (xss : List (List ℕ)) → length (resize n xss) ≡ n
length-resize zero xss = omega arith
length-resize (suc n) [] = omega (arith, length-resize n [])
length-resize (suc n) (xs ∷ xss) = omega (arith, length-resize n xss)

pub Buckets-resize : (n hi : ℕ) (xss : List (List ℕ)) → Buckets hi xss → Buckets hi (resize n xss)
Buckets-resize zero hi xss b = tt
Buckets-resize (suc n) hi [] b = ((omega arith, omega arith), Buckets-resize n hi [] b)
Buckets-resize (suc n) hi (xs ∷ xss) b = (b.0, Buckets-resize n hi xss b.1)
