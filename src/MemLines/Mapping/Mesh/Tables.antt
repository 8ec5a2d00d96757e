-- ===== src/MemLines/Mapping/Mesh/Tables.antt =====
-- srcs/mem_lines.cpp, lines 181-201: what the two tables hold when the loops have come to a pair of ids.
use core_map.Base.{
  ℕ, suc, ◌<◌, ◌≡◌, ◌≢◌, sym, ap, ◌∙◌, Bool, true, false, ◌||◌, ◌&&◌, ltb, ◌==◌, if◌then◌else◌, pos,
  minus_one, some, length, get_elem?, set, get_elem?-set_self, get_elem?-set_ne, length-set, arith,
}
use native.Mathlib.Decide.{ℕ_discrete}
use core_map.MemLines.Object.{MemLines}
use core_map.MemLines.Mapping.Pairing.{paired_with, SameButMaps}

-- The loops come to (k, q) before they come to (ci, pi).
abbrev pub before : ℕ → ℕ → ℕ → ℕ → Bool
before ci pi k q = ltb k ci || ((k == ci) && ltb q pi)

-- OS core k is at CHA `seat k`. The cores whose CHA the loops have come to are paired with it, and nothing else is.
pub record SoFar (seat : ℕ → ℕ) (start : MemLines) (ci pi : ℕ) (ml : MemLines) : Type 0 where
  pub same : SameButMaps start ml
  pub cha_size : length ml.core_map_cha_to_os ≡ start.num_physical_cores
  pub os_size : length ml.core_map_os_to_cha ≡ start.num_cores
  pub os :
      (k : ℕ)
      → k < start.num_cores
      → get_elem? ml.core_map_os_to_cha k
        ≡ some (if before ci pi k (seat k) then pos (seat k) else minus_one)
  pub taken :
      (k : ℕ)
      → k < start.num_cores
      → before ci pi k (seat k) ≡ true
      → get_elem? ml.core_map_cha_to_os (seat k) ≡ some (pos k)
  pub free :
      (q : ℕ)
      → q < start.num_physical_cores
      → ((k : ℕ) → k < start.num_cores → seat k ≡ q → before ci pi k q ≡ false)
      → get_elem? ml.core_map_cha_to_os q ≡ some minus_one

before-suc : (ci pi k q : ℕ) → (k ≡ ci → q ≢ pi) → before ci (suc pi) k q ≡ before ci pi k q
before-suc ci pi k q h = elim (ℕ_discrete k ci) [
  | yes same ↦ let h' : q ≢ pi = h same in ground arith
  | no other ↦ ground arith
]

before_later : (ci pi k q : ℕ) → before ci (suc pi) k q ≡ false → before ci pi k q ≡ false
before_later ci pi k q h = ground arith

module _ (seat : ℕ → ℕ) (start : MemLines) (ci pi : ℕ) (ml : MemLines)
    (so_far : SoFar seat start ci pi ml) where
  open so_far use {same, cha_size, os_size, os, taken, free}

  pub SoFar-away : seat ci ≢ pi → SoFar seat start ci (suc pi) ml
  SoFar-away away = record {
    same = same;
    cha_size = cha_size;
    os_size = os_size;
    os = λ k lt. rw (kept k) (os k lt);
    taken = λ k lt b. taken k lt (sym (kept k) ∙ b);
    free = λ q lt h. free q lt (λ k lk e. before_later ci pi k q (h k lk e));
  }
    where
      kept : (k : ℕ) → before ci (suc pi) k (seat k) ≡ before ci pi k (seat k)
      kept k = before-suc ci pi k (seat k) (λ e. rw e away)

  module _ (inj : (i j : ℕ) → i < start.num_cores → j < start.num_cores → seat i ≡ seat j → i ≡ j)
      (hc : ci < start.num_cores) (hp : pi < start.num_physical_cores) (here : seat ci ≡ pi) where
    pub SoFar-free : get_elem? ml.core_map_cha_to_os pi ≡ some minus_one
    SoFar-free =
        free pi hp (λ k lk e. let k_is : k ≡ ci = inj k ci lk hc (e ∙ sym here) in ground arith)

    pub SoFar-here : SoFar seat start ci (suc pi) (paired_with ml ci pi)
    SoFar-here = record {
      same = ap (λ (x : MemLines). paired_with x ci pi) same;
      cha_size = length-set ml.core_map_cha_to_os pi (pos ci) ∙ cha_size;
      os_size = length-set ml.core_map_os_to_cha ci (pos pi) ∙ os_size;
      os = os';
      taken = taken';
      free = free';
    }
      where
        kept : (k : ℕ) → k ≢ ci → before ci (suc pi) k (seat k) ≡ before ci pi k (seat k)
        kept k other = before-suc ci pi k (seat k) (λ e. absurd (other e))

        now : before ci (suc pi) ci (seat ci) ≡ true
        now = rw here (ground arith)

        os' :
            (k : ℕ)
            → k < start.num_cores
            → get_elem? (set ml.core_map_os_to_cha ci (pos pi)) k
              ≡ some (if before ci (suc pi) k (seat k) then pos (seat k) else minus_one)
        os' k lt = elim (ℕ_discrete k ci) [
          | yes e ↦
              rw (e, now, here)
                (get_elem?-set_self ml.core_map_os_to_cha ci (pos pi) (omega (arith, os_size)))
          | no other ↦
              rw (kept k other) (
                get_elem?-set_ne ml.core_map_os_to_cha ci k (pos pi) (λ q. other (sym q)) ∙ os k lt)
        ]

        taken' :
            (k : ℕ)
            → k < start.num_cores
            → before ci (suc pi) k (seat k) ≡ true
            → get_elem? (set ml.core_map_cha_to_os pi (pos ci)) (seat k) ≡ some (pos k)
        taken' k lt b = elim (ℕ_discrete k ci) [
          | yes e ↦
              rw (e, here)
                (get_elem?-set_self ml.core_map_cha_to_os pi (pos ci) (omega (arith, cha_size)))
          | no other ↦
              get_elem?-set_ne ml.core_map_cha_to_os pi (seat k) (pos ci)
                (λ q. other (inj k ci lt hc (sym q ∙ sym here)))
              ∙ taken k lt (sym (kept k other) ∙ b)
        ]

        free' :
            (q : ℕ)
            → q < start.num_physical_cores
            → ((k : ℕ) → k < start.num_cores → seat k ≡ q → before ci (suc pi) k q ≡ false)
            → get_elem? (set ml.core_map_cha_to_os pi (pos ci)) q ≡ some minus_one
        free' q lt h = elim (ℕ_discrete pi q) [
          | yes e ↦ let b = h ci hc (here ∙ e) in absurd (ground (arith, b))
          | no other ↦
              get_elem?-set_ne ml.core_map_cha_to_os pi q (pos ci) other
              ∙ free q lt (λ k lk e. before_later ci pi k q (h k lk e))
        ]
