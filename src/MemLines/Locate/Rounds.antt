-- ===== src/MemLines/Locate/Rounds.antt =====
-- srcs/mem_lines.cpp, lines 137-148: one round of the loop of `find_local_lines`.
use core_map.Base.{
  ℕ, zero, suc, ◌+◌, ◌≤◌, ◌<◌, ◌≡◌, refl, sym, ◌∙◌, ◌&&◌, List, [], ◌∷◌, ◌++◌, length, get_elem?,
  set, some, arith, length-append, ltb, if◌then◌else◌, set-get_elem?, length-set,
  get_elem?-set_self, get_elem?-set_ne, get_elem?-some_lt,
}
use native.Mathlib.Decide.{ℕ_discrete}
use core_map.Pmon.Report.{CoreCounters}
use core_map.MemLines.Locate.{Search, note_hit}
use core_map.MemLines.Locate.Buckets.{
  Bucket, Buckets, total, Climbs-append, Climbs-mono, Buckets-get, Buckets-set, total-set,
}

-- What find_local_lines makes of the bucket of a unit.
unfoldable pub after_sample : ℕ → CoreCounters → List ℕ → List ℕ
after_sample line c bucket =
    if ltb 2000 c.ctr1 && ltb (length bucket) 22 then bucket ++ line ∷ [] else bucket

after_sample-Bucket :
    (line : ℕ) (c : CoreCounters) (bucket : List ℕ)
    → Bucket line bucket
    → Bucket (suc line) (after_sample line c bucket)
unfolding after_sample
after_sample-Bucket line c bucket b = ground (
  arith,
  length-append bucket (line ∷ []),
  Climbs-append 0 line line bucket b.1,
  Climbs-mono 0 line (suc line) bucket b.1,
)

-- The units whose counter of lookups is above the threshold, from the first n.
pub hot_units : ℕ → List CoreCounters → ℕ
hot_units zero cs = 0
hot_units (suc n) [] = 0
hot_units (suc n) (c ∷ cs) = (if ltb 2000 c.ctr1 then 1 else 0) + hot_units n cs

pub hot_units-none : (cs : List CoreCounters) → hot_units 0 cs ≡ 0
unfolding hot_units
hot_units-none cs = refl

hot_units-suc :
    (n : ℕ) (cs : List CoreCounters) (c : CoreCounters)
    → get_elem? cs n ≡ some c
    → hot_units (suc n) cs ≡ hot_units n cs + (if ltb 2000 c.ctr1 then 1 else 0)
unfolding hot_units
hot_units-suc n [] c e = cc
hot_units-suc zero (x ∷ cs) c e = ground arith
hot_units-suc (suc n) (x ∷ cs) c e = ground (arith, hot_units-suc n cs c e)

-- The state of the loop of find_local_lines before it looks at unit i: `old` are the buckets that it
-- started from.
pub record Searching (n line : ℕ) (cs : List CoreCounters) (old : List (List ℕ)) (i : ℕ)
    (st : Search) : Type 0 where
  pub size : length st.local_lines ≡ n
  pub counted : total st.local_lines ≡ st.local_found_count
  pub bucketed : Buckets (suc line) st.local_lines
  pub hits : st.found ≡ hot_units i cs
  pub done :
      (k : ℕ) (c : CoreCounters) (b : List ℕ)
      → k < i
      → get_elem? cs k ≡ some c
      → get_elem? old k ≡ some b
      → get_elem? st.local_lines k ≡ some (after_sample line c b)
  pub ahead : (k : ℕ) → i ≤ k → get_elem? st.local_lines k ≡ get_elem? old k

-- One round, on the bucket b of unit i.
note_hit-lines :
    (line i : ℕ) (c : CoreCounters) (b : List ℕ) (st : Search)
    → get_elem? st.local_lines i ≡ some b
    → (note_hit line i c b st).local_lines ≡ set st.local_lines i (after_sample line c b)
unfolding note_hit after_sample
note_hit-lines line i c b st e = ground (arith, set-get_elem? st.local_lines i e)

note_hit-count :
    (line i : ℕ) (c : CoreCounters) (b : List ℕ) (st : Search)
    → (note_hit line i c b st).local_found_count + length b
      ≡ st.local_found_count + length (after_sample line c b)
unfolding note_hit after_sample
note_hit-count line i c b st = ground (arith, length-append b (line ∷ []))

note_hit-found :
    (line i : ℕ) (c : CoreCounters) (b : List ℕ) (st : Search)
    → (note_hit line i c b st).found ≡ st.found + (if ltb 2000 c.ctr1 then 1 else 0)
unfolding note_hit
note_hit-found line i c b st = ground arith

module _ (n line : ℕ) (cs : List CoreCounters) (old : List (List ℕ))
    (fresh : Buckets line old) where
  pub Searching-note_hit :
      (i : ℕ) (c : CoreCounters) (b : List ℕ) (st : Search)
      → get_elem? cs i ≡ some c
      → get_elem? st.local_lines i ≡ some b
      → Searching n line cs old i st
      → Searching n line cs old (suc i) (note_hit line i c b st)
  Searching-note_hit i c b st ec eb s = record {
    size = rw lines (length-set st.local_lines i new ∙ s.size);
    counted = rw lines (
        omega
          (arith, total-set st.local_lines i b new eb, note_hit-count line i c b st, s.counted));
    bucketed = rw lines (
        Buckets-set (suc line) st.local_lines i new s.bucketed (
          after_sample-Bucket line c b
            (Buckets-get line old i fresh (sym (s.ahead i (omega arith)) ∙ eb))));
    hits = omega (arith, note_hit-found line i c b st, hot_units-suc i cs c ec, s.hits);
    done = λ k x y lt ex ey. rw lines (done_at k x y lt ex ey);
    ahead = λ k h.
        rw lines
          (get_elem?-set_ne st.local_lines i k new (λ e. omega arith) ∙ s.ahead k (omega arith));
  }
    where
      new : List ℕ
      new = after_sample line c b

      lines : (note_hit line i c b st).local_lines ≡ set st.local_lines i new
      lines = note_hit-lines line i c b st eb

      done_at :
          (k : ℕ) (x : CoreCounters) (y : List ℕ)
          → k < suc i
          → get_elem? cs k ≡ some x
          → get_elem? old k ≡ some y
          → get_elem? (set st.local_lines i new) k ≡ some (after_sample line x y)
      done_at k x y lt ex ey = elim (ℕ_discrete k i) [
        | no ne ↦
            get_elem?-set_ne st.local_lines i k new (λ e. ne (sym e))
            ∙ s.done k x y (omega arith) ex ey
        | yes eq ↦ cc (
          get_elem?-set_self st.local_lines i new (get_elem?-some_lt st.local_lines i eb),
          s.ahead i (omega arith),
        )
      ]
