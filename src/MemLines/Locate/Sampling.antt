-- ===== src/MemLines/Locate/Sampling.antt =====
-- srcs/mem_lines.cpp, lines 132-158: what `find_local_lines` does to the buckets, for all counters.
use core_map.Base.{
  ℕ, suc, ◌≤◌, ◌<◌, ◌≡◌, refl, sym, ◌∙◌, List, length, get_elem?, some, arith, if◌then◌else◌,
  get_elem?-lt_some, ℤ, pos, minus_one, ◌↔◌, map, ◌==◌, Bool-cases, inl, inr,
}
use core_map.Base.Effect.{State, ◌>>=◌, ◌>>◌, pure, say, no_local_line}
use core_map.Base.Hoare.{Returns, Returns-bind, for_range-Returns}
use core_map.Pmon.Report.{CoreCounters}
use core_map.MemLines.Object.{MemLines}
use core_map.MemLines.Locate.{resize, Search, search_at, find_local_lines}
use core_map.MemLines.Locate.Buckets.{
  Buckets, total, Buckets-mono, total-resize, length-resize, Buckets-resize,
}
use core_map.MemLines.Locate.Rounds.{
  after_sample, hot_units, hot_units-none, Searching, Searching-note_hit,
}

-- The lines that have been found, all of them below `hi`, and their number.
pub record IsLocated (hi : ℕ) (ml : MemLines) : Type 0 where
  pub size : length ml.local_lines ≤ ml.num_physical_cores
  pub counted : total ml.local_lines ≡ ml.local_found_count
  pub bucketed : Buckets hi ml.local_lines

-- What one call of find_local_lines promises.
pub record Sampled (line : ℕ) (cs : List CoreCounters) (ml ml' : MemLines) (r : ℤ) : Type 0 where
  pub located : IsLocated (suc line) ml'
  pub code : (r ≡ pos 0) ↔ (hot_units ml.num_physical_cores cs ≡ 1)
  pub after :
      (k : ℕ) (c : CoreCounters) (b : List ℕ)
      → k < ml.num_physical_cores
      → get_elem? cs k ≡ some c
      → get_elem? (resize ml.num_physical_cores ml.local_lines) k ≡ some b
      → get_elem? ml'.local_lines k ≡ some (after_sample line c b)
  pub frame :
      ml' ≡ record ml { local_lines = ml'.local_lines; local_found_count = ml'.local_found_count }

module _ {W : Type 0} (ml : MemLines) (line : ℕ) (cs : List CoreCounters) (w : W) where
  -- The loop keeps `Searching`, and leaves the world alone.
  abbrev Loop : ℕ → Search → State W → Type 0
  Loop i st t =
      Searching ml.num_physical_cores line cs (resize ml.num_physical_cores ml.local_lines) i st
      × (t.world ≡ w)

  search_at-Loop :
      length cs ≡ ml.num_physical_cores
      → IsLocated line ml
      → (i : ℕ) (st : Search) (t : State W) → i < ml.num_physical_cores
      → Loop i st t
      → Returns (Loop (suc i)) (search_at line cs i st t)
  unfolding search_at ◌>>=◌
  search_at-Loop len loc i st t lt (s, e) =
      let (c, ec) = get_elem?-lt_some cs i (omega arith) in
      let (b, eb) = get_elem?-lt_some st.local_lines i (omega (arith, s.size)) in
      rw (ec, eb)
        (
          Searching-note_hit ml.num_physical_cores line cs
              (resize ml.num_physical_cores ml.local_lines)
              (Buckets-resize ml.num_physical_cores line ml.local_lines loc.bucketed) i c b st ec eb
              s,
          e,
        )

  -- The state in which the loop starts.
  abbrev first : Search
  first = record {
    local_lines = resize ml.num_physical_cores ml.local_lines;
    local_found_count = ml.local_found_count;
    found = 0;
  }

  first-Searching :
      IsLocated line ml
      → Searching ml.num_physical_cores line cs
          (resize ml.num_physical_cores ml.local_lines)
          0
          first
  first-Searching loc = record {
    size = length-resize ml.num_physical_cores ml.local_lines;
    counted = total-resize ml.num_physical_cores ml.local_lines loc.size ∙ loc.counted;
    bucketed =
        Buckets-mono line (suc line) (resize ml.num_physical_cores ml.local_lines)
          (Buckets-resize ml.num_physical_cores line ml.local_lines loc.bucketed) (omega arith);
    hits = sym (hot_units-none cs);
    done = λ k c b lt ec eb. absurd (omega arith);
    ahead = λ k h. refl;
  }

  abbrev result : Search → MemLines
  result st = record ml { local_lines = st.local_lines; local_found_count = st.local_found_count }

  result-Sampled :
      (st : Search) (r : ℤ) (t : State W)
      → Loop ml.num_physical_cores st t
      → (r ≡ pos 0) ↔ (st.found ≡ 1)
      → Sampled line cs ml (result st) r
  result-Sampled st r t (s, e) code = record {
    located = record { size = omega (arith, s.size); counted = s.counted; bucketed = s.bucketed };
    code = rw (← s.hits) code;
    after = s.done;
    frame = refl;
  }

  -- What comes back from find_local_lines, and that the world is as it was.
  abbrev pub Promise : MemLines × ℤ → State W → Type 0
  Promise got u = Sampled line cs ml got.0 got.1 × (u.world ≡ w)

  report-Sampled :
      (st : Search) (t : State W)
      → Loop ml.num_physical_cores st t
      → Returns Promise (
          (if st.found == 1 then pure (result st, pos 0) else (do
            say (no_local_line line (map (λ (c : CoreCounters). c.ctr1) cs))
            pure (result st, minus_one)))
            t)
  unfolding ◌>>=◌
  report-Sampled st t h = elim (Bool-cases (st.found == 1)) [
    | inl one ↦ rw one (result-Sampled st (pos 0) t h ((λ _. ground arith), (λ _. refl)), h.1)
    | inr more ↦ rw more (result-Sampled st minus_one t h ((λ e. cc), (λ e. ground arith)), h.1)
  ]

  -- For all counters, one for each unit, and an object whose buckets hold lines below the sampled
  -- one, each bucket at most 22 and in increasing order, and whose count is their total: every unit
  -- whose counter of lookups is above the threshold gets the line, unless its bucket is full; no
  -- other bucket changes; the count stays the total of the lines; the return code is 0 exactly when
  -- one unit was above the threshold; and the world is as it was.
  pub find_local_lines-Sampled :
      length cs ≡ ml.num_physical_cores
      → IsLocated line ml
      → (t : State W) → t.world ≡ w
      → Returns Promise (find_local_lines ml line cs t)
  unfolding find_local_lines
  find_local_lines-Sampled len loc t e =
      Returns-bind (Loop ml.num_physical_cores) _ _ _ t
        (for_range-Returns Loop (search_at line cs) ml.num_physical_cores 0 ml.num_physical_cores
          (omega arith) (λ k a s lt h. search_at-Loop len loc k a s lt h) first t
          (first-Searching loc, e))
        report-Sampled
