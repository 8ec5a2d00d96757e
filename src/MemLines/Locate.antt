-- ===== src/MemLines/Locate.antt =====
-- srcs/mem_lines.cpp, lines 95-173: `initialize_local_lines` and `find_local_lines`.
pub mod Buckets
pub mod Rounds
pub mod Sampling
pub mod Full
pub mod Lines
pub mod Homes
pub mod AtHome
pub mod Enough
use core_map.Base.{
  ℕ, zero, suc, ◌+◌, ◌*◌, ℤ, pos, minus_one, List, [], ◌∷◌, ◌++◌, map, length, get_elem?, set, ltb,
  leb, ◌==◌, if◌then◌else◌,
}
use core_map.Base.Effect.{
  int_sum, M, ◌>>=◌, ◌>>◌, pure, no_fuel, at_index, say, for_range, no_local_line, not_enough_lines,
}
use core_map.Pmon.{Pmon, freeze, unfreeze, set_llc_pmon, read_counters}
use core_map.Pmon.Report.{CoreCounters}
use core_map.Tasks.{read_and_write}
use core_map.MemLines.Address.{get_l2_index, get_physical_address}
use core_map.MemLines.Object.{
  Machine, MemLines, num_lines, line_size, lines_to_find_per_core, line_at,
}

num_rw_to_locate_line : ℕ
num_rw_to_locate_line = 100000

abbrev llc_lookup_thres_to_locate_line : ℕ
llc_lookup_thres_to_locate_line = 2000

-- std::vector::resize, for the buckets of lines.
abbrev pub resize : ℕ → List (List ℕ) → List (List ℕ)
resize zero xs = []
resize (suc n) [] = [] ∷ resize n []
resize (suc n) (x ∷ xs) = x ∷ resize n xs

-- The variables of the loop of find_local_lines.
pub record Search : Type 0 where
  pub local_lines : List (List ℕ)
  pub local_found_count : ℕ
  pub found : ℕ

-- The body of the loop, once the counters and the bucket of unit i are at hand.
pub note_hit : ℕ → ℕ → CoreCounters → List ℕ → Search → Search
note_hit line i c bucket st =
    if ltb llc_lookup_thres_to_locate_line c.ctr1
    then (if ltb (length bucket) lines_to_find_per_core
        then record {
          local_lines = set st.local_lines i (bucket ++ line ∷ []);
          local_found_count = st.local_found_count + 1;
          found = st.found + 1;
        }
        else record st { found = st.found + 1 })
    else st

module _ {W : Type 0} where
  search_at : ℕ → List CoreCounters → ℕ → Search → M W Search
  unfolding note_hit
  search_at line counters i st = do
    c ← at_index (get_elem? counters i)
    bucket ← at_index (get_elem? st.local_lines i)
    pure (note_hit line i c bucket st)

  pub find_local_lines : MemLines → ℕ → List CoreCounters → M W (MemLines × ℤ)
  unfolding search_at
  find_local_lines ml line counters = do
    st ← for_range ml.num_physical_cores 0 (search_at line counters) (record {
      local_lines = resize ml.num_physical_cores ml.local_lines;
      local_found_count = ml.local_found_count;
      found = 0;
    })
    let ml' : MemLines = record ml {
      local_lines = st.local_lines;
      local_found_count = st.local_found_count;
    }
    if st.found == 1 then pure (ml', pos 0) else (do
      say (no_local_line line (map (λ (c : CoreCounters). c.ctr1) counters))
      pure (ml', minus_one))

module _ {W : Type 0} (m : Machine W) (p : Pmon) where
  open m use {msr, pages, threads}

  -- The branch of the loop of initialize_local_lines that samples a line.
  sample_line : MemLines → ℕ → M W MemLines
  sample_line ml line = do
    freeze msr p
    set_llc_pmon msr p
    unfreeze msr p
    next ← int_sum ml.base_core_id 1
    read_and_write threads ml.base_core_id next (line_at ml line) num_rw_to_locate_line
    freeze msr p
    counters ← read_counters msr p
    found ← find_local_lines ml line counters
    unfreeze msr p
    pure found.0

  pub visit_line : MemLines → ℕ → M W MemLines
  unfolding sample_line
  visit_line ml line = do
    physical ← get_physical_address pages (line_at ml line)
    if get_l2_index physical == 1 then sample_line ml line else pure ml

  -- while(local_found_count < num_physical_cores * LINES_TO_FIND_PER_CORE) { ... }
  pub initialize_loop : ℕ → MemLines → ℕ → M W (MemLines × ℤ)
  unfolding visit_line
  initialize_loop zero ml line = no_fuel
  initialize_loop (suc fuel) ml line =
      let round : M W (MemLines × ℤ) = do
        ml' ← visit_line ml line
        if leb num_lines (line + 1)
            then (do say not_enough_lines; pure (ml', minus_one))
            else initialize_loop fuel ml' (line + 1)
      in if ltb ml.local_found_count (ml.num_physical_cores * lines_to_find_per_core)
        then round
        else pure (ml, pos 0)

  pub initialize_local_lines : MemLines → M W (MemLines × ℤ)
  unfolding initialize_loop
  initialize_local_lines ml = initialize_loop num_lines (record ml { local_found_count = 0 }) 0

-- here, the core id is the CHA id
module _ {W : Type 0} where
  pub get_a_line_for_core : MemLines → ℕ → M W ℕ
  get_a_line_for_core ml core_id = do
    bucket ← at_index (get_elem? ml.local_lines core_id)
    line ← at_index (get_elem? bucket 0)
    pure (line_at ml line)

  unfoldable pub get_lines_for_core : MemLines → ℕ → M W (List ℕ)
  get_lines_for_core ml core_id = do
    bucket ← at_index (get_elem? ml.local_lines core_id)
    pure (map (line_at ml) bucket)
