-- ===== src/MemLines/Mapping.antt =====
-- srcs/mem_lines.cpp, lines 176-236: `map_os_core_id_to_cha_id` and `find_core_mapping`.
pub mod Idle
pub mod Pairing
pub mod Success
pub mod NoLines
pub mod Doubled
pub mod Mesh
use core_map.Base.{
  ℕ, zero, suc, ◌+◌, ℤ, pos, minus_one, is_minus_one, Bool, true, false, ◌||◌, not, List, [], ◌∷◌,
  get_elem?, set, ltb, if◌then◌else◌, Option, none, some,
}
use core_map.Base.Effect.{M, ◌>>=◌, ◌>>◌, pure, at_index, say, doubly_mapped, os_id_unmapped}
use core_map.Pmon.{Pmon, freeze, unfreeze, set_pmon_ring_channels, read_counters}
use core_map.Pmon.Report.{CoreCounters}
use core_map.Tasks.{read_and_write_spill_to_l3}
use core_map.MemLines.Object.{Machine, MemLines}
use core_map.MemLines.Locate.{get_lines_for_core}

num_rw_to_map_core : ℕ
num_rw_to_map_core = 10000

abbrev ring_traffic_thres_to_map_core : ℕ
ring_traffic_thres_to_map_core = 100000

-- Some ring channel of the unit is above the limit.
pub is_busy : ℕ → CoreCounters → Bool
is_busy limit c = ltb limit c.ctr0 || ltb limit c.ctr1 || ltb limit c.ctr2 || ltb limit c.ctr3

module _ {W : Type 0} where
  -- The loop over the counters, from unit i on: whether no unit is busy.
  pub all_idle : ℕ → ℕ → List CoreCounters → M W Bool
  unfolding is_busy
  all_idle zero i counters = pure true
  all_idle (suc n) i counters = at_index (get_elem? counters i) >>= λ c.
      let rest = all_idle n (suc i) counters in
      if is_busy ring_traffic_thres_to_map_core c then pure false else rest

  pub find_core_mapping : MemLines → ℕ → ℕ → List CoreCounters → M W (MemLines × ℤ)
  unfolding all_idle
  find_core_mapping ml ci pi counters = do
    ci_pi_mapped ← all_idle ml.num_physical_cores 0 counters
    if ci_pi_mapped
        then (do
          mapped ← at_index (get_elem? ml.core_map_cha_to_os pi)
          if is_minus_one mapped
              then (do
                at_index (get_elem? ml.core_map_os_to_cha ci)
                pure (
                  record ml {
                    core_map_cha_to_os = set ml.core_map_cha_to_os pi (pos ci);
                    core_map_os_to_cha = set ml.core_map_os_to_cha ci (pos pi);
                  },
                  pos 0,
                ))
              else (do say (doubly_mapped pi mapped ci); pure (ml, minus_one)))
        else pure (ml, pos 0)

-- A nonzero `int`, as a condition.
abbrev pub is_error : ℤ → Bool
is_error (pos zero) = false
is_error (pos (suc n)) = true
is_error (ℤ.negsuc n) = true

module _ {W : Type 0} (m : Machine W) (p : Pmon) where
  open m use {msr, threads}

  -- One round of the inner loop, up to the test of find_core_mapping.
  pub probe_pair : MemLines → ℕ → ℕ → M W (MemLines × ℤ)
  probe_pair ml ci pi = do
    freeze msr p
    set_pmon_ring_channels msr p
    unfreeze msr p
    lines ← get_lines_for_core ml pi
    read_and_write_spill_to_l3 threads (ml.base_core_id + ci) lines num_rw_to_map_core
    freeze msr p
    counters ← read_counters msr p
    find_core_mapping ml ci pi counters

  -- The inner loop, with n rounds left. `true` beside the object: it was left by `return -1`.
  pub map_row : ℕ → ℕ → ℕ → MemLines → M W (MemLines × Bool)
  unfolding probe_pair
  map_row zero ci pi ml = pure (ml, false)
  map_row (suc n) ci pi ml = probe_pair ml ci pi >>= λ got.
      let rest : M W (MemLines × Bool) = (do unfreeze msr p; map_row n ci (suc pi) got.0) in
      if is_error got.1 then pure (got.0, true) else rest

  -- The outer loop.
  pub map_rows : ℕ → ℕ → MemLines → M W (MemLines × Bool)
  unfolding map_row
  map_rows zero ci ml = pure (ml, false)
  map_rows (suc n) ci ml = map_row ml.num_physical_cores ci 0 ml >>= λ got.
      let rest = map_rows n (suc ci) got.0 in if got.1 then pure (got.0, true) else rest

  -- The last loop: the first OS core id from ci on with no CHA.
  pub check_mapped : ℕ → ℕ → MemLines → M W ℤ
  check_mapped zero ci ml = pure (pos 0)
  check_mapped (suc n) ci ml = at_index (get_elem? ml.core_map_os_to_cha ci) >>= λ pi.
      let rest = check_mapped n (suc ci) ml in
      if is_minus_one pi then (do say (os_id_unmapped ci); pure minus_one) else rest

  pub map_os_core_id_to_cha_id : MemLines → M W (MemLines × ℤ)
  unfolding map_rows check_mapped
  map_os_core_id_to_cha_id ml = do
    got ← map_rows ml.num_cores 0 ml
    if got.1
        then pure (got.0, minus_one)
        else (do r ← check_mapped ml.num_cores 0 got.0; pure (got.0, r))
