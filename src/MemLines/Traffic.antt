-- ===== src/MemLines/Traffic.antt =====
-- srcs/mem_lines.cpp, lines 240-297: `generate_traffic_and_monitor` and `collect_busy_paths`.
pub mod Paths
pub mod Covered
pub mod Pairs
pub mod Observed
use core_map.Base.{
  ℕ, zero, suc, ◌+◌, ℤ, pos, minus_one, is_minus_one, pos_part, Bool, true, false, ◌&&◌, ◌||◌, List,
  [], ◌∷◌, ◌++◌, get_elem?, ltb, ◌==◌, if◌then◌else◌,
}
use core_map.Base.Effect.{
  RingChannel, ch_up, ch_down, ch_left, ch_right, M, ◌>>=◌, ◌>>◌, pure, at_index, for_range,
}
use core_map.Pmon.{Pmon, freeze, unfreeze, set_pmon_ring_channels, read_counters, print_busy_path}
use core_map.Pmon.Report.{CoreCounters}
use core_map.Tasks.{read_and_write}
use core_map.MemLines.Object.{Machine, MemLines, Node}
use core_map.MemLines.Locate.{get_a_line_for_core}

pub num_rw_to_locate_core : ℕ
num_rw_to_locate_core = 10000000

abbrev ring_traffic_thres_to_locate_core : ℕ
ring_traffic_thres_to_locate_core = 500000

abbrev push_if : Bool → Node → List Node → List Node
push_if true v path = path ++ v ∷ []
push_if false v path = path

-- The four tests of one unit, each of which may append to the path.
pub push_busy : ℕ → ℕ → CoreCounters → List Node → List Node
push_busy limit pi c path =
    push_if (ltb limit c.ctr3) (pi, ch_right)
      (push_if (ltb limit c.ctr2) (pi, ch_left)
        (push_if (ltb limit c.ctr1) (pi, ch_down) (push_if (ltb limit c.ctr0) (pi, ch_up) path)))

-- The order of std::pair.
abbrev pub key_lt : ℕ × ℕ → ℕ × ℕ → Bool
key_lt (a, b) (c, d) = ltb a c || (a == c && ltb b d)

abbrev pub key_eq : ℕ × ℕ → ℕ × ℕ → Bool
key_eq (a, b) (c, d) = a == c && b == d

-- busy_paths[key] = path
pub assign : ℕ × ℕ → List Node → List ((ℕ × ℕ) × List Node) → List ((ℕ × ℕ) × List Node)
assign k path [] = (k, path) ∷ []
assign k path ((j, old) ∷ rest) =
    let later = assign k path rest in
    if key_eq k j
    then (k, path) ∷ rest
    else if key_lt k j
    then (k, path) ∷ (j, old) ∷ rest
    else (j, old) ∷ later

module _ {W : Type 0} where
  pub collect_busy_paths : MemLines → ℕ → ℕ → List CoreCounters → ℕ → M W MemLines
  unfolding push_busy
  collect_busy_paths ml id_a id_b counters limit = do
    busy_path ←
        for_range ml.num_physical_cores 0
          (λ pi path. do c ← at_index (get_elem? counters pi); pure (push_busy limit pi c path)) []
    pure (record ml { busy_paths = assign (id_a, id_b) busy_path ml.busy_paths })

module _ {W : Type 0} (m : Machine W) (p : Pmon) where
  open m use {msr, threads}

  -- The body of the inner loop, past both tests.
  pub monitor_pair : MemLines → ℕ → ℕ → ℕ → ℕ → M W MemLines
  monitor_pair ml id_a os_id_a id_b os_id_b = do
    freeze msr p
    set_pmon_ring_channels msr p
    unfreeze msr p
    line ← get_a_line_for_core ml id_a
    read_and_write threads (ml.base_core_id + os_id_a) (ml.base_core_id + os_id_b) line
        num_rw_to_locate_core
    freeze msr p
    counters ← read_counters msr p
    ml' ← collect_busy_paths ml id_a id_b counters ring_traffic_thres_to_locate_core
    print_busy_path msr p id_a id_b ring_traffic_thres_to_locate_core
    unfreeze msr p
    pure ml'

  -- An id that is not -1 is the index of an OS core.
  pub monitor_from : ℕ → ℤ → ℕ → MemLines → M W MemLines
  monitor_from id_a os_id_a id_b ml = do
    os_id_b ← at_index (get_elem? ml.core_map_cha_to_os id_b)
    if is_minus_one os_id_b
        then pure ml
        else monitor_pair ml id_a (pos_part os_id_a) id_b (pos_part os_id_b)

  pub monitor_row : ℕ → MemLines → M W MemLines
  unfolding monitor_from
  monitor_row id_a ml = do
    os_id_a ← at_index (get_elem? ml.core_map_cha_to_os id_a)
    if is_minus_one os_id_a
        then pure ml
        else for_range ml.num_physical_cores 0 (monitor_from id_a os_id_a) ml

  pub generate_traffic_and_monitor : MemLines → M W (MemLines × ℤ)
  unfolding monitor_row
  generate_traffic_and_monitor ml = do
    ml' ← for_range ml.num_physical_cores 0 monitor_row ml
    pure (ml', pos 0)
