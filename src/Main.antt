-- ===== src/Main.antt =====
-- srcs/main.cpp: the options and the order of the calls. `getopt`, `atoi` and the processor are
-- parameters: the options come as the list that `getopt` returns one by one.
pub mod Pipeline
pub mod Rejects
pub mod Setup
pub mod Course
pub mod Placed
use Prim.Native.String.{String}
use core_map.Base.{
  ℕ, ◌||◌, ℤ, pos, minus_one, is_minus_one, is_neg, pos_part, List, [], ◌∷◌, Option, none, some,
  if◌then◌else◌,
}
use core_map.Base.Effect.{
  usage, parameters_are, M, ◌>>=◌, ◌>>◌, pure, exit, throw, call, say, tell, int_sum,
}
use core_map.Msr.{open_handle}
use core_map.Base.{to_uint64, ◌%◌, ◌^◌}
use core_map.Cpuid.{Cpu, check_brand_string, check_processor_family_model_id}
use core_map.Pmon.{
  Pmon, new_pmon, delete_pmon, check_unique_ppin, enable_prefetch, disable_prefetch,
}
use core_map.MemLines.Object.{Machine, MemLines, new_mem_lines, delete_mem_lines}
use core_map.MemLines.Locate.{initialize_local_lines}
use core_map.MemLines.Mapping.{map_os_core_id_to_cha_id}
use core_map.MemLines.Traffic.{generate_traffic_and_monitor}
use core_map.MemLines.Dump.{Json, Output, dump_busy_paths}

-- What `getopt` returns; `opt_other` is `h`, or `?` for what it does not know.
pub data Opt : Type 0 where
  opt_c opt_b opt_p : String → Opt
  opt_other : Opt

pub record Options : Type 0 where
  pub num_cores : ℤ
  pub base_core_id : ℤ
  pub num_physical_cores : ℤ

abbrev pub default_options : Options
default_options = record {
  num_cores = pos 16;
  base_core_id = pos 0;
  num_physical_cores = minus_one;
}

-- The loop over the options; `none` stands for the usage message and `return -1`.
unfoldable pub parse_options : (String → ℤ) → Options → List Opt → Option Options
parse_options atoi o [] = some o
parse_options atoi o (opt_c arg ∷ opts) =
    parse_options atoi (record o { num_cores = atoi arg }) opts
parse_options atoi o (opt_b arg ∷ opts) =
    parse_options atoi (record o { base_core_id = atoi arg }) opts
parse_options atoi o (opt_p arg ∷ opts) =
    parse_options atoi (record o { num_physical_cores = atoi arg }) opts
parse_options atoi o (opt_other ∷ opts) = none

-- if(num_physical_cores == -1) num_physical_cores = num_cores;
unfoldable pub fill_physical : Options → Options
fill_physical o =
    if is_minus_one o.num_physical_cores then record o { num_physical_cores = o.num_cores } else o

module _ {W J : Type 0} (m : Machine W) (cpu : Cpu) (j : Json J) (out : Output W J)
    (file_name : ℕ → String) where
  open m use {msr, threads}

  -- The three calls on the object; their return codes are not looked at.
  pub measure : Pmon → MemLines → M W MemLines
  measure p ml = do
    a ← initialize_local_lines m p ml
    b ← map_os_core_id_to_cha_id m p a.0
    c ← generate_traffic_and_monitor m p b.0
    pure c.0

  -- Up to the constructor of Mem_Lines. A negative core id is converted to an unsigned number for the
  -- cpu_set_t, which leaves it out, and for the handle; no core has such a number, so the handle is
  -- not opened and its constructor throws. A negative count makes `resize` throw at the end of the
  -- constructor of Mem_Lines. `disable_prefetch` adds the ids as ints.
  pub setup : ℕ → Options → M W (Pmon × MemLines)
  setup model o = do
    say (parameters_are o.num_cores o.base_core_id o.num_physical_cores)
    self ← call (λ w. (threads.pthread_self w, w))
    tell (threads.pthread_setaffinity self (to_uint64 o.base_core_id))
    if is_neg o.base_core_id
        then (do open_handle msr (to_uint64 o.base_core_id % 2 ^ 32); throw)
        else (do
          p ←
              new_pmon msr model (pos_part o.base_core_id) (pos_part o.num_cores)
                (pos_part o.num_physical_cores)
          checked ← check_unique_ppin msr p
          int_sum (pos_part o.base_core_id) (pos_part o.num_cores)
          disable_prefetch msr checked.0
          ml ←
              new_mem_lines m (pos_part o.base_core_id) (pos_part o.num_cores)
                (pos_part o.num_physical_cores)
          if is_neg o.num_cores || is_neg o.num_physical_cores then throw else pure (checked.0, ml))

  -- From the search for lines on.
  pub finish : Pmon → MemLines → M W ℤ
  unfolding measure
  finish p ml = do
    ml' ← measure p ml
    enable_prefetch msr p
    dump_busy_paths j out p ml' (file_name p.ppin)
    delete_mem_lines m ml'
    delete_pmon msr p
    pure (pos 0)

  pub run : ℕ → Options → M W ℤ
  unfolding setup finish
  run model o = do made ← setup model o; finish made.0 made.1

  pub main : (String → ℤ) → List Opt → M W ℤ
  unfolding run
  main atoi opts = elim (parse_options atoi default_options opts) [
    | none ↦ do say usage; pure minus_one
    | some o ↦ do
      check_brand_string cpu
      model ← check_processor_family_model_id cpu
      if is_neg model then exit minus_one else run (pos_part model) (fill_physical o)
  ]
