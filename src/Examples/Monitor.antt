-- ===== src/Examples/Monitor.antt =====
-- srcs/pmon.cpp, srcs/cpuid_tasks.cpp and srcs/tasks.cpp at concrete inputs.
use core_map.Base.{◌*◌, ◌+◌, ◌%◌, ◌^◌, ◌<◌, ◌≡◌, refl, inl, none, some, get_elem?, arith}
use core_map.Base.Hoare.{Returns}
use core_map.Base.{pos, List, [], ◌∷◌, ◌==◌, if◌then◌else◌}
use core_map.Base.Effect.{State}
use core_map.Msr.Mac.{Accessor, Mac}
use core_map.Msr.Mac.Lifetime.{
  HandleCall, constructs, destroys, writes, reads, play, Counted, play-Counted,
}
use core_map.Msr.FreeBsd.{CpuCtl}
use core_map.Cpuid.{full_family_id, full_model_id}
use core_map.Cpuid.Decode.{
  signature, full_model_id-signature, Checked, check_processor_family_model_id-Checked,
}
use core_map.Tasks.Jobs.{Pair, start, Step, rw_load, rw_store, ro_read, Reach, here, next}
use core_map.Tasks.Jobs.Safety.{done_byte, Step-work, work, start-Counts}
use core_map.Pmon.{
  set_llc_pmon, enable_prefetch, disable_prefetch, set_pmon_ring_channels_skl,
  set_pmon_ring_channels_icl, read_counters, check_unique_ppin,
}
use core_map.Pmon.Tables.{c_icl}
use core_map.Pmon.Tables.Layout.{skl_unit, icl_unit, get_elem?-c_icl}
use core_map.Pmon.Program.Loop.{
  Programs, set_pmon_ring_channels_skl-Programs, set_pmon_ring_channels_icl-Programs,
}
use core_map.Pmon.Readout.{Shows, Readout, Still, unit_at, read_counters-Readout}
use core_map.Pmon.Prefetch.{SetOn, prefetch-SetOn}
use core_map.Pmon.Program.Lookups.{lookups, set_llc_pmon-UnitsHold}
use core_map.Pmon.Program.Units.{UnitsHold}
use core_map.Pmon.Ppin.{CheckedPpin, check_unique_ppin-CheckedPpin}
use core_map.Tasks.{read_and_write_spill_to_l3}
use core_map.Tasks.Spill.{Adds, count, read_and_write_spill_to_l3-Adds}
use core_map.Examples.Toy.{
  memory_threads, memory_threads-IsMemory, core_devices, core_devices-IsPerCore, core_registers,
  device, skylake, ice_lake, skylake-Accepts, begin, xeon, World,
}

get_elem?-c_icl_example : get_elem? c_icl 20 ≡ some (icl_unit 20)
get_elem?-c_icl_example = get_elem?-c_icl 20 (omega arith)

set_pmon_ring_channels_skl-Programs_example :
    Returns
      (λ _ t. Programs device skylake skylake-Accepts (λ i. (skl_unit i).regs) 0xaa 0xab 2 begin t)
      (set_pmon_ring_channels_skl device skylake begin)
set_pmon_ring_channels_skl-Programs_example =
    set_pmon_ring_channels_skl-Programs device skylake skylake-Accepts begin (omega arith)

set_pmon_ring_channels_icl-Programs_example :
    Returns
      (λ _ t.
        Programs device ice_lake skylake-Accepts (λ i. (icl_unit i).regs) 0xb2 0xb8 39 begin t)
      (set_pmon_ring_channels_icl device ice_lake begin)
set_pmon_ring_channels_icl-Programs_example =
    set_pmon_ring_channels_icl-Programs device ice_lake skylake-Accepts begin (omega arith)

set_llc_pmon-UnitsHold_example :
    Returns
      (λ _ t. UnitsHold device skylake skylake-Accepts (lookups 85) 2 begin t)
      (set_llc_pmon device skylake begin)
set_llc_pmon-UnitsHold_example =
    set_llc_pmon-UnitsHold device skylake skylake-Accepts begin (inl (refl, omega arith))

prefetch-SetOn_example :
    Returns
      (λ _ t. SetOn core_devices core_devices-IsPerCore 0 (0 + 2) 0xF core_registers t)
      (disable_prefetch core_devices skylake core_registers)
    × Returns
        (λ _ t. SetOn core_devices core_devices-IsPerCore 0 (0 + 2) 0x0 core_registers t)
        (enable_prefetch core_devices skylake core_registers)
prefetch-SetOn_example = prefetch-SetOn core_devices core_devices-IsPerCore skylake core_registers

abbrev device-Shows : Shows device (pos 3)
device-Shows = record { contents = λ w. w; shows = λ a w. refl; keeps = λ a b w. refl }

read_counters-Readout_example :
    Returns
      (λ cs t.
        Readout begin.world (unit_at 85) 2 cs × Still device skylake device-Shows begin.world t)
      (read_counters device skylake begin)
read_counters-Readout_example =
    read_counters-Readout device skylake device-Shows begin (inl (refl, omega arith))

check_unique_ppin-CheckedPpin_example :
    Returns (λ got t. CheckedPpin skylake 0 0 got.0 got.1) (check_unique_ppin device skylake begin)
check_unique_ppin-CheckedPpin_example = check_unique_ppin-CheckedPpin device skylake begin

full_model_id-signature_example :
    (full_family_id (signature 0 5 6 5 4) ≡ 6) × (full_model_id (signature 0 5 6 5 4) ≡ 85)
full_model_id-signature_example =
    full_model_id-signature 0 85 4 (omega arith) (omega arith) (omega arith)

check_processor_family_model_id-Checked_example : Checked xeon begin
check_processor_family_model_id-Checked_example = check_processor_family_model_id-Checked xeon begin

-- Two rounds of rw_job that overtake one of ro_job's reads.
abbrev pair_end : Pair
pair_end = record { byte = 1; rw_i = 2; rw_loaded = none; ro_i = 2; ro_res = 0 }

rounds : Reach 2 (start 255) pair_end
unfolding start
rounds =
    next
      (next
        (next
          (next (next (next here (rw_load _ (omega arith) refl)) (rw_store _ 255 refl))
            (ro_read _ (omega arith)))
          (rw_load _ (omega arith) refl))
        (ro_read _ (omega arith)))
      (rw_store _ 0 refl)

done_byte_example : pair_end.byte ≡ (255 + 2) % 2 ^ 8
done_byte_example = done_byte 2 255 pair_end (omega arith) rounds (refl, refl, refl)

first_load : Step 2 (start 255) (record (start 255) { rw_loaded = some 255 })
unfolding start
first_load = rw_load _ (omega arith) refl

Step-work_example : work 2 (record (start 255) { rw_loaded = some 255 }) < work 2 (start 255)
Step-work_example = Step-work 2 255 (start-Counts 2 255 (omega arith)) first_load

-- An accessor whose state is its registers, and three handles of which one is left.
abbrev accessor : Accessor World (Unit {0})
accessor = record {
  create = λ w. (tt, w);
  delete = λ d w. w;
  write = λ d cpu a v w. (pos 8, λ b. if a == b then v else w b);
  read = λ d cpu a w. ((pos 8, some (w a)), w);
  build_topology = λ d cores ptr w. (pos 0, w);
  get_num_instances = λ d w. (1, w);
  increment_num_instances = λ d w. (2, w);
  decrement_num_instances = λ d w. (1, w);
}

abbrev no_handles : State (Mac World (Unit {0}))
no_handles = record {
  world = record { driver = none; num_handles = pos 0; world = begin.world };
  out = [];
}

abbrev handle_calls : List HandleCall
handle_calls =
    constructs 0
    ∷ constructs 1
    ∷ writes 0 0x700 5
    ∷ destroys
    ∷ reads 1 0x700 0
    ∷ destroys
    ∷ constructs 2
    ∷ []

play-Counted_example : Returns (λ _ t. Counted 1 t.world) (play accessor handle_calls no_handles)
play-Counted_example =
    play-Counted accessor handle_calls 0 1 no_handles (record { count = refl; shared = refl }) refl

abbrev cpuctl : CpuCtl World
cpuctl = record {
  open_rw = λ cpu w. (pos 3, w);
  close = λ fd w. w;
  wrmsr = λ fd a v w. (pos 0, λ b. if a == b then v else w b);
  rdmsr = λ fd a w. ((pos 0, w a), w);
}

read_and_write_spill_to_l3-Adds_example :
    Returns
      (λ _ u.
        Adds memory_threads memory_threads-IsMemory
          (λ q. 3 * count q (0xE09 ∷ 5 ∷ 0xE09 ∷ []))
          begin
          u)
      (read_and_write_spill_to_l3 memory_threads 2 (0xE09 ∷ 5 ∷ 0xE09 ∷ []) 3 begin)
read_and_write_spill_to_l3-Adds_example =
    read_and_write_spill_to_l3-Adds memory_threads memory_threads-IsMemory 2
      (0xE09 ∷ 5 ∷ 0xE09 ∷ []) 3 begin
