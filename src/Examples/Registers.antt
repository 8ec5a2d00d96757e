-- ===== src/Examples/Registers.antt =====
-- srcs/types.h, srcs/mutex.h and the Windows version of srcs/msr.cpp at concrete inputs.
use core_map.Base.{
  ℕ, ◌-◌, ◌^◌, ◌≤◌, ◌<◌, ◌≡◌, refl, Bool, true, false, pos, none, [], ◌∷◌, ◌==◌, ==_iff, ◌&&◌,
  if◌then◌else◌, arith,
}
use core_map.Base.Effect.{State, throws, ◌>>=◌, throw}
use core_map.Base.Hoare.{Returns}
use core_map.Pmon.Events.{event_unit}
use core_map.Types.UncoreSelect
use core_map.Types.Words.Fields.{started, event_unit-fields}
use core_map.Types.Mcfg.{McfgHeader, nrecords, nrecords-wraps}
use core_map.Types.Cvt.{CvtDs}
use core_map.Mutex.{MutexCalls, Mutex, in_scope}
use core_map.Mutex.Scoped.{AreMutexCalls, in_scope-frees}
use core_map.Msr.Windows.{WinDrivers, write_win, read_win}
use core_map.Msr.Windows.Registers.{IsWinRing, on_core, write_win-read_win}

event_unit-fields_example : UncoreSelect.fields (event_unit 0xaa 0b1100) ≡ started 0xaa 0b1100
event_unit-fields_example = event_unit-fields 0xaa 0b1100 (omega arith) (omega arith)

-- The header of an empty block.
abbrev no_header : McfgHeader
no_header = record {
  signature = 0 ∷ 0 ∷ 0 ∷ 0 ∷ [];
  length = 0;
  revision = 0;
  checksum = 0;
  oem_id = 0 ∷ 0 ∷ 0 ∷ 0 ∷ 0 ∷ 0 ∷ [];
  oem_table_id = 0 ∷ 0 ∷ 0 ∷ 0 ∷ 0 ∷ 0 ∷ 0 ∷ 0 ∷ [];
  oem_revision = 0;
  creator_id = 0;
  creator_revision = 0;
  reserved = 0 ∷ 0 ∷ 0 ∷ 0 ∷ 0 ∷ 0 ∷ 0 ∷ 0 ∷ [];
}

nrecords-wraps_example : (2 ^ 32 - 3 ≤ nrecords no_header) × (nrecords no_header < 2 ^ 32)
nrecords-wraps_example = nrecords-wraps no_header (omega arith)

-- One mutex, which is held or not.
abbrev mutex_calls : MutexCalls Bool
mutex_calls = record {
  mutex_init = λ address w. (address, false);
  mutex_destroy = λ m w. false;
  mutex_lock = λ m w. true;
  mutex_unlock = λ m w. false;
}

abbrev mutex_calls-AreMutexCalls : AreMutexCalls mutex_calls
mutex_calls-AreMutexCalls = record {
  held = λ m w. w;
  lock_takes = λ m w h. refl;
  unlock_frees = λ m w h. refl;
}

abbrev a_mutex : Mutex
a_mutex = record { mutex = 0x7000 }

abbrev unlocked : State Bool
unlocked = record { world = false; out = [] }

in_scope-frees_example :
    ((in_scope mutex_calls a_mutex (throw {A = ℕ}) unlocked).0 ≡ throws)
    × ((in_scope mutex_calls a_mutex (throw {A = ℕ}) unlocked).1.world ≡ false)
in_scope-frees_example =
    in_scope-frees mutex_calls mutex_calls-AreMutexCalls a_mutex throw unlocked (λ s h. h) refl tt

-- Cores with registers of two halves, and the core that the thread is on.
abbrev Cores : Type 0
Cores = (ℕ → ℕ → CvtDs) × ℕ

abbrev win_ring : WinDrivers Cores
win_ring = record {
  create_file = λ w. (none, w);
  close_file = λ h w. w;
  has_open_lib_sys = λ w. true;
  control_write = λ h c a v w. ((false, 0), w);
  control_read = λ h c a w. ((false, 0, none), w);
  wrmsr = λ a lo hi w. (
    true,
    ((λ k b. if (k == w.1) && (b == a) then record { low = lo; high = hi } else w.0 k b), w.1),
  );
  rdmsr = λ a w. ((true, (w.0 w.1 a).low, (w.0 w.1 a).high), w);
  enter_affinity = λ c w. (w.0, c);
  leave_affinity = λ c w. w;
}

win_ring-IsWinRing : IsWinRing win_ring
win_ring-IsWinRing = record {
  core = λ w. w.1;
  halves = λ k a w. w.0 k a;
  enters = λ c w. refl;
  enter_keeps = λ c k a w. refl;
  leave_keeps = λ c k a w. refl;
  writes = λ a lo hi w. refl;
  stores = λ a lo hi w. rw ((==_iff w.1 w.1).1 refl, (==_iff a a).1 refl) refl;
  reads = λ a w. refl;
}

abbrev idle_cores : State Cores
idle_cores = record { world = ((λ k a. record { low = 0; high = 0 }), 0); out = [] }

write_win-read_win_example :
    Returns
      (λ got t. got ≡ (pos 8, 0x123456789))
      ((write_win win_ring (on_core 3) 0x700 0x123456789 >>= λ _.
          read_win win_ring (on_core 3) 0x700 0)
        idle_cores)
write_win-read_win_example =
    write_win-read_win win_ring win_ring-IsWinRing 3 0x700 0x123456789 0 idle_cores (omega arith)
