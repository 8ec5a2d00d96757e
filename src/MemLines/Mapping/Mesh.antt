-- ===== src/MemLines/Mapping/Mesh.antt =====
-- What the program relies on of a mesh: each core sits at the tile of a CHA, each line of memory has a home CHA, and
-- the ring channels between two different tiles count the stores that pass them.
pub mod Setting
pub mod Switching
pub mod Workload
pub mod Probe
pub mod Tables
pub mod Sweep
pub mod Placed
pub mod Lookups
use core_map.Base.{ℕ, suc, ◌≤◌, ◌<◌, ◌≡◌, ◌≢◌, ◌^◌, ◌==◌, if◌then◌else◌}
use core_map.Cpuid.{core_model_skl}
use core_map.Msr.{MsrDevice}
use core_map.Pmon.{Pmon}
use core_map.Pmon.Tables.{PmonUnit}
use core_map.Pmon.Tables.Layout.{skl_unit}
use core_map.Pmon.Program.{Accepts, Programmed}
use core_map.Pmon.Readout.{Shows, unit_at}
use core_map.MemLines.Object.{Machine}

-- The register is one of the four counters of the unit.
pub data CounterOf (u : PmonUnit) : ℕ → Type 0 where
  counter_0 : CounterOf u u.ctr0
  counter_1 : CounterOf u u.ctr1
  counter_2 : CounterOf u u.ctr2
  counter_3 : CounterOf u u.ctr3

-- The register is the control of the unit, or of one of its counters.
pub data ControlOf (u : PmonUnit) : ℕ → Type 0 where
  control_unit : ControlOf u u.unit_ctl
  control_0 : ControlOf u u.ctl0
  control_1 : ControlOf u u.ctl1
  control_2 : ControlOf u u.ctl2
  control_3 : ControlOf u u.ctl3

abbrev pub unit_of : Pmon → ℕ → PmonUnit
unit_of p i = unit_at p.processor_model i

abbrev pub IsCounter : Pmon → ℕ → Type 0
IsCounter p a = (i : ℕ) × ((i < p.num_physical_cores) × CounterOf (unit_of p i) a)

-- A register that the program sets up: a control of a unit, or one of its two filters.
pub data IsControl (p : Pmon) : ℕ → Type 0 where
  of_unit : (i a : ℕ) → i < p.num_physical_cores → ControlOf (unit_of p i) a → IsControl p a
  of_filter_0 : (i : ℕ) → i < p.num_physical_cores → IsControl p (skl_unit i).box_filter0
  of_filter_1 : (i : ℕ) → i < p.num_physical_cores → IsControl p (skl_unit i).box_filter1

-- The events of the vertical and of the horizontal rings on each generation.
abbrev pub vert_of : Pmon → ℕ
vert_of p = if p.processor_model == core_model_skl then 0xaa else 0xb2

abbrev pub horz_of : Pmon → ℕ
horz_of p = if p.processor_model == core_model_skl then 0xab else 0xb8

-- All units are set to the ring events, and the counters run.
pub record IsCounting (p : Pmon) (reg : ℕ → ℕ) : Type 0 where
  pub runs : reg 0x0700 ≡ 2 ^ 61
  pub events :
      (i : ℕ) → i < p.num_physical_cores → Programmed reg (vert_of p) (horz_of p) (unit_of p i)

-- An access to memory: the thread stays where it is, no word is written to a register, and no counter falls.
pub record Passes {W : Type 0} (p : Pmon) (core : W → ℕ) (written contents : W → ℕ → ℕ) (w w' : W)
    : Type 0 where
  pub stays : core w' ≡ core w
  pub same_words : (b : ℕ) → written w' b ≡ written w b
  pub rises : (b : ℕ) → IsCounter p b → contents w b ≤ contents w' b

-- Only the thread that is pinned to a core accesses memory, and pinning moves it there at once.
pub record IsMesh {W : Type 0} (m : Machine W) (p : Pmon) : Type 0 where
  pub accepts : Accepts m.msr p.msr_h.fd
  pub shows : Shows m.msr p.msr_h.fd
  -- The CHA of each core, and the home of each address.
  pub tile : ℕ → ℕ
  pub home : ℕ → ℕ
  -- The core that the thread runs on.
  pub core : W → ℕ
  -- A counter on the way from one CHA to another.
  pub via : ℕ → ℕ → ℕ
  pub on_way :
      (a b : ℕ)
      → a ≢ b
      → a < p.num_physical_cores
      → b < p.num_physical_cores
      → IsCounter p (via a b)
  -- Writes to registers.
  pub resets :
      (i a : ℕ) (w : W)
      → i < p.num_physical_cores
      → CounterOf (unit_of p i) a
      → shows.contents (m.msr.pwrite p.msr_h.fd (unit_of p i).unit_ctl 0x3 w).1 a ≡ 0
  pub programs :
      (a v b : ℕ) (w : W)
      → IsControl p a
      → IsCounter p b
      → shows.contents (m.msr.pwrite p.msr_h.fd a v w).1 b ≤ shows.contents w b
  pub switches :
      (v b : ℕ) (w : W)
      → IsCounter p b
      → shows.contents (m.msr.pwrite p.msr_h.fd 0x0700 v w).1 b ≡ shows.contents w b
  -- Pinning.
  pub moves :
      (c : ℕ) (w : W) → core (m.threads.pthread_setaffinity (m.threads.pthread_self w) c w) ≡ c
  pub move_words :
      (t c b : ℕ) (w : W)
      → accepts.written (m.threads.pthread_setaffinity t c w) b ≡ accepts.written w b
  pub move_counts :
      (t c b : ℕ) (w : W)
      → IsCounter p b
      → shows.contents (m.threads.pthread_setaffinity t c w) b ≡ shows.contents w b
  -- Accesses to memory.
  pub loads :
      (q : ℕ) (w : W) → Passes p core accepts.written shows.contents w (m.threads.load8 q w).1
  pub load_local :
      (q b : ℕ) (w : W)
      → IsCounter p b
      → tile (core w) ≡ home q
      → shows.contents (m.threads.load8 q w).1 b ≡ shows.contents w b
  pub stores :
      (q v : ℕ) (w : W) → Passes p core accepts.written shows.contents w (m.threads.store8 q v w)
  pub store_local :
      (q v b : ℕ) (w : W)
      → IsCounter p b
      → tile (core w) ≡ home q
      → shows.contents (m.threads.store8 q v w) b ≡ shows.contents w b
  pub store_remote :
      (q v : ℕ) (w : W)
      → tile (core w) ≢ home q
      → IsCounting p (accepts.written w)
      → suc (shows.contents w (via (tile (core w)) (home q)))
        ≤ shows.contents (m.threads.store8 q v w) (via (tile (core w)) (home q))
