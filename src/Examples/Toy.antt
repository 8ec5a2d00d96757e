-- ===== src/Examples/Toy.antt =====
-- A machine whose registers hold what was last written to them, and whose pages all lie in frame 0.
use core_map.Base.{
  true, ℕ, refl, pos, pos_part, minus_one, ◌&&◌, ◌%◌, ◌^◌, ◌*◌, ◌/◌, ◌+◌, ◌≡◌, List, [], ◌∷◌, some,
  ◌==◌, if◌then◌else◌, arith,
}
use core_map.Base.Effect.{State}
use core_map.Msr.{MsrDevice, dev_cpu_msr, dev_msr}
use core_map.Msr.PerCore.{IsPerCore}
use core_map.Cpuid.{Cpu}
use core_map.Tasks.{Threads}
use core_map.Pmon.{Pmon}
use core_map.Pmon.Report.{CoreCounters}
use core_map.Pmon.Program.{Accepts}
use core_map.Pmon.Safety.{Fits}
use core_map.MemLines.Address.{Pages}
use core_map.MemLines.Address.Translate.{IsPageMap, bytes_of}
use core_map.Tasks.Spill.{IsMemory}
use core_map.MemLines.Object.{Machine, MemLines}

-- The registers of the machine.
abbrev pub World : Type 0
World = ℕ → ℕ

abbrev pub device : MsrDevice World
device = record {
  open_rw = λ path w. (pos 3, w);
  close = λ fd w. w;
  pwrite = λ fd a v w. (pos 8, λ b. if a == b then v else w b);
  pread = λ fd a w. ((pos 8, some (w a)), w);
  indeterminate = λ w. 0;
}

-- A device for each core, whose handle is the core's number.
abbrev pub PerCore : Type 0
PerCore = ℕ → ℕ → ℕ

abbrev pub core_devices : MsrDevice PerCore
core_devices = record {
  open_rw = λ path w. (elim path [ dev_cpu_msr c ↦ pos c | dev_msr c ↦ pos c ], w);
  close = λ fd w. w;
  pwrite = λ fd a v w. (pos 8, λ k b. if (k == pos_part fd) && (b == a) then v else w k b);
  pread = λ fd a w. ((pos 8, some (w (pos_part fd) a)), w);
  indeterminate = λ w. 0;
}

pub stored_there :
    (x c a v k b old : ℕ)
    → some x ≡ some c
    → (if (k == x) && (b == a) then v else old) ≡ (if (k == c) && (b == a) then v else old)
stored_there x c a v k b old e = let e' : x ≡ c = cc in rw e' refl

abbrev pub core_devices-IsPerCore : IsPerCore core_devices
core_devices-IsPerCore = record {
  core = λ fd w. some (pos_part fd);
  reg = λ k a w. w k a;
  handle = λ c w. c;
  opens = λ c w. refl;
  belongs = λ c w. refl;
  open_keeps = λ c k a w. refl;
  close_keeps = λ fd k a w. refl;
  stores = λ fd c a v k b w e. stored_there (pos_part fd) c a v k b (w k b) e;
}

abbrev pub core_registers : State PerCore
core_registers = record { world = λ k b. 0; out = [] }

abbrev pub threads : Threads World
threads = record {
  pthread_create = λ job info w. (1, w);
  pthread_setaffinity = λ thread core w. w;
  pthread_join = λ thread w. w;
  pthread_self = λ w. 0;
  load8 = λ p w. (0, w);
  store8 = λ p v w. w;
  indeterminate = λ w. 0;
}

abbrev pub pages : Pages World
pages = record {
  getpagesize = 4096;
  open_pagemap = λ w. (true, w);
  seek_pagemap = λ offset w. (pos 0, w);
  read_pagemap = λ n w. (0 ∷ 0 ∷ 0 ∷ 0 ∷ 0 ∷ 0 ∷ 0 ∷ [], w);
  close_pagemap = λ w. w;
  malloc = λ size w. (0x10010, w);
  free = λ block w. w;
  mlock = λ block size w. (pos 0, w);
  memcpy = λ to from size w. w;
}

abbrev pub machine : Machine World
machine = record { msr = device; pages = pages; threads = threads }

-- A Skylake of two cores, and an Ice Lake of 39.
abbrev pub skylake : Pmon
skylake = record {
  msr_h = record { fd = pos 3; cpu_id = 0 };
  ppin = 7;
  processor_model = 85;
  base_core_id = 0;
  num_cores = 2;
  num_physical_cores = 2;
}

abbrev pub ice_lake : Pmon
ice_lake = record skylake { processor_model = 106; num_cores = 39; num_physical_cores = 39 }

pub skylake-Fits : Fits skylake
skylake-Fits = record { skl = λ e. omega arith; icl = λ e. absurd (omega arith) }

pub skylake-Accepts : Accepts device (pos 3)
skylake-Accepts = record { written = λ w. w; whole = λ a v w. refl; stores = λ a v b w. refl }

-- The counter of lookups of unit 0 stands at 5000.
abbrev pub begin : State World
begin = record { world = λ a. if a == 0xE09 then 5000 else 0; out = [] }

abbrev pub counters : List CoreCounters
counters =
    record { ctr0 = 0; ctr1 = 5000; ctr2 = 0; ctr3 = 900000 }
    ∷ record { ctr0 = 12; ctr1 = 0; ctr2 = 600000; ctr3 = 0 }
    ∷ []

-- The object before any line is found.
abbrev pub fresh : MemLines
fresh = record {
  core_map_cha_to_os = minus_one ∷ minus_one ∷ [];
  core_map_os_to_cha = minus_one ∷ minus_one ∷ [];
  memory_bulk = 0x11000;
  memory_bulk_alloc = 0x10010;
  base_core_id = 0;
  num_cores = 2;
  num_physical_cores = 2;
  local_lines = [];
  local_found_count = 0;
  busy_paths = [];
}

-- Every page frame is 0, so the lines are those that come second in their page.
abbrev pub bucket : List ℕ
bucket =
    1 ∷ 65 ∷ 129 ∷ 193 ∷ 257 ∷ 321 ∷ 385 ∷ 449 ∷ 513 ∷ 577 ∷ 641 ∷ 705 ∷ 769 ∷ 833 ∷ 897 ∷ 961
    ∷ 1025 ∷ 1089 ∷ 1153 ∷ 1217 ∷ 1281 ∷ 1345 ∷ []

abbrev pub filled : MemLines
filled = record fresh { local_lines = bucket ∷ bucket ∷ []; local_found_count = 44 }

-- OS core 0 sits at CHA 1, and OS core 1 at CHA 0.
abbrev pub mapped : MemLines
mapped = record filled {
  core_map_cha_to_os = pos 1 ∷ pos 0 ∷ [];
  core_map_os_to_cha = pos 1 ∷ pos 0 ∷ [];
}

-- A Skylake-SP: family 6, model 85, stepping 4.
abbrev pub xeon : Cpu
xeon = record {
  get_cpuid_max = λ leaf. 0x80000008;
  cpuid = λ leaf. record { eax = 0x50654; ebx = 0; ecx = 0; edx = 0 };
  nprocessors_conf = 2;
  nprocessors_onln = 2;
}

-- Memory of bytes, all other calls without effect.
abbrev pub memory_threads : Threads World
memory_threads = record threads {
  load8 = λ p w. (w p % 2 ^ 8, w);
  store8 = λ p v w q. if q == p then v else w q;
}

pub memory_threads-IsMemory : IsMemory memory_threads
memory_threads-IsMemory = record {
  byte = λ p w. w p % 2 ^ 8;
  small = λ p w. omega arith;
  loads = λ p w. refl;
  load_keeps = λ p q w. refl;
  stores = λ p v q w h. ground (arith, h);
  moves = λ thread core q w. refl;
}

-- A page map whose file position is the world, and in which the page n lies in frame n.
abbrev pub paged : Pages ℕ
paged = record {
  getpagesize = 4096;
  open_pagemap = λ w. (true, 0);
  seek_pagemap = λ offset w. (pos 0, offset);
  read_pagemap = λ n w. (bytes_of n (w / 8), w + n);
  close_pagemap = λ w. w;
  malloc = λ size w. (0x10010, w);
  free = λ block w. w;
  mlock = λ block size w. (pos 0, w);
  memcpy = λ to from size w. w;
}

pub page_position : (page : ℕ) → page * 8 / 8 ≡ page
page_position page = omega arith

abbrev pub paged-IsPageMap : IsPageMap paged
paged-IsPageMap = record {
  entry = λ n. n;
  position = λ w. w;
  page_size = refl;
  opens = λ w. refl;
  seeks = λ offset w. refl;
  sought = λ offset w. refl;
  reads = λ n page w e. rw (e, page_position page) refl;
}
