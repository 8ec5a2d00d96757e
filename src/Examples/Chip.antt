-- ===== src/Examples/Chip.antt =====
-- A mesh of two tiles: core 0 sits at CHA 1 and core 1 at CHA 0, a line's home is the parity of its page, the one
-- counter that stores move is the first of unit 0, and the second of each unit counts the rounds of threads.
use core_map.Base.{
  true, ℕ, zero, suc, ◌+◌, ◌*◌, ◌/◌, ◌%◌, ◌≤◌, ◌<◌, ◌≡◌, ◌≢◌, refl, pos, some, ◌==◌, if◌then◌else◌,
  arith,
}
use core_map.Msr.{MsrDevice}
use core_map.Tasks.{Threads}
use core_map.MemLines.Address.{Pages}
use core_map.MemLines.Object.{Machine}
use core_map.MemLines.Mapping.Mesh.{IsMesh, counter_0, unit_of}
use core_map.MemLines.Mapping.Mesh.Lookups.{CountsLookups}
use core_map.MemLines.Address.Translate.{IsPageMap, bytes_of}
use core_map.Examples.Toy.{skylake}

pub record Chip : Type 0 where
  pub core : ℕ
  pub count : ℕ
  pub looks_0 : ℕ
  pub looks_1 : ℕ
  pub position : ℕ
  pub regs : ℕ → ℕ

-- A counter's contents: the stores in the first of unit 0, and the lookups in the second of each unit.
abbrev pub shown : ℕ → ℕ → ℕ → ℕ → ℕ
shown count looks_0 looks_1 b =
    if b == 0xE08 then count else if b == 0xE09 then looks_0 else if b == 0xE19 then looks_1 else 0

abbrev pub chip_contents : Chip → ℕ → ℕ
chip_contents w b = shown w.count w.looks_0 w.looks_1 b

abbrev pub tile : ℕ → ℕ
tile c = if c == 0 then 1 else 0

abbrev pub home : ℕ → ℕ
home q = q / 4096 % 2

-- The lookups of a unit after n rounds at a line's home.
abbrev pub more : ℕ → ℕ → ℕ → ℕ → ℕ
more h i n x = if i == h then n + x else x

abbrev pub chip_device : MsrDevice Chip
chip_device = record {
  open_rw = λ path w. (pos 3, w);
  close = λ fd w. w;
  pwrite = λ fd a v w. (
    pos 8,
    record w {
      count = if a == 0x0700 then w.count else 0;
      looks_0 = if a == 0x0700 then w.looks_0 else 0;
      looks_1 = if a == 0x0700 then w.looks_1 else 0;
      regs = λ b. if a == b then v else w.regs b;
    },
  );
  pread = λ fd a w. ((pos 8, some (chip_contents w a)), w);
  indeterminate = λ w. 0;
}

abbrev pub chip_threads : Threads Chip
chip_threads = record {
  pthread_create = λ job info w. (
    1,
    record w {
      looks_0 = more (home info.access_ptr) 0 info.repeat w.looks_0;
      looks_1 = more (home info.access_ptr) 1 info.repeat w.looks_1;
    },
  );
  pthread_setaffinity = λ thread core w. record w { core = core };
  pthread_join = λ thread w. w;
  pthread_self = λ w. 0;
  load8 = λ p w. (0, w);
  store8 = λ p v w. record w { count = if tile w.core == home p then w.count else suc w.count };
  indeterminate = λ w. 0;
}

abbrev pub chip_pages : Pages Chip
chip_pages = record {
  getpagesize = 4096;
  open_pagemap = λ w. (true, w);
  seek_pagemap = λ offset w. (pos 0, record w { position = offset });
  read_pagemap = λ n w. (bytes_of n 0, w);
  close_pagemap = λ w. w;
  malloc = λ size w. (0x10010, w);
  free = λ block w. w;
  mlock = λ block size w. (pos 0, w);
  memcpy = λ to from size w. w;
}

abbrev pub chip : Machine Chip
chip = record { msr = chip_device; pages = chip_pages; threads = chip_threads }

-- What is left of a counter by a write to a register.
abbrev pub after_write : ℕ → ℕ → ℕ
after_write a n = if a == 0x0700 then n else 0

-- The counters of a chip after a write.
abbrev pub shown_after : ℕ → Chip → ℕ → ℕ
shown_after a w b =
    shown (after_write a w.count) (after_write a w.looks_0) (after_write a w.looks_1) b

pub reset_count : (i a : ℕ) (w : Chip) → shown_after (unit_of skylake i).unit_ctl w a ≡ 0
reset_count i a w = ground arith

pub no_more : (a b : ℕ) (w : Chip) → shown_after a w b ≤ chip_contents w b
no_more a b w = ground arith

-- The count after a store.
abbrev pub stored : ℕ → Chip → ℕ
stored q w = if tile w.core == home q then w.count else suc w.count

pub one_more : (q b : ℕ) (w : Chip) → chip_contents w b ≤ shown (stored q w) w.looks_0 w.looks_1 b
one_more q b w = ground arith

pub at_home :
    (q b : ℕ) (w : Chip)
    → tile w.core ≡ home q
    → shown (stored q w) w.looks_0 w.looks_1 b ≡ chip_contents w b
at_home q b w e = ground arith

pub far : (q : ℕ) (w : Chip) → tile w.core ≢ home q → suc w.count ≤ stored q w
far q w ne = ground arith

abbrev pub chip-IsMesh : IsMesh chip skylake
chip-IsMesh = record {
  accepts = record { written = λ w. w.regs; whole = λ a v w. refl; stores = λ a v b w. refl };
  shows = record { contents = chip_contents; shows = λ a w. refl; keeps = λ a b w. refl };
  tile = tile;
  home = home;
  core = λ w. w.core;
  via = λ a b. 0xE08;
  on_way = λ a b ne la lb. (0, (omega arith, counter_0));
  resets = λ i a w lt c. reset_count i a w;
  programs = λ a v b w ca cb. no_more a b w;
  switches = λ v b w cb. refl;
  moves = λ c w. refl;
  move_words = λ t c b w. refl;
  move_counts = λ t c b w cb. refl;
  loads = λ q w. record { stays = refl; same_words = λ b. refl; rises = λ b cb. omega arith };
  load_local = λ q b w cb e. refl;
  stores = λ q v w. record { stays = refl; same_words = λ b. refl; rises = λ b cb. one_more q b w };
  store_local = λ q v b w cb e. at_home q b w e;
  store_remote = λ q v w ne g. far q w ne;
}

-- The lookups of a unit after the two threads.
abbrev pub shown_run : ℕ → ℕ → Chip → ℕ → ℕ
shown_run h n w b =
    shown w.count (more h 0 n (more h 0 n w.looks_0)) (more h 1 n (more h 1 n w.looks_1)) b

pub looks_rise :
    (i h n : ℕ) (w : Chip)
    → i < 2
    → i ≡ h
    → chip_contents w (0xE00 + 16 * i + 9) + n ≤ shown_run h n w (0xE00 + 16 * i + 9)
looks_rise zero h n w lt e = ground arith
looks_rise (suc zero) h n w lt e = ground arith
looks_rise (suc (suc i)) h n w lt e = absurd (omega arith)

pub looks_stay :
    (i h n : ℕ) (w : Chip)
    → i < 2
    → i ≢ h
    → shown_run h n w (0xE00 + 16 * i + 9) ≡ chip_contents w (0xE00 + 16 * i + 9)
looks_stay zero h n w lt ne = ground arith
looks_stay (suc zero) h n w lt ne = ground arith
looks_stay (suc (suc i)) h n w lt ne = absurd (omega arith)

abbrev pub chip-CountsLookups : CountsLookups chip skylake chip-IsMesh
chip-CountsLookups = record {
  at_home = λ a b q n i w ne lt e looking. looks_rise i (home q) n w lt e;
  elsewhere = λ a b q n i w lt ne looking. looks_stay i (home q) n w lt ne;
}

abbrev pub chip-IsPageMap : IsPageMap chip_pages
chip-IsPageMap = record {
  entry = λ page. 0;
  position = λ w. w.position;
  page_size = refl;
  opens = λ w. refl;
  seeks = λ offset w. refl;
  sought = λ offset w. refl;
  reads = λ n page w e. refl;
}
