-- ===== src/MemLines/Object.antt =====
-- srcs/mem_lines.h, and lines 18-44 of srcs/mem_lines.cpp: the object, its constructor and its
-- destructor. Lines are indices into the block of memory; -1 marks a core that is not mapped yet.
pub mod Fresh
use core_map.Base.{
  ◌||◌, ◌==◌, ℕ, ◌+◌, ◌*◌, ◌/◌, ◌%◌, ◌^◌, ◌-◌, ◌<◌, arith, ℤ, pos, minus_one, is_minus_one, List,
  [], replicate, if◌then◌else◌,
}
use core_map.Base.Effect.{
  RingChannel, M, ◌>>=◌, ◌>>◌, pure, exit, call, fault, say, tell, mlock_failed,
}
use core_map.Msr.{MsrDevice}
use core_map.Tasks.{Threads}
use core_map.MemLines.Address.{Pages}

-- All that the program runs on.
pub record Machine (W : Type 0) : Type 0 where
  pub msr : MsrDevice W
  pub pages : Pages W
  pub threads : Threads W

unfoldable pub num_lines : ℕ
num_lines = 1024 * 1024 * 16

pub zero-lt-num_lines : 0 < num_lines
unfolding num_lines
zero-lt-num_lines = omega arith

abbrev pub line_size : ℕ
line_size = 64

abbrev pub lines_to_find_per_core : ℕ
lines_to_find_per_core = 22

-- One node of a busy path.
abbrev pub Node : Type 0
Node = ℕ × RingChannel

pub record MemLines : Type 0 where
  pub core_map_cha_to_os : List ℤ
  pub core_map_os_to_cha : List ℤ
  pub memory_bulk : ℕ
  pub memory_bulk_alloc : ℕ
  pub base_core_id : ℕ
  pub num_cores : ℕ
  pub num_physical_cores : ℕ
  pub local_lines : List (List ℕ)
  pub local_found_count : ℕ
  -- The map, in the order of its keys.
  pub busy_paths : List ((ℕ × ℕ) × List Node)

-- (alloc + 0x1000 - 1) & ~0xFFF
pub align_page : ℕ → ℕ
align_page alloc = (alloc + 0x1000 - 1) % 2 ^ 64 / 2 ^ 12 * 2 ^ 12

module _ {W : Type 0} (m : Machine W) where
  open m use {pages}

  -- `memcpy` gets what `malloc` gave, a null pointer included.
  pub new_mem_lines : ℕ → ℕ → ℕ → M W MemLines
  new_mem_lines base cores physical = do
    alloc ← call (pages.malloc (num_lines * line_size + 0x1000))
    let bulk = align_page alloc
    r ← call (pages.mlock bulk (num_lines * line_size))
    if is_minus_one r then (do say mlock_failed; exit (pos 1)) else (do
      shared ← call (pages.malloc (num_lines * line_size))
      if (alloc == 0) || (shared == 0) then fault else (do
        tell (pages.memcpy bulk shared (num_lines * line_size))
        tell (pages.free shared)
        pure (record {
          core_map_cha_to_os = replicate physical minus_one;
          core_map_os_to_cha = replicate cores minus_one;
          memory_bulk = bulk;
          memory_bulk_alloc = alloc;
          base_core_id = base;
          num_cores = cores;
          num_physical_cores = physical;
          local_lines = [];
          local_found_count = 0;
          busy_paths = [];
        })))

  pub delete_mem_lines : MemLines → M W (Unit {0})
  delete_mem_lines ml = tell (pages.free ml.memory_bulk_alloc)

-- The address of a line.
unfoldable pub line_at : MemLines → ℕ → ℕ
line_at ml line = (ml.memory_bulk + line * line_size) % 2 ^ 64
