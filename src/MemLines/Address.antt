-- ===== src/MemLines/Address.antt =====
-- srcs/mem_lines.cpp, lines 46-91: from a virtual address to the L2 set that it falls into, through
-- /proc/self/pagemap. The page map, `malloc` and `mlock` are parameters.
pub mod Physical
pub mod Lookup
pub mod Translate
use core_map.Base.{
  is_zero, ℕ, suc, ◌+◌, ◌*◌, ◌/◌, ◌%◌, ◌^◌, ℤ, pos, List, [], ◌∷◌, length, Bool, true, false, not,
  ◌≡◌, ◌==◌, if◌then◌else◌,
}
use core_map.Base.Effect.{
  M, ◌>>=◌, ◌>>◌, pure, exit, call, fault, say, tell, seek_failed, pagemap_read_failed,
}

pub record Pages (W : Type 0) : Type 0 where
  pub getpagesize : ℕ
  -- fopen: whether there is a stream.
  pub open_pagemap : W → Bool × W
  -- fseek: nonzero on failure.
  pub seek_pagemap : ℕ → W → ℤ × W
  -- fread of at most the given number of bytes: those that were read, the lowest address first.
  pub read_pagemap : ℕ → W → List ℕ × W
  pub close_pagemap : W → W
  -- 0 on failure.
  pub malloc : ℕ → W → ℕ × W
  pub free : ℕ → W → W
  pub mlock : ℕ → ℕ → W → ℤ × W
  pub memcpy : ℕ → ℕ → ℕ → W → W

-- `fopen` always gives a stream for the page map.
abbrev pub Opens : {W : Type 0} → Pages W → Type 0
Opens {W} g = (w : W) → (g.open_pagemap w).0 ≡ true

-- `malloc` never gives a null pointer.
abbrev pub Allocates : {W : Type 0} → Pages W → Type 0
Allocates {W} g = (n : ℕ) (w : W) → ((g.malloc n w).0 == 0) ≡ false

-- (addr & 0xFFFF) >> 6
unfoldable pub get_l2_index : ℕ → ℕ
get_l2_index addr = addr % 2 ^ 16 / 2 ^ 6

-- The number whose lowest bytes `fread` has overwritten; the others are zero.
abbrev pub of_bytes : List ℕ → ℕ
of_bytes [] = 0
of_bytes (b ∷ bs) = b + 2 ^ 8 * of_bytes bs

abbrev pagemap_length : ℕ
pagemap_length = 8

abbrev page_shift : ℕ
page_shift = 12

module _ {W : Type 0} (g : Pages W) where
  -- A null stream goes to `fseek` untested.
  unfoldable pub get_page_frame_number_of_address : ℕ → M W ℕ
  get_page_frame_number_of_address addr = do
    opened ← call g.open_pagemap
    if not opened then fault else (do
      r ← call (g.seek_pagemap (addr / g.getpagesize * pagemap_length % 2 ^ 64))
      if is_zero r
          then (do
            bytes ← call (g.read_pagemap 7)
            if length bytes == 0
                then (do say pagemap_read_failed; exit (pos 1))
                else (do tell g.close_pagemap; pure (of_bytes bytes % 2 ^ 55)))
          else (do say seek_failed; exit (pos 1)))

  unfoldable pub get_physical_address : ℕ → M W ℕ
  unfolding get_page_frame_number_of_address
  get_physical_address addr = do
    page_frame_number ← get_page_frame_number_of_address addr
    pure ((page_frame_number * 2 ^ page_shift + addr % g.getpagesize) % 2 ^ 64)
