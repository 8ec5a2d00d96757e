-- ===== src/Types/Cvt.antt =====
-- srcs/types.h, lines 941-949: cvt_ds, a word of 64 bits and its two halves, the low one first.
use core_map.Base.{ℕ, ◌+◌, ◌*◌, ◌/◌, ◌%◌, ◌^◌}

pub record CvtDs : Type 0 where
  pub low : ℕ
  pub high : ℕ

-- `ui32`, after `ui64` was written, and the other way round.
abbrev pub ui32 : ℕ → CvtDs
ui32 x = record { low = x % 2 ^ 32; high = x / 2 ^ 32 % 2 ^ 32 }

abbrev pub ui64 : CvtDs → ℕ
ui64 c = c.low % 2 ^ 32 + c.high % 2 ^ 32 * 2 ^ 32
