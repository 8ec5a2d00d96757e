-- ===== src/Types/Words/PcuBoxFilter.antt =====
-- srcs/types.h, lines 763-766: PCU_MSR_PMON_BOX_FILTER_*. `x << k` is x * 2 ^ k, for a 64-bit x that fits its field.
use core_map.Base.{ℕ, ◌*◌, ◌^◌}

abbrev pub band_0 : ℕ → ℕ
band_0 x = x

abbrev pub band_1 : ℕ → ℕ
band_1 x = x * 2 ^ 8

abbrev pub band_2 : ℕ → ℕ
band_2 x = x * 2 ^ 16

abbrev pub band_3 : ℕ → ℕ
band_3 x = x * 2 ^ 24
