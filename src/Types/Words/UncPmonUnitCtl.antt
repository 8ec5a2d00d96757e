-- ===== src/Types/Words/UncPmonUnitCtl.antt =====
-- srcs/types.h, lines 734-740: UNC_PMON_UNIT_CTL_*. `x << k` is x * 2 ^ k, for a 64-bit x that fits its field.
use core_map.Base.{ℕ, ◌+◌, ◌-◌, ◌^◌}

abbrev pub rst_control : ℕ
rst_control = 1

abbrev pub rst_counters : ℕ
rst_counters = 2 ^ 1

abbrev pub frz : ℕ
frz = 2 ^ 8

abbrev pub frz_en : ℕ
frz_en = 2 ^ 16

abbrev pub rsv : ℕ
rsv = 2 ^ 16 + 2 ^ 17

abbrev pub valid_bits_mask : ℕ
valid_bits_mask = 2 ^ 17 - 1
