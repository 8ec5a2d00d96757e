-- ===== src/Types/Words/McChPciPmonFixedCtl.antt =====
-- srcs/types.h, lines 742-743: MC_CH_PCI_PMON_FIXED_CTL_*. `x << k` is x * 2 ^ k, for a 64-bit x that fits its field.
use core_map.Base.{ℕ, ◌^◌}

abbrev pub rst : ℕ
rst = 2 ^ 19

abbrev pub en : ℕ
en = 2 ^ 22
