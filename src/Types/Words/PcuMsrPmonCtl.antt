-- ===== src/Types/Words/PcuMsrPmonCtl.antt =====
-- srcs/types.h, lines 768-777: PCU_MSR_PMON_CTL_*. `x << k` is x * 2 ^ k, for a 64-bit x that fits its field.
use core_map.Base.{ℕ, ◌*◌, ◌^◌}

abbrev pub event : ℕ → ℕ
event x = x

abbrev pub occ_sel : ℕ → ℕ
occ_sel x = x * 2 ^ 14

abbrev pub rst : ℕ
rst = 2 ^ 17

abbrev pub edge_det : ℕ
edge_det = 2 ^ 18

abbrev pub extra_sel : ℕ
extra_sel = 2 ^ 21

abbrev pub en : ℕ
en = 2 ^ 22

abbrev pub invert : ℕ
invert = 2 ^ 23

abbrev pub thresh : ℕ → ℕ
thresh x = x * 2 ^ 24

abbrev pub occ_invert : ℕ
occ_invert = 2 ^ 30

abbrev pub occ_edge_det : ℕ
occ_edge_det = 2 ^ 31
