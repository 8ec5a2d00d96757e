-- ===== src/Types/Words/IioMsrPmonCtl.antt =====
-- srcs/types.h, lines 862-871: IIO_MSR_PMON_CTL_*. `x << k` is x * 2 ^ k, for a 64-bit x that fits its field.
use core_map.Base.{ℕ, ◌*◌, ◌^◌}

abbrev pub event : ℕ → ℕ
event x = x

abbrev pub umask : ℕ → ℕ
umask x = x * 2 ^ 8

abbrev pub rst : ℕ
rst = 2 ^ 17

abbrev pub edge_det : ℕ
edge_det = 2 ^ 18

abbrev pub ov_en : ℕ
ov_en = 2 ^ 20

abbrev pub en : ℕ
en = 2 ^ 22

abbrev pub invert : ℕ
invert = 2 ^ 23

abbrev pub thresh : ℕ → ℕ
thresh x = x * 2 ^ 24

abbrev pub ch_mask : ℕ → ℕ
ch_mask x = x * 2 ^ 36

abbrev pub fc_mask : ℕ → ℕ
fc_mask x = x * 2 ^ 44
