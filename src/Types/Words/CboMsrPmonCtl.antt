-- ===== src/Types/Words/CboMsrPmonCtl.antt =====
-- srcs/types.h, lines 830-837: CBO_MSR_PMON_CTL_*. `x << k` is x * 2 ^ k, for a 64-bit x that fits its field.
use core_map.Base.{ℕ, ◌*◌, ◌^◌}

abbrev pub event : ℕ → ℕ
event x = x

abbrev pub umask : ℕ → ℕ
umask x = x * 2 ^ 8

abbrev pub rst : ℕ
rst = 2 ^ 17

abbrev pub edge_det : ℕ
edge_det = 2 ^ 18

abbrev pub tid_en : ℕ
tid_en = 2 ^ 19

abbrev pub en : ℕ
en = 2 ^ 22

abbrev pub invert : ℕ
invert = 2 ^ 23

abbrev pub thresh : ℕ → ℕ
thresh x = x * 2 ^ 24
