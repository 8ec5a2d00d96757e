-- ===== src/Types/Words/SkxChaBoxFilter1.antt =====
-- srcs/types.h, lines 842-848: SKX_CHA_MSR_PMON_BOX_FILTER1_*. `x << k` is x * 2 ^ k, for a 64-bit x that fits its field.
use core_map.Base.{ℕ, ◌*◌, ◌^◌}

abbrev pub rem : ℕ → ℕ
rem x = x

abbrev pub loc : ℕ → ℕ
loc x = x * 2 ^ 1

abbrev pub nm : ℕ → ℕ
nm x = x * 2 ^ 4

abbrev pub not_nm : ℕ → ℕ
not_nm x = x * 2 ^ 5

abbrev pub opc0 : ℕ → ℕ
opc0 x = x * 2 ^ 9

abbrev pub opc1 : ℕ → ℕ
opc1 x = x * 2 ^ 19

abbrev pub nc : ℕ → ℕ
nc x = x * 2 ^ 30
