-- ===== src/Types/Words/SkxChaTorInserts.antt =====
-- srcs/types.h, lines 850-853: SKX_CHA_TOR_INSERTS_UMASK_*. `x << k` is x * 2 ^ k, for a 64-bit x that fits its field.
use core_map.Base.{ℕ, ◌*◌, ◌^◌}

abbrev pub irq : ℕ → ℕ
irq x = x

abbrev pub prq : ℕ → ℕ
prq x = x * 2 ^ 2

abbrev pub hit : ℕ → ℕ
hit x = x * 2 ^ 4

abbrev pub miss : ℕ → ℕ
miss x = x * 2 ^ 5
