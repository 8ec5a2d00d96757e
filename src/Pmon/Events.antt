-- ===== src/Pmon/Events.antt =====
-- srcs/pmon.cpp: the words that are written to the control and filter registers.
use Prim.Native.Nat.{bit_or}
use core_map.Base.{ℕ, ◌*◌, ◌^◌}

-- (1 << 22) | sel | (1 << 17) | (umask << 8)
abbrev pub event_unit : ℕ → ℕ → ℕ
event_unit sel umask = bit_or (bit_or (bit_or (2 ^ 22) sel) (2 ^ 17)) (umask * 2 ^ 8)

-- LLC_LOOKUP of set_llc_pmon_icl, with the extended mask.
abbrev pub event_unit_lookup_icl : ℕ
event_unit_lookup_icl =
    bit_or (bit_or (bit_or (bit_or (2 ^ 22) 0x34) (2 ^ 17)) (0x1FFF * 2 ^ 32)) (0xFF * 2 ^ 8)

abbrev pub box_filter0_skl : ℕ
box_filter0_skl = 0b01100000 * 2 ^ 17

abbrev pub box_filter1_skl : ℕ
box_filter1_skl =
    bit_or
      (bit_or (bit_or (bit_or (bit_or (bit_or (0x259 * 2 ^ 19) (0x201 * 2 ^ 9)) (2 ^ 5)) (2 ^ 4)) 0)
        (2 ^ 1))
      1
