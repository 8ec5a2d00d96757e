-- ===== src/Pmon/Report.antt =====
-- srcs/pmon.h, `core_counters`, and the line that srcs/pmon.cpp prints of a busy path.
use core_map.Base.{ℕ, suc, List, [], ◌∷◌, ◌++◌, ltb, if◌then◌else◌}
use core_map.Base.Effect.{RingChannel, ch_up, ch_down, ch_left, ch_right}

pub record CoreCounters : Type 0 where
  pub ctr0 : ℕ
  pub ctr1 : ℕ
  pub ctr2 : ℕ
  pub ctr3 : ℕ

-- What print_busy_path prints of one unit.
busy_entries : ℕ → ℕ → CoreCounters → List (ℕ × RingChannel × ℕ)
busy_entries limit i c =
    (if ltb limit c.ctr0 then (i, ch_up, c.ctr0) ∷ [] else [])
    ++ (if ltb limit c.ctr1 then (i, ch_down, c.ctr1) ∷ [] else [])
    ++ (if ltb limit c.ctr2 then (i, ch_left, c.ctr2) ∷ [] else [])
    ++ (if ltb limit c.ctr3 then (i, ch_right, c.ctr3) ∷ [] else [])

unfoldable pub busy_report : ℕ → ℕ → List CoreCounters → List (ℕ × RingChannel × ℕ)
unfolding busy_entries
busy_report limit i [] = []
busy_report limit i (c ∷ cs) = busy_entries limit i c ++ busy_report limit (suc i) cs
