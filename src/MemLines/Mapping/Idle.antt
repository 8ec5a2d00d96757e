-- ===== src/MemLines/Mapping/Idle.antt =====
-- srcs/mem_lines.cpp, lines 211-221: the loop that looks for a busy ring channel.
use core_map.Base.{
  ℕ, zero, suc, ◌+◌, ◌≤◌, ◌<◌, ◌≡◌, refl, ◌↔◌, inl, inr, Bool, true, false, some, List, length,
  get_elem?, get_elem?-lt_some, Bool-cases, arith,
}
use native.Mathlib.Decide.{ℕ_discrete}
use core_map.Base.Effect.{State}
use core_map.Base.Hoare.{Returns, Returns-index, Returns-mono}
use core_map.Pmon.Report.{CoreCounters}
use core_map.MemLines.Mapping.{is_busy, all_idle}

-- No ring channel of the unit is above the limit.
pub record Quiet (limit : ℕ) (c : CoreCounters) : Type 0 where
  pub up : c.ctr0 ≤ limit
  pub down : c.ctr1 ≤ limit
  pub left : c.ctr2 ≤ limit
  pub right : c.ctr3 ≤ limit

is_busy-Quiet : (limit : ℕ) (c : CoreCounters) → is_busy limit c ≡ false → Quiet limit c
unfolding is_busy
is_busy-Quiet limit c e = ground arith

is_busy-not_Quiet : (limit : ℕ) (c : CoreCounters) → is_busy limit c ≡ true → ¬ Quiet limit c
unfolding is_busy
is_busy-not_Quiet limit c e q = ground arith

-- The units from i up to j are quiet.
abbrev pub QuietFrom : ℕ → ℕ → List CoreCounters → Type 0
QuietFrom i j cs =
    (k : ℕ) (c : CoreCounters) → i ≤ k → k < j → get_elem? cs k ≡ some c → Quiet 100000 c

QuietFrom-suc :
    (i j : ℕ) (cs : List CoreCounters) (c : CoreCounters)
    → get_elem? cs i ≡ some c
    → Quiet 100000 c
    → QuietFrom (suc i) j cs
    → QuietFrom i j cs
QuietFrom-suc i j cs c e q rest k x h lt ek = elim (ℕ_discrete k i) [
  | yes same ↦ ground arith
  | no other ↦ rest k x (omega arith) lt ek
]

-- The result of the loop, and that the state is as it was.
abbrev pub Tells : {W : Type 0} → ℕ → ℕ → List CoreCounters → State W → Bool → State W → Type 0
Tells i j cs s b t = ((b ≡ true) ↔ QuietFrom i j cs) × (t ≡ s)

-- For any range of units that have counters, the loop returns true exactly when no ring channel of
-- those units is above 100000, and leaves the state as it was.
pub all_idle-Returns :
    {W : Type 0} (n i j : ℕ) (cs : List CoreCounters) (s : State W)
    → i + n ≡ j
    → j ≤ length cs
    → Returns (Tells i j cs s) (all_idle n i cs s)
unfolding all_idle
all_idle-Returns zero i j cs s e h = (((λ _ k c a b _. absurd (omega arith)), (λ _. refl)), refl)
all_idle-Returns (suc n) i j cs s e h =
    let (c, ec) = get_elem?-lt_some cs i (omega arith) in
    Returns-index _ _ _ s ec (elim (Bool-cases (is_busy 100000 c)) [
      | inl busy ↦ rw busy (
        (
          (λ b. cc),
          (λ q. absurd (is_busy-not_Quiet _ c busy (q i c (omega arith) (omega arith) ec))),
        ),
        refl,
      )
      | inr idle ↦ rw idle (
          Returns-mono (Tells (suc i) j cs s) (Tells i j cs s) _
            (all_idle-Returns n (suc i) j cs s (omega arith) h)
            (λ b t got. (
              (
                (λ e. QuietFrom-suc i j cs c ec (is_busy-Quiet _ c idle) (got.0.0 e)),
                (λ q. got.0.1 (λ k x lo hi ek. q k x (omega arith) hi ek)),
              ),
              got.1,
            )))
    ])
