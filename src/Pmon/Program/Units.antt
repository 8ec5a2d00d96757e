-- ===== src/Pmon/Program/Units.antt =====
-- srcs/pmon.cpp, lines 195-365: a loop that writes to the registers of one unit after the other.
use core_map.Base.{ℕ, suc, ◌+◌, ◌≤◌, ◌<◌, ◌≡◌, ◌≢◌, refl, ◌∙◌, ◌⊎◌, inl, inr, List, arith}
use core_map.Base.Effect.{State, M, for_range}
use core_map.Base.Hoare.{Returns, Returns-mono, for_range-Returns}
use core_map.Msr.{MsrDevice}
use core_map.Pmon.{Pmon}
use core_map.Pmon.Tables.Layout.{icl_base}
use core_map.Pmon.Program.{Accepts, Sends}
use core_map.Pmon.Program.Writes.{NoRepeats, AllAvoid, AllHold, final-AllHold, AllHold-kept}

-- The windows of two units do not meet.
pub icl_bases :
    (i j : ℕ)
    → i < 39
    → j < 39
    → i ≢ j
    → (icl_base i + 14 ≤ icl_base j) ⊎ (icl_base j + 14 ≤ icl_base i)
icl_bases i j hi hj h = ground arith

module _ {W : Type 0} (d : MsrDevice W) (p : Pmon) (law : Accepts d p.msr_h.fd) where
  open law use {written}

  -- After n units: nothing was printed, and each register holds the word for it.
  pub record UnitsHold (writes : ℕ → List (ℕ × ℕ)) (n : ℕ) (s t : State W) : Type 0 where
    pub quiet : t.out ≡ s.out
    pub each : (k : ℕ) → k < n → AllHold (writes k) (written t.world)

  module _ (writes : ℕ → List (ℕ × ℕ)) (n : ℕ) (once : (i : ℕ) → NoRepeats (writes i))
      (apart : (i j : ℕ) → i < n → j < n → i ≢ j → AllAvoid (writes i) (writes j)) where
    UnitsHold-suc :
        (i : ℕ) (s t u : State W)
        → i < n
        → UnitsHold writes i s t
        → Sends d p law (writes i) t u
        → UnitsHold writes (suc i) s u
    UnitsHold-suc i s t u lt h g = record {
      quiet = g.quiet ∙ h.quiet;
      each = λ k le. elim (earlier k le) [
        | inl e ↦
            AllHold-kept (writes i) (writes k) (written t.world) (written u.world)
              (apart i k lt (omega arith) (omega arith)) g.regs (h.each k e)
        | inr e ↦
            rw e (final-AllHold (writes i) (written t.world) (written u.world) (once i) g.regs)
      ];
    }
      where
        earlier : (k : ℕ) → k < suc i → (k < i) ⊎ (k ≡ i)
        earlier k le = ground arith

    pub for_range-UnitsHold :
        (body : ℕ → Unit {0} → M W (Unit {0})) (s : State W)
        → ((i : ℕ) (t : State W)
            → i < n
            → Returns (λ _ u. Sends d p law (writes i) t u) (body i tt t))
        → Returns (λ _ t. UnitsHold writes n s t) (for_range n 0 body tt s)
    for_range-UnitsHold body s sends =
        for_range-Returns (λ i _ t. UnitsHold writes i s t) body n 0 n (omega arith)
          (λ i _ t lt h.
            Returns-mono (λ _ u. Sends d p law (writes i) t u) (λ _ u. UnitsHold writes (suc i) s u)
              _ (sends i t lt) (λ _ u g. UnitsHold-suc i s t u lt h g))
          tt s (record { quiet = refl; each = λ k lt. absurd (omega arith) })
