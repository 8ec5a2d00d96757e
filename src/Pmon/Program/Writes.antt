-- ===== src/Pmon/Program/Writes.antt =====
-- Sequences of writes to registers: what is written last stays, and what is not written is kept.
use core_map.Base.{ℕ, ◌≡◌, ◌≢◌, refl, ◌∙◌, List, [], ◌∷◌, ◌==◌, if◌then◌else◌, arith}
use core_map.Pmon.Program.{final}

-- The register is none of those that are written.
abbrev Avoids : List (ℕ × ℕ) → ℕ → Type 0
Avoids [] b = Unit {0}
Avoids ((a, v) ∷ ws) b = (a ≢ b) × Avoids ws b

-- No register is written twice.
abbrev pub NoRepeats : List (ℕ × ℕ) → Type 0
NoRepeats [] = Unit {0}
NoRepeats ((a, v) ∷ ws) = Avoids ws a × NoRepeats ws

-- The first sequence writes none of the registers of the second.
abbrev pub AllAvoid : List (ℕ × ℕ) → List (ℕ × ℕ) → Type 0
AllAvoid ws [] = Unit {0}
AllAvoid ws ((a, v) ∷ vs) = Avoids ws a × AllAvoid ws vs

-- Each register holds the word that is written to it.
abbrev pub AllHold : List (ℕ × ℕ) → (ℕ → ℕ) → Type 0
AllHold [] reg = Unit {0}
AllHold ((a, v) ∷ ws) reg = (reg a ≡ v) × AllHold ws reg

final-Avoids : (ws : List (ℕ × ℕ)) (b x : ℕ) → Avoids ws b → final ws b x ≡ x
unfolding final
final-Avoids [] b x h = refl
final-Avoids ((a, v) ∷ ws) b x h =
    let e : (if a == b then v else x) ≡ x = ground arith in final-Avoids ws b _ h.1 ∙ e

pub final-AllHold :
    (ws : List (ℕ × ℕ)) (old reg : ℕ → ℕ)
    → NoRepeats ws
    → ((b : ℕ) → reg b ≡ final ws b (old b))
    → AllHold ws reg
unfolding final
final-AllHold [] old reg h same = tt
final-AllHold ((a, v) ∷ ws) old reg h same =
    let first : (if a == a then v else old a) ≡ v = ground arith in
    (
      same a ∙ final-Avoids ws a _ h.0 ∙ first,
      final-AllHold ws (λ b. if a == b then v else old b) reg h.1 same,
    )

pub AllHold-kept :
    (ws vs : List (ℕ × ℕ)) (old reg : ℕ → ℕ)
    → AllAvoid ws vs
    → ((b : ℕ) → reg b ≡ final ws b (old b))
    → AllHold vs old
    → AllHold vs reg
AllHold-kept ws [] old reg apart same h = tt
AllHold-kept ws ((a, v) ∷ vs) old reg apart same h =
    (same a ∙ final-Avoids ws a _ apart.0 ∙ h.0, AllHold-kept ws vs old reg apart.1 same h.1)
