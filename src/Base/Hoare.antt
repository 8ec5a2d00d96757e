-- ===== src/Base/Hoare.antt =====
-- Pre- and postconditions of effectful code, with rules for sequencing and one for counted loops.
use Prim.Native.Nat.{ℕ, zero, suc, ◌+◌, ◌<◌, ◌^◌}
use mathlib.Core.Path.{◌≡◌, refl}
use mathlib.Core.Bool.{Bool, true, false}
use mathlib.Core.Option.{Option, none, some}
use core_map.Base.Tests.{if◌then◌else◌}
use native.Mathlib.Omega.{arith}
use core_map.Base.Effect.{
  Outcome, ret, exits, aborts, throws, faults, out_of_fuel, State, M, continue, ◌>>=◌, for_range,
  at_index, int_sum,
}

-- The code meets no undefined behaviour and does not run out of fuel; if it returns, then `Q` holds of
-- its result and of the state. It may end the process, abort or throw.
abbrev pub Ensures : {W A : Type 0} → (A → State W → Type 0) → Outcome A × State W → Type 0
Ensures Q (ret a, s) = Q a s
Ensures Q (exits c, s) = Unit {0}
Ensures Q (aborts, s) = Unit {0}
Ensures Q (throws, s) = Unit {0}
Ensures Q (faults, s) = ⊥
Ensures Q (out_of_fuel, s) = ⊥

-- The code returns, and `Q` holds of its result and of the state.
abbrev pub Returns : {W A : Type 0} → (A → State W → Type 0) → Outcome A × State W → Type 0
Returns Q (ret a, s) = Q a s
Returns Q (exits c, s) = ⊥
Returns Q (aborts, s) = ⊥
Returns Q (throws, s) = ⊥
Returns Q (faults, s) = ⊥
Returns Q (out_of_fuel, s) = ⊥

module _ {W A B : Type 0} (P : A → State W → Type 0) (Q : B → State W → Type 0) where
  Ensures-continue :
      (o : Outcome A) (s : State W) (f : A → M W B)
      → Ensures P (o, s)
      → ((a : A) (t : State W) → P a t → Ensures Q (f a t))
      → Ensures Q (continue o f s)
  Ensures-continue (ret a) s f h k = k a s h
  Ensures-continue (exits c) s f h k = tt
  Ensures-continue aborts s f h k = tt
  Ensures-continue throws s f h k = tt
  Ensures-continue faults s f h k = absurd h
  Ensures-continue out_of_fuel s f h k = absurd h

  pub Ensures-bind :
      (m : M W A) (f : A → M W B) (s : State W)
      → Ensures P (m s)
      → ((a : A) (t : State W) → P a t → Ensures Q (f a t))
      → Ensures Q ((m >>= f) s)
  unfolding ◌>>=◌
  Ensures-bind m f s h k = Ensures-continue (m s).0 (m s).1 f h k

  Returns-continue :
      (o : Outcome A) (s : State W) (f : A → M W B)
      → Returns P (o, s)
      → ((a : A) (t : State W) → P a t → Returns Q (f a t))
      → Returns Q (continue o f s)
  Returns-continue (ret a) s f h k = k a s h
  Returns-continue (exits c) s f h k = absurd h
  Returns-continue aborts s f h k = absurd h
  Returns-continue throws s f h k = absurd h
  Returns-continue faults s f h k = absurd h
  Returns-continue out_of_fuel s f h k = absurd h

  pub Returns-bind :
      (m : M W A) (f : A → M W B) (s : State W)
      → Returns P (m s)
      → ((a : A) (t : State W) → P a t → Returns Q (f a t))
      → Returns Q ((m >>= f) s)
  unfolding ◌>>=◌
  Returns-bind m f s h k = Returns-continue (m s).0 (m s).1 f h k

module _ {W S : Type 0} (P : ℕ → S → State W → Type 0) (body : ℕ → S → M W S) where
  -- A body that keeps `P` for each index below the end makes the loop keep it.
  pub for_range-Ensures :
      (n i j : ℕ)
      → i + n ≡ j
      → ((k : ℕ) (a : S) (s : State W) → k < j → P k a s → Ensures (P (suc k)) (body k a s))
      → (a : S) (s : State W) → P i a s
      → Ensures (P j) (for_range n i body a s)
  unfolding for_range
  for_range-Ensures zero i j e keep a s h = let e' : i ≡ j = omega arith in subst_P e' h
    where
      subst_P : {k l : ℕ} → k ≡ l → P k a s → P l a s
      subst_P p x = rw p at x
  for_range-Ensures (suc n) i j e keep a s h =
      Ensures-bind (P (suc i)) (P j) (body i a) (λ b. for_range n (suc i) body b) s
        (keep i a s (omega arith) h)
        (λ b t p. for_range-Ensures n (suc i) j (omega arith) keep b t p)

  -- The same for a body that always returns.
  pub for_range-Returns :
      (n i j : ℕ)
      → i + n ≡ j
      → ((k : ℕ) (a : S) (s : State W) → k < j → P k a s → Returns (P (suc k)) (body k a s))
      → (a : S) (s : State W) → P i a s
      → Returns (P j) (for_range n i body a s)
  unfolding for_range
  for_range-Returns zero i j e keep a s h = let e' : i ≡ j = omega arith in subst_P e' h
    where
      subst_P : {k l : ℕ} → k ≡ l → P k a s → P l a s
      subst_P p x = rw p at x
  for_range-Returns (suc n) i j e keep a s h =
      Returns-bind (P (suc i)) (P j) (body i a) (λ b. for_range n (suc i) body b) s
        (keep i a s (omega arith) h)
        (λ b t p. for_range-Returns n (suc i) j (omega arith) keep b t p)

module _ {W A : Type 0} (Q : A → State W → Type 0) where
  pub Returns→Ensures : (r : Outcome A × State W) → Returns Q r → Ensures Q r
  Returns→Ensures (ret a, s) h = h
  Returns→Ensures (exits c, s) h = tt
  Returns→Ensures (aborts, s) h = tt
  Returns→Ensures (throws, s) h = tt
  Returns→Ensures (faults, s) h = h
  Returns→Ensures (out_of_fuel, s) h = h

-- Nothing is claimed of the result.
abbrev pub Any : {W A : Type 0} → A → State W → Type 0
Any a s = Unit {0}

module _ {W A B : Type 0} (Q : B → State W → Type 0) where
  -- Sequencing, where nothing of the first part is used.
  pub Returns-then :
      (m : M W A) (f : A → M W B) (s : State W)
      → Returns Any (m s)
      → ((a : A) (t : State W) → Returns Q (f a t))
      → Returns Q ((m >>= f) s)
  Returns-then m f s h k = Returns-bind Any Q m f s h (λ a t _. k a t)

  pub Ensures-then :
      (m : M W A) (f : A → M W B) (s : State W)
      → Returns Any (m s)
      → ((a : A) (t : State W) → Ensures Q (f a t))
      → Ensures Q ((m >>= f) s)
  Ensures-then m f s h k = Ensures-bind Any Q m f s (Returns→Ensures Any (m s) h) (λ a t _. k a t)

  -- A read at an index that holds `a`.
  pub Returns-index :
      (o : Option A) (f : A → M W B) (s : State W) {a : A}
      → o ≡ some a
      → Returns Q (f a s)
      → Returns Q ((at_index o >>= f) s)
  unfolding ◌>>=◌
  Returns-index none f s e h = cc
  Returns-index (some b) f s {a} e h = let e' : b ≡ a = ground arith in rw e' h

module _ {W A : Type 0} (Q : A → State W → Type 0) where
  pub Returns-if :
      (b : Bool) (m n : M W A) (s : State W)
      → (b ≡ true → Returns Q (m s))
      → (b ≡ false → Returns Q (n s))
      → Returns Q ((if b then m else n) s)
  Returns-if true m n s h k = h refl
  Returns-if false m n s h k = k refl

  pub Ensures-if :
      (b : Bool) (m n : M W A) (s : State W)
      → (b ≡ true → Ensures Q (m s))
      → (b ≡ false → Ensures Q (n s))
      → Ensures Q ((if b then m else n) s)
  Ensures-if true m n s h k = h refl
  Ensures-if false m n s h k = k refl

module _ {W A B : Type 0} (P : A → State W → Type 0) (Q : B → State W → Type 0) where
  -- A part that always returns, in code that may end in other ways.
  pub Ensures-use :
      (m : M W A) (f : A → M W B) (s : State W)
      → Returns P (m s)
      → ((a : A) (t : State W) → P a t → Ensures Q (f a t))
      → Ensures Q ((m >>= f) s)
  Ensures-use m f s h k = Ensures-bind P Q m f s (Returns→Ensures P (m s) h) k

module _ {W A : Type 0} (P Q : A → State W → Type 0) where
  pub Returns-mono :
      (r : Outcome A × State W)
      → Returns P r
      → ((a : A) (s : State W) → P a s → Q a s)
      → Returns Q r
  Returns-mono (ret a, s) h k = k a s h
  Returns-mono (exits c, s) h k = absurd h
  Returns-mono (aborts, s) h k = absurd h
  Returns-mono (throws, s) h k = absurd h
  Returns-mono (faults, s) h k = absurd h
  Returns-mono (out_of_fuel, s) h k = absurd h

module _ {W A B : Type 0} (P : A → State W → Type 0) (Q : Outcome B × State W → Type 0) where
  Returns-first-continue :
      (o : Outcome A) (s : State W) (f : A → M W B)
      → Returns P (o, s)
      → ((a : A) (t : State W) → P a t → Q (f a t))
      → Q (continue o f s)
  Returns-first-continue (ret a) s f h k = k a s h
  Returns-first-continue (exits c) s f h k = absurd h
  Returns-first-continue aborts s f h k = absurd h
  Returns-first-continue throws s f h k = absurd h
  Returns-first-continue faults s f h k = absurd h
  Returns-first-continue out_of_fuel s f h k = absurd h

  -- A part that returns, before one of which anything is claimed, its outcome included.
  pub Returns-first :
      (m : M W A) (f : A → M W B) (s : State W)
      → Returns P (m s)
      → ((a : A) (t : State W) → P a t → Q (f a t))
      → Q ((m >>= f) s)
  unfolding ◌>>=◌
  Returns-first m f s h k = Returns-first-continue (m s).0 (m s).1 f h k

module _ {W A : Type 0} (P Q : A → State W → Type 0) where
  pub Ensures-mono :
      (r : Outcome A × State W)
      → Ensures P r
      → ((a : A) (s : State W) → P a s → Q a s)
      → Ensures Q r
  Ensures-mono (ret a, s) h k = k a s h
  Ensures-mono (exits c, s) h k = tt
  Ensures-mono (aborts, s) h k = tt
  Ensures-mono (throws, s) h k = tt
  Ensures-mono (faults, s) h k = h
  Ensures-mono (out_of_fuel, s) h k = h

module _ {W A : Type 0} where
  -- The state in which code returns is the one that it leaves.
  pub Returns-state : (r : Outcome A × State W) → Returns Any r → Returns (λ _ t. t ≡ r.1) r
  Returns-state (ret a, s) h = refl
  Returns-state (exits c, s) h = absurd h
  Returns-state (aborts, s) h = absurd h
  Returns-state (throws, s) h = absurd h
  Returns-state (faults, s) h = absurd h
  Returns-state (out_of_fuel, s) h = absurd h

module _ {W A : Type 0} (P Q : A → State W → Type 0) where
  pub Returns-and :
      (r : Outcome A × State W) → Returns P r → Returns Q r → Returns (λ a s. P a s × Q a s) r
  Returns-and (ret a, s) h k = (h, k)
  Returns-and (exits c, s) h k = h
  Returns-and (aborts, s) h k = h
  Returns-and (throws, s) h k = h
  Returns-and (faults, s) h k = h
  Returns-and (out_of_fuel, s) h k = h

  -- Code that returns, and ensures more of what it returns.
  pub Returns-ensured :
      (r : Outcome A × State W) → Returns P r → Ensures Q r → Returns (λ a s. P a s × Q a s) r
  Returns-ensured (ret a, s) h k = (h, k)
  Returns-ensured (exits c, s) h k = absurd h
  Returns-ensured (aborts, s) h k = absurd h
  Returns-ensured (throws, s) h k = absurd h
  Returns-ensured (faults, s) h k = absurd h
  Returns-ensured (out_of_fuel, s) h k = absurd h

  pub Ensures-and :
      (r : Outcome A × State W) → Ensures P r → Ensures Q r → Ensures (λ a s. P a s × Q a s) r
  Ensures-and (ret a, s) h k = (h, k)
  Ensures-and (exits c, s) h k = tt
  Ensures-and (aborts, s) h k = tt
  Ensures-and (throws, s) h k = tt
  Ensures-and (faults, s) h k = h
  Ensures-and (out_of_fuel, s) h k = h

-- A sum that fits is returned.
pub int_sum-Returns :
    {W : Type 0} (a b : ℕ) (s : State W)
    → a + b < 2 ^ 31
    → Returns (λ r t. (r ≡ a + b) × (t ≡ s)) (int_sum a b s)
unfolding int_sum
int_sum-Returns a b s h = ground (arith, h)
