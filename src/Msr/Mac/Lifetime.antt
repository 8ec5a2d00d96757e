-- ===== src/Msr/Mac/Lifetime.antt =====
-- srcs/msr.cpp, lines 100-158: the shared accessor is there exactly as long as there are handles.
use core_map.Base.{ℕ, zero, suc, ◌≡◌, refl, List, [], ◌∷◌, Option, none, some, pos}
use core_map.Base.Effect.{State, M, ◌>>=◌, ◌>>◌, pure}
use core_map.Base.Hoare.{Returns, Returns-bind}
use core_map.Msr.Mac.{Accessor, Mac, construct, destroy, through, mac_write, mac_read}

-- What a program does with handles.
pub data HandleCall : Type 0 where
  constructs : ℕ → HandleCall
  destroys : HandleCall
  writes : ℕ → ℕ → ℕ → HandleCall
  reads : ℕ → ℕ → ℕ → HandleCall

-- With n handles alive, only live handles are used and destroyed, and m are alive at the end.
abbrev Valid : ℕ → List HandleCall → ℕ → Type 0
Valid n [] m = n ≡ m
Valid n (constructs cpu ∷ calls) m = Valid (suc n) calls m
Valid zero (destroys ∷ calls) m = ⊥
Valid (suc n) (destroys ∷ calls) m = Valid n calls m
Valid zero (writes cpu a v ∷ calls) m = ⊥
Valid (suc n) (writes cpu a v ∷ calls) m = Valid (suc n) calls m
Valid zero (reads cpu a old ∷ calls) m = ⊥
Valid (suc n) (reads cpu a old ∷ calls) m = Valid (suc n) calls m

module _ {W D : Type 0} (a : Accessor W D) where
  pub play : List HandleCall → M (Mac W D) (Unit {0})
  play [] = pure tt
  play (constructs cpu ∷ calls) = construct a cpu >> play calls
  play (destroys ∷ calls) = destroy a >> play calls
  play (writes cpu r v ∷ calls) = mac_write a cpu r v >> play calls
  play (reads cpu r old ∷ calls) = mac_read a cpu r old >> play calls

-- There is an accessor exactly when there are handles.
abbrev HasDriver : {D : Type 0} → ℕ → Option D → Type 0
HasDriver zero o = o ≡ none
HasDriver {D} (suc n) o = (d : D) × (o ≡ some d)

-- The counter is the number of live handles.
pub record Counted {W D : Type 0} (n : ℕ) (x : Mac W D) : Type 0 where
  pub count : x.num_handles ≡ pos n
  pub shared : HasDriver n x.driver

module _ {W D : Type 0} (a : Accessor W D) where
  construct-Counted :
      (n cpu : ℕ) (s : State (Mac W D))
      → Counted n s.world
      → Returns (λ _ t. Counted (suc n) t.world) (construct a cpu s)
  unfolding construct ◌>>=◌
  construct-Counted zero cpu s c = rw c.shared (record { count = refl; shared = (_, refl) })
  construct-Counted (suc n) cpu s c =
      rw (c.shared.1) (record { count = rw c.count refl; shared = (_, refl) })

  destroy-Counted :
      (n : ℕ) (s : State (Mac W D))
      → Counted (suc n) s.world
      → Returns (λ _ t. Counted n t.world) (destroy a s)
  unfolding destroy
  destroy-Counted zero s c = rw c.count (record { count = refl; shared = refl })
  destroy-Counted (suc n) s c = rw c.count (record { count = refl; shared = c.shared })

  through-Counted :
      (n : ℕ) {A : Type 0} (f : D → W → A × W) (s : State (Mac W D))
      → Counted (suc n) s.world
      → Returns (λ _ t. Counted (suc n) t.world) (through a s.world.driver f s)
  unfolding through
  through-Counted n f s c = rw (c.shared.1) (record { count = c.count; shared = (_, refl) })

  -- On macOS, for every accessor and every sequence of calls that uses and destroys live handles
  -- only, from a state whose counter is the number of live handles and which has an accessor
  -- exactly when there are some: no call goes through a null pointer, all return, and at the end
  -- the counter is again the number of live handles and the accessor is there exactly when there
  -- are some.
  pub play-Counted :
      (calls : List HandleCall) (n m : ℕ) (s : State (Mac W D))
      → Counted n s.world
      → Valid n calls m
      → Returns (λ _ t. Counted m t.world) (play a calls s)
  unfolding play mac_write mac_read
  play-Counted [] n m s c v = rw (← v) c
  play-Counted (constructs cpu ∷ calls) n m s c v =
      Returns-bind (λ _ t. Counted (suc n) t.world) (λ _ t. Counted m t.world) _ _ s
        (construct-Counted n cpu s c) (λ _ t h. play-Counted calls (suc n) m t h v)
  play-Counted (destroys ∷ calls) zero m s c v = absurd v
  play-Counted (destroys ∷ calls) (suc n) m s c v =
      Returns-bind (λ _ t. Counted n t.world) (λ _ t. Counted m t.world) _ _ s
        (destroy-Counted n s c) (λ _ t h. play-Counted calls n m t h v)
  play-Counted (writes cpu r x ∷ calls) zero m s c v = absurd v
  play-Counted (writes cpu r x ∷ calls) (suc n) m s c v =
      Returns-bind (λ _ t. Counted (suc n) t.world) (λ _ t. Counted m t.world) _ _ s
        (through-Counted n _ s c) (λ _ t h. play-Counted calls (suc n) m t h v)
  play-Counted (reads cpu r x ∷ calls) zero m s c v = absurd v
  play-Counted (reads cpu r x ∷ calls) (suc n) m s c v =
      Returns-bind (λ _ t. Counted (suc n) t.world) (λ _ t. Counted m t.world) _ _ s
        (through-Counted n _ s c) (λ _ t h. play-Counted calls (suc n) m t h v)
