-- ===== src/Mutex/Scoped.antt =====
-- What a scope leaves of its mutex.
use core_map.Base.{ℕ, ◌≡◌, refl, Bool, true, false}
use core_map.Base.Effect.{State, Outcome, ret, exits, aborts, throws, faults, out_of_fuel, M}
use core_map.Mutex.{MutexCalls, Mutex, lock, unlock, in_scope, leave_scope}

-- What the system documents of a mutex that no other thread holds: after a lock it is held, and after an unlock by its
-- holder it is free.
pub record AreMutexCalls {W : Type 0} (t : MutexCalls W) : Type 0 where
  pub held : ℕ → W → Bool
  pub lock_takes : (m : ℕ) (w : W) → held m w ≡ false → held m (t.mutex_lock m w) ≡ true
  pub unlock_frees : (m : ℕ) (w : W) → held m w ≡ true → held m (t.mutex_unlock m w) ≡ false

module _ {W : Type 0} (t : MutexCalls W) (law : AreMutexCalls t) (m : Mutex) where
  open law use {held, lock_takes, unlock_frees}

  -- A body that is entered with the mutex held, and leaves it so.
  abbrev KeepsLock : {A : Type 0} → M W A → Type 0
  KeepsLock body =
      (s : State W) → held m.mutex s.world ≡ true → held m.mutex (body s).1.world ≡ true

  -- Whether the process goes on after this.
  abbrev GoesOn : {A : Type 0} → Outcome A → Type 0
  GoesOn (ret a) = Unit {0}
  GoesOn throws = Unit {0}
  GoesOn (exits c) = ⊥
  GoesOn aborts = ⊥
  GoesOn faults = ⊥
  GoesOn out_of_fuel = ⊥

  left :
      {A : Type 0} (o : Outcome A) (s : State W)
      → held m.mutex s.world ≡ true
      → GoesOn o
      → ((leave_scope t m (o, s)).0 ≡ o) × (held m.mutex (leave_scope t m (o, s)).1.world ≡ false)
  unfolding leave_scope unlock
  left (ret a) s h g = (refl, unlock_frees m.mutex s.world h)
  left throws s h g = (refl, unlock_frees m.mutex s.world h)
  left (exits c) s h g = absurd g
  left aborts s h g = absurd g
  left faults s h g = absurd g
  left out_of_fuel s h g = absurd g

  -- For all calls on a mutex of which a lock takes a free mutex and an unlock frees a held one, and
  -- a body that leaves the mutex held, entered with the mutex free: if the body returns or throws,
  -- the scope ends as the body does and the mutex is free.
  pub in_scope-frees :
      {A : Type 0} (body : M W A) (s : State W)
      → KeepsLock body
      → held m.mutex s.world ≡ false
      → GoesOn (body (lock t m s).1).0
      → ((in_scope t m body s).0 ≡ (body (lock t m s).1).0)
        × (held m.mutex (in_scope t m body s).1.world ≡ false)
  unfolding in_scope lock
  in_scope-frees body s keeps free g =
      let inside : State W = (lock t m s).1 in
      left (body inside).0 (body inside).1 (keeps inside (lock_takes m.mutex s.world free)) g
