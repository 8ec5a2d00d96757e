-- ===== src/Mutex.antt =====
-- srcs/mutex.h: a mutex, and a scope that holds it. The calls of the system, pthread's or those of Windows, are a
-- parameter.
pub mod Scoped
use core_map.Base.{ℕ}
use core_map.Base.Effect.{State, Outcome, M, ◌>>=◌, ◌>>◌, pure, call, tell}

-- pthread_mutex_init, _destroy, _lock and _unlock, or CreateMutex, CloseHandle, WaitForSingleObject and ReleaseMutex. The
-- first takes the address of the member, and gives what the mutex is known by: that address, or a HANDLE.
pub record MutexCalls (W : Type 0) : Type 0 where
  pub mutex_init : ℕ → W → ℕ × W
  pub mutex_destroy : ℕ → W → W
  pub mutex_lock : ℕ → W → W
  pub mutex_unlock : ℕ → W → W

pub record Mutex : Type 0 where
  pub mutex : ℕ

module _ {W : Type 0} (t : MutexCalls W) where
  -- The constructor, for an object that stands at the address.
  pub new_mutex : ℕ → M W Mutex
  new_mutex address = do mutex ← call (t.mutex_init address); pure (record { mutex = mutex })

  pub delete_mutex : Mutex → M W (Unit {0})
  delete_mutex m = tell (t.mutex_destroy m.mutex)

  unfoldable pub lock : Mutex → M W (Unit {0})
  lock m = tell (t.mutex_lock m.mutex)

  unfoldable pub unlock : Mutex → M W (Unit {0})
  unlock m = tell (t.mutex_unlock m.mutex)

  -- The destructor of a Scope runs when its block is left by a return or by an exception, but not when the process
  -- ends.
  leave_scope : {A : Type 0} → Mutex → Outcome A × State W → Outcome A × State W
  leave_scope m (Outcome.ret a, s) = (Outcome.ret a, (unlock m s).1)
  leave_scope m (Outcome.throws, s) = (Outcome.throws, (unlock m s).1)
  leave_scope m (Outcome.exits c, s) = (Outcome.exits c, s)
  leave_scope m (Outcome.aborts, s) = (Outcome.aborts, s)
  leave_scope m (Outcome.faults, s) = (Outcome.faults, s)
  leave_scope m (Outcome.out_of_fuel, s) = (Outcome.out_of_fuel, s)

  -- { Mutex::Scope scope(m); body }
  pub in_scope : {A : Type 0} → Mutex → M W A → M W A
  unfolding leave_scope
  in_scope m body s = leave_scope m (body (lock m s).1)
