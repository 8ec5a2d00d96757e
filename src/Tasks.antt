-- ===== src/Tasks.antt =====
-- srcs/tasks.h and srcs/tasks.cpp: the workloads. Threads, the memory and the scheduler are
-- parameters; what the two jobs do is `Tasks.Jobs`.
pub mod Jobs
pub mod Returns
pub mod Spill
pub mod Stores
use core_map.Base.{ℕ, ◌+◌, ◌%◌, ◌^◌, List, [], ◌∷◌, ℤ, pos}
use core_map.Base.Effect.{M, ◌>>=◌, ◌>>◌, pure, call, tell, for_range}

-- The two thread functions.
pub data Job : Type 0 where
  rw_job ro_job : Job

pub record JobInfo : Type 0 where
  pub access_ptr : ℕ
  pub repeat : ℕ

-- Threads and volatile accesses to single bytes. `indeterminate` is what an uninitialised variable
-- holds.
pub record Threads (W : Type 0) : Type 0 where
  pub pthread_create : Job → JobInfo → W → ℕ × W
  pub pthread_setaffinity : ℕ → ℕ → W → W
  pub pthread_join : ℕ → W → W
  pub pthread_self : W → ℕ
  pub load8 : ℕ → W → ℕ × W
  pub store8 : ℕ → ℕ → W → W
  pub indeterminate : W → ℕ

module _ {W : Type 0} (t : Threads W) where
  -- *p = *p + 1
  increment : ℕ → M W (Unit {0})
  increment p = do v ← call (t.load8 p); tell (t.store8 p ((v + 1) % 2 ^ 8))

  pub read_and_write : ℕ → ℕ → ℕ → ℕ → M W ℤ
  read_and_write core_a core_b access_ptr repeat = do
    let ji : JobInfo = record { access_ptr = access_ptr; repeat = repeat }
    thread1 ← call (t.pthread_create rw_job ji)
    thread2 ← call (t.pthread_create ro_job ji)
    tell (t.pthread_setaffinity thread1 core_a)
    tell (t.pthread_setaffinity thread2 core_b)
    tell (t.pthread_join thread1)
    tell (t.pthread_join thread2)
    pure (pos 0)

  -- The inner loop; `res` is the last byte that was read.
  touch_all : List ℕ → ℕ → M W ℕ
  unfolding increment
  touch_all [] res = pure res
  touch_all (p ∷ ptrs) res = do increment p; r ← call (t.load8 p); touch_all ptrs r

  pub read_and_write_spill_to_l3 : ℕ → List ℕ → ℕ → M W ℕ
  unfolding touch_all
  read_and_write_spill_to_l3 core_id ptrs repeat = do
    self ← call (λ w. (t.pthread_self w, w))
    tell (t.pthread_setaffinity self core_id)
    junk ← call (λ w. (t.indeterminate w, w))
    res ← for_range repeat 0 (λ i res. touch_all ptrs res) junk
    pure (res % 2 ^ 32)
