-- ===== src/Tasks/Returns.antt =====
-- The workloads return.
use core_map.Base.{◌≡◌, refl, ℕ, List, [], ◌∷◌, arith}
use core_map.Base.Effect.{State, ◌>>=◌}
use core_map.Base.Hoare.{Returns, Any, Returns-then, for_range-Returns}
use core_map.Tasks.{
  Threads, JobInfo, rw_job, ro_job, increment, read_and_write, touch_all,
  read_and_write_spill_to_l3,
}

module _ {W : Type 0} (t : Threads W) where
  pub read_and_write-Returns :
      (a b ptr n : ℕ) (s : State W) → Returns Any (read_and_write t a b ptr n s)
  unfolding read_and_write ◌>>=◌
  read_and_write-Returns a b ptr n s = tt

  -- The two threads from start to end.
  abbrev pub pair_run : ℕ → ℕ → JobInfo → W → W
  pair_run a b info w =
      let (thread1, w1) = t.pthread_create rw_job info w in
      let (thread2, w2) = t.pthread_create ro_job info w1 in
      t.pthread_join thread2 (
        t.pthread_join thread1
          (t.pthread_setaffinity thread2 b (t.pthread_setaffinity thread1 a w2)))

  pub read_and_write-pair_run :
      (a b ptr n : ℕ) (s : State W)
      → Returns
          (λ _ u. u.world ≡ pair_run a b (record { access_ptr = ptr; repeat = n }) s.world)
          (read_and_write t a b ptr n s)
  unfolding read_and_write ◌>>=◌
  read_and_write-pair_run a b ptr n s = refl

  increment-Returns : (p : ℕ) (s : State W) → Returns Any (increment t p s)
  unfolding increment ◌>>=◌
  increment-Returns p s = tt

  touch_all-Returns : (ptrs : List ℕ) (res : ℕ) (s : State W) → Returns Any (touch_all t ptrs res s)
  unfolding touch_all
  touch_all-Returns [] res s = tt
  touch_all-Returns (p ∷ ptrs) res s =
      Returns-then Any _ _ s (increment-Returns p s)
        λ _ u. Returns-then Any _ _ u tt λ r v. touch_all-Returns ptrs r v

  pub read_and_write_spill_to_l3-Returns :
      (core : ℕ) (ptrs : List ℕ) (n : ℕ) (s : State W)
      → Returns Any (read_and_write_spill_to_l3 t core ptrs n s)
  unfolding read_and_write_spill_to_l3
  read_and_write_spill_to_l3-Returns core ptrs n s = Returns-then Any _ _ s tt λ self s1.
      Returns-then Any _ _ s1 tt λ _ s2. Returns-then Any _ _ s2 tt λ junk s3.
        Returns-then Any _ _ s3
          (for_range-Returns (λ i. Any) (λ i res. touch_all t ptrs res) n 0 n (omega arith)
            (λ k a u lt _. touch_all-Returns ptrs a u) junk s3 tt)
          (λ res u. tt)
