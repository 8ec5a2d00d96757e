-- ===== src/Tasks/Stores.antt =====
-- srcs/tasks.cpp, lines 65-85: a property of the number of stores that have been made.
use native.Mathlib.Nat.{suc-mul}
use core_map.Base.{ℕ, suc, ◌+◌, ◌*◌, ◌%◌, ◌^◌, ◌≡◌, List, [], ◌∷◌, length, arith}
use core_map.Base.Effect.{State, ◌>>=◌}
use core_map.Base.Hoare.{Returns, Returns-bind, Returns-mono, for_range-Returns}
use core_map.Tasks.{Threads, increment, touch_all, read_and_write_spill_to_l3}

abbrev pub All : (ℕ → Type 0) → List ℕ → Type 0
All ok [] = Unit {0}
All ok (q ∷ ptrs) = ok q × All ok ptrs

-- A load keeps the property, a store leads from it to that of one store more.
module _ {W : Type 0} (t : Threads W) (p : ℕ → W → Type 0) (ok : ℕ → Type 0)
    (load : (k q : ℕ) (w : W) → ok q → p k w → p k (t.load8 q w).1)
    (store : (k q v : ℕ) (w : W) → ok q → p k w → p (suc k) (t.store8 q v w)) where
  move : (k l : ℕ) (w : W) → k ≡ l → p k w → p l w
  move k l w e h = rw e at h

  increment-stores :
      (k q : ℕ) (s : State W)
      → ok q
      → p k s.world
      → Returns (λ _ u. p (suc k) u.world) (increment t q s)
  unfolding increment ◌>>=◌
  increment-stores k q s good h =
      store k q (((t.load8 q s.world).0 + 1) % 2 ^ 8) (t.load8 q s.world).1 good
        (load k q s.world good h)

  touch_all-stores :
      (ptrs : List ℕ) (k res : ℕ) (s : State W)
      → All ok ptrs
      → p k s.world
      → Returns (λ _ u. p (length ptrs + k) u.world) (touch_all t ptrs res s)
  unfolding touch_all
  touch_all-stores [] k res s good h = move k (0 + k) s.world (omega arith) h
  touch_all-stores (q ∷ ptrs) k res s good h =
      Returns-bind (λ _ u. p (suc k) u.world) _ _ _ s (increment-stores k q s good.0 h)
        λ _ s1 h1.
          Returns-bind (λ _ u. p (suc k) u.world) _ _ _ s1 (load (suc k) q s1.world good.0 h1)
            λ r s2 h2.
              Returns-mono (λ _ u. p (length ptrs + suc k) u.world)
                (λ _ u. p (suc (length ptrs) + k) u.world) _
                (touch_all-stores ptrs (suc k) r s2 good.1 h2)
                (λ _ u g.
                  move (length ptrs + suc k) (suc (length ptrs) + k) u.world (omega arith) g)

  -- From the property of no store, once the thread is pinned, to that of all stores.
  pub read_and_write_spill_to_l3-stores :
      (core : ℕ) (ptrs : List ℕ) (n : ℕ) (s : State W)
      → All ok ptrs
      → p 0 (t.pthread_setaffinity (t.pthread_self s.world) core s.world)
      → Returns (λ _ u. p (n * length ptrs) u.world) (read_and_write_spill_to_l3 t core ptrs n s)
  unfolding read_and_write_spill_to_l3
  read_and_write_spill_to_l3-stores core ptrs n s good h =
      let goal = λ (i : ℕ) (res : ℕ) (u : State W). p (i * length ptrs) u.world in
      Returns-bind (λ self u. p 0 (t.pthread_setaffinity self core u.world)) (goal n) _ _ s h
        λ self s1 h1.
          Returns-bind (λ _ u. p 0 u.world) (goal n) _ _ s1 h1
            λ _ s2 h2.
              Returns-bind (λ junk u. p 0 u.world) (goal n) _ _ s2 h2
                λ junk s3 h3.
                  Returns-bind (goal n) (goal n) _ _ s3
                    (for_range-Returns goal (λ i res. touch_all t ptrs res) n 0 n (omega arith)
                      (λ i res u lt g.
                        Returns-mono (λ _ v. p (length ptrs + i * length ptrs) v.world)
                          (goal (suc i)) _ (touch_all-stores ptrs (i * length ptrs) res u good g)
                          (λ _ v k.
                            move (length ptrs + i * length ptrs) (suc i * length ptrs) v.world
                              (omega (arith, suc-mul i (length ptrs))) k))
                      junk s3 (move 0 (0 * length ptrs) s3.world (omega arith) h3))
                    (λ res u g. g)
