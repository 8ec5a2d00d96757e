-- ===== src/Tasks/Spill.antt =====
-- srcs/tasks.cpp, lines 65-85: what the loop over the lines does to the bytes that they start with.
use native.Mathlib.Nat.{suc-mul}
use core_map.Base.{
  ℕ, suc, ◌+◌, ◌*◌, ◌%◌, ◌^◌, ◌<◌, ◌≡◌, refl, List, [], ◌∷◌, ◌==◌, if◌then◌else◌, arith,
}
use core_map.Base.Effect.{State, ◌>>=◌}
use core_map.Base.Hoare.{Returns, Returns-bind, Returns-mono, for_range-Returns}
use core_map.Tasks.{Threads, increment, touch_all, read_and_write_spill_to_l3}

-- Memory of bytes that no other thread writes: a load shows the byte and changes none, a store changes that byte
-- alone, and a thread's core does not matter.
pub record IsMemory {W : Type 0} (t : Threads W) : Type 0 where
  pub byte : ℕ → W → ℕ
  pub small : (p : ℕ) (w : W) → byte p w < 2 ^ 8
  pub loads : (p : ℕ) (w : W) → (t.load8 p w).0 ≡ byte p w
  pub load_keeps : (p q : ℕ) (w : W) → byte q (t.load8 p w).1 ≡ byte q w
  pub stores :
      (p v q : ℕ) (w : W) → v < 2 ^ 8 → byte q (t.store8 p v w) ≡ (if q == p then v else byte q w)
  pub moves : (thread core q : ℕ) (w : W) → byte q (t.pthread_setaffinity thread core w) ≡ byte q w

-- How often the address stands in the list.
abbrev pub count : ℕ → List ℕ → ℕ
count q [] = 0
count q (p ∷ ptrs) = (if q == p then 1 else 0) + count q ptrs

module _ {W : Type 0} (t : Threads W) (law : IsMemory t) where
  open law use {byte, small, loads, load_keeps, stores, moves}

  -- Every byte has grown by its number.
  abbrev pub Adds : (ℕ → ℕ) → State W → State W → Type 0
  Adds by s u = (q : ℕ) → byte q u.world ≡ (byte q s.world + by q) % 2 ^ 8

  abbrev Keeps : State W → State W → Type 0
  Keeps s u = (q : ℕ) → byte q u.world ≡ byte q s.world

  increment-Adds :
      (p : ℕ) (s : State W)
      → Returns (λ _ u. Adds (λ q. if q == p then 1 else 0) s u) (increment t p s)
  unfolding increment ◌>>=◌
  increment-Adds p s q =
      let w : W = (t.load8 p s.world).1 in
      let v : ℕ = (t.load8 p s.world).0 in
      ground (
        arith,
        stores p ((v + 1) % 2 ^ 8) q w,
        load_keeps p q s.world,
        loads p s.world,
        small q s.world,
      )

  touch_all-Adds :
      (ptrs : List ℕ) (res : ℕ) (s : State W)
      → Returns (λ _ u. Adds (λ q. count q ptrs) s u) (touch_all t ptrs res s)
  unfolding touch_all
  touch_all-Adds [] res s = λ q. omega (arith, small q s.world)
  touch_all-Adds (p ∷ ptrs) res s =
      Returns-bind (λ _ u. Adds (λ q. if q == p then 1 else 0) s u)
        (λ _ u. Adds (λ q. count q (p ∷ ptrs)) s u) _ _ s (increment-Adds p s)
        λ _ s1 h.
          Returns-bind (λ _ u. Keeps s1 u) (λ _ u. Adds (λ q. count q (p ∷ ptrs)) s u) _ _ s1
            (λ q. load_keeps p q s1.world)
            λ r s2 k.
              Returns-mono (λ _ u. Adds (λ q. count q ptrs) s2 u)
                (λ _ u. Adds (λ q. count q (p ∷ ptrs)) s u) _ (touch_all-Adds ptrs r s2)
                (λ _ u g q. ground (arith, h q, k q, g q))

  -- On memory in which a load changes nothing and a store changes its own byte: the routine
  -- returns, and every byte of memory has grown by the number of rounds times the number of times
  -- its address stands in the list, modulo 256.
  pub read_and_write_spill_to_l3-Adds :
      (core : ℕ) (ptrs : List ℕ) (n : ℕ) (s : State W)
      → Returns
          (λ _ u. Adds (λ q. n * count q ptrs) s u)
          (read_and_write_spill_to_l3 t core ptrs n s)
  unfolding read_and_write_spill_to_l3
  read_and_write_spill_to_l3-Adds core ptrs n s =
      let goal = λ (i : ℕ) (res : ℕ) (u : State W). Adds (λ q. i * count q ptrs) s u in
      Returns-bind (λ self u. Keeps s u) (goal n) _ _ s (λ q. refl)
        λ self s1 e1.
          Returns-bind (λ _ u. Keeps s1 u) (goal n) _ _ s1 (λ q. moves self core q s1.world)
            λ _ s2 h.
              Returns-bind (λ junk u. Keeps s2 u) (goal n) _ _ s2 (λ q. refl)
                λ junk s3 e3.
                  Returns-bind (goal n) (goal n) _ _ s3
                    (for_range-Returns goal (λ i res. touch_all t ptrs res) n 0 n (omega arith)
                      (λ i res u lt g.
                        Returns-mono (λ _ v. Adds (λ q. count q ptrs) u v) (goal (suc i)) _
                          (touch_all-Adds ptrs res u)
                          (λ _ v k q. omega (arith, g q, k q, suc-mul i (count q ptrs))))
                      junk s3 (λ q. omega (arith, e1 q, h q, e3 q, small q s.world)))
                    (λ res u g. g)
