-- ===== src/Pmon/Prefetch.antt =====
-- srcs/pmon.cpp, lines 428-439: which registers of which cores the two loops over the cores set.
use core_map.Base.{ℕ, suc, ◌+◌, ◌≤◌, ◌≡◌, refl, ◌∙◌, ◌&&◌, ltb, leb, ◌==◌, if◌then◌else◌, arith}
use core_map.Base.Effect.{State, for_range}
use core_map.Base.Hoare.{Returns, Returns-mono, for_range-Returns}
use core_map.Msr.{MsrDevice}
use core_map.Msr.PerCore.{IsPerCore, write_once}
use core_map.Pmon.{Pmon, prefetch_at, enable_prefetch, disable_prefetch}

module _ {W : Type 0} (d : MsrDevice W) (law : IsPerCore d) where
  open law use {reg}

  -- The register 0x1a4 of the cores from the base up to the end holds the value, and all else is as before.
  abbrev pub SetOn : ℕ → ℕ → ℕ → State W → State W → Type 0
  SetOn base end value s t =
      (k b : ℕ)
      → reg k b t.world
        ≡ (if (leb base k && ltb k end) && (b == 0x1a4) then value else reg k b s.world)

  one_more :
      (base i k b value x y : ℕ)
      → base ≤ i
      → y ≡ (if (leb base k && ltb k i) && (b == 0x1a4) then value else x)
      → (if (k == i) && (b == 0x1a4) then value else y)
        ≡ (if (leb base k && ltb k (suc i)) && (b == 0x1a4) then value else x)
  one_more base i k b value x y le e = ground arith

  none_yet :
      (base k b value x : ℕ) → x ≡ (if (leb base k && ltb k base) && (b == 0x1a4) then value else x)
  none_yet base k b value x = ground arith

  loop-SetOn :
      (n base value : ℕ) (s : State W)
      → Returns
          (λ _ t. SetOn base (base + n) value s t)
          (for_range n base (λ i _. prefetch_at d value i) tt s)
  unfolding prefetch_at
  loop-SetOn n base value s =
      Returns-mono (λ _ t. (base ≤ base + n) × SetOn base (base + n) value s t)
        (λ _ t. SetOn base (base + n) value s t) _
        (for_range-Returns (λ i _ t. (base ≤ i) × SetOn base i value s t)
          (λ i _. prefetch_at d value i) n base (base + n) refl
          (λ i _ t lt h.
            Returns-mono
              (λ _ u.
                (k b : ℕ)
                → reg k b u.world ≡ (if (k == i) && (b == 0x1a4) then value else reg k b t.world))
              (λ _ u. (base ≤ suc i) × SetOn base (suc i) value s u) _
              (write_once d law i 0x1a4 value t)
              (λ _ u g.
                (omega (arith, h.0), λ k b. g k b ∙ one_more base i k b value _ _ h.0 (h.1 k b))))
          tt s (omega arith, λ k b. none_yet base k b value _))
        (λ _ t h. h.1)

  -- When every core has a device that opens at the first path and stores what is written to that
  -- core's register alone: disabling sets the register 0x1a4 of num_cores cores from the base core
  -- on to 0xF, enabling sets it to 0, and each returns and changes no other register of any core.
  pub prefetch-SetOn :
      (p : Pmon) (s : State W)
      → Returns
          (λ _ t. SetOn p.base_core_id (p.base_core_id + p.num_cores) 0xF s t)
          (disable_prefetch d p s)
        × Returns
            (λ _ t. SetOn p.base_core_id (p.base_core_id + p.num_cores) 0x0 s t)
            (enable_prefetch d p s)
  unfolding disable_prefetch enable_prefetch
  prefetch-SetOn p s =
      (loop-SetOn p.num_cores p.base_core_id 0xF s, loop-SetOn p.num_cores p.base_core_id 0x0 s)
