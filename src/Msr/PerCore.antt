-- ===== src/Msr/PerCore.antt =====
-- srcs/msr.cpp, lines 205-237, when every core has a device: what a write through a handle changes.
use core_map.Base.{ℕ, ◌≡◌, refl, ap, ◌∙◌, ◌&&◌, ℤ, pos, Option, some, ◌==◌, if◌then◌else◌}
use core_map.Base.Effect.{State, ◌>>=◌}
use core_map.Base.Hoare.{Returns, Returns-bind}
use core_map.Msr.{MsrDevice, MsrHandle, dev_cpu_msr, open_either, open_handle, close_handle, write}

-- What the kernel documents of the devices when none of the calls fails: the first path opens, the handle belongs to
-- the core of that path, and a write changes that register of that core and no other.
pub record IsPerCore {W : Type 0} (d : MsrDevice W) : Type 0 where
  pub core : ℤ → W → Option ℕ
  pub reg : ℕ → ℕ → W → ℕ
  pub handle : ℕ → W → ℕ
  pub opens : (c : ℕ) (w : W) → (d.open_rw (dev_cpu_msr c) w).0 ≡ pos (handle c w)
  pub belongs : (c : ℕ) (w : W) → core (pos (handle c w)) (d.open_rw (dev_cpu_msr c) w).1 ≡ some c
  pub open_keeps : (c k a : ℕ) (w : W) → reg k a (d.open_rw (dev_cpu_msr c) w).1 ≡ reg k a w
  pub close_keeps : (fd : ℤ) (k a : ℕ) (w : W) → reg k a (d.close fd w) ≡ reg k a w
  pub stores :
      (fd : ℤ) (c a v k b : ℕ) (w : W)
      → core fd w ≡ some c
      → reg k b (d.pwrite fd a v w).1 ≡ (if (k == c) && (b == a) then v else reg k b w)

module _ {W : Type 0} (d : MsrDevice W) (law : IsPerCore d) where
  open law use {core, reg, handle, opens, belongs, open_keeps, close_keeps, stores}

  open_handle-Opened :
      (c : ℕ) (s : State W)
      → Returns
          (λ h t.
            (h ≡ record { fd = pos (handle c s.world); cpu_id = c })
            × (t.world ≡ (d.open_rw (dev_cpu_msr c) s.world).1))
          (open_handle d c s)
  unfolding open_handle open_either ◌>>=◌
  open_handle-Opened c s = rw (opens c s.world) (refl, refl)

  written_closed :
      (c a v : ℕ) (s t : State W) (h : MsrHandle)
      → h ≡ record { fd = pos (handle c s.world); cpu_id = c }
      → t.world ≡ (d.open_rw (dev_cpu_msr c) s.world).1
      → Returns
          (λ _ u.
            (k b : ℕ) → reg k b u.world ≡ (if (k == c) && (b == a) then v else reg k b s.world))
          ((write d h a v >>= λ _. close_handle d h) t)
  unfolding write close_handle ◌>>=◌
  written_closed c a v s t h eh et =
      rw (eh, et)
        (λ k b.
          close_keeps _ k b _
          ∙ stores _ c a v k b _ (belongs c s.world)
          ∙ ap (λ x. if (k == c) && (b == a) then v else x) (open_keeps c k b s.world))

  -- A handle that is opened, written through once and closed sets the register of its core, and nothing else.
  pub write_once :
      (c a v : ℕ) (s : State W)
      → Returns
          (λ _ t.
            (k b : ℕ) → reg k b t.world ≡ (if (k == c) && (b == a) then v else reg k b s.world))
          ((open_handle d c >>= λ h. write d h a v >>= λ _. close_handle d h) s)
  write_once c a v s =
      Returns-bind
        (λ h t.
          (h ≡ record { fd = pos (handle c s.world); cpu_id = c })
          × (t.world ≡ (d.open_rw (dev_cpu_msr c) s.world).1))
        _ _ _ s (open_handle-Opened c s) (λ h t o. written_closed c a v s t h o.0 o.1)
