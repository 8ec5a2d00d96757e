-- ===== src/Pmon/Lifetime.antt =====
-- srcs/pmon.cpp, lines 124-156 and 428-439: a monitor is made, checked, and used to switch the prefetchers.
use core_map.Base.{ℕ, ◌≡◌, refl, ap, ◌∙◌, is_neg, if◌then◌else◌, arith}
use core_map.Base.Effect.{State, pure, tell}
use core_map.Base.Hoare.{
  Ensures, Ensures-bind, Ensures-then, Returns, Returns-if, Returns→Ensures, Returns-mono, Any,
  for_range-Ensures,
}
use core_map.Msr.{MsrDevice, MsrHandle, uninitialised, close_handle, write}
use core_map.Msr.Opened.{open_handle-Ensures}
use core_map.Pmon.{
  Pmon, new_pmon, delete_pmon, check_unique_ppin, prefetch_at, enable_prefetch, disable_prefetch,
}
use core_map.Pmon.Ppin.{
  CheckedPpin, CheckedPpin-same, ctl_read, id_read, check_unique_ppin-CheckedPpin,
}

-- A monitor for the processor and the cores, whatever its handle and its PPIN.
pub record IsMonitor (model base cores units : ℕ) (p : Pmon) : Type 0 where
  pub of_model : p.processor_model ≡ model
  pub of_base : p.base_core_id ≡ base
  pub of_cores : p.num_cores ≡ cores
  pub of_units : p.num_physical_cores ≡ units

module _ {W : Type 0} (d : MsrDevice W) where
  pub new_pmon-IsMonitor :
      (model base cores units : ℕ) (s : State W)
      → Ensures (λ p t. IsMonitor model base cores units p) (new_pmon d model base cores units s)
  unfolding new_pmon uninitialised
  new_pmon-IsMonitor model base cores units s =
      Ensures-bind (λ h t. h.cpu_id ≡ base) _ _ _ s (open_handle-Ensures d base s)
        λ h t e.
          Ensures-then _ _ _ t tt
            λ junk u. record { of_model = refl; of_base = refl; of_cores = refl; of_units = refl }

  pub check_unique_ppin-IsMonitor :
      (model base cores units : ℕ) (p : Pmon) (s : State W)
      → IsMonitor model base cores units p
      → Returns (λ got t. IsMonitor model base cores units got.0) (check_unique_ppin d p s)
  check_unique_ppin-IsMonitor model base cores units p s h =
      Returns-mono (λ got t. CheckedPpin p (ctl_read d p s) (id_read d p s) got.0 got.1)
        (λ got t. IsMonitor model base cores units got.0) (check_unique_ppin d p s)
        (check_unique_ppin-CheckedPpin d p s)
        (λ got t c.
          let e = CheckedPpin-same p got.0 _ _ got.1 c in
          record {
            of_model = ap (λ (x : Pmon). x.processor_model) e ∙ h.of_model;
            of_base = ap (λ (x : Pmon). x.base_core_id) e ∙ h.of_base;
            of_cores = ap (λ (x : Pmon). x.num_cores) e ∙ h.of_cores;
            of_units = ap (λ (x : Pmon). x.num_physical_cores) e ∙ h.of_units;
          })

  pub close_handle-Returns : (h : MsrHandle) (s : State W) → Returns Any (close_handle d h s)
  unfolding close_handle
  close_handle-Returns h s =
      Returns-if Any (is_neg h.fd) (pure tt) (tell (d.close h.fd)) s (λ _. tt) (λ _. tt)

  prefetch_at-Ensures : (value c : ℕ) (s : State W) → Ensures Any (prefetch_at d value c s)
  unfolding prefetch_at write
  prefetch_at-Ensures value c s =
      Ensures-bind (λ h t. h.cpu_id ≡ c) _ _ _ s (open_handle-Ensures d c s)
        λ h t e. Ensures-then _ _ _ t tt λ _ u. Returns→Ensures Any _ (close_handle-Returns h u)

  pub enable_prefetch-Ensures : (p : Pmon) (s : State W) → Ensures Any (enable_prefetch d p s)
  unfolding enable_prefetch
  enable_prefetch-Ensures p s =
      for_range-Ensures (λ i. Any) (λ i _. prefetch_at d 0x0 i) p.num_cores p.base_core_id _ refl
        (λ k a t lt _. prefetch_at-Ensures 0x0 k t) tt s tt

  pub disable_prefetch-Ensures : (p : Pmon) (s : State W) → Ensures Any (disable_prefetch d p s)
  unfolding disable_prefetch
  disable_prefetch-Ensures p s =
      for_range-Ensures (λ i. Any) (λ i _. prefetch_at d 0xF i) p.num_cores p.base_core_id _ refl
        (λ k a t lt _. prefetch_at-Ensures 0xF k t) tt s tt

  -- The world after the destructor of a handle.
  abbrev pub closed : MsrHandle → W → W
  closed h w = if is_neg h.fd then w else d.close h.fd w

  pub delete_pmon-closes :
      (p : Pmon) (s : State W)
      → Returns (λ _ t. t.world ≡ closed p.msr_h s.world) (delete_pmon d p s)
  unfolding delete_pmon close_handle
  delete_pmon-closes p s = ground arith
