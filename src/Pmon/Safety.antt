-- ===== src/Pmon/Safety.antt =====
-- The monitor's operations return, whatever the device does, as long as the table of the processor's
-- generation has an entry for each unit.
use core_map.Base.{
  ℕ, ◌≤◌, ◌<◌, ◌≡◌, refl, [], ◌∷◌, length, arith, length-append, ==_iff, ◌==◌, true,
  get_elem?-lt_some,
}
use core_map.Base.Effect.{State, Message, ◌>>=◌}
use core_map.Base.Hoare.{
  Returns, Any, Returns-bind, Returns-then, Returns-index, Returns-if, for_range-Returns,
}
use core_map.Msr.{MsrDevice, write, read, uninitialised}
use core_map.Cpuid.{core_model_skl, core_model_icl}
use core_map.Pmon.Tables.{PmonUnit, c_skl, c_icl}
use core_map.Pmon.Tables.Layout.{length-c_skl, length-c_icl}
use core_map.Pmon.{
  Pmon, freeze, unfreeze, checked_write, ring_channels_skl_at, ring_channels_icl_at,
  set_pmon_ring_channels_skl, set_pmon_ring_channels_icl, set_pmon_ring_channels, llc_skl_at,
  llc_icl_at, set_llc_pmon_skl, set_llc_pmon_icl, set_llc_pmon, read_unit, read_counters_at,
  read_counters, print_busy_path,
}

-- The table has an entry for each unit.
pub record Fits (p : Pmon) : Type 0 where
  pub skl : p.processor_model ≡ core_model_skl → p.num_physical_cores ≤ 28
  pub icl : p.processor_model ≡ core_model_icl → p.num_physical_cores ≤ 40

module _ {W : Type 0} (d : MsrDevice W) (p : Pmon) where
  pub freeze-Returns : (s : State W) → Returns Any (freeze d p s)
  unfolding freeze write ◌>>=◌
  freeze-Returns s = ground arith

  pub unfreeze-Returns : (s : State W) → Returns Any (unfreeze d p s)
  unfolding unfreeze write ◌>>=◌
  unfreeze-Returns s = ground arith

  checked_write-Returns :
      (msg : Message) (a v : ℕ) (s : State W) → Returns Any (checked_write d msg p a v s)
  unfolding checked_write write ◌>>=◌
  checked_write-Returns msg a v s = ground arith

  ruleset writes = (Returns-then, checked_write-Returns)

  ring_channels_skl_at-Returns :
      (i : ℕ) (s : State W) → i < 28 → Returns Any (ring_channels_skl_at d p i s)
  unfolding ring_channels_skl_at
  ring_channels_skl_at-Returns i s h =
      let (u, e) = get_elem?-lt_some c_skl i (omega (arith, length-c_skl)) in
      Returns-index Any _ _ s e (search writes depth 9)

  set_pmon_ring_channels_skl-Returns :
      (s : State W) → p.num_physical_cores ≤ 28 → Returns Any (set_pmon_ring_channels_skl d p s)
  unfolding set_pmon_ring_channels_skl
  set_pmon_ring_channels_skl-Returns s h =
      for_range-Returns (λ i. Any) (λ i _. ring_channels_skl_at d p i) p.num_physical_cores 0
        p.num_physical_cores (omega arith)
        (λ k a t lt _. ring_channels_skl_at-Returns k t (omega arith)) tt s tt

  llc_skl_at-Returns : (i : ℕ) (s : State W) → i < 28 → Returns Any (llc_skl_at d p i s)
  unfolding llc_skl_at
  llc_skl_at-Returns i s h =
      let (u, e) = get_elem?-lt_some c_skl i (omega (arith, length-c_skl)) in
      Returns-index Any _ _ s e (search writes depth 9)

  set_llc_pmon_skl-Returns :
      (s : State W) → p.num_physical_cores ≤ 28 → Returns Any (set_llc_pmon_skl d p s)
  unfolding set_llc_pmon_skl
  set_llc_pmon_skl-Returns s h =
      for_range-Returns (λ i. Any) (λ i _. llc_skl_at d p i) p.num_physical_cores 0
        p.num_physical_cores (omega arith) (λ k a t lt _. llc_skl_at-Returns k t (omega arith)) tt s
        tt

  ring_channels_icl_at-Returns :
      (i : ℕ) (s : State W) → i < 40 → Returns Any (ring_channels_icl_at d p i s)
  unfolding ring_channels_icl_at
  ring_channels_icl_at-Returns i s h =
      let (u, e) = get_elem?-lt_some c_icl i (omega (arith, length-c_icl)) in
      Returns-index Any _ _ s e (search writes depth 9)

  set_pmon_ring_channels_icl-Returns :
      (s : State W) → p.num_physical_cores ≤ 40 → Returns Any (set_pmon_ring_channels_icl d p s)
  unfolding set_pmon_ring_channels_icl
  set_pmon_ring_channels_icl-Returns s h =
      for_range-Returns (λ i. Any) (λ i _. ring_channels_icl_at d p i) p.num_physical_cores 0
        p.num_physical_cores (omega arith)
        (λ k a t lt _. ring_channels_icl_at-Returns k t (omega arith)) tt s tt

  llc_icl_at-Returns : (i : ℕ) (s : State W) → i < 40 → Returns Any (llc_icl_at d p i s)
  unfolding llc_icl_at
  llc_icl_at-Returns i s h =
      let (u, e) = get_elem?-lt_some c_icl i (omega (arith, length-c_icl)) in
      Returns-index Any _ _ s e (search writes depth 9)

  set_llc_pmon_icl-Returns :
      (s : State W) → p.num_physical_cores ≤ 40 → Returns Any (set_llc_pmon_icl d p s)
  unfolding set_llc_pmon_icl
  set_llc_pmon_icl-Returns s h =
      for_range-Returns (λ i. Any) (λ i _. llc_icl_at d p i) p.num_physical_cores 0
        p.num_physical_cores (omega arith) (λ k a t lt _. llc_icl_at-Returns k t (omega arith)) tt s
        tt

  -- When the table of the processor's generation has an entry for each unit, setting the counters
  -- for the ring channels returns without reading past the table, whatever the device does.
  pub set_pmon_ring_channels-Returns :
      (s : State W) → Fits p → Returns Any (set_pmon_ring_channels d p s)
  unfolding set_pmon_ring_channels
  set_pmon_ring_channels-Returns s f =
      Returns-if Any _ _ _ s (λ e. set_pmon_ring_channels_skl-Returns s (f.skl ((==_iff _ _).0 e)))
        (λ _.
          Returns-if Any _ _ _ s
            (λ e. set_pmon_ring_channels_icl-Returns s (f.icl ((==_iff _ _).0 e))) (λ _. tt))

  -- When the table of the processor's generation has an entry for each unit, setting the counters
  -- for lookups returns without reading past the table, whatever the device does.
  pub set_llc_pmon-Returns : (s : State W) → Fits p → Returns Any (set_llc_pmon d p s)
  unfolding set_llc_pmon
  set_llc_pmon-Returns s f =
      Returns-if Any _ _ _ s (λ e. set_llc_pmon_skl-Returns s (f.skl ((==_iff _ _).0 e)))
        (λ _.
          Returns-if Any _ _ _ s (λ e. set_llc_pmon_icl-Returns s (f.icl ((==_iff _ _).0 e)))
            (λ _. tt))

  read-Returns : (a old : ℕ) (s : State W) → Returns Any (read d p.msr_h a old s)
  unfolding read
  read-Returns a old s = tt

  uninitialised-Returns : (s : State W) → Returns Any (uninitialised d s)
  unfolding uninitialised
  uninitialised-Returns s = tt

  read_unit-Returns : (junk : ℕ) (u : PmonUnit) (s : State W) → Returns Any (read_unit d p junk u s)
  unfolding read_unit
  read_unit-Returns junk u s = search (Returns-then, read-Returns) depth 8

  read_counters_at-Returns :
      (i : ℕ) (s : State W)
      → Fits p
      → i < p.num_physical_cores
      → Returns Any (read_counters_at d p i s)
  unfolding read_counters_at
  read_counters_at-Returns i s f h = Returns-then Any _ _ s (uninitialised-Returns s) λ junk t.
      Returns-if Any _ _ _ t
        (λ (e : (p.processor_model == core_model_skl) ≡ true).
          let (u, eu) =
            get_elem?-lt_some c_skl i (omega (arith, length-c_skl, f.skl ((==_iff _ _).0 e))) in
          Returns-index Any _ _ t eu (read_unit-Returns junk u.regs t))
        (λ _.
          Returns-if Any _ _ _ t
            (λ (e : (p.processor_model == core_model_icl) ≡ true).
              let (u, eu) =
                get_elem?-lt_some c_icl i (omega (arith, length-c_icl, f.icl ((==_iff _ _).0 e))) in
              Returns-index Any _ _ t eu (read_unit-Returns junk u.regs t))
            (λ _. tt))

  -- When the table of the processor's generation has an entry for each unit, reading the counters
  -- returns one struct for each unit, whatever the device does.
  pub read_counters-Returns :
      (s : State W)
      → Fits p
      → Returns (λ cs t. length cs ≡ p.num_physical_cores) (read_counters d p s)
  unfolding read_counters
  read_counters-Returns s f =
      for_range-Returns (λ i cs t. length cs ≡ i) _ p.num_physical_cores 0 p.num_physical_cores
        (omega arith)
        (λ k cs t lt e.
          Returns-then _ _ _ t (read_counters_at-Returns k t f lt)
            (λ c u. omega (arith, length-append cs (c ∷ []), e)))
        [] s refl

  pub print_busy_path-Returns :
      (core_id data_loc limit : ℕ) (s : State W)
      → Fits p
      → Returns Any (print_busy_path d p core_id data_loc limit s)
  unfolding print_busy_path
  print_busy_path-Returns core_id data_loc limit s f =
      Returns-bind (λ cs t. length cs ≡ p.num_physical_cores) Any _ _ s (read_counters-Returns s f)
        (λ cs t _. tt)
