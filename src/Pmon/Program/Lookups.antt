-- ===== src/Pmon/Program/Lookups.antt =====
-- srcs/pmon.cpp, lines 268-365: the registers after the counters were set to count lookups.
use core_map.Base.{
  ℕ, ◌+◌, ◌≤◌, ◌<◌, ◌≡◌, ◌≢◌, true, false, sym, ap, subst, ◌⊎◌, inl, inr, List, [], ◌∷◌, ◌==◌,
  if◌then◌else◌, arith,
}
use core_map.Base.Effect.{State}
use core_map.Base.Hoare.{Returns, Returns-index, Returns-if}
use core_map.Msr.{MsrDevice}
use core_map.Cpuid.{core_model_skl, core_model_icl}
use core_map.Pmon.Tables.Layout.{skl_unit, icl_unit, icl_base, get_elem?-c_skl, get_elem?-c_icl}
use core_map.Pmon.Events.{event_unit, event_unit_lookup_icl, box_filter0_skl, box_filter1_skl}
use core_map.Pmon.{Pmon, set_llc_pmon, set_llc_pmon_skl, set_llc_pmon_icl, llc_skl_at, llc_icl_at}
use core_map.Pmon.Readout.{IsTabled}
use core_map.Pmon.Program.{Accepts, Sends, Returns-send, checked_write-Sends}
use core_map.Pmon.Program.Units.{icl_bases, UnitsHold, for_range-UnitsHold}
use core_map.Pmon.Program.Writes.{NoRepeats, AllAvoid}

-- The words for unit i: a reset, the three events, and on the first generation the two filters.
abbrev lookups_skl : ℕ → List (ℕ × ℕ)
lookups_skl i =
    ((skl_unit i).unit_ctl, 0x3)
    ∷ ((skl_unit i).ctl0, event_unit 0x36 0b00100001)
    ∷ ((skl_unit i).ctl1, event_unit 0x34 0b00010001)
    ∷ ((skl_unit i).ctl2, event_unit 0x37 0b00101111)
    ∷ ((skl_unit i).box_filter0, box_filter0_skl)
    ∷ ((skl_unit i).box_filter1, box_filter1_skl)
    ∷ []

abbrev pub lookups_at : ℕ → List (ℕ × ℕ)
lookups_at a =
    (a, 0x3)
    ∷ (a + 4, event_unit 0x36 0b00100001)
    ∷ (a + 3, event_unit_lookup_icl)
    ∷ (a + 2, event_unit 0x37 0b00101111)
    ∷ []

abbrev lookups_icl : ℕ → List (ℕ × ℕ)
lookups_icl i =
    ((icl_unit i).unit_ctl, 0x3)
    ∷ ((icl_unit i).ctl0, event_unit 0x36 0b00100001)
    ∷ ((icl_unit i).ctl1, event_unit_lookup_icl)
    ∷ ((icl_unit i).ctl2, event_unit 0x37 0b00101111)
    ∷ []

-- The words for a unit of a processor of the model.
abbrev pub lookups : ℕ → ℕ → List (ℕ × ℕ)
lookups model i = if model == core_model_skl then lookups_skl i else lookups_icl i

skl_AllAvoid : (i j : ℕ) → i ≢ j → AllAvoid (lookups_skl i) (lookups_skl j)
skl_AllAvoid i j h = ground arith

skl_NoRepeats : (i : ℕ) → NoRepeats (lookups_skl i)
skl_NoRepeats i = ground arith

icl_NoRepeats : (i : ℕ) → NoRepeats (lookups_icl i)
icl_NoRepeats i = go (icl_base i)
  where
    go : (a : ℕ) → NoRepeats (lookups_at a)
    go a = ground arith

icl_AllAvoid : (i j : ℕ) → i < 39 → j < 39 → i ≢ j → AllAvoid (lookups_icl i) (lookups_icl j)
icl_AllAvoid i j hi hj h = go (icl_base i) (icl_base j) (icl_bases i j hi hj h)
  where
    go : (a b : ℕ) → (a + 14 ≤ b) ⊎ (b + 14 ≤ a) → AllAvoid (lookups_at a) (lookups_at b)
    go a b e = ground arith

module _ {W : Type 0} (d : MsrDevice W) (p : Pmon) (law : Accepts d p.msr_h.fd) where
  llc_skl_at-Sends :
      (i : ℕ) (s : State W)
      → i < 28
      → Returns (λ _ t. Sends d p law (lookups_skl i) s t) (llc_skl_at d p i s)
  unfolding llc_skl_at
  llc_skl_at-Sends i s h =
      Returns-index (λ _ t. Sends d p law (lookups_skl i) s t) _ _ s (get_elem?-c_skl i h)
        (Returns-send d p law _ _ _ _ _ s λ s1. Returns-send d p law _ _ _ _ _ s1 λ s2.
          Returns-send d p law _ _ _ _ _ s2 λ s3.
            Returns-send d p law _ _ _ _ _ s3
              λ s4. Returns-send d p law _ _ _ _ _ s4 λ s5. checked_write-Sends d p law _ _ _ s5)

  llc_icl_at-Sends :
      (i : ℕ) (s : State W)
      → i < 39
      → Returns (λ _ t. Sends d p law (lookups_icl i) s t) (llc_icl_at d p i s)
  unfolding llc_icl_at
  llc_icl_at-Sends i s h =
      Returns-index (λ _ t. Sends d p law (lookups_icl i) s t) _ _ s (get_elem?-c_icl i h)
        (Returns-send d p law _ _ _ _ _ s λ s1.
          Returns-send d p law _ _ _ _ _ s1
            λ s2. Returns-send d p law _ _ _ _ _ s2 λ s3. checked_write-Sends d p law _ _ _ s3)

  set_llc_pmon_skl-UnitsHold :
      (s : State W)
      → p.num_physical_cores ≤ 28
      → Returns
          (λ _ t. UnitsHold d p law lookups_skl p.num_physical_cores s t)
          (set_llc_pmon_skl d p s)
  unfolding set_llc_pmon_skl
  set_llc_pmon_skl-UnitsHold s small =
      for_range-UnitsHold d p law lookups_skl p.num_physical_cores skl_NoRepeats
        (λ i j _ _ e. skl_AllAvoid i j e) _ s (λ i t lt. llc_skl_at-Sends i t (omega arith))

  set_llc_pmon_icl-UnitsHold :
      (s : State W)
      → p.num_physical_cores ≤ 39
      → Returns
          (λ _ t. UnitsHold d p law lookups_icl p.num_physical_cores s t)
          (set_llc_pmon_icl d p s)
  unfolding set_llc_pmon_icl
  set_llc_pmon_icl-UnitsHold s small =
      for_range-UnitsHold d p law lookups_icl p.num_physical_cores icl_NoRepeats
        (λ i j a b e. icl_AllAvoid i j (omega arith) (omega arith) e) _ s
        (λ i t lt. llc_icl_at-Sends i t (omega arith))

  -- On a device that accepts every write of its handle, and for at most 28 units of the first
  -- generation or 39 of the second: the call returns and prints nothing, and afterwards every unit,
  -- the first ones included, was reset, its first three counters are set to the events of the
  -- generation, and on the first generation its two filters are set.
  pub set_llc_pmon-UnitsHold :
      (s : State W)
      → IsTabled p
      → Returns
          (λ _ t. UnitsHold d p law (lookups p.processor_model) p.num_physical_cores s t)
          (set_llc_pmon d p s)
  unfolding set_llc_pmon
  set_llc_pmon-UnitsHold s tabled = elim tabled [
    | inl (model, small) ↦
        subst
          (λ w. Returns (λ _ t. UnitsHold d p law w p.num_physical_cores s t) (set_llc_pmon d p s))
          (sym (ap (λ m i. lookups m i) model))
          (Returns-if _ _ _ _ s (λ _. set_llc_pmon_skl-UnitsHold s small)
            (λ (other : (p.processor_model == core_model_skl) ≡ false).
              absurd (no_skl model other)))
    | inr (model, small) ↦
        subst
          (λ w. Returns (λ _ t. UnitsHold d p law w p.num_physical_cores s t) (set_llc_pmon d p s))
          (sym (ap (λ m i. lookups m i) model))
          (Returns-if _ _ _ _ s
            (λ (other : (p.processor_model == core_model_skl) ≡ true). absurd (no_icl model other))
            (λ _.
              Returns-if _ _ _ _ s (λ _. set_llc_pmon_icl-UnitsHold s small)
                (λ (other : (p.processor_model == core_model_icl) ≡ false).
                  absurd (no_other model other))))
  ]
    where
      no_skl : p.processor_model ≡ 85 → (p.processor_model == 85) ≡ false → ⊥
      no_skl e f = ground arith

      no_icl : p.processor_model ≡ 106 → (p.processor_model == 85) ≡ true → ⊥
      no_icl e f = ground arith

      no_other : p.processor_model ≡ 106 → (p.processor_model == 106) ≡ false → ⊥
      no_other e f = ground arith
