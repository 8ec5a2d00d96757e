-- ===== src/Pmon/Readout.antt =====
-- srcs/pmon.cpp, lines 368-390: the counters that are read are those of each unit, in order.
use core_map.Base.{
  ℕ, suc, ◌≤◌, ◌<◌, ◌≡◌, refl, sym, ap, ◌∙◌, ◌⊎◌, inl, inr, ℤ, pos, some, List, [], ◌∷◌, ◌++◌,
  length, get_elem?, length-append, get_elem?-append, get_elem?-append_last, ◌==◌, if◌then◌else◌,
  Bool-cases, ltb, ltb→lt, ltb→le, arith,
}
use core_map.Base.Effect.{State, ◌>>=◌}
use core_map.Base.Hoare.{Returns, Returns-bind, Returns-index, for_range-Returns}
use core_map.Cpuid.{core_model_skl, core_model_icl}
use core_map.Msr.{MsrDevice, read, uninitialised}
use core_map.Pmon.Tables.{PmonUnit}
use core_map.Pmon.Tables.Layout.{skl_unit, icl_unit, get_elem?-c_skl, get_elem?-c_icl}
use core_map.Pmon.Report.{CoreCounters}
use core_map.Pmon.{Pmon, read_unit, read_counters_at, read_counters}

-- What the kernel documents of `pread` on the device of one handle, when it does not fail: it gives the contents of the
-- register, and leaves all registers as they are.
pub record Shows {W : Type 0} (d : MsrDevice W) (fd : ℤ) : Type 0 where
  pub contents : W → ℕ → ℕ
  pub shows : (a : ℕ) (w : W) → (d.pread fd a w).0 ≡ (pos 8, some (contents w a))
  pub keeps : (a b : ℕ) (w : W) → contents (d.pread fd a w).1 b ≡ contents w b

-- The four counters of a unit.
abbrev pub counters_of : (ℕ → ℕ) → PmonUnit → CoreCounters
counters_of reg u = record {
  ctr0 = reg u.ctr0;
  ctr1 = reg u.ctr1;
  ctr2 = reg u.ctr2;
  ctr3 = reg u.ctr3;
}

-- Counters for the units below n, each the contents of its registers.
pub record Readout (reg : ℕ → ℕ) (unit : ℕ → PmonUnit) (n : ℕ) (cs : List CoreCounters)
    : Type 0 where
  pub size : length cs ≡ n
  pub each : (k : ℕ) → k < n → get_elem? cs k ≡ some (counters_of reg (unit k))

Readout-snoc :
    (reg : ℕ → ℕ) (unit : ℕ → PmonUnit) (k : ℕ) (cs : List CoreCounters) (c : CoreCounters)
    → Readout reg unit k cs
    → c ≡ counters_of reg (unit k)
    → Readout reg unit (suc k) (cs ++ c ∷ [])
Readout-snoc reg unit k cs c h e = record {
  size = omega (arith, length-append cs (c ∷ []), h.size);
  each = λ j lt. elim (Bool-cases (ltb j k)) [
    | inl before ↦ get_elem?-append cs (c ∷ []) j (h.each j (ltb→lt j k before))
    | inr last ↦ newest j (omega (arith, ltb→le j k last, h.size))
  ];
}
  where
    newest : (j : ℕ) → j ≡ length cs → get_elem? (cs ++ c ∷ []) j ≡ some (counters_of reg (unit j))
    newest j same =
        rw same (
          get_elem?-append_last cs c
          ∙ ap some (e ∙ ap (λ m. counters_of reg (unit m)) (sym h.size)))

-- The registers of unit i on a processor of the model.
abbrev pub unit_at : ℕ → ℕ → PmonUnit
unit_at model i = if model == core_model_skl then (skl_unit i).regs else (icl_unit i).regs

-- The model has a table, with registers for each of its units.
abbrev pub IsTabled : Pmon → Type 0
IsTabled p =
    ((p.processor_model ≡ core_model_skl) × (p.num_physical_cores ≤ 28))
    ⊎ ((p.processor_model ≡ core_model_icl) × (p.num_physical_cores ≤ 39))

module _ {W : Type 0} (d : MsrDevice W) (p : Pmon) (law : Shows d p.msr_h.fd) where
  open law use {contents, shows, keeps}

  -- No register has changed since.
  abbrev pub Still : (ℕ → ℕ) → State W → Type 0
  Still reg s = (a : ℕ) → contents s.world a ≡ reg a

  read-contents :
      (reg : ℕ → ℕ) (a old : ℕ) (s : State W)
      → Still reg s
      → Returns (λ got t. (got.1 ≡ reg a) × Still reg t) (read d p.msr_h a old s)
  unfolding read
  read-contents reg a old s still =
      (rw (shows a s.world) (still a), λ b. keeps a b s.world ∙ still b)

  read_unit-counters_of :
      (reg : ℕ → ℕ) (junk : ℕ) (u : PmonUnit) (s : State W)
      → Still reg s
      → Returns (λ c t. (c ≡ counters_of reg u) × Still reg t) (read_unit d p junk u s)
  unfolding read_unit
  read_unit-counters_of reg junk u s h =
      Returns-bind (λ got t. (got.1 ≡ reg u.ctr0) × Still reg t) _ _ _ s (read-contents reg _ _ s h)
        λ c0 s0 h0.
          Returns-bind (λ got t. (got.1 ≡ reg u.ctr1) × Still reg t) _ _ _ s0
            (read-contents reg _ _ s0 h0.1)
            λ c1 s1 h1.
              Returns-bind (λ got t. (got.1 ≡ reg u.ctr2) × Still reg t) _ _ _ s1
                (read-contents reg _ _ s1 h1.1)
                λ c2 s2 h2.
                  Returns-bind (λ got t. (got.1 ≡ reg u.ctr3) × Still reg t) _ _ _ s2
                    (read-contents reg _ _ s2 h2.1)
                    λ c3 s3 h3. (rw (h0.0, h1.0, h2.0, h3.0) refl, h3.1)

  read_counters_at-counters_of :
      (reg : ℕ → ℕ) (i : ℕ) (s : State W)
      → IsTabled p
      → i < p.num_physical_cores
      → Still reg s
      → Returns
          (λ c t. (c ≡ counters_of reg (unit_at p.processor_model i)) × Still reg t)
          (read_counters_at d p i s)
  unfolding read_counters_at uninitialised ◌>>=◌
  read_counters_at-counters_of reg i s tabled lt h = elim tabled [
    | inl (model, small) ↦ rw model (
        Returns-index _ _ _ s (get_elem?-c_skl i (omega arith))
          (read_unit-counters_of reg (d.indeterminate s.world) (skl_unit i).regs s h))
    | inr (model, small) ↦ rw model (
        Returns-index _ _ _ s (get_elem?-c_icl i (omega arith))
          (read_unit-counters_of reg (d.indeterminate s.world) (icl_unit i).regs s h))
  ]

  -- On a device that shows the contents of each register and changes none when it is read, and for
  -- at most 28 units of the first generation or 39 of the second: the call returns a struct for
  -- each unit, in order, whose four counters are the contents of that unit's four counter
  -- registers, and leaves all registers as they were.
  pub read_counters-Readout :
      (s : State W)
      → IsTabled p
      → Returns
          (λ cs t.
            Readout (contents s.world) (unit_at p.processor_model) p.num_physical_cores cs
            × Still (contents s.world) t)
          (read_counters d p s)
  unfolding read_counters
  read_counters-Readout s tabled =
      for_range-Returns (λ i cs t. Readout reg unit i cs × Still reg t) _ p.num_physical_cores 0
        p.num_physical_cores (omega arith)
        (λ k cs t lt h.
          Returns-bind (λ c u. (c ≡ counters_of reg (unit k)) × Still reg u) _ _ _ t
            (read_counters_at-counters_of reg k t tabled lt h.1)
            (λ c u got. (Readout-snoc reg unit k cs c h.0 got.0, got.1)))
        [] s (record { size = refl; each = λ k lt. absurd (omega arith) }, λ a. refl)
    where
      reg : ℕ → ℕ
      reg = contents s.world

      unit : ℕ → PmonUnit
      unit = unit_at p.processor_model
