-- ===== src/MemLines/Mapping/Mesh/Lookups.antt =====
-- srcs/pmon.cpp, lines 268-365, on a mesh: the counters of all units are 0 after they were set to count lookups.
use core_map.Base.{
  false, true, ℕ, suc, ◌+◌, ◌≤◌, ◌<◌, ◌≡◌, ◌≢◌, ◌^◌, refl, ◌∙◌, inl, inr, [], ◌∷◌, ◌==◌, Bool-cases,
  arith,
}
use core_map.Base.Effect.{State, M, unit_ctl_write_failed, event_write_failed, ◌>>=◌}
use core_map.Base.Hoare.{
  Returns, Returns-bind, Returns-mono, Returns-index, Returns-if, Returns-and,
}
use core_map.Cpuid.{core_model_skl, core_model_icl}
use core_map.Pmon.{
  Pmon, checked_write, unfreeze, set_llc_pmon, set_llc_pmon_skl, set_llc_pmon_icl, llc_skl_at,
  llc_icl_at,
}
use core_map.Pmon.Tables.{PmonUnit}
use core_map.Pmon.Tables.Layout.{skl_unit, icl_unit, icl_base, get_elem?-c_skl, get_elem?-c_icl}
use core_map.Pmon.Program.Lookups.{lookups, lookups_at, set_llc_pmon-UnitsHold}
use core_map.Pmon.Program.{final}
use core_map.Pmon.Program.Units.{UnitsHold}
use core_map.Pmon.Program.Writes.{AllHold, AllAvoid, AllHold-kept}
use core_map.Pmon.Readout.{IsTabled}
use core_map.Tasks.Returns.{pair_run}
use core_map.MemLines.Object.{Machine}
use core_map.MemLines.Mapping.Mesh.{
  IsMesh, control_0, control_1, control_2, unit_of, IsControl, of_unit, of_filter_0, of_filter_1,
}
use core_map.MemLines.Mapping.Mesh.Setting.{
  Zeroed, checked_write-Zeroed, Returns-control, reset-Zeroed, loop-Zeroed,
}
use core_map.MemLines.Mapping.Mesh.Switching.{unfreeze-pwrite}

-- All units are set to count lookups, and the counters run.
pub record IsLooking (p : Pmon) (reg : ℕ → ℕ) : Type 0 where
  pub runs : reg 0x0700 ≡ 2 ^ 61
  pub events : (i : ℕ) → i < p.num_physical_cores → AllHold (lookups p.processor_model i) reg

-- Two threads on different cores that work on a line, and nothing else, cause lookups: at least one for each round
-- at the line's home, and none at the other CHAs.
pub record CountsLookups {W : Type 0} (m : Machine W) (p : Pmon) (mesh : IsMesh m p) : Type 0 where
  pub at_home :
      (a b q n i : ℕ) (w : W)
      → a ≢ b
      → i < p.num_physical_cores
      → i ≡ mesh.home q
      → IsLooking p (mesh.accepts.written w)
      → mesh.shows.contents w (unit_of p i).ctr1 + n
        ≤ mesh.shows.contents
            (pair_run m.threads a b (record { access_ptr = q; repeat = n }) w)
            (unit_of p i).ctr1
  pub elsewhere :
      (a b q n i : ℕ) (w : W)
      → i < p.num_physical_cores
      → i ≢ mesh.home q
      → IsLooking p (mesh.accepts.written w)
      → mesh.shows.contents
          (pair_run m.threads a b (record { access_ptr = q; repeat = n }) w)
          (unit_of p i).ctr1
        ≡ mesh.shows.contents w (unit_of p i).ctr1

module _ {W : Type 0} (m : Machine W) (p : Pmon) (mesh : IsMesh m p) where
  open m use {msr}
  open mesh use {accepts, shows, switches}

  -- The first three writes to one unit, and what follows them.
  three_writes-Zeroed :
      (i : ℕ) (u : PmonUnit) (v0 v1 : ℕ) (next : M W (Unit {0})) (s : State W)
      → i < p.num_physical_cores
      → u ≡ unit_of p i
      → Zeroed m p mesh i s
      → ((t : State W)
          → Zeroed m p mesh (suc i) t
          → Returns (λ _ t. Zeroed m p mesh (suc i) t) (next t))
      → Returns
          (λ _ t. Zeroed m p mesh (suc i) t)
          ((checked_write msr unit_ctl_write_failed p u.unit_ctl 0x3 >>= λ _.
              checked_write msr event_write_failed p u.ctl0 v0 >>= λ _.
              checked_write msr event_write_failed p u.ctl1 v1 >>= λ _. next)
            s)
  three_writes-Zeroed i u v0 v1 next s lt e h rest =
      let small : suc i ≤ p.num_physical_cores = omega arith in
      rw e (
        Returns-bind (λ _ t. Zeroed m p mesh (suc i) t) (λ _ t. Zeroed m p mesh (suc i) t) _ _ s
          (reset-Zeroed m p mesh i lt _ s h)
          λ _ s1 h1.
            Returns-control m p mesh (suc i) small _ _ _ _ s1 (of_unit i _ lt control_0) h1 λ s2 h2.
              Returns-control m p mesh (suc i) small _ _ _ _ s2 (of_unit i _ lt control_1) h2 rest)

  ctl2_of : (i : ℕ) (u : PmonUnit) → i < p.num_physical_cores → u ≡ unit_of p i → IsControl p u.ctl2
  ctl2_of i u lt e = rw e (of_unit i _ lt control_2)

  llc_skl_at-Zeroed :
      (i : ℕ) (t : State W)
      → p.processor_model ≡ core_model_skl
      → p.num_physical_cores ≤ 28
      → i < p.num_physical_cores
      → Zeroed m p mesh i t
      → Returns (λ _ u. Zeroed m p mesh (suc i) u) (llc_skl_at msr p i t)
  unfolding llc_skl_at
  llc_skl_at-Zeroed i t model few lt h =
      let small : suc i ≤ p.num_physical_cores = omega arith in
      let same : (skl_unit i).regs ≡ unit_of p i = rw model refl in
      Returns-index (λ _ u. Zeroed m p mesh (suc i) u) _ _ t (get_elem?-c_skl i (omega arith))
        (three_writes-Zeroed i (skl_unit i).regs _ _ _ t lt same h λ s3 h3.
          Returns-control m p mesh (suc i) small _ _ _ _ s3 (ctl2_of i (skl_unit i).regs lt same) h3
            λ s4 h4.
              Returns-control m p mesh (suc i) small _ _ _ _ s4 (of_filter_0 i lt) h4
                λ s5 h5. checked_write-Zeroed m p mesh (suc i) small _ _ _ s5 (of_filter_1 i lt) h5)

  llc_icl_at-Zeroed :
      (i : ℕ) (t : State W)
      → p.processor_model ≡ core_model_icl
      → p.num_physical_cores ≤ 39
      → i < p.num_physical_cores
      → Zeroed m p mesh i t
      → Returns (λ _ u. Zeroed m p mesh (suc i) u) (llc_icl_at msr p i t)
  unfolding llc_icl_at
  llc_icl_at-Zeroed i t model few lt h =
      let small : suc i ≤ p.num_physical_cores = omega arith in
      let same : (icl_unit i).regs ≡ unit_of p i = rw model refl in
      Returns-index (λ _ u. Zeroed m p mesh (suc i) u) _ _ t (get_elem?-c_icl i (omega arith))
        (three_writes-Zeroed i (icl_unit i).regs _ _ _ t lt same h λ s3 h3.
          checked_write-Zeroed m p mesh (suc i) small _ _ _ s3 (ctl2_of i (icl_unit i).regs lt same)
            h3)

  set_llc_pmon-Zeroed :
      (s : State W)
      → IsTabled p
      → Returns (λ _ t. Zeroed m p mesh p.num_physical_cores t) (set_llc_pmon msr p s)
  unfolding set_llc_pmon set_llc_pmon_skl set_llc_pmon_icl
  set_llc_pmon-Zeroed s (inl (model, few)) =
      Returns-if (λ _ t. Zeroed m p mesh p.num_physical_cores t) _ _ _ s
        (λ _.
          loop-Zeroed m p mesh (λ i _. llc_skl_at msr p i) s
            (λ i t lt h. llc_skl_at-Zeroed i t model few lt h))
        (λ (e : (p.processor_model == core_model_skl) ≡ false). absurd (ground (arith, model)))
  set_llc_pmon-Zeroed s (inr (model, few)) =
      Returns-if (λ _ t. Zeroed m p mesh p.num_physical_cores t) _ _ _ s
        (λ (e : (p.processor_model == core_model_skl) ≡ true). absurd (ground (arith, model)))
        (λ _.
          Returns-if (λ _ t. Zeroed m p mesh p.num_physical_cores t) _ _ _ s
            (λ _.
              loop-Zeroed m p mesh (λ i _. llc_icl_at msr p i) s
                (λ i t lt h. llc_icl_at-Zeroed i t model few lt h))
            (λ (e : (p.processor_model == core_model_icl) ≡ false). absurd (ground (arith, model))))

  -- All units are set to count lookups, and their counters are 0.
  abbrev pub LooksFresh : State W → Type 0
  LooksFresh t =
      ((i : ℕ)
        → i < p.num_physical_cores
        → AllHold (lookups p.processor_model i) (accepts.written t.world))
      × Zeroed m p mesh p.num_physical_cores t

  pub set_llc_pmon-LooksFresh :
      (s : State W) → IsTabled p → Returns (λ _ t. LooksFresh t) (set_llc_pmon msr p s)
  set_llc_pmon-LooksFresh s tabled =
      Returns-mono
        (λ _ t.
          UnitsHold msr p accepts (lookups p.processor_model) p.num_physical_cores s t
          × Zeroed m p mesh p.num_physical_cores t)
        (λ _ t. LooksFresh t) _
        (Returns-and _ _ _ (set_llc_pmon-UnitsHold msr p accepts s tabled)
          (set_llc_pmon-Zeroed s tabled))
        (λ _ t h. (h.0.each, h.1))

  -- The register that starts and stops all counters is none of those of a unit.
  lookups-AllAvoid : (model i : ℕ) → AllAvoid ((0x0700, 2 ^ 61) ∷ []) (lookups model i)
  lookups-AllAvoid model i = elim (Bool-cases (model == core_model_skl)) [
    | inl skl ↦ rw skl (ground arith)
    | inr icl ↦ rw icl (go (icl_base i) (above i))
  ]
    where
      above : (i : ℕ) → 0x0700 < icl_base i
      above i = ground arith

      go : (a : ℕ) → 0x0700 < a → AllAvoid ((0x0700, 2 ^ 61) ∷ []) (lookups_at a)
      go a lt = ground arith

  pub unfreeze-IsLooking :
      (s : State W)
      → LooksFresh s
      → Returns
          (λ _ t. IsLooking p (accepts.written t.world) × Zeroed m p mesh p.num_physical_cores t)
          (unfreeze msr p s)
  unfolding final
  unfreeze-IsLooking s (set, still) =
      Returns-mono (λ _ t. t.world ≡ (msr.pwrite p.msr_h.fd 0x0700 (2 ^ 61) s.world).1)
        (λ _ t. IsLooking p (accepts.written t.world) × Zeroed m p mesh p.num_physical_cores t) _
        (unfreeze-pwrite m p mesh s)
        (λ _ t e.
          rw e (looking, λ i a lt c. switches (2 ^ 61) a s.world (i, (lt, c)) ∙ still i a lt c))
    where
      after : ℕ → ℕ
      after = accepts.written (msr.pwrite p.msr_h.fd 0x0700 (2 ^ 61) s.world).1

      looking : IsLooking p after
      looking = record {
        runs = accepts.stores 0x0700 (2 ^ 61) 0x0700 s.world;
        events = λ i lt.
            AllHold-kept ((0x0700, 2 ^ 61) ∷ []) (lookups p.processor_model i)
              (accepts.written s.world) after (lookups-AllAvoid p.processor_model i)
              (λ b. accepts.stores 0x0700 (2 ^ 61) b s.world) (set i lt);
      }
