-- ===== src/MemLines/Mapping/Mesh/Setting.antt =====
-- srcs/pmon.cpp, lines 159-266: on a mesh, the counters of all units are 0 after they were set to the ring events.
use core_map.Base.{true, false, ℕ, suc, ◌≤◌, ◌<◌, ◌≡◌, refl, inl, inr, ◌==◌, arith}
use native.Mathlib.Decide.{ℕ_discrete}
use core_map.Base.Effect.{
  State, M, Message, unit_ctl_write_failed, event_write_failed, ◌>>=◌, ◌>>◌, for_range,
}
use core_map.Base.Hoare.{
  Returns, Returns-bind, Returns-mono, Returns-index, Returns-if, Returns-and, for_range-Returns,
}
use core_map.Cpuid.{core_model_skl, core_model_icl}
use core_map.Msr.{write}
use core_map.Pmon.{
  Pmon, checked_write, set_pmon_ring_channels, set_pmon_ring_channels_skl,
  set_pmon_ring_channels_icl, ring_channels_skl_at, ring_channels_icl_at,
}
use core_map.Pmon.Tables.{PmonUnit}
use core_map.Pmon.Tables.Layout.{skl_unit, icl_unit, get_elem?-c_skl, get_elem?-c_icl}
use core_map.Pmon.Program.{Programmed}
use core_map.Pmon.Program.Loop.{
  Programs, set_pmon_ring_channels_skl-Programs, set_pmon_ring_channels_icl-Programs,
}
use core_map.Pmon.Readout.{IsTabled}
use core_map.MemLines.Object.{Machine}
use core_map.MemLines.Mapping.Mesh.{
  IsMesh, CounterOf, control_unit, control_0, control_1, control_2, control_3, unit_of, IsControl,
  of_unit, vert_of, horz_of,
}

module _ {W : Type 0} (m : Machine W) (p : Pmon) (mesh : IsMesh m p) where
  open m use {msr}
  open mesh use {accepts, shows, resets, programs, switches}

  -- The counters of the first k units are 0.
  abbrev pub Zeroed : ℕ → State W → Type 0
  Zeroed k s = (i a : ℕ) → i < k → CounterOf (unit_of p i) a → shows.contents s.world a ≡ 0

  checked_write-pwrite :
      (msg : Message) (a v : ℕ) (s : State W)
      → Returns
          (λ _ t. t.world ≡ (msr.pwrite p.msr_h.fd a v s.world).1)
          (checked_write msr msg p a v s)
  unfolding checked_write write ◌>>=◌
  checked_write-pwrite msg a v s = rw (accepts.whole a v s.world) refl

  module _ (k : ℕ) (small : k ≤ p.num_physical_cores) where
    pub checked_write-Zeroed :
        (msg : Message) (a v : ℕ) (s : State W)
        → IsControl p a
        → Zeroed k s
        → Returns (λ _ t. Zeroed k t) (checked_write msr msg p a v s)
    checked_write-Zeroed msg a v s control h =
        Returns-mono (λ _ t. t.world ≡ (msr.pwrite p.msr_h.fd a v s.world).1) (λ _ t. Zeroed k t) _
          (checked_write-pwrite msg a v s)
          (λ _ t e i b lt c.
            let below : shows.contents (msr.pwrite p.msr_h.fd a v s.world).1 b
                ≤ shows.contents s.world b =
              programs a v b s.world control (i, (omega arith, c)) in
            rw e (omega (arith, h i b lt c)))

    pub Returns-control :
        (msg : Message) (a v : ℕ) (next : M W (Unit {0})) (s : State W)
        → IsControl p a
        → Zeroed k s
        → ((t : State W) → Zeroed k t → Returns (λ _ u. Zeroed k u) (next t))
        → Returns (λ _ u. Zeroed k u) ((checked_write msr msg p a v >> next) s)
    Returns-control msg a v next s control h rest =
        Returns-bind (λ _ t. Zeroed k t) (λ _ u. Zeroed k u) _ _ s
          (checked_write-Zeroed msg a v s control h) (λ _ t z. rest t z)

  module _ (i : ℕ) (lt : i < p.num_physical_cores) where
    pub reset-Zeroed :
        (msg : Message) (s : State W)
        → Zeroed i s
        → Returns (λ _ t. Zeroed (suc i) t) (checked_write msr msg p (unit_of p i).unit_ctl 0x3 s)
    reset-Zeroed msg s h =
        Returns-mono (λ _ t. t.world ≡ (msr.pwrite p.msr_h.fd (unit_of p i).unit_ctl 0x3 s.world).1)
          (λ _ t. Zeroed (suc i) t) _ (checked_write-pwrite msg (unit_of p i).unit_ctl 0x3 s)
          (λ _ t e j b le c. rw e (elim (ℕ_discrete j i) [
            | yes same ↦ resets i b s.world lt (same_unit j b same c)
            | no other ↦
                let below : shows.contents
                      (msr.pwrite p.msr_h.fd (unit_of p i).unit_ctl 0x3 s.world).1 b
                    ≤ shows.contents s.world b =
                  programs (unit_of p i).unit_ctl 0x3 b s.world (of_unit i _ lt control_unit)
                    (j, (omega arith, c)) in
                omega (arith, h j b (omega arith) c)
          ]))
      where
        same_unit : (j b : ℕ) → j ≡ i → CounterOf (unit_of p j) b → CounterOf (unit_of p i) b
        same_unit j b e c = rw e at c

    -- The five writes to one unit.
    five_writes-Zeroed :
        (u : PmonUnit) (v0 v1 v2 v3 : ℕ) (s : State W)
        → u ≡ unit_of p i
        → Zeroed i s
        → Returns
            (λ _ t. Zeroed (suc i) t)
            ((checked_write msr unit_ctl_write_failed p u.unit_ctl 0x3 >>= λ _.
                checked_write msr event_write_failed p u.ctl0 v0 >>= λ _.
                checked_write msr event_write_failed p u.ctl1 v1 >>= λ _.
                checked_write msr event_write_failed p u.ctl2 v2 >>= λ _.
                checked_write msr event_write_failed p u.ctl3 v3)
              s)
    five_writes-Zeroed u v0 v1 v2 v3 s e h =
        let small : suc i ≤ p.num_physical_cores = omega arith in
        rw e (
          Returns-bind (λ _ t. Zeroed (suc i) t) (λ _ t. Zeroed (suc i) t) _ _ s
            (reset-Zeroed _ s h)
            λ _ s1 h1.
              Returns-control (suc i) small _ _ _ _ s1 (of_unit i _ lt control_0) h1 λ s2 h2.
                Returns-control (suc i) small _ _ _ _ s2 (of_unit i _ lt control_1) h2 λ s3 h3.
                  Returns-control (suc i) small _ _ _ _ s3 (of_unit i _ lt control_2) h3 λ s4 h4.
                    checked_write-Zeroed (suc i) small _ _ _ s4 (of_unit i _ lt control_3) h4)

  -- The loop on either generation, from what one round does.
  pub loop-Zeroed :
      (body : ℕ → Unit {0} → M W (Unit {0})) (s : State W)
      → ((i : ℕ) (t : State W)
          → i < p.num_physical_cores
          → Zeroed i t
          → Returns (λ _ u. Zeroed (suc i) u) (body i tt t))
      → Returns (λ _ t. Zeroed p.num_physical_cores t) (for_range p.num_physical_cores 0 body tt s)
  loop-Zeroed body s round =
      for_range-Returns (λ i _ t. Zeroed i t) body p.num_physical_cores 0 p.num_physical_cores
        (omega arith) (λ i _ t lt h. round i t lt h) tt s (λ i a lt c. absurd (omega arith))

  ring_channels_skl_at-Zeroed :
      (i : ℕ) (t : State W)
      → p.processor_model ≡ core_model_skl
      → p.num_physical_cores ≤ 28
      → i < p.num_physical_cores
      → Zeroed i t
      → Returns (λ _ u. Zeroed (suc i) u) (ring_channels_skl_at msr p i t)
  unfolding ring_channels_skl_at
  ring_channels_skl_at-Zeroed i t model small lt h =
      Returns-index (λ _ u. Zeroed (suc i) u) _ _ t (get_elem?-c_skl i (omega arith))
        (five_writes-Zeroed i lt (skl_unit i).regs _ _ _ _ t (rw model refl) h)

  ring_channels_icl_at-Zeroed :
      (i : ℕ) (t : State W)
      → p.processor_model ≡ core_model_icl
      → p.num_physical_cores ≤ 39
      → i < p.num_physical_cores
      → Zeroed i t
      → Returns (λ _ u. Zeroed (suc i) u) (ring_channels_icl_at msr p i t)
  unfolding ring_channels_icl_at
  ring_channels_icl_at-Zeroed i t model small lt h =
      Returns-index (λ _ u. Zeroed (suc i) u) _ _ t (get_elem?-c_icl i (omega arith))
        (five_writes-Zeroed i lt (icl_unit i).regs _ _ _ _ t (rw model refl) h)

  -- All units are set to the ring events, and their counters are 0.
  abbrev pub IsReset : State W → Type 0
  IsReset t =
      ((i : ℕ)
        → i < p.num_physical_cores
        → Programmed (accepts.written t.world) (vert_of p) (horz_of p) (unit_of p i))
      × Zeroed p.num_physical_cores t

  set_pmon_ring_channels_skl-IsReset :
      (s : State W)
      → p.processor_model ≡ core_model_skl
      → p.num_physical_cores ≤ 28
      → Returns (λ _ t. IsReset t) (set_pmon_ring_channels_skl msr p s)
  unfolding set_pmon_ring_channels_skl
  set_pmon_ring_channels_skl-IsReset s model small =
      Returns-mono
        (λ _ t.
          Programs msr p accepts (λ i. (skl_unit i).regs) 0xaa 0xab p.num_physical_cores s t
          × Zeroed p.num_physical_cores t)
        (λ _ t. IsReset t) _
        (Returns-and _ _ _ (set_pmon_ring_channels_skl-Programs msr p accepts s small) (
          loop-Zeroed (λ i _. ring_channels_skl_at msr p i) s
            (λ i t lt h. ring_channels_skl_at-Zeroed i t model small lt h)))
        (λ _ t h. (λ i lt. rw model (h.0.each i lt), h.1))

  set_pmon_ring_channels_icl-IsReset :
      (s : State W)
      → p.processor_model ≡ core_model_icl
      → p.num_physical_cores ≤ 39
      → Returns (λ _ t. IsReset t) (set_pmon_ring_channels_icl msr p s)
  unfolding set_pmon_ring_channels_icl
  set_pmon_ring_channels_icl-IsReset s model small =
      Returns-mono
        (λ _ t.
          Programs msr p accepts (λ i. (icl_unit i).regs) 0xb2 0xb8 p.num_physical_cores s t
          × Zeroed p.num_physical_cores t)
        (λ _ t. IsReset t) _
        (Returns-and _ _ _ (set_pmon_ring_channels_icl-Programs msr p accepts s small) (
          loop-Zeroed (λ i _. ring_channels_icl_at msr p i) s
            (λ i t lt h. ring_channels_icl_at-Zeroed i t model small lt h)))
        (λ _ t h. (λ i lt. rw model (h.0.each i lt), h.1))

  pub set_pmon_ring_channels-IsReset :
      (s : State W) → IsTabled p → Returns (λ _ t. IsReset t) (set_pmon_ring_channels msr p s)
  unfolding set_pmon_ring_channels
  set_pmon_ring_channels-IsReset s (inl (model, small)) =
      Returns-if (λ _ t. IsReset t) _ _ _ s (λ _. set_pmon_ring_channels_skl-IsReset s model small)
        (λ (e : (p.processor_model == core_model_skl) ≡ false). absurd (ground (arith, model)))
  set_pmon_ring_channels-IsReset s (inr (model, small)) =
      Returns-if (λ _ t. IsReset t) _ _ _ s
        (λ (e : (p.processor_model == core_model_skl) ≡ true). absurd (ground (arith, model)))
        (λ _.
          Returns-if (λ _ t. IsReset t) _ _ _ s
            (λ _. set_pmon_ring_channels_icl-IsReset s model small)
            (λ (e : (p.processor_model == core_model_icl) ≡ false). absurd (ground (arith, model))))
