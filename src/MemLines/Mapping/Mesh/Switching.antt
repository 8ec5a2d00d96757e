-- ===== src/MemLines/Mapping/Mesh/Switching.antt =====
-- srcs/pmon.cpp, lines 159-191: on a mesh, freezing and unfreezing leave the counters and their events as they are.
use core_map.Base.{ℕ, ◌<◌, ◌≡◌, ◌^◌, refl, ◌∙◌, inl, inr, ◌==◌, Bool-cases, arith}
use core_map.Base.Effect.{State, ◌>>=◌}
use core_map.Base.Hoare.{Returns, Returns-mono}
use core_map.Cpuid.{core_model_skl}
use core_map.Msr.{write}
use core_map.Pmon.{Pmon, freeze, unfreeze}
use core_map.Pmon.Tables.{PmonUnit}
use core_map.Pmon.Tables.Layout.{skl_unit, icl_unit, icl_base}
use core_map.Pmon.Program.{Programmed}
use core_map.MemLines.Object.{Machine}
use core_map.MemLines.Mapping.Mesh.{
  IsMesh, ControlOf, control_unit, control_0, control_1, control_2, control_3, unit_of, IsCounter,
  IsCounting, vert_of, horz_of,
}
use core_map.MemLines.Mapping.Mesh.Setting.{Zeroed, IsReset}

module _ {W : Type 0} (m : Machine W) (p : Pmon) (mesh : IsMesh m p) where
  open m use {msr}
  open mesh use {accepts, shows, switches}

  freeze-pwrite :
      (s : State W)
      → Returns
          (λ _ t. t.world ≡ (msr.pwrite p.msr_h.fd 0x0700 (2 ^ 63) s.world).1)
          (freeze msr p s)
  unfolding freeze write ◌>>=◌
  freeze-pwrite s = rw (accepts.whole 0x0700 (2 ^ 63) s.world) refl

  pub unfreeze-pwrite :
      (s : State W)
      → Returns
          (λ _ t. t.world ≡ (msr.pwrite p.msr_h.fd 0x0700 (2 ^ 61) s.world).1)
          (unfreeze msr p s)
  unfolding unfreeze write ◌>>=◌
  unfreeze-pwrite s = rw (accepts.whole 0x0700 (2 ^ 61) s.world) refl

  -- Freezing changes no counter.
  pub freeze-counts :
      (s : State W)
      → Returns
          (λ _ t. (b : ℕ) → IsCounter p b → shows.contents t.world b ≡ shows.contents s.world b)
          (freeze msr p s)
  freeze-counts s =
      Returns-mono (λ _ t. t.world ≡ (msr.pwrite p.msr_h.fd 0x0700 (2 ^ 63) s.world).1)
        (λ _ t. (b : ℕ) → IsCounter p b → shows.contents t.world b ≡ shows.contents s.world b) _
        (freeze-pwrite s) (λ _ t e b c. rw e (switches (2 ^ 63) b s.world c))

  Programmed-other :
      (reg reg' : ℕ → ℕ) (vert horz : ℕ) (u : PmonUnit)
      → ((b : ℕ) → ControlOf u b → reg' b ≡ reg b)
      → Programmed reg vert horz u
      → Programmed reg' vert horz u
  Programmed-other reg reg' vert horz u same h = record {
    reset = same u.unit_ctl control_unit ∙ h.reset;
    up = same u.ctl0 control_0 ∙ h.up;
    down = same u.ctl1 control_1 ∙ h.down;
    left = same u.ctl2 control_2 ∙ h.left;
    right = same u.ctl3 control_3 ∙ h.right;
  }

  icl_base-above : (i : ℕ) → 0x0700 < icl_base i
  icl_base-above i = ground arith

  -- The register that starts and stops all counters is none of a unit's controls.
  control_above : (i b : ℕ) → ControlOf (unit_of p i) b → 0x0700 < b
  control_above i b c = elim (Bool-cases (p.processor_model == core_model_skl)) [
    | inl skl ↦
        go (skl_unit i).regs b (rw skl at c) (omega arith) (omega arith) (omega arith) (omega arith)
          (omega arith)
    | inr icl ↦
        let h = icl_base-above i in
        go (icl_unit i).regs b (rw icl at c) (omega arith) (omega arith) (omega arith) (omega arith)
          (omega arith)
  ]
    where
      go :
          (u : PmonUnit) (b : ℕ)
          → ControlOf u b
          → 0x0700 < u.unit_ctl
          → 0x0700 < u.ctl0
          → 0x0700 < u.ctl1
          → 0x0700 < u.ctl2
          → 0x0700 < u.ctl3
          → 0x0700 < b
      go u b control_unit l l0 l1 l2 l3 = l
      go u b control_0 l l0 l1 l2 l3 = l0
      go u b control_1 l l0 l1 l2 l3 = l1
      go u b control_2 l l0 l1 l2 l3 = l2
      go u b control_3 l l0 l1 l2 l3 = l3

  pub unfreeze-IsCounting :
      (s : State W)
      → IsReset m p mesh s
      → Returns
          (λ _ t. IsCounting p (accepts.written t.world) × Zeroed m p mesh p.num_physical_cores t)
          (unfreeze msr p s)
  unfreeze-IsCounting s (set, still) =
      Returns-mono (λ _ t. t.world ≡ (msr.pwrite p.msr_h.fd 0x0700 (2 ^ 61) s.world).1)
        (λ _ t. IsCounting p (accepts.written t.world) × Zeroed m p mesh p.num_physical_cores t) _
        (unfreeze-pwrite s)
        (λ _ t e.
          rw e (counting, λ i a lt c. switches (2 ^ 61) a s.world (i, (lt, c)) ∙ still i a lt c))
    where
      after : ℕ → ℕ
      after = accepts.written (msr.pwrite p.msr_h.fd 0x0700 (2 ^ 61) s.world).1

      kept : (b : ℕ) → 0x0700 < b → after b ≡ accepts.written s.world b
      kept b lt = ground (arith, accepts.stores 0x0700 (2 ^ 61) b s.world)

      counting : IsCounting p after
      counting = record {
        runs = accepts.stores 0x0700 (2 ^ 61) 0x0700 s.world;
        events = λ i lt.
            Programmed-other (accepts.written s.world) after (vert_of p) (horz_of p) (unit_of p i)
              (λ b c. kept b (control_above i b c)) (set i lt);
      }
