-- ===== src/Main/Setup.antt =====
-- srcs/main.cpp, lines 46-60: the monitor and the object that main works with.
use Prim.Native.String.{String}
use core_map.MemLines.Address.{Allocates}
use core_map.Msr.Opened.{open_handle-Ensures}
use core_map.Base.Hoare.{int_sum-Returns}
use core_map.Msr.{open_handle}
use core_map.Base.{
  inl, inr, Bool-cases, to_uint64, ◌%◌, ◌+◌, ◌<◌, ◌^◌, ℕ, ◌≤◌, ◌≡◌, is_neg, pos_part, ◌||◌,
  if◌then◌else◌,
}
use core_map.Base.Effect.{State, throw, pure}
use core_map.Base.Hoare.{Ensures, Ensures-bind, Ensures-then, Ensures-use, Ensures-if, Any}
use core_map.Cpuid.{Cpu, core_model_skl, core_model_icl}
use core_map.Pmon.{Pmon}
use core_map.Pmon.Lifetime.{
  IsMonitor, new_pmon-IsMonitor, check_unique_ppin-IsMonitor, disable_prefetch-Ensures,
}
use core_map.MemLines.Object.{Machine, MemLines}
use core_map.MemLines.Object.Fresh.{Fresh, new_mem_lines-Fresh}
use core_map.MemLines.Dump.{Json, Output}
use core_map.Main.{Options, setup}

-- The number of units that the table for the processor has room for.
abbrev pub HasRoom : ℕ → ℕ → Type 0
HasRoom model units = (model ≡ core_model_skl → units ≤ 28) × (model ≡ core_model_icl → units ≤ 40)

-- What the constructors have made of the options.
pub record IsReady (model : ℕ) (o : Options) (p : Pmon) (ml : MemLines) : Type 0 where
  pub monitor :
      IsMonitor model
        (pos_part o.base_core_id)
        (pos_part o.num_cores)
        (pos_part o.num_physical_cores)
        p
  pub fresh :
      Fresh (pos_part o.base_core_id) (pos_part o.num_cores) (pos_part o.num_physical_cores) ml

module _ {W J : Type 0} (m : Machine W) (cpu : Cpu) (j : Json J) (out : Output W J)
    (file_name : ℕ → String) where
  open m use {msr, pages}

  pub setup-IsReady :
      (model : ℕ) (o : Options) (s : State W)
      → Allocates pages
      → pos_part o.base_core_id + pos_part o.num_cores < 2 ^ 31
      → Ensures {A = Pmon × MemLines}
          (λ got t. IsReady model o got.0 got.1)
          (setup m cpu j out file_name model o s)
  unfolding setup
  setup-IsReady model o s allocates small =
      let b = pos_part o.base_core_id in
      let c = pos_part o.num_cores in
      let u = pos_part o.num_physical_cores in
      Ensures-then _ _ _ s tt λ _ s1. Ensures-then _ _ _ s1 tt λ self s2.
        Ensures-then _ _ _ s2 tt λ _ s3. elim (Bool-cases (is_neg o.base_core_id)) [
          | inl neg ↦ rw neg (
              Ensures-bind (λ h t. h.cpu_id ≡ to_uint64 o.base_core_id % 2 ^ 32)
                (λ got t. IsReady model o got.0 got.1)
                (open_handle msr (to_uint64 o.base_core_id % 2 ^ 32)) (λ _. throw) s3
                (open_handle-Ensures msr _ s3) (λ _ s4 _. tt))
          | inr nonneg ↦ rw nonneg (
              Ensures-bind (λ p t. IsMonitor model b c u p) _ _ _ s3
                (new_pmon-IsMonitor msr model b c u s3)
                λ p s4 hp.
                  Ensures-use (λ got t. IsMonitor model b c u got.0) _ _ _ s4
                    (check_unique_ppin-IsMonitor msr model b c u p s4 hp)
                    λ got s5 hq.
                      Ensures-use (λ r t. (r ≡ b + c) × (t ≡ s5)) _ _ _ s5
                        (int_sum-Returns b c s5 small)
                        λ _ s6 _.
                          Ensures-bind Any _ _ _ s6 (disable_prefetch-Ensures msr got.0 s6)
                            λ _ s7 _.
                              Ensures-bind (λ ml t. Fresh b c u ml) _ _ _ s7
                                (new_mem_lines-Fresh m b c u s7 allocates)
                                λ ml s8 hm.
                                  made o got.0 ml s8 (record { monitor = hq; fresh = hm }))
        ]
    where
      made :
          (o : Options) (p : Pmon) (ml : MemLines) (t : State W)
          → IsReady model o p ml
          → Ensures {A = Pmon × MemLines}
              (λ got t. IsReady model o got.0 got.1)
              ((if is_neg o.num_cores || is_neg o.num_physical_cores then throw else pure (p, ml))
                t)
      made o p ml t h =
          Ensures-if {A = Pmon × MemLines} (λ got t. IsReady model o got.0 got.1)
            (is_neg o.num_cores || is_neg o.num_physical_cores) throw (pure (p, ml)) t (λ _. tt)
            (λ _. h)
