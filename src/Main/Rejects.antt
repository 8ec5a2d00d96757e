-- ===== src/Main/Rejects.antt =====
-- srcs/main.cpp, lines 20-43: what main leaves untouched when it does not take its options or the processor.
use Prim.Native.String.{String}
use core_map.Base.{
  ℕ, ◌≡◌, ◌≢◌, refl, ◌∙◌, ◌⊎◌, inl, inr, ℤ, minus_one, is_neg, pos_part, List, none, Option-cases,
  if◌then◌else◌,
}
use core_map.Base.Effect.{
  State, Outcome, ret, exits, aborts, throws, faults, out_of_fuel, ◌>>=◌, exit,
}
use core_map.Base.Hoare.{Returns, Returns-first}
use core_map.Cpuid.{
  Cpu, full_family_id, full_model_id, check_brand_string, check_processor_family_model_id,
}
use core_map.Cpuid.Decode.{
  accepted, rejected, check_processor_family_model_id-Checked, check_brand_string-Returns,
}
use core_map.MemLines.Object.{Machine}
use core_map.MemLines.Dump.{Json, Output}
use core_map.Main.{Opt, Options, parse_options, default_options, main, run, fill_physical}

-- The processor is none of the two that the program knows.
abbrev pub IsUnsupported : Cpu → Type 0
IsUnsupported cpu =
    full_family_id (cpu.cpuid 1).eax ≡ 6
    → (full_model_id (cpu.cpuid 1).eax ≢ 85) × (full_model_id (cpu.cpuid 1).eax ≢ 106)

-- The options name something that getopt does not know or ask for help, or the processor is unsupported.
abbrev IsRefused : Cpu → (String → ℤ) → List Opt → Type 0
IsRefused cpu atoi opts = (parse_options atoi default_options opts ≡ none) ⊎ IsUnsupported cpu

-- The program ended with -1, and nothing but the output has changed.
abbrev pub Untouched : {W : Type 0} → W → Outcome ℤ × State W → Type 0
Untouched w r = (r.1.world ≡ w) × ((r.0 ≡ ret minus_one) ⊎ (r.0 ≡ exits minus_one))

module _ {W : Type 0} where
  Returns-ret :
      {A : Type 0} (Q : A → State W → Type 0) (r : Outcome A × State W) {a : A}
      → r.0 ≡ ret a
      → Q a r.1
      → Returns Q r
  Returns-ret Q (ret b, s) {a = a} e h = let e' : b ≡ a = cc in rw e' h
  Returns-ret Q (exits c, s) e h = cc
  Returns-ret Q (aborts, s) e h = cc
  Returns-ret Q (throws, s) e h = cc
  Returns-ret Q (faults, s) e h = cc
  Returns-ret Q (out_of_fuel, s) e h = cc

module _ {W J : Type 0} (m : Machine W) (cpu : Cpu) (j : Json J) (out : Output W J)
    (file_name : ℕ → String) where
  unsupported-Returns :
      (s : State W)
      → IsUnsupported cpu
      → Returns
          (λ r t. (r ≡ minus_one) × (t.world ≡ s.world))
          (check_processor_family_model_id cpu s)
  unsupported-Returns s other = elim (check_processor_family_model_id-Checked cpu s) [
    | accepted model six is two e ↦
        absurd (elim two [ inl a ↦ (other six).0 (is ∙ a) | inr a ↦ (other six).1 (is ∙ a) ])
    | rejected _ e same ↦
        Returns-ret (λ r t. (r ≡ minus_one) × (t.world ≡ s.world)) _ e (refl, same)
  ]

  -- For every machine, processor and list of options: if the options name one that is unknown or
  -- ask for help, or the processor is not of family 6 with model 85 or 106, then main returns -1 or
  -- exits with -1, and nothing but the output has changed.
  pub main-Untouched :
      (atoi : String → ℤ) (opts : List Opt) (s : State W)
      → IsRefused cpu atoi opts
      → Untouched s.world (main m cpu j out file_name atoi opts s)
  unfolding main ◌>>=◌
  main-Untouched atoi opts s refused =
      elim (Option-cases (parse_options atoi default_options opts)) [
        | inl e ↦ rw (main, e) (refl, inl refl)
        | inr (o, e) ↦
            rw (main, e)
              (unsupported o (elim refused [ inl none_left ↦ absurd cc | inr other ↦ other ]))
      ]
    where
      stopped :
          (o : Options) (r : ℤ) (u : State W)
          → r ≡ minus_one
          → u.world ≡ s.world
          → Untouched s.world (
              (if is_neg r
                  then exit minus_one
                  else run m cpu j out file_name (pos_part r) (fill_physical o))
                u)
      stopped o r u e h = rw e (h, inr refl)

      unsupported :
          (o : Options)
          → IsUnsupported cpu
          → Untouched s.world (
              (check_brand_string cpu >>= λ _. check_processor_family_model_id cpu >>= λ model.
              if is_neg model
              then exit minus_one
              else run m cpu j out file_name (pos_part model) (fill_physical o))
                s)
      unsupported o other =
          Returns-first (λ _ t. t.world ≡ s.world) (Untouched s.world) (check_brand_string cpu)
            (λ _. check_processor_family_model_id cpu >>= λ model.
              if is_neg model
              then exit minus_one
              else run m cpu j out file_name (pos_part model) (fill_physical o))
            s (check_brand_string-Returns cpu s)
            λ _ t h.
              Returns-first (λ r u. (r ≡ minus_one) × (u.world ≡ t.world)) (Untouched s.world)
                (check_processor_family_model_id cpu)
                (λ model.
                  if is_neg model
                  then exit minus_one
                  else run m cpu j out file_name (pos_part model) (fill_physical o))
                t (unsupported-Returns t other) λ r u g. stopped o r u g.0 (g.1 ∙ h)
