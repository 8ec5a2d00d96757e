-- ===== src/Cpuid/Decode.antt =====
-- Which processors are accepted.
use core_map.Base.{
  ℕ, ◌+◌, ◌*◌, ◌/◌, ◌%◌, ◌^◌, ◌<◌, ◌≡◌, ◌≢◌, refl, ◌⊎◌, inl, inr, pos, minus_one, arith, true,
  false, Bool-cases, ◌==◌,
}
use core_map.Base.Effect.{State, ret, ◌>>=◌}
use core_map.Base.Hoare.{Returns}
use core_map.Cpuid.{
  Cpu, full_family_id, full_model_id, check_processor_family_model_id, check_brand_string,
  is_supported,
}

-- The signature that `cpuid` puts together from the parts of a family and a model.
abbrev pub signature : ℕ → ℕ → ℕ → ℕ → ℕ → ℕ
signature family_e model_e family model stepping =
    family_e * 2 ^ 20 + model_e * 2 ^ 16 + family * 2 ^ 8 + model * 2 ^ 4 + stepping

-- The display model below 256 of a processor of family 6, put into a signature as its high and low
-- four bits beside any extended family below 256 and any stepping below 16, is decoded again, and
-- so is the family.
pub full_model_id-signature :
    (family_e model stepping : ℕ)
    → family_e < 256
    → model < 256
    → stepping < 16
    → (full_family_id (signature family_e (model / 16) 6 (model % 16) stepping) ≡ 6)
      × (full_model_id (signature family_e (model / 16) 6 (model % 16) stepping) ≡ model)
unfolding full_family_id full_model_id
full_model_id-signature family_e model stepping hf hm hs = ground arith

-- The check returns the model, if the family is 6 and the model is 85 or 106, and -1 for all else. It
-- touches nothing but the output.
pub data Checked {W : Type 0} (cpu : Cpu) (s : State W) : Type 0 where
  accepted :
      (model : ℕ)
      → full_family_id (cpu.cpuid 1).eax ≡ 6
      → full_model_id (cpu.cpuid 1).eax ≡ model
      → (model ≡ 85) ⊎ (model ≡ 106)
      → check_processor_family_model_id cpu s ≡ (ret (pos model), s)
      → Checked cpu s
  rejected :
      (full_family_id (cpu.cpuid 1).eax ≡ 6
        → (full_model_id (cpu.cpuid 1).eax ≢ 85) × (full_model_id (cpu.cpuid 1).eax ≢ 106))
      → (check_processor_family_model_id cpu s).0 ≡ ret minus_one
      → (check_processor_family_model_id cpu s).1.world ≡ s.world
      → Checked cpu s

IsModel : ℕ → ℕ → Type 0
IsModel family model = (family ≡ 6) × ((model ≡ 85) ⊎ (model ≡ 106))

is_supported-cases :
    (family model : ℕ)
    → ((is_supported family model ≡ true) × IsModel family model)
      ⊎ ((is_supported family model ≡ false) × (family ≡ 6 → (model ≢ 85) × (model ≢ 106)))
unfolding is_supported IsModel
is_supported-cases family model = elim (Bool-cases (family == 6)) [
  | inl f ↦ elim (Bool-cases (model == 85)) [
    | inl a ↦ inl (ground arith, (ground arith, inl (ground arith)))
    | inr a ↦ elim (Bool-cases (model == 106)) [
      | inl b ↦ inl (ground arith, (ground arith, inr (ground arith)))
      | inr b ↦ inr (ground arith, λ e. (λ x. ground arith, λ x. ground arith))
    ]
  ]
  | inr f ↦ inr (ground arith, λ e. absurd (ground arith))
]

-- For every processor: the check returns the display model and leaves the state as it was, when the
-- display family is 6 and the model is 85 or 106; otherwise it returns -1, and the world is as it
-- was.
pub check_processor_family_model_id-Checked : {W : Type 0} (cpu : Cpu) (s : State W) → Checked cpu s
unfolding IsModel
check_processor_family_model_id-Checked cpu s =
    elim (is_supported-cases (full_family_id (cpu.cpuid 1).eax) (full_model_id (cpu.cpuid 1).eax)) [
      | inl (e, is) ↦
          accepted (full_model_id (cpu.cpuid 1).eax) is.0 refl is.1
            (unfold check_processor_family_model_id in rw e)
      | inr (e, isnt) ↦
          rejected isnt (unfold check_processor_family_model_id ◌>>=◌ in rw e)
            (unfold check_processor_family_model_id ◌>>=◌ in rw e)
    ]

-- Printing the brand changes nothing but the output.
pub check_brand_string-Returns :
    {W : Type 0} (cpu : Cpu) (s : State W)
    → Returns (λ _ t. t.world ≡ s.world) (check_brand_string cpu s)
unfolding check_brand_string ◌>>=◌
check_brand_string-Returns cpu s = ground arith
