-- ===== src/Cpuid.antt =====
-- srcs/cpuid_tasks.cpp: which processor the program runs on. The `cpuid` instruction and
-- `sysconf` are parameters.
pub mod Decode
use core_map.Base.{
  ℕ, ◌+◌, ◌*◌, ◌/◌, ◌%◌, ◌^◌, Bool, true, false, ◌&&◌, ◌||◌, not, ℤ, pos, negsuc, minus_one, List,
  [], ◌∷◌, ◌==◌, if◌then◌else◌,
}
use core_map.Base.Effect.{M, ◌>>=◌, ◌>>◌, pure, say, unsupported_cpu, brand_missing, brand_is}

-- The registers that one execution of `cpuid` fills, each below 2 ^ 32.
pub record Regs : Type 0 where
  pub eax : ℕ
  pub ebx : ℕ
  pub ecx : ℕ
  pub edx : ℕ

pub record Cpu : Type 0 where
  pub get_cpuid_max : ℕ → ℕ
  pub cpuid : ℕ → Regs
  pub nprocessors_conf : ℕ
  pub nprocessors_onln : ℕ

abbrev pub core_model_skl : ℕ
core_model_skl = 85

abbrev pub core_model_icl : ℕ
core_model_icl = 106

-- x >> k, then & (2 ^ w - 1).
abbrev pub field : ℕ → ℕ → ℕ → ℕ
field x k w = x / 2 ^ k % 2 ^ w

family_id_e : ℕ → ℕ
family_id_e eax = field eax 20 8

family_id : ℕ → ℕ
family_id eax = field eax 8 4

pub model_id_e : ℕ → ℕ
model_id_e eax = field eax 16 4

pub model_id : ℕ → ℕ
model_id eax = field eax 4 4

-- `model_id` after the first `if`.
pub full_model_id : ℕ → ℕ
unfolding family_id model_id model_id_e
full_model_id eax =
    if family_id eax == 6 || family_id eax == 15
    then model_id_e eax * 2 ^ 4 + model_id eax
    else model_id eax

-- `family_id` after the second `if`.
pub full_family_id : ℕ → ℕ
unfolding family_id family_id_e
full_family_id eax = if family_id eax == 15 then family_id eax + family_id_e eax else family_id eax

is_supported : ℕ → ℕ → Bool
is_supported family model =
    not (not (family == 6) || (not (model == core_model_skl) && not (model == core_model_icl)))

-- The four registers of one leaf, in the order in which the brand string holds them.
words : Regs → List ℕ → List ℕ
words r rest = r.eax ∷ r.ebx ∷ r.ecx ∷ r.edx ∷ rest

get_processor_count : Cpu → ℕ
get_processor_count cpu = cpu.nprocessors_onln

module _ {W : Type 0} (cpu : Cpu) where
  pub check_processor_family_model_id : M W ℤ
  check_processor_family_model_id =
      let eax = (cpu.cpuid 1).eax in
      if is_supported (full_family_id eax) (full_model_id eax)
      then pure (pos (full_model_id eax))
      else (do say (unsupported_cpu (full_family_id eax) (full_model_id eax)); pure minus_one)

  pub check_brand_string : M W ℤ
  check_brand_string =
      if cpu.get_cpuid_max 0x80000004 == 0 then (do say brand_missing; pure minus_one) else (do
        say (
            brand_is (
              words (cpu.cpuid 0x80000002)
                (words (cpu.cpuid 0x80000003) (words (cpu.cpuid 0x80000004) []))))
        pure (pos 0))
