-- ===== src/Examples/Document.antt =====
-- The document of `dump_busy_paths`, with a JSON library that keeps the calls that made a value.
use Prim.Native.String.{String}
use text.Mathlib.Text.{◌==◌ as str_eq}
use core_map.Base.{inr, pos, ◌≡◌, arith, refl, if◌then◌else◌, ℤ, List, [], ◌∷◌, ◌++◌}
use core_map.Main.{main, Options, Opt, opt_c, opt_b}
use core_map.Base.{minus_one}
use core_map.Main.Rejects.{IsUnsupported, Untouched, main-Untouched}
use core_map.Cpuid.{Cpu, full_model_id}
use core_map.Cpuid.Decode.{full_model_id-signature}
use core_map.MemLines.Dump.{Json, Output, document}
use core_map.MemLines.Dump.Content.{IsJson, Holds, document-Holds}
use core_map.Examples.Toy.{World, machine, xeon, begin, mapped}

data Value : Type 0 where
  v_null v_array : Value
  v_text : String → Value
  v_int : ℤ → Value
  v_with : String → Value → Value → Value
  v_push : Value → Value → Value

value_field : String → Value → Value
value_field k (v_with l v doc) = let rest = value_field k doc in if str_eq k l then v else rest
value_field k v_null = v_null
value_field k v_array = v_null
value_field k (v_text t) = v_null
value_field k (v_int n) = v_null
value_field k (v_push a x) = v_null

value_items : Value → List Value
value_items (v_push a x) = value_items a ++ x ∷ []
value_items v_null = []
value_items v_array = []
value_items (v_text t) = []
value_items (v_int n) = []
value_items (v_with l v doc) = []

abbrev json : Json Value
json = record {
  null = v_null;
  array = v_array;
  text = v_text;
  int = v_int;
  field = value_field;
  with_field = v_with;
  push_back = v_push;
}

json-IsJson : IsJson json
unfolding value_field value_items
json-IsJson = record {
  items = value_items;
  get_set = λ k l v doc. refl;
  get_null = λ k. refl;
  items_null = refl;
  items_array = refl;
  items_push = λ a x. refl;
}

document-Holds_example : Holds json json-IsJson "1f" mapped (document json "1f" mapped)
document-Holds_example = document-Holds json json-IsJson "1f" mapped

abbrev files : Output World Value
files = record { show_hex = λ n. "7"; write_file = λ name doc w. w }

-- A processor of family 6 and model 79.
abbrev broadwell : Cpu
broadwell = record xeon { cpuid = λ leaf. record { eax = 0x406F1; ebx = 0; ecx = 0; edx = 0 } }

broadwell-IsUnsupported : IsUnsupported broadwell
broadwell-IsUnsupported six =
    let model : full_model_id 0x406F1 ≡ 79 =
      (full_model_id-signature 0 79 1 (omega arith) (omega arith) (omega arith)).1 in
    (λ e. absurd (omega (arith, model, e)), λ e. absurd (omega (arith, model, e)))

main-Untouched_example : Untouched begin.world (
    main machine broadwell json files
      (λ n. "busy_path.7.json")
      (λ arg. pos 2)
      (opt_c "2" ∷ opt_b "0" ∷ [])
      begin)
main-Untouched_example =
    main-Untouched machine broadwell json files (λ n. "busy_path.7.json") (λ arg. pos 2)
      (opt_c "2" ∷ opt_b "0" ∷ []) begin (inr broadwell-IsUnsupported)

-- Two cores from core 2 on.
abbrev two_cores : Options
two_cores = record { num_cores = pos 2; base_core_id = pos 2; num_physical_cores = minus_one }

abbrev line : List Opt
line = opt_c "2" ∷ opt_b "2" ∷ []
