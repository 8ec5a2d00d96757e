-- ===== src/Types/FixedControl.antt =====
-- srcs/types.h, lines 336-362: FixedEventControlRegister, a word and its bit fields.
use core_map.Base.{ℕ, ◌/◌, ◌%◌, ◌^◌, ◌<◌, ◌≡◌, ap, ◌∙◌, List, [], ◌∷◌, arith}
use core_map.Types.Fields.{pack, unpack, FitsFields, pack-unpack, unpack-pack, nth}

pub record FixedEventControlRegister : Type 0 where
  pub os0 : ℕ
  pub usr0 : ℕ
  pub any_thread0 : ℕ
  pub enable_pmi0 : ℕ
  pub os1 : ℕ
  pub usr1 : ℕ
  pub any_thread1 : ℕ
  pub enable_pmi1 : ℕ
  pub os2 : ℕ
  pub usr2 : ℕ
  pub any_thread2 : ℕ
  pub enable_pmi2 : ℕ
  pub reserved1 : ℕ

-- The widths of the fields, from the lowest bit.
abbrev pub layout : List ℕ
layout = 1 ∷ 1 ∷ 1 ∷ 1 ∷ 1 ∷ 1 ∷ 1 ∷ 1 ∷ 1 ∷ 1 ∷ 1 ∷ 1 ∷ 52 ∷ []

abbrev pub field_list : FixedEventControlRegister → List ℕ
field_list r =
    r.os0 ∷ r.usr0 ∷ r.any_thread0 ∷ r.enable_pmi0 ∷ r.os1 ∷ r.usr1 ∷ r.any_thread1 ∷ r.enable_pmi1
    ∷ r.os2 ∷ r.usr2 ∷ r.any_thread2 ∷ r.enable_pmi2 ∷ r.reserved1 ∷ []

-- `value`, after the fields were written.
unfoldable pub value : FixedEventControlRegister → ℕ
value r = pack layout (field_list r)

-- `fields`, after the word was written.
unfoldable pub fields : ℕ → FixedEventControlRegister
fields x = record {
  os0 = x % 2 ^ 1;
  usr0 = x / 2 ^ 1 % 2 ^ 1;
  any_thread0 = x / 2 ^ 2 % 2 ^ 1;
  enable_pmi0 = x / 2 ^ 3 % 2 ^ 1;
  os1 = x / 2 ^ 4 % 2 ^ 1;
  usr1 = x / 2 ^ 5 % 2 ^ 1;
  any_thread1 = x / 2 ^ 6 % 2 ^ 1;
  enable_pmi1 = x / 2 ^ 7 % 2 ^ 1;
  os2 = x / 2 ^ 8 % 2 ^ 1;
  usr2 = x / 2 ^ 9 % 2 ^ 1;
  any_thread2 = x / 2 ^ 10 % 2 ^ 1;
  enable_pmi2 = x / 2 ^ 11 % 2 ^ 1;
  reserved1 = x / 2 ^ 12 % 2 ^ 52;
}

field_list-fields : (x : ℕ) → field_list (fields x) ≡ unpack layout x
unfolding fields
field_list-fields x = ground arith

pub value-fields : (x : ℕ) → x < 2 ^ 64 → value (fields x) ≡ x
unfolding value
value-fields x h = ap (pack layout) (field_list-fields x) ∙ pack-unpack layout x h

pub fields-value :
    (r : FixedEventControlRegister) → FitsFields layout (field_list r) → fields (value r) ≡ r
unfolding value
fields-value r h = ap of_list (field_list-fields (value r) ∙ unpack-pack layout (field_list r) h)
  where
    of_list : List ℕ → FixedEventControlRegister
    of_list l = record {
      os0 = nth l 0;
      usr0 = nth l 1;
      any_thread0 = nth l 2;
      enable_pmi0 = nth l 3;
      os1 = nth l 4;
      usr1 = nth l 5;
      any_thread1 = nth l 6;
      enable_pmi1 = nth l 7;
      os2 = nth l 8;
      usr2 = nth l 9;
      any_thread2 = nth l 10;
      enable_pmi2 = nth l 11;
      reserved1 = nth l 12;
    }
