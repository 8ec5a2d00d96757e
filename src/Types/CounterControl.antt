-- ===== src/Types/CounterControl.antt =====
-- srcs/types.h, lines 456-475: BecktonUncorePMUCNTCTLRegister, a word and its bit fields.
use core_map.Base.{ℕ, ◌/◌, ◌%◌, ◌^◌, ◌<◌, ◌≡◌, ap, ◌∙◌, List, [], ◌∷◌, arith}
use core_map.Types.Fields.{pack, unpack, FitsFields, pack-unpack, unpack-pack, nth}

pub record BecktonUncorePmuCntCtlRegister : Type 0 where
  pub en : ℕ
  pub pmi_en : ℕ
  pub count_mode : ℕ
  pub storage_mode : ℕ
  pub wrap_mode : ℕ
  pub flag_mode : ℕ
  pub rsv1 : ℕ
  pub inc_sel : ℕ
  pub rsv2 : ℕ
  pub set_flag_sel : ℕ

-- The widths of the fields, from the lowest bit.
abbrev pub layout : List ℕ
layout = 1 ∷ 1 ∷ 2 ∷ 2 ∷ 1 ∷ 1 ∷ 1 ∷ 5 ∷ 5 ∷ 3 ∷ []

abbrev pub field_list : BecktonUncorePmuCntCtlRegister → List ℕ
field_list r =
    r.en ∷ r.pmi_en ∷ r.count_mode ∷ r.storage_mode ∷ r.wrap_mode ∷ r.flag_mode ∷ r.rsv1 ∷ r.inc_sel
    ∷ r.rsv2 ∷ r.set_flag_sel ∷ []

-- `value`, after the fields of a zeroed word were written.
unfoldable pub value : BecktonUncorePmuCntCtlRegister → ℕ
value r = pack layout (field_list r)

-- `fields`, after the word was written.
unfoldable pub fields : ℕ → BecktonUncorePmuCntCtlRegister
fields x = record {
  en = x % 2 ^ 1;
  pmi_en = x / 2 ^ 1 % 2 ^ 1;
  count_mode = x / 2 ^ 2 % 2 ^ 2;
  storage_mode = x / 2 ^ 4 % 2 ^ 2;
  wrap_mode = x / 2 ^ 6 % 2 ^ 1;
  flag_mode = x / 2 ^ 7 % 2 ^ 1;
  rsv1 = x / 2 ^ 8 % 2 ^ 1;
  inc_sel = x / 2 ^ 9 % 2 ^ 5;
  rsv2 = x / 2 ^ 14 % 2 ^ 5;
  set_flag_sel = x / 2 ^ 19 % 2 ^ 3;
}

field_list-fields : (x : ℕ) → field_list (fields x) ≡ unpack layout x
unfolding fields
field_list-fields x = ground arith

pub value-fields : (x : ℕ) → x < 2 ^ 22 → value (fields x) ≡ x
unfolding value
value-fields x h = ap (pack layout) (field_list-fields x) ∙ pack-unpack layout x h

pub fields-value :
    (r : BecktonUncorePmuCntCtlRegister) → FitsFields layout (field_list r) → fields (value r) ≡ r
unfolding value
fields-value r h = ap of_list (field_list-fields (value r) ∙ unpack-pack layout (field_list r) h)
  where
    of_list : List ℕ → BecktonUncorePmuCntCtlRegister
    of_list l = record {
      en = nth l 0;
      pmi_en = nth l 1;
      count_mode = nth l 2;
      storage_mode = nth l 3;
      wrap_mode = nth l 4;
      flag_mode = nth l 5;
      rsv1 = nth l 6;
      inc_sel = nth l 7;
      rsv2 = nth l 8;
      set_flag_sel = nth l 9;
    }
