-- ===== src/Types/UncoreSelect.antt =====
-- srcs/types.h, lines 393-414: UncoreEventSelectRegister, a word and its bit fields.
use core_map.Base.{ℕ, ◌/◌, ◌%◌, ◌^◌, ◌<◌, ◌≡◌, ap, ◌∙◌, List, [], ◌∷◌, arith}
use core_map.Types.Fields.{pack, unpack, FitsFields, pack-unpack, unpack-pack, nth}

pub record UncoreEventSelectRegister : Type 0 where
  pub event_select : ℕ
  pub umask : ℕ
  pub reserved1 : ℕ
  pub occ_ctr_rst : ℕ
  pub edge : ℕ
  pub reserved2 : ℕ
  pub enable_pmi : ℕ
  pub reserved3 : ℕ
  pub enable : ℕ
  pub invert : ℕ
  pub cmask : ℕ
  pub reserved_x : ℕ

-- The widths of the fields, from the lowest bit.
abbrev pub layout : List ℕ
layout = 8 ∷ 8 ∷ 1 ∷ 1 ∷ 1 ∷ 1 ∷ 1 ∷ 1 ∷ 1 ∷ 1 ∷ 8 ∷ 32 ∷ []

abbrev pub field_list : UncoreEventSelectRegister → List ℕ
field_list r =
    r.event_select ∷ r.umask ∷ r.reserved1 ∷ r.occ_ctr_rst ∷ r.edge ∷ r.reserved2 ∷ r.enable_pmi
    ∷ r.reserved3 ∷ r.enable ∷ r.invert ∷ r.cmask ∷ r.reserved_x ∷ []

-- `value`, after the fields were written.
unfoldable pub value : UncoreEventSelectRegister → ℕ
value r = pack layout (field_list r)

-- `fields`, after the word was written.
unfoldable pub fields : ℕ → UncoreEventSelectRegister
fields x = record {
  event_select = x % 2 ^ 8;
  umask = x / 2 ^ 8 % 2 ^ 8;
  reserved1 = x / 2 ^ 16 % 2 ^ 1;
  occ_ctr_rst = x / 2 ^ 17 % 2 ^ 1;
  edge = x / 2 ^ 18 % 2 ^ 1;
  reserved2 = x / 2 ^ 19 % 2 ^ 1;
  enable_pmi = x / 2 ^ 20 % 2 ^ 1;
  reserved3 = x / 2 ^ 21 % 2 ^ 1;
  enable = x / 2 ^ 22 % 2 ^ 1;
  invert = x / 2 ^ 23 % 2 ^ 1;
  cmask = x / 2 ^ 24 % 2 ^ 8;
  reserved_x = x / 2 ^ 32 % 2 ^ 32;
}

field_list-fields : (x : ℕ) → field_list (fields x) ≡ unpack layout x
unfolding fields
field_list-fields x = ground arith

pub value-fields : (x : ℕ) → x < 2 ^ 64 → value (fields x) ≡ x
unfolding value
value-fields x h = ap (pack layout) (field_list-fields x) ∙ pack-unpack layout x h

pub fields-value :
    (r : UncoreEventSelectRegister) → FitsFields layout (field_list r) → fields (value r) ≡ r
unfolding value
fields-value r h = ap of_list (field_list-fields (value r) ∙ unpack-pack layout (field_list r) h)
  where
    of_list : List ℕ → UncoreEventSelectRegister
    of_list l = record {
      event_select = nth l 0;
      umask = nth l 1;
      reserved1 = nth l 2;
      occ_ctr_rst = nth l 3;
      edge = nth l 4;
      reserved2 = nth l 5;
      enable_pmi = nth l 6;
      reserved3 = nth l 7;
      enable = nth l 8;
      invert = nth l 9;
      cmask = nth l 10;
      reserved_x = nth l 11;
    }
