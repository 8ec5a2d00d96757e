-- ===== src/Types/EventSelect.antt =====
-- srcs/types.h, lines 301-326: EventSelectRegister, a word and its bit fields.
use core_map.Base.{ℕ, ◌/◌, ◌%◌, ◌^◌, ◌<◌, ◌≡◌, ap, ◌∙◌, List, [], ◌∷◌, arith}
use core_map.Types.Fields.{pack, unpack, FitsFields, pack-unpack, unpack-pack, nth}

pub record EventSelectRegister : Type 0 where
  pub event_select : ℕ
  pub umask : ℕ
  pub usr : ℕ
  pub os : ℕ
  pub edge : ℕ
  pub pin_control : ℕ
  pub apic_int : ℕ
  pub any_thread : ℕ
  pub enable : ℕ
  pub invert : ℕ
  pub cmask : ℕ
  pub in_tx : ℕ
  pub in_txcp : ℕ
  pub reserved_x : ℕ

-- The widths of the fields, from the lowest bit.
abbrev pub layout : List ℕ
layout = 8 ∷ 8 ∷ 1 ∷ 1 ∷ 1 ∷ 1 ∷ 1 ∷ 1 ∷ 1 ∷ 1 ∷ 8 ∷ 1 ∷ 1 ∷ 30 ∷ []

abbrev pub field_list : EventSelectRegister → List ℕ
field_list r =
    r.event_select ∷ r.umask ∷ r.usr ∷ r.os ∷ r.edge ∷ r.pin_control ∷ r.apic_int ∷ r.any_thread
    ∷ r.enable ∷ r.invert ∷ r.cmask ∷ r.in_tx ∷ r.in_txcp ∷ r.reserved_x ∷ []

-- `value`, after the fields were written.
unfoldable pub value : EventSelectRegister → ℕ
value r = pack layout (field_list r)

-- `fields`, after the word was written.
unfoldable pub fields : ℕ → EventSelectRegister
fields x = record {
  event_select = x % 2 ^ 8;
  umask = x / 2 ^ 8 % 2 ^ 8;
  usr = x / 2 ^ 16 % 2 ^ 1;
  os = x / 2 ^ 17 % 2 ^ 1;
  edge = x / 2 ^ 18 % 2 ^ 1;
  pin_control = x / 2 ^ 19 % 2 ^ 1;
  apic_int = x / 2 ^ 20 % 2 ^ 1;
  any_thread = x / 2 ^ 21 % 2 ^ 1;
  enable = x / 2 ^ 22 % 2 ^ 1;
  invert = x / 2 ^ 23 % 2 ^ 1;
  cmask = x / 2 ^ 24 % 2 ^ 8;
  in_tx = x / 2 ^ 32 % 2 ^ 1;
  in_txcp = x / 2 ^ 33 % 2 ^ 1;
  reserved_x = x / 2 ^ 34 % 2 ^ 30;
}

field_list-fields : (x : ℕ) → field_list (fields x) ≡ unpack layout x
unfolding fields
field_list-fields x = ground arith

pub value-fields : (x : ℕ) → x < 2 ^ 64 → value (fields x) ≡ x
unfolding value
value-fields x h = ap (pack layout) (field_list-fields x) ∙ pack-unpack layout x h

pub fields-value :
    (r : EventSelectRegister) → FitsFields layout (field_list r) → fields (value r) ≡ r
unfolding value
fields-value r h = ap of_list (field_list-fields (value r) ∙ unpack-pack layout (field_list r) h)
  where
    of_list : List ℕ → EventSelectRegister
    of_list l = record {
      event_select = nth l 0;
      umask = nth l 1;
      usr = nth l 2;
      os = nth l 3;
      edge = nth l 4;
      pin_control = nth l 5;
      apic_int = nth l 6;
      any_thread = nth l 7;
      enable = nth l 8;
      invert = nth l 9;
      cmask = nth l 10;
      in_tx = nth l 11;
      in_txcp = nth l 12;
      reserved_x = nth l 13;
    }
