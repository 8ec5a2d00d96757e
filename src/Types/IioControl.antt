-- ===== src/Types/IioControl.antt =====
-- srcs/types.h, lines 889-913: IIOPMUCNTCTLRegister, a word and its bit fields.
use core_map.Base.{ℕ, ◌/◌, ◌%◌, ◌^◌, ◌<◌, ◌≡◌, ap, ◌∙◌, List, [], ◌∷◌, arith}
use core_map.Types.Fields.{pack, unpack, FitsFields, pack-unpack, unpack-pack, nth}

pub record IioPmuCntCtlRegister : Type 0 where
  pub event_select : ℕ
  pub umask : ℕ
  pub reserved1 : ℕ
  pub reset : ℕ
  pub edge_det : ℕ
  pub ignored : ℕ
  pub overflow_enable : ℕ
  pub reserved2 : ℕ
  pub enable : ℕ
  pub invert : ℕ
  pub thresh : ℕ
  pub ch_mask : ℕ
  pub fc_mask : ℕ
  pub reserved_x : ℕ

-- The widths of the fields, from the lowest bit.
abbrev pub layout : List ℕ
layout = 8 ∷ 8 ∷ 1 ∷ 1 ∷ 1 ∷ 1 ∷ 1 ∷ 1 ∷ 1 ∷ 1 ∷ 12 ∷ 8 ∷ 3 ∷ 17 ∷ []

abbrev pub field_list : IioPmuCntCtlRegister → List ℕ
field_list r =
    r.event_select ∷ r.umask ∷ r.reserved1 ∷ r.reset ∷ r.edge_det ∷ r.ignored ∷ r.overflow_enable
    ∷ r.reserved2 ∷ r.enable ∷ r.invert ∷ r.thresh ∷ r.ch_mask ∷ r.fc_mask ∷ r.reserved_x ∷ []

-- `value`, after the fields were written.
unfoldable pub value : IioPmuCntCtlRegister → ℕ
value r = pack layout (field_list r)

-- `fields`, after the word was written.
unfoldable pub fields : ℕ → IioPmuCntCtlRegister
fields x = record {
  event_select = x % 2 ^ 8;
  umask = x / 2 ^ 8 % 2 ^ 8;
  reserved1 = x / 2 ^ 16 % 2 ^ 1;
  reset = x / 2 ^ 17 % 2 ^ 1;
  edge_det = x / 2 ^ 18 % 2 ^ 1;
  ignored = x / 2 ^ 19 % 2 ^ 1;
  overflow_enable = x / 2 ^ 20 % 2 ^ 1;
  reserved2 = x / 2 ^ 21 % 2 ^ 1;
  enable = x / 2 ^ 22 % 2 ^ 1;
  invert = x / 2 ^ 23 % 2 ^ 1;
  thresh = x / 2 ^ 24 % 2 ^ 12;
  ch_mask = x / 2 ^ 36 % 2 ^ 8;
  fc_mask = x / 2 ^ 44 % 2 ^ 3;
  reserved_x = x / 2 ^ 47 % 2 ^ 17;
}

field_list-fields : (x : ℕ) → field_list (fields x) ≡ unpack layout x
unfolding fields
field_list-fields x = ground arith

pub value-fields : (x : ℕ) → x < 2 ^ 64 → value (fields x) ≡ x
unfolding value
value-fields x h = ap (pack layout) (field_list-fields x) ∙ pack-unpack layout x h

pub fields-value :
    (r : IioPmuCntCtlRegister) → FitsFields layout (field_list r) → fields (value r) ≡ r
unfolding value
fields-value r h = ap of_list (field_list-fields (value r) ∙ unpack-pack layout (field_list r) h)
  where
    of_list : List ℕ → IioPmuCntCtlRegister
    of_list l = record {
      event_select = nth l 0;
      umask = nth l 1;
      reserved1 = nth l 2;
      reset = nth l 3;
      edge_det = nth l 4;
      ignored = nth l 5;
      overflow_enable = nth l 6;
      reserved2 = nth l 7;
      enable = nth l 8;
      invert = nth l 9;
      thresh = nth l 10;
      ch_mask = nth l 11;
      fc_mask = nth l 12;
      reserved_x = nth l 13;
    }
