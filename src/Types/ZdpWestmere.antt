-- ===== src/Types/ZdpWestmere.antt =====
-- srcs/types.h, lines 421-448: BecktonUncorePMUZDPCTLFVCRegister, a word and its bit fields on Westmere-EX.
use core_map.Base.{ℕ, ◌/◌, ◌%◌, ◌^◌, ◌<◌, ◌≡◌, ap, ◌∙◌, List, [], ◌∷◌, arith}
use core_map.Types.Fields.{pack, unpack, FitsFields, pack-unpack, unpack-pack, nth}

pub record ZdpCtlFvcWestmere : Type 0 where
  pub fvid : ℕ
  pub bcmd : ℕ
  pub resp : ℕ
  pub evnt0 : ℕ
  pub evnt1 : ℕ
  pub evnt2 : ℕ
  pub evnt3 : ℕ
  pub pbox_init_err : ℕ

-- The widths of the fields, from the lowest bit.
abbrev pub layout : List ℕ
layout = 6 ∷ 3 ∷ 3 ∷ 3 ∷ 3 ∷ 3 ∷ 3 ∷ 1 ∷ []

abbrev pub field_list : ZdpCtlFvcWestmere → List ℕ
field_list r =
    r.fvid ∷ r.bcmd ∷ r.resp ∷ r.evnt0 ∷ r.evnt1 ∷ r.evnt2 ∷ r.evnt3 ∷ r.pbox_init_err ∷ []

-- `value`, after the fields of a zeroed word were written.
unfoldable pub value : ZdpCtlFvcWestmere → ℕ
value r = pack layout (field_list r)

-- `fields`, after the word was written.
unfoldable pub fields : ℕ → ZdpCtlFvcWestmere
fields x = record {
  fvid = x % 2 ^ 6;
  bcmd = x / 2 ^ 6 % 2 ^ 3;
  resp = x / 2 ^ 9 % 2 ^ 3;
  evnt0 = x / 2 ^ 12 % 2 ^ 3;
  evnt1 = x / 2 ^ 15 % 2 ^ 3;
  evnt2 = x / 2 ^ 18 % 2 ^ 3;
  evnt3 = x / 2 ^ 21 % 2 ^ 3;
  pbox_init_err = x / 2 ^ 24 % 2 ^ 1;
}

field_list-fields : (x : ℕ) → field_list (fields x) ≡ unpack layout x
unfolding fields
field_list-fields x = ground arith

pub value-fields : (x : ℕ) → x < 2 ^ 25 → value (fields x) ≡ x
unfolding value
value-fields x h = ap (pack layout) (field_list-fields x) ∙ pack-unpack layout x h

pub fields-value : (r : ZdpCtlFvcWestmere) → FitsFields layout (field_list r) → fields (value r) ≡ r
unfolding value
fields-value r h = ap of_list (field_list-fields (value r) ∙ unpack-pack layout (field_list r) h)
  where
    of_list : List ℕ → ZdpCtlFvcWestmere
    of_list l = record {
      fvid = nth l 0;
      bcmd = nth l 1;
      resp = nth l 2;
      evnt0 = nth l 3;
      evnt1 = nth l 4;
      evnt2 = nth l 5;
      evnt3 = nth l 6;
      pbox_init_err = nth l 7;
    }
