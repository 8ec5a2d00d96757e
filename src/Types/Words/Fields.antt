-- ===== src/Types/Words/Fields.antt =====
-- srcs/pmon.cpp against srcs/types.h: the words that the program writes, and the fields of the registers.
use Prim.Native.Nat.{bit_or}
use core_map.Base.{ℕ, ◌+◌, ◌*◌, ◌^◌, ◌<◌, ◌≡◌, ap, ◌∙◌, arith}
use core_map.Pmon.Events.{event_unit}
use core_map.Types.Or.{bit_or-split, bit_or-below, bit_or-zero}
use core_map.Types.UncoreSelect
use core_map.Types.UncoreSelect.{UncoreEventSelectRegister, layout}
use core_map.Types.IioControl
use core_map.Types.IioControl.{IioPmuCntCtlRegister}
use core_map.Types.Words.CboMsrPmonCtl as Cbo
use core_map.Types.Words.McChPciPmonCtl as Mc
use core_map.Types.Words.QpPciPmonCtl as Qp
use core_map.Types.Words.M2mPciPmonCtl as M2m
use core_map.Types.Words.IioMsrPmonCtl as Iio

-- The words of event_unit do not meet.
event_unit-sum :
    (sel umask : ℕ)
    → sel < 2 ^ 8
    → umask < 2 ^ 8
    → event_unit sel umask ≡ 2 ^ 22 + 2 ^ 17 + umask * 2 ^ 8 + sel
event_unit-sum sel umask hs hu =
    let a : bit_or (2 ^ 22) sel ≡ 2 ^ 22 + sel = bit_or-below 22 1 sel (omega arith) in
    let b : bit_or (2 ^ 22 + sel) (2 ^ 17) ≡ 16896 * 2 ^ 8 + bit_or sel 0 =
      bit_or-split 8 16384 sel 512 0 hs (omega arith) in
    let c : bit_or 16896 umask ≡ 16896 + umask = bit_or-below 9 33 umask (omega arith) in
    let d : bit_or (16896 * 2 ^ 8 + sel) (umask * 2 ^ 8 + 0)
        ≡ bit_or 16896 umask * 2 ^ 8 + bit_or sel 0 =
      bit_or-split 8 16896 sel umask 0 hs (omega arith) in
    let e : umask * 2 ^ 8 + 0 ≡ umask * 2 ^ 8 = omega arith in
    rw (a, b, bit_or-zero sel) (rw e at d ∙ omega (arith, c, bit_or-zero sel))

-- The program's word, read as the register: the event and its mask, a reset of the counter, and its
-- enabling, and nothing else.
abbrev pub started : ℕ → ℕ → UncoreEventSelectRegister
started sel mask = record {
  event_select = sel;
  umask = mask;
  reserved1 = 0;
  occ_ctr_rst = 1;
  edge = 0;
  reserved2 = 0;
  enable_pmi = 0;
  reserved3 = 0;
  enable = 1;
  invert = 0;
  cmask = 0;
  reserved_x = 0;
}

-- For an event and a mask below 256: the word that the program writes to a counter's control, read
-- as an UncoreEventSelectRegister, has that event and mask, resets the counter, enables it, and
-- sets nothing else.
pub event_unit-fields :
    (sel umask : ℕ)
    → sel < 2 ^ 8
    → umask < 2 ^ 8
    → UncoreSelect.fields (event_unit sel umask) ≡ started sel umask
unfolding UncoreSelect.value
event_unit-fields sel umask hs hu =
    let e : event_unit sel umask ≡ UncoreSelect.value (started sel umask) =
      event_unit-sum sel umask hs hu ∙ omega arith in
    ap UncoreSelect.fields e ∙ UncoreSelect.fields-value (started sel umask) (omega arith)

-- A control word of the four families whose thresholds have 8 bits.
abbrev pub control : ℕ → ℕ → ℕ → UncoreEventSelectRegister
control sel mask threshold = record (started sel mask) { edge = 1; invert = 1; cmask = threshold }

abbrev iio_control : ℕ → ℕ → ℕ → ℕ → ℕ → IioPmuCntCtlRegister
iio_control sel mask threshold channel fc = record {
  event_select = sel;
  umask = mask;
  reserved1 = 0;
  reset = 1;
  edge_det = 1;
  ignored = 0;
  overflow_enable = 1;
  reserved2 = 0;
  enable = 1;
  invert = 1;
  thresh = threshold;
  ch_mask = channel;
  fc_mask = fc;
  reserved_x = 0;
}

-- For fields in range: the sum of the control macros of each of the families CBO, MC_CH, Q_P, M2M
-- and IIO is the word that the bit fields of the matching register make up.
control-words :
    (e u t c f : ℕ)
    → e < 2 ^ 8
    → u < 2 ^ 8
    → t < 2 ^ 8
    → c < 2 ^ 8
    → f < 2 ^ 3
    → (UncoreSelect.value (control e u t)
        ≡ Cbo.event e + Cbo.umask u + Cbo.rst + Cbo.edge_det + Cbo.en + Cbo.invert + Cbo.thresh t)
      × (UncoreSelect.value (control e u t)
          ≡ Mc.event e + Mc.umask u + Mc.rst + Mc.edge_det + Mc.en + Mc.invert + Mc.thresh t)
      × (UncoreSelect.value (control e u t)
          ≡ Qp.event e + Qp.umask u + Qp.rst + Qp.edge_det + Qp.en + Qp.invert + Qp.thresh t)
      × (UncoreSelect.value (record (control e u t) { enable_pmi = 1 })
          ≡ M2m.event e
            + M2m.umask u
            + M2m.rst
            + M2m.edge_det
            + M2m.ov_en
            + M2m.en
            + M2m.invert
            + M2m.thresh t)
      × (IioControl.value (iio_control e u t c f)
          ≡ Iio.event e
            + Iio.umask u
            + Iio.rst
            + Iio.edge_det
            + Iio.ov_en
            + Iio.en
            + Iio.invert
            + Iio.thresh t
            + Iio.ch_mask c
            + Iio.fc_mask f)
unfolding UncoreSelect.value IioControl.value
control-words e u t c f he hu ht hc hf = omega arith
