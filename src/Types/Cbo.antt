-- ===== src/Types/Cbo.antt =====
-- srcs/types.h, lines 780-828: the registers of the first CBo or CHA of each generation, and how far the next one's are.
pub mod Step
use core_map.Base.{ℕ, ◌+◌, ◌*◌}
use core_map.Pmon.Tables.{PmonUnit, LlcChaSkl}

-- JKT_C0_MSR_PMON_*
pub record JktCbo : Type 0 where
  pub ctr3 : ℕ
  pub ctr2 : ℕ
  pub ctr1 : ℕ
  pub ctr0 : ℕ
  pub box_filter : ℕ
  pub ctl3 : ℕ
  pub ctl2 : ℕ
  pub ctl1 : ℕ
  pub ctl0 : ℕ
  pub box_ctl : ℕ

abbrev pub jkt_c0 : JktCbo
jkt_c0 = record {
  ctr3 = 0x0D19;
  ctr2 = 0x0D18;
  ctr1 = 0x0D17;
  ctr0 = 0x0D16;
  box_filter = 0x0D14;
  ctl3 = 0x0D13;
  ctl2 = 0x0D12;
  ctl1 = 0x0D11;
  ctl0 = 0x0D10;
  box_ctl = 0x0D04;
}

abbrev pub jktivt_cbo_msr_step : ℕ
jktivt_cbo_msr_step = 0x0020

abbrev pub ivt_c0_msr_pmon_box_filter1 : ℕ
ivt_c0_msr_pmon_box_filter1 = 0x0D1A

-- HSX_C0_MSR_PMON_*, in the record of the program's table: its status is BOX_STATUS, its control BOX_CTL.
abbrev pub hsx_c0 : LlcChaSkl
hsx_c0 = record {
  regs = record {
    unit_status = 0x0E07;
    unit_ctl = 0x0E00;
    ctr0 = 0x0E08;
    ctr1 = 0x0E09;
    ctr2 = 0x0E0A;
    ctr3 = 0x0E0B;
    ctl0 = 0x0E01;
    ctl1 = 0x0E02;
    ctl2 = 0x0E03;
    ctl3 = 0x0E04;
  };
  box_filter0 = 0x0E05;
  box_filter1 = 0x0E06;
}

abbrev pub hsx_cbo_msr_step : ℕ
hsx_cbo_msr_step = 0x0010

-- KNL_CHA0_MSR_PMON_*
pub record KnlCha : Type 0 where
  pub box_ctrl : ℕ
  pub evt_sel0 : ℕ
  pub evt_sel1 : ℕ
  pub evt_sel2 : ℕ
  pub evt_sel3 : ℕ
  pub box_ctl : ℕ
  pub box_ctl1 : ℕ
  pub box_status : ℕ
  pub ctr0 : ℕ
  pub ctr1 : ℕ
  pub ctr2 : ℕ
  pub ctr3 : ℕ

abbrev pub knl_cha0 : KnlCha
knl_cha0 = record {
  box_ctrl = 0x0E00;
  evt_sel0 = 0x0E01;
  evt_sel1 = 0x0E02;
  evt_sel2 = 0x0E03;
  evt_sel3 = 0x0E04;
  box_ctl = 0x0E05;
  box_ctl1 = 0x0E06;
  box_status = 0x0E07;
  ctr0 = 0x0E08;
  ctr1 = 0x0E09;
  ctr2 = 0x0E0A;
  ctr3 = 0x0E0B;
}

abbrev pub knl_cha_msr_step : ℕ
knl_cha_msr_step = 0x000C
