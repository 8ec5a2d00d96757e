-- ===== src/Types/Cbo/Step.antt =====
-- srcs/pmon.cpp, lines 30-48, against srcs/types.h, lines 795-811: the program's own table repeats the registers of
-- the first CBo at the step between two of them.
use core_map.Base.{ℕ, ◌+◌, ◌*◌, ◌<◌, ◌≡◌, ap, ◌∙◌, get_elem?, some, arith}
use core_map.Pmon.Tables.{LlcChaSkl, c_skl}
use core_map.Pmon.Tables.Layout.{get_elem?-c_skl}
use core_map.Types.Cbo.{hsx_c0, hsx_cbo_msr_step}

-- The registers of the first CBo, n steps further on.
abbrev pub steps_on : ℕ → LlcChaSkl
steps_on n = record {
  regs = record {
    unit_status = hsx_c0.unit_status + n * hsx_cbo_msr_step;
    unit_ctl = hsx_c0.unit_ctl + n * hsx_cbo_msr_step;
    ctr0 = hsx_c0.ctr0 + n * hsx_cbo_msr_step;
    ctr1 = hsx_c0.ctr1 + n * hsx_cbo_msr_step;
    ctr2 = hsx_c0.ctr2 + n * hsx_cbo_msr_step;
    ctr3 = hsx_c0.ctr3 + n * hsx_cbo_msr_step;
    ctl0 = hsx_c0.ctl0 + n * hsx_cbo_msr_step;
    ctl1 = hsx_c0.ctl1 + n * hsx_cbo_msr_step;
    ctl2 = hsx_c0.ctl2 + n * hsx_cbo_msr_step;
    ctl3 = hsx_c0.ctl3 + n * hsx_cbo_msr_step;
  };
  box_filter0 = hsx_c0.box_filter0 + n * hsx_cbo_msr_step;
  box_filter1 = hsx_c0.box_filter1 + n * hsx_cbo_msr_step;
}

-- Unit n of the program's Skylake table, for each n below 28, has the registers that types.h gives
-- for the first CBo, n steps further on.
pub c_skl-steps_on : (n : ℕ) → n < 28 → get_elem? c_skl n ≡ some (steps_on n)
c_skl-steps_on n h = get_elem?-c_skl n h ∙ ap some (ground arith)
