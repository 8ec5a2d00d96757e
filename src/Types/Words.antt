-- ===== src/Types/Words.antt =====
-- srcs/types.h: the macros that build control and filter words, a module for each prefix.
pub mod UncPmonUnitCtl
pub mod McChPciPmonFixedCtl
pub mod McChPciPmonCtl
pub mod QpPciPmonCtl
pub mod PcuBoxFilter
pub mod PcuMsrPmonCtl
pub mod CboMsrPmonCtl
pub mod SkxChaBoxFilter1
pub mod SkxChaTorInserts
pub mod IioMsrPmonCtl
pub mod M2mPciPmonCtl
pub mod Fields
