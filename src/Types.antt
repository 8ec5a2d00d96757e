-- ===== src/Types.antt =====
-- srcs/types.h: register layouts and addresses.
pub mod Fields
pub mod EventSelect
pub mod FixedControl
pub mod UncoreSelect
pub mod CounterControl
pub mod IioControl
pub mod ZdpNehalem
pub mod ZdpWestmere
pub mod Print
pub mod Or
pub mod Words
pub mod Cbo
pub mod Mcfg
pub mod Cvt
