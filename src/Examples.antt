-- ===== src/Examples.antt =====
-- The theorems at concrete inputs, on a toy machine.
pub mod Toy
pub mod Chip
pub mod Mesh
pub mod Monitor
pub mod Memory
pub mod Document
pub mod Registers
