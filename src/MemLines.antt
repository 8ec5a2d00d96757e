-- ===== src/MemLines.antt =====
-- srcs/mem_lines.h and srcs/mem_lines.cpp: finding memory lines whose home is a given slice of the
-- last-level cache, mapping OS core ids to CHA ids, and monitoring the traffic between cores.
pub mod Address
pub mod Object
pub mod Locate
pub mod Mapping
pub mod Traffic
pub mod Dump
