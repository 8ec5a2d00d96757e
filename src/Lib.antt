-- ===== src/Lib.antt =====
-- core_map: which core of a mesh processor sits at which tile. The program pins threads to cores, reads the
-- performance counters of the caching and home agents (CHAs) of an Intel Xeon, and from these finds cache
-- lines that are local to each CHA, the CHA of each OS core, and the ring channels that are busy when two
-- cores exchange data; it writes these as JSON.
--
-- The parts, and the files that model them (paths from the root of the repository):
--   srcs/msr.cpp, srcs/msr.h              Msr: the handle on the registers of one core, on Linux; Msr.Mac and
--                                         Msr.FreeBsd: on macOS and FreeBSD; Msr.Windows: on
--                                         Windows; Msr.Safe: an optional handle with a mutex
--   srcs/cpuid_tasks.cpp, core_map.h      Cpuid: the processor check
--   srcs/tasks.cpp                        Tasks: the two workloads; Tasks.Jobs: the two threads on one byte
--   srcs/pmon.cpp, srcs/pmon.h            Pmon: the monitor; Pmon.Tables: the registers of each unit;
--                                         Pmon.Events: the words that select events; Pmon.Report: the line
--                                         that is printed of a busy path
--   srcs/mem_lines.cpp, srcs/mem_lines.h  MemLines.Object: the object, its constructor and destructor;
--                                         MemLines.Address: physical addresses; MemLines.Locate: the search
--                                         for lines; MemLines.Mapping: OS cores and CHAs; MemLines.Traffic:
--                                         the busy paths; MemLines.Dump: the JSON document
--   srcs/main.cpp                         Main: the options and the order of the calls, up to the
--                                         constructor of Mem_Lines (setup) and from there on (finish)
--   srcs/types.h                          Types: words and their bit fields, the macros of control words, the
--                                         registers of the first CBo, the table of configuration spaces
--   srcs/mutex.h                          Mutex: a mutex and its scope
--   Base holds what they share; Examples holds a toy machine and the theorems at concrete inputs.
--
-- A class is a record; a method that changes its object returns the new record. Names are the source's, in
-- lower case: `MemLines.find_local_lines` is `Mem_Lines::find_local_lines`. Code that talks to the system is a
-- function from a state (Base.Effect: the world, and what was printed) to a state and an outcome: a result, a
-- call of exit, a failed assertion, an exception, undefined behaviour (a read past the end of an array or a
-- vector, a null stream from fopen or a null pointer from malloc, which the code uses untested, or a sum of
-- core ids that overflows an int), or the end of the fuel. Registers, the page map, memory, threads and the
-- scheduler are the records MsrDevice, Pages and Threads over an arbitrary type of worlds, so that a theorem
-- holds whatever they do; what a theorem relies on beyond that is a hypothesis (MemLines.Address.Opens: the
-- page map opens; MemLines.Address.Allocates: malloc gives no null pointer) or a named record of laws
-- (Pmon.Program.Accepts for the registers, Pmon.Readout.Shows when they are read, Msr.PerCore.IsPerCore for
-- the devices of all cores, Tasks.Spill.IsMemory for bytes of memory, MemLines.Address.Translate.IsPageMap for
-- the page map, MemLines.Mapping.Mesh.IsMesh for tiles, homes of lines and the counting of ring traffic,
-- MemLines.Mapping.Mesh.Lookups.CountsLookups for the lookups that two threads on a line cause,
-- MemLines.Dump.Content.IsJson for nlohmann::json).
--
-- Bounds. The search for lines runs on NUM_LINES units of fuel, since each round advances by a line and the
-- last ends it; that this is enough is part of its theorem. All other loops recurse on their count. Counters and
-- registers are numbers below 2 ^ 64 that the code only compares, so they are plain numbers; arithmetic on
-- addresses, on `short` and on bytes wraps around in the model as it does in the code. A sum of core ids is formed by
-- Base.Effect.int_sum where it is the largest of its loop: the base core plus the number of cores, and the base core
-- plus 1 in the search; the other sums of core ids lie below one of these.
-- `local_found_count`, which the constructor leaves unset, is 0 until `initialize_local_lines` sets it. The texts of
-- messages are constructors of Base.Effect.Message; the four numbered texts of one kind of write error are one.
--
-- Bit fields lie from the lowest bit up, and sizes are those of 64-bit machines, as on the systems that the program
-- is built for. The drivers of Windows and the calls on mutexes are the records WinDrivers and MutexCalls.
--
-- Not modelled: srcs/json.hpp (a library, a parameter here); the lists of addresses and event numbers in srcs/types.h,
-- which have no operation and which the program does not use; and layout_ilp_convert.py, a script of its own.
pub mod Base
pub mod Types
pub mod Mutex
pub mod Msr
pub mod Cpuid
pub mod Tasks
pub mod Pmon
pub mod MemLines
pub mod Main
pub mod Examples
