-- ===== src/Main/Course.antt =====
-- srcs/main.cpp, lines 14-79: a whole run of the program.
use Prim.Native.String.{String}
use core_map.Base.{ℕ, ◌≡◌, ◌⊎◌, ℤ, pos, minus_one}
use core_map.Base.Effect.{State, ret}
use core_map.Cpuid.{Cpu, full_family_id, full_model_id}
use core_map.Pmon.{Pmon}
use core_map.Pmon.Lifetime.{closed}
use core_map.MemLines.Object.{Machine, MemLines}
use core_map.MemLines.Locate.{initialize_local_lines}
use core_map.MemLines.Dump.{Json, Output, document}
use core_map.Main.{Options, setup}
use core_map.Main.Pipeline.{Measured}
use core_map.Main.Setup.{IsReady}

-- The processor is one that the program knows.
abbrev pub IsSupported : Cpu → Type 0
IsSupported cpu =
    (full_family_id (cpu.cpuid 1).eax ≡ 6)
    × ((full_model_id (cpu.cpuid 1).eax ≡ 85) ⊎ (full_model_id (cpu.cpuid 1).eax ≡ 106))

module _ {W J : Type 0} (m : Machine W) (cpu : Cpu) (j : Json J) (out : Output W J)
    (file_name : ℕ → String) where
  open m use {msr, pages}

  -- The last that happened: the document of the measured object was written, its block was freed, and the
  -- monitor's handle was closed.
  pub record Finished (p : Pmon) (start : MemLines) (t : State W) : Type 0 where
    pub measured : MemLines
    pub is_measured : Measured start measured
    pub before : W
    pub left :
        t.world
        ≡ closed msr p.msr_h (
            pages.free measured.memory_bulk_alloc (
              out.write_file (file_name p.ppin) (document j (out.show_hex p.ppin) measured) before))

  -- The search for lines gives up in the state that the constructors leave.
  pub record GaveUp (model : ℕ) (o : Options) (s : State W) : Type 0 where
    pub monitor : Pmon
    pub object : MemLines
    pub state : State W
    pub made : setup m cpu j out file_name model o s ≡ (ret (monitor, object), state)
    pub lines : MemLines
    pub too_few : (initialize_local_lines m monitor object state).0 ≡ ret (lines, minus_one)

  -- The run ends with 0, and has written what it measured.
  abbrev pub Succeeds : Options → ℕ → ℤ → State W → Type 0
  Succeeds o model r t =
      (r ≡ pos 0) × ((p : Pmon) × ((ml : MemLines) × (IsReady model o p ml × Finished p ml t)))
