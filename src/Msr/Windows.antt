-- ===== src/Msr/Windows.antt =====
-- srcs/msr.cpp, lines 33-98, the Windows version: through a driver of its own, or through WinRing0 when there is none. Both,
-- and the change of the thread's core, are parameters.
pub mod Registers
use mathlib.Core.Option.{get_or}
use core_map.Base.{
  ℕ, ◌+◌, ◌-◌, ◌%◌, ◌^◌, Bool, true, false, not, Option, none, some, ℤ, pos, ltb, if◌then◌else◌,
}
use core_map.Base.Effect.{M, ◌>>=◌, ◌>>◌, pure, throw, abort, call, tell}
use core_map.Types.Cvt.{ui32, ui64}

pub record WinDrivers (W : Type 0) : Type 0 where
  -- `none` is INVALID_HANDLE_VALUE.
  pub create_file : W → Option ℕ × W
  pub close_file : ℕ → W → W
  -- hOpenLibSys != NULL
  pub has_open_lib_sys : W → Bool
  -- DeviceIoControl with IO_CTL_MSR_WRITE and IO_CTL_MSR_READ, for a handle, a core and a register: the status, and what stands in
  -- `reslength`; a read also gives what it put into the buffer.
  pub control_write : ℕ → ℕ → ℕ → ℕ → W → (Bool × ℕ) × W
  pub control_read : ℕ → ℕ → ℕ → W → (Bool × ℕ × Option ℕ) × W
  -- Wrmsr and Rdmsr of WinRing0: a register, and a low and a high half.
  pub wrmsr : ℕ → ℕ → ℕ → W → Bool × W
  pub rdmsr : ℕ → W → (Bool × ℕ × ℕ) × W
  -- The constructor and the destructor of ThreadGroupTempAffinity.
  pub enter_affinity : ℕ → W → W
  pub leave_affinity : ℕ → W → W

pub record WinHandle : Type 0 where
  pub h_driver : Option ℕ
  pub cpu_id : ℕ

-- A DWORD as an int32.
abbrev to_int32 : ℕ → ℤ
to_int32 n =
    if ltb (n % 2 ^ 32) (2 ^ 31) then pos (n % 2 ^ 32) else ℤ.negsuc (2 ^ 32 - 1 - n % 2 ^ 32)

-- status ? sizeof(uint64) : 0
abbrev size_of_status : Bool → ℤ
size_of_status true = pos 8
size_of_status false = pos 0

module _ {W : Type 0} (d : WinDrivers W) where
  checked_driver : Option ℕ → ℕ → M W WinHandle
  checked_driver (some h) cpu = pure (record { h_driver = some h; cpu_id = cpu })
  checked_driver none cpu = do
    there ← call (λ w. (d.has_open_lib_sys w, w))
    if not there then throw else pure (record { h_driver = none; cpu_id = cpu })

  open_win : ℕ → M W WinHandle
  unfolding checked_driver
  open_win cpu = do h ← call d.create_file; checked_driver h cpu

  close_driver : Option ℕ → M W (Unit {0})
  close_driver none = pure tt
  close_driver (some h) = tell (d.close_file h)

  close_win : WinHandle → M W (Unit {0})
  unfolding close_driver
  close_win h = close_driver h.h_driver

  write_by : Option ℕ → ℕ → ℕ → ℕ → M W ℤ
  write_by (some h) cpu_id msr_number value = do
    r ← call (d.control_write h cpu_id msr_number value)
    if r.0 then pure (to_int32 r.1) else abort
  write_by none cpu_id msr_number value = do
    let cvt = ui32 value
    tell (d.enter_affinity cpu_id)
    status ← call (d.wrmsr (msr_number % 2 ^ 32) cvt.low cvt.high)
    tell (d.leave_affinity cpu_id)
    pure (size_of_status status)

  pub write_win : WinHandle → ℕ → ℕ → M W ℤ
  unfolding write_by
  write_win h msr_number value = write_by h.h_driver h.cpu_id msr_number value

  -- `*value` holds `old` before the call.
  read_by : Option ℕ → ℕ → ℕ → ℕ → M W (ℤ × ℕ)
  read_by (some h) cpu_id msr_number old = do
    r ← call (d.control_read h cpu_id msr_number)
    if r.0 then pure (to_int32 r.1, get_or r.2 old) else abort
  read_by none cpu_id msr_number old = do
    tell (d.enter_affinity cpu_id)
    r ← call (d.rdmsr (msr_number % 2 ^ 32))
    tell (d.leave_affinity cpu_id)
    pure (size_of_status r.0, (if r.0 then ui64 (record { low = r.1; high = r.2 }) else old))

  pub read_win : WinHandle → ℕ → ℕ → M W (ℤ × ℕ)
  unfolding read_by
  read_win h msr_number old = read_by h.h_driver h.cpu_id msr_number old
