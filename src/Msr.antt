-- ===== src/Msr.antt =====
-- srcs/msr.cpp and srcs/msr.h, the Linux version: a handle on the model-specific registers (MSRs)
-- of one core. The kernel's `open`, `close`, `pread` and `pwrite` are the operations of a device.
pub mod Mac
pub mod Windows
pub mod FreeBsd
pub mod Safe
pub mod PerCore
pub mod Opened
use mathlib.Core.Option.{get_or}
use core_map.Base.{ℕ, Option, ℤ, is_neg, if◌then◌else◌}
use core_map.Base.Effect.{M, ◌>>=◌, ◌>>◌, pure, throw, call, say, tell, msr_open_failed}

-- The paths that the constructor formats.
pub data MsrPath : Type 0 where
  dev_cpu_msr : ℕ → MsrPath
  dev_msr : ℕ → MsrPath

-- The system calls. `pread` gives its return value, and the value that it put into the buffer;
-- `none` if the buffer is left as it was. Both transfer 8 bytes. `indeterminate` is what happens to
-- stand in memory that was never written.
pub record MsrDevice (W : Type 0) : Type 0 where
  pub open_rw : MsrPath → W → ℤ × W
  pub close : ℤ → W → W
  pub pwrite : ℤ → ℕ → ℕ → W → ℤ × W
  pub pread : ℤ → ℕ → W → (ℤ × Option ℕ) × W
  pub indeterminate : W → ℕ

pub record MsrHandle : Type 0 where
  pub fd : ℤ
  pub cpu_id : ℕ

module _ {W : Type 0} (d : MsrDevice W) where
  -- The second path is tried if the first does not open.
  pub open_either : ℕ → M W ℤ
  open_either cpu = do
    handle ← call (d.open_rw (dev_cpu_msr cpu))
    if is_neg handle then call (d.open_rw (dev_msr cpu)) else pure handle

  -- The constructor.
  unfoldable pub open_handle : ℕ → M W MsrHandle
  unfolding open_either
  open_handle cpu = do
    handle ← open_either cpu
    if is_neg handle
        then (do say (msr_open_failed cpu); throw)
        else pure (record { fd = handle; cpu_id = cpu })

  -- The destructor.
  unfoldable pub close_handle : MsrHandle → M W (Unit {0})
  close_handle h = if is_neg h.fd then pure tt else tell (d.close h.fd)

  unfoldable pub write : MsrHandle → ℕ → ℕ → M W ℤ
  write h msr_number value = call (d.pwrite h.fd msr_number value)

  -- `*value` holds `old` before the call. The new contents come back beside the return value.
  unfoldable pub read : MsrHandle → ℕ → ℕ → M W (ℤ × ℕ)
  read h msr_number old =
      call λ w. let (got, w') = d.pread h.fd msr_number w in ((got.0, get_or got.1 old), w')

  -- The value of a variable that the code does not initialise.
  unfoldable pub uninitialised : M W ℕ
  uninitialised = call λ w. (d.indeterminate w, w)

unfoldable pub get_core_id : MsrHandle → ℕ
get_core_id h = h.cpu_id
