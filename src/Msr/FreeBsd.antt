-- ===== src/Msr/FreeBsd.antt =====
-- srcs/msr.cpp, lines 160-201, the FreeBSD version. The system calls are a parameter.
use core_map.Base.{is_zero, ℕ, ℤ, pos, is_neg, if◌then◌else◌}
use core_map.Base.Effect.{M, ◌>>=◌, pure, throw, call, tell}
use core_map.Msr.{MsrHandle}

-- `ioctl` on a device of cpuctl: CPUCTL_RDMSR gives back what it put into the `data` of its argument.
pub record CpuCtl (W : Type 0) : Type 0 where
  pub open_rw : ℕ → W → ℤ × W
  pub close : ℤ → W → W
  pub wrmsr : ℤ → ℕ → ℕ → W → ℤ × W
  pub rdmsr : ℤ → ℕ → W → (ℤ × ℕ) × W

module _ {W : Type 0} (d : CpuCtl W) where
  open_cpuctl : ℕ → M W MsrHandle
  open_cpuctl cpu = do
    handle ← call (d.open_rw cpu)
    if is_neg handle then throw else pure (record { fd = handle; cpu_id = cpu })

  pub close_cpuctl : MsrHandle → M W (Unit {0})
  close_cpuctl h = if is_neg h.fd then pure tt else tell (d.close h.fd)

  pub write_cpuctl : MsrHandle → ℕ → ℕ → M W ℤ
  write_cpuctl h msr_number value = do
    r ← call (d.wrmsr h.fd msr_number value)
    if is_zero r then pure (pos 8) else pure r

  -- `*value` holds `old` before the call.
  pub read_cpuctl : MsrHandle → ℕ → ℕ → M W (ℤ × ℕ)
  read_cpuctl h msr_number old = do
    r ← call (d.rdmsr h.fd msr_number)
    if is_zero r.0 then pure (pos 8, r.1) else pure (r.0, old)
