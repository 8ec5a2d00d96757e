-- ===== src/Msr/Opened.antt =====
-- srcs/msr.cpp, lines 205-222: the constructor throws, or returns a handle of the core.
use core_map.Base.{ℕ, ◌≡◌, arith}
use core_map.Base.Effect.{State, ◌>>=◌}
use core_map.Base.Hoare.{Ensures}
use core_map.Msr.{MsrDevice, open_either, open_handle}

pub open_handle-Ensures :
    {W : Type 0} (d : MsrDevice W) (c : ℕ) (s : State W)
    → Ensures (λ h t. h.cpu_id ≡ c) (open_handle d c s)
unfolding open_handle open_either ◌>>=◌
open_handle-Ensures d c s = ground arith
