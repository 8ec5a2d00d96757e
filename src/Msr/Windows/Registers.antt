-- ===== src/Msr/Windows/Registers.antt =====
-- srcs/msr.cpp, lines 49-98: a value that is written through WinRing0 is read back from the same core.
use core_map.Base.{ℕ, ◌/◌, ◌%◌, ◌^◌, ◌<◌, ◌≡◌, refl, ap, ◌∙◌, true, none, ℤ, pos, arith}
use core_map.Base.Effect.{State, ◌>>=◌}
use core_map.Base.Hoare.{Returns, Returns-bind}
use core_map.Types.Cvt.{ui32, ui64, CvtDs}
use core_map.Msr.Windows.{WinDrivers, WinHandle, write_win, read_win, write_by, read_by}

-- What WinRing0 documents, when it does not fail: it reads and writes a register of the core that the thread runs on, and an
-- affinity moves the thread.
pub record IsWinRing {W : Type 0} (d : WinDrivers W) : Type 0 where
  pub core : W → ℕ
  pub halves : ℕ → ℕ → W → CvtDs
  pub enters : (c : ℕ) (w : W) → core (d.enter_affinity c w) ≡ c
  pub enter_keeps : (c k a : ℕ) (w : W) → halves k a (d.enter_affinity c w) ≡ halves k a w
  pub leave_keeps : (c k a : ℕ) (w : W) → halves k a (d.leave_affinity c w) ≡ halves k a w
  pub writes : (a lo hi : ℕ) (w : W) → (d.wrmsr a lo hi w).0 ≡ true
  pub stores :
      (a lo hi : ℕ) (w : W)
      → halves (core w) a (d.wrmsr a lo hi w).1 ≡ record { low = lo; high = hi }
  pub reads :
      (a : ℕ) (w : W)
      → (d.rdmsr a w).0 ≡ (true, (halves (core w) a w).low, (halves (core w) a w).high)

-- A handle of a core, without the driver.
abbrev pub on_core : ℕ → WinHandle
on_core c = record { h_driver = none; cpu_id = c }

abbrev read_result : ℕ → ℤ × ℕ
read_result v = (pos 8, v)

halves-joined : (v : ℕ) → v < 2 ^ 64 → ui64 (ui32 v) ≡ v
halves-joined v h = omega arith

module _ {W : Type 0} (d : WinDrivers W) (law : IsWinRing d) where
  open law use {core, halves, enters, enter_keeps, leave_keeps, writes, stores, reads}

  -- What a core's register holds.
  abbrev pub Holds : ℕ → ℕ → ℕ → State W → Type 0
  Holds c a v s = halves c (a % 2 ^ 32) s.world ≡ ui32 v

  write_by-Holds :
      (c a v : ℕ) (s : State W)
      → Returns (λ r t. (r ≡ pos 8) × Holds c a v t) (write_by d none c a v s)
  unfolding write_by ◌>>=◌
  write_by-Holds c a v s =
      let w : W = d.enter_affinity c s.world in
      let lo : ℕ = v % 2 ^ 32 in
      let hi : ℕ = v / 2 ^ 32 % 2 ^ 32 in
      (
        rw (writes (a % 2 ^ 32) lo hi w) refl,
        leave_keeps c c (a % 2 ^ 32) _ ∙ (rw (enters c s.world) at (stores (a % 2 ^ 32) lo hi w)),
      )

  read_by-Holds :
      (c a v old : ℕ) (s : State W)
      → v < 2 ^ 64
      → Holds c a v s
      → Returns (λ got t. got ≡ (pos 8, v)) (read_by d none c a old s)
  unfolding read_by ◌>>=◌
  read_by-Holds c a v old s fits h =
      let w : W = d.enter_affinity c s.world in
      let there : halves (core w) (a % 2 ^ 32) w ≡ ui32 v =
        rw (enters c s.world) (enter_keeps c c (a % 2 ^ 32) s.world ∙ h) in
      rw (reads (a % 2 ^ 32) w, there) (ap (λ (x : ℕ). read_result x) (halves-joined v fits))

  -- On Windows without the driver, when WinRing0 reads and writes the registers of the core that
  -- the thread was moved to: a value below 2 ^ 64 that a handle writes is read back by a handle of
  -- the same core, and the read returns 8.
  pub write_win-read_win :
      (c a v old : ℕ) (s : State W)
      → v < 2 ^ 64
      → Returns
          (λ got t. got ≡ (pos 8, v))
          ((write_win d (on_core c) a v >>= λ _. read_win d (on_core c) a old) s)
  unfolding write_win read_win
  write_win-read_win c a v old s fits =
      Returns-bind (λ r t. (r ≡ pos 8) × Holds c a v t) (λ got t. got ≡ (pos 8, v)) _ _ s
        (write_by-Holds c a v s) (λ _ t h. read_by-Holds c a v old t fits h.1)
