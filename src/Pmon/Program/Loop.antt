-- ===== src/Pmon/Program/Loop.antt =====
-- srcs/pmon.cpp, lines 195-266: the loop over the units programs each of them, and no unit's registers are
-- overwritten by a later one.
use core_map.Base.{ℕ, ◌+◌, ◌≤◌, ◌<◌, ◌≡◌, ◌≢◌, ◌⊎◌, arith}
use core_map.Base.Effect.{State}
use core_map.Base.Hoare.{Returns, Returns-mono}
use core_map.Msr.{MsrDevice}
use core_map.Pmon.Tables.{PmonUnit}
use core_map.Pmon.Tables.Layout.{skl_unit, icl_unit, icl_base}
use core_map.Pmon.{Pmon, set_pmon_ring_channels_skl, set_pmon_ring_channels_icl}
use core_map.Pmon.Program.{
  Accepts, ring_writes, Programmed, ring_channels_skl_at-Sends, ring_channels_icl_at-Sends,
}
use core_map.Pmon.Program.Units.{icl_bases, UnitsHold, for_range-UnitsHold}
use core_map.Pmon.Program.Writes.{NoRepeats, AllAvoid}

skl_AllAvoid :
    (i j : ℕ)
    → i ≢ j
    → AllAvoid (ring_writes 0xaa 0xab (skl_unit i).regs) (ring_writes 0xaa 0xab (skl_unit j).regs)
skl_AllAvoid i j h = ground arith

skl_NoRepeats : (i : ℕ) → NoRepeats (ring_writes 0xaa 0xab (skl_unit i).regs)
skl_NoRepeats i = ground arith

-- A unit of the later generation whose window starts at a.
abbrev window : ℕ → PmonUnit
window a = record (icl_unit 0).regs {
  unit_ctl = a;
  ctl0 = a + 4;
  ctl1 = a + 3;
  ctl2 = a + 2;
  ctl3 = a + 1;
}

icl_AllAvoid :
    (i j : ℕ)
    → i < 39
    → j < 39
    → i ≢ j
    → AllAvoid (ring_writes 0xb2 0xb8 (icl_unit i).regs) (ring_writes 0xb2 0xb8 (icl_unit j).regs)
icl_AllAvoid i j hi hj h = go (icl_base i) (icl_base j) (icl_bases i j hi hj h)
  where
    go :
        (a b : ℕ)
        → (a + 14 ≤ b) ⊎ (b + 14 ≤ a)
        → AllAvoid (ring_writes 0xb2 0xb8 (window a)) (ring_writes 0xb2 0xb8 (window b))
    go a b e = ground arith

icl_NoRepeats : (i : ℕ) → NoRepeats (ring_writes 0xb2 0xb8 (icl_unit i).regs)
icl_NoRepeats i = go (icl_base i)
  where
    go : (a : ℕ) → NoRepeats (ring_writes 0xb2 0xb8 (window a))
    go a = ground arith

module _ {W : Type 0} (d : MsrDevice W) (p : Pmon) (law : Accepts d p.msr_h.fd) where
  open law use {written}

  -- After n units: nothing was printed, and each of them counts the four ring events.
  pub record Programs (unit : ℕ → PmonUnit) (vert horz n : ℕ) (s t : State W) : Type 0 where
    pub quiet : t.out ≡ s.out
    pub each : (k : ℕ) → k < n → Programmed (written t.world) vert horz (unit k)

  UnitsHold-Programs :
      (unit : ℕ → PmonUnit) (vert horz n : ℕ) (s t : State W)
      → UnitsHold d p law (λ i. ring_writes vert horz (unit i)) n s t
      → Programs unit vert horz n s t
  UnitsHold-Programs unit vert horz n s t h = record {
    quiet = h.quiet;
    each = λ k lt.
        let (reset, (up, (down, (left, (right, _))))) = h.each k lt in
        record { reset = reset; up = up; down = down; left = left; right = right };
  }

  -- On a device that accepts every write of its handle, and for at most 28 units: the call returns
  -- and prints nothing, and afterwards every unit, the first ones included, was reset and its four
  -- counters are set to the up, down, left and right ring events.
  pub set_pmon_ring_channels_skl-Programs :
      (s : State W)
      → p.num_physical_cores ≤ 28
      → Returns
          (λ _ t. Programs (λ i. (skl_unit i).regs) 0xaa 0xab p.num_physical_cores s t)
          (set_pmon_ring_channels_skl d p s)
  unfolding set_pmon_ring_channels_skl
  set_pmon_ring_channels_skl-Programs s h =
      Returns-mono
        (λ _ t.
          UnitsHold d p law (λ i. ring_writes 0xaa 0xab (skl_unit i).regs) p.num_physical_cores s t)
        (λ _ t. Programs (λ i. (skl_unit i).regs) 0xaa 0xab p.num_physical_cores s t) _
        (for_range-UnitsHold d p law (λ i. ring_writes 0xaa 0xab (skl_unit i).regs)
          p.num_physical_cores skl_NoRepeats (λ i j _ _ e. skl_AllAvoid i j e) _ s
          (λ i t lt. ring_channels_skl_at-Sends d p law i t (omega arith)))
        (λ _ t c. UnitsHold-Programs (λ i. (skl_unit i).regs) 0xaa 0xab p.num_physical_cores s t c)

  -- On a device that accepts every write of its handle, and for at most 39 units of the later
  -- generation: the call returns and prints nothing, and afterwards every unit, the first ones
  -- included, was reset and its four counters are set to the up, down, left and right ring events.
  pub set_pmon_ring_channels_icl-Programs :
      (s : State W)
      → p.num_physical_cores ≤ 39
      → Returns
          (λ _ t. Programs (λ i. (icl_unit i).regs) 0xb2 0xb8 p.num_physical_cores s t)
          (set_pmon_ring_channels_icl d p s)
  unfolding set_pmon_ring_channels_icl
  set_pmon_ring_channels_icl-Programs s h =
      Returns-mono
        (λ _ t.
          UnitsHold d p law (λ i. ring_writes 0xb2 0xb8 (icl_unit i).regs) p.num_physical_cores s t)
        (λ _ t. Programs (λ i. (icl_unit i).regs) 0xb2 0xb8 p.num_physical_cores s t) _
        (for_range-UnitsHold d p law (λ i. ring_writes 0xb2 0xb8 (icl_unit i).regs)
          p.num_physical_cores icl_NoRepeats
          (λ i j a b e. icl_AllAvoid i j (omega arith) (omega arith) e) _ s
          (λ i t lt. ring_channels_icl_at-Sends d p law i t (omega arith)))
        (λ _ t c. UnitsHold-Programs (λ i. (icl_unit i).regs) 0xb2 0xb8 p.num_physical_cores s t c)
