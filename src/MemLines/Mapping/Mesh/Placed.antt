-- ===== src/MemLines/Mapping/Mesh/Placed.antt =====
-- srcs/mem_lines.cpp, lines 181-208, on a mesh: each OS core is mapped to the CHA of its own tile.
use core_map.Base.{
  ℕ, zero, suc, ◌+◌, ◌<◌, ◌≡◌, ◌≢◌, refl, sym, ap, ◌∙◌, Bool, false, ℤ, pos, some, List, get_elem?,
  arith,
}
use native.Mathlib.Decide.{ℕ_discrete}
use core_map.Base.Effect.{State}
use core_map.Base.Hoare.{Returns, Returns-bind, Returns-then, Returns-mono, Returns-index}
use core_map.Pmon.{Pmon, unfreeze}
use core_map.Pmon.Report.{CoreCounters}
use core_map.Pmon.Readout.{IsTabled}
use core_map.Pmon.Safety.{unfreeze-Returns}
use core_map.MemLines.Object.{Machine, MemLines}
use core_map.MemLines.Mapping.{
  probe_pair, map_row, map_rows, check_mapped, map_os_core_id_to_cha_id, is_error,
}
use core_map.MemLines.Mapping.Pairing.{SameButMaps, Verdict, busy, taken, pairs}
use core_map.MemLines.Mapping.Mesh.{IsMesh}
use core_map.MemLines.Mapping.Mesh.Probe.{LinesAt, Tells, probe_pair-Verdict}
use core_map.MemLines.Mapping.Mesh.Tables.{SoFar, SoFar-away, SoFar-free, SoFar-here}
use core_map.MemLines.Mapping.Mesh.Sweep.{
  IsUnmapped, IsPlaced, SoFar-start, SoFar-next, SoFar-IsPlaced, LinesAt-same,
}

-- The last loop finds no OS core without a CHA when all have one.
check_mapped-zero :
    {W : Type 0} (m : Machine W) (p : Pmon) (ml : MemLines) (seat : ℕ → ℕ)
    → ((k : ℕ) → k < ml.num_cores → get_elem? ml.core_map_os_to_cha k ≡ some (pos (seat k)))
    → (n ci : ℕ) (s : State W) → ci + n ≡ ml.num_cores
    → Returns (λ r t. r ≡ pos 0) (check_mapped m p n ci ml s)
unfolding check_mapped
check_mapped-zero m p ml seat all zero ci s e = refl
check_mapped-zero m p ml seat all (suc n) ci s e =
    Returns-index (λ r t. r ≡ pos 0) _ _ s (all ci (omega arith))
      (check_mapped-zero m p ml seat all n (suc ci) s (omega arith))

module _ {W : Type 0} (m : Machine W) (p : Pmon) (mesh : IsMesh m p) (tabled : IsTabled p)
    (start : MemLines) (units : p.num_physical_cores ≡ start.num_physical_cores)
    (lines : (h : ℕ) → h < start.num_physical_cores → LinesAt (mesh.home) start h) where
  -- The CHA of an OS core.
  abbrev pub seat_of : ℕ → ℕ
  seat_of k = mesh.tile (start.base_core_id + k)

  module _ (range : (k : ℕ) → k < start.num_cores → seat_of k < start.num_physical_cores)
      (inj : (i j : ℕ)
        → i < start.num_cores
        → j < start.num_cores
        → seat_of i ≡ seat_of j
        → i ≡ j) where
    Verdict-SoFar :
        (ml : MemLines) (ci pi : ℕ) (cs : List CoreCounters) (got : MemLines × ℤ)
        → SoFar seat_of start ci pi ml
        → ci < start.num_cores
        → pi < start.num_physical_cores
        → Tells m p mesh tabled (start.base_core_id + ci) pi cs
        → Verdict ml ci pi cs got
        → (is_error got.1 ≡ false) × SoFar seat_of start ci (suc pi) got.0
    Verdict-SoFar ml ci pi cs got h hc hp tells v = elim (ℕ_discrete (seat_of ci) pi) [
      | yes here ↦ at_home here v
      | no away ↦ elsewhere away v
    ]
      where
        same_units : p.num_physical_cores ≡ ml.num_physical_cores
        same_units = units ∙ sym (ap (λ (x : MemLines). x.num_physical_cores) h.same)

        at_home :
            seat_of ci ≡ pi
            → Verdict ml ci pi cs got
            → (is_error got.1 ≡ false) × SoFar seat_of start ci (suc pi) got.0
        at_home here (busy not_quiet e) = absurd (not_quiet (rw same_units at (tells.0 here)))
        at_home here (taken x q ex ne e) =
            let f = SoFar-free seat_of start ci pi ml h inj hc hp here in absurd (ne (cc))
        at_home here (pairs q f e) = rw e (refl, SoFar-here seat_of start ci pi ml h inj hc hp here)

        elsewhere :
            seat_of ci ≢ pi
            → Verdict ml ci pi cs got
            → (is_error got.1 ≡ false) × SoFar seat_of start ci (suc pi) got.0
        elsewhere away (busy not_quiet e) = rw e (refl, SoFar-away seat_of start ci pi ml h away)
        elsewhere away (taken x q ex ne e) = absurd (tells.1 away (rw (sym same_units) at q))
        elsewhere away (pairs q f e) = absurd (tells.1 away (rw (sym same_units) at q))

    probe_pair-SoFar :
        (ml : MemLines) (ci pi : ℕ) (s : State W)
        → SoFar seat_of start ci pi ml
        → ci < start.num_cores
        → pi < start.num_physical_cores
        → Returns
            (λ got t. (is_error got.1 ≡ false) × SoFar seat_of start ci (suc pi) got.0)
            (probe_pair m p ml ci pi s)
    probe_pair-SoFar ml ci pi s h hc hp =
        let same_units : p.num_physical_cores ≡ ml.num_physical_cores =
          units ∙ sym (ap (λ (x : MemLines). x.num_physical_cores) h.same) in
        let base : ml.base_core_id ≡ start.base_core_id =
          ap (λ (x : MemLines). x.base_core_id) h.same in
        Returns-mono
          (λ got t.
            (cs : List CoreCounters) × (Tells m p mesh tabled (ml.base_core_id + ci) pi cs
              × Verdict ml ci pi cs got))
          (λ got t. (is_error got.1 ≡ false) × SoFar seat_of start ci (suc pi) got.0) _
          (probe_pair-Verdict m p mesh tabled ml ci pi s same_units
            (rw base (omega (arith, range ci hc, units))) (omega (arith, h.cha_size))
            (omega (arith, h.os_size)) (omega (arith, units))
            (LinesAt-same mesh.home start ml pi h.same (lines pi hp)))
          (λ got t g. Verdict-SoFar ml ci pi g.0 got h hc hp (rw base at (g.1.0)) g.1.1)

    map_row-SoFar :
        (n ci pi : ℕ) (ml : MemLines) (s : State W)
        → SoFar seat_of start ci pi ml
        → ci < start.num_cores
        → pi + n ≡ start.num_physical_cores
        → Returns
            (λ got t. (got.1 ≡ false) × SoFar seat_of start ci start.num_physical_cores got.0)
            (map_row m p n ci pi ml s)
    unfolding map_row
    map_row-SoFar zero ci pi ml s h hc e =
        let last : pi ≡ start.num_physical_cores = omega arith in (refl, rw last at h)
    map_row-SoFar (suc n) ci pi ml s h hc e =
        let Goal = λ (got : MemLines × Bool) (t : State W).
          (got.1 ≡ false) × SoFar seat_of start ci start.num_physical_cores got.0 in
        let later : suc pi + n ≡ start.num_physical_cores = omega arith in
        Returns-bind (λ got t. (is_error got.1 ≡ false) × SoFar seat_of start ci (suc pi) got.0)
          Goal _ _ s (probe_pair-SoFar ml ci pi s h hc (omega arith))
          (λ got t g. rw g.0 (
            Returns-then Goal (unfreeze m.msr p) (λ _. map_row m p n ci (suc pi) got.0) t
              (unfreeze-Returns m.msr p t)
              (λ _ u. map_row-SoFar n ci (suc pi) got.0 u g.1 hc later)))

    map_rows-SoFar :
        (n ci : ℕ) (ml : MemLines) (s : State W)
        → SoFar seat_of start ci 0 ml
        → ci + n ≡ start.num_cores
        → Returns
            (λ got t. (got.1 ≡ false) × SoFar seat_of start start.num_cores 0 got.0)
            (map_rows m p n ci ml s)
    unfolding map_rows
    map_rows-SoFar zero ci ml s h e =
        let last : ci ≡ start.num_cores = omega arith in (refl, rw last at h)
    map_rows-SoFar (suc n) ci ml s h e =
        let Goal = λ (got : MemLines × Bool) (t : State W).
          (got.1 ≡ false) × SoFar seat_of start start.num_cores 0 got.0 in
        let units' : ml.num_physical_cores ≡ start.num_physical_cores =
          ap (λ (x : MemLines). x.num_physical_cores) h.same in
        let later : suc ci + n ≡ start.num_cores = omega arith in
        Returns-bind
          (λ got t. (got.1 ≡ false) × SoFar seat_of start ci start.num_physical_cores got.0) Goal _
          _ s (map_row-SoFar ml.num_physical_cores ci 0 ml s h (omega arith) (omega arith))
          (λ got t g.
            rw g.0 (
              map_rows-SoFar n (suc ci) got.0 t (SoFar-next seat_of start ci got.0 range g.1)
                later))

    -- On a mesh, that is a machine whose registers hold what is written and show their contents, on
    -- which each core sits at a CHA and each line of memory has a home CHA, a reset clears a unit's
    -- counters, and, while all units count the ring events, a store to a line whose home is another
    -- CHA raises some unit's counter and one to a line at home raises none; for a model with a
    -- table that has registers for each unit, the monitor and the object having the same number of
    -- units, an object without mapped cores whose buckets hold 22 lines of their own unit each, and
    -- OS cores that sit at different CHAs among these units: the mapping returns 0, each OS core is
    -- mapped to the CHA that it sits at and that CHA to it, the other CHAs have no core, and
    -- nothing else of the object changes.
    pub map_os_core_id_to_cha_id-IsPlaced :
        (s : State W)
        → IsUnmapped start
        → Returns
            (λ got t. (got.1 ≡ pos 0) × (IsPlaced seat_of got.0 × SameButMaps start got.0))
            (map_os_core_id_to_cha_id m p start s)
    unfolding map_os_core_id_to_cha_id
    map_os_core_id_to_cha_id-IsPlaced s fresh =
        let Goal = λ (got : MemLines × ℤ) (t : State W).
          (got.1 ≡ pos 0) × (IsPlaced seat_of got.0 × SameButMaps start got.0) in
        Returns-bind (λ got t. (got.1 ≡ false) × SoFar seat_of start start.num_cores 0 got.0) Goal _
          _ s
          (map_rows-SoFar start.num_cores 0 start s (SoFar-start seat_of start fresh) (omega arith))
          (λ got t g.
            let placed = SoFar-IsPlaced seat_of start got.0 g.1 in
            let cores : got.0.num_cores ≡ start.num_cores =
              ap (λ (x : MemLines). x.num_cores) g.1.same in
            rw g.0 (
              Returns-bind (λ r u. r ≡ pos 0) Goal _ _ t
                (check_mapped-zero m p got.0 seat_of placed.os start.num_cores 0 t (omega arith))
                (λ r u e. (e, (placed, g.1.same)))))
