-- ===== src/MemLines/Mapping/NoLines.antt =====
-- srcs/mem_lines.cpp, lines 181-197, after a search that sampled no line at all.
use core_map.Base.{ℕ, zero, suc, ◌<◌, ◌≡◌, refl, [], arith}
use core_map.Base.Effect.{State, Outcome, faults, M, ◌>>=◌}
use core_map.Base.Hoare.{Returns, Any, Returns-first}
use core_map.Pmon.{Pmon}
use core_map.Pmon.Safety.{Fits, freeze-Returns, unfreeze-Returns, set_pmon_ring_channels-Returns}
use core_map.MemLines.Object.{Machine, MemLines}
use core_map.MemLines.Locate.{get_lines_for_core}
use core_map.MemLines.Mapping.{probe_pair, map_row, map_rows, map_os_core_id_to_cha_id}

-- The code runs into undefined behaviour.
abbrev pub Faults : {W A : Type 0} → Outcome A × State W → Type 0
Faults r = r.0 ≡ faults

module _ {W A B : Type 0} where
  -- A part that returns, before one that faults.
  Faults-then :
      (m : M W A) (f : A → M W B) (s : State W)
      → Returns Any (m s)
      → ((a : A) (t : State W) → Faults (f a t))
      → Faults ((m >>= f) s)
  Faults-then m f s h k = Returns-first Any Faults m f s h (λ a t _. k a t)

  Faults-bind : (m : M W A) (f : A → M W B) (s : State W) → Faults (m s) → Faults ((m >>= f) s)
  unfolding ◌>>=◌
  Faults-bind m f s h = rw h refl

module _ {W : Type 0} (m : Machine W) (p : Pmon) (fits : Fits p) (ml : MemLines)
    (no_lines : ml.local_lines ≡ []) where
  get_lines_for_core-Faults : (pi : ℕ) (s : State W) → Faults (get_lines_for_core ml pi s)
  unfolding get_lines_for_core ◌>>=◌
  get_lines_for_core-Faults pi s = rw no_lines refl

  probe_pair-Faults : (ci pi : ℕ) (s : State W) → Faults (probe_pair m p ml ci pi s)
  unfolding probe_pair
  probe_pair-Faults ci pi s = Faults-then _ _ s (freeze-Returns m.msr p s) λ _ s1.
      Faults-then _ _ s1 (set_pmon_ring_channels-Returns m.msr p s1 fits) λ _ s2.
        Faults-then _ _ s2 (unfreeze-Returns m.msr p s2)
          λ _ s3. Faults-bind _ _ s3 (get_lines_for_core-Faults pi s3)

  map_row-Faults : (n ci pi : ℕ) (s : State W) → 0 < n → Faults (map_row m p n ci pi ml s)
  unfolding map_row
  map_row-Faults zero ci pi s h = absurd (omega arith)
  map_row-Faults (suc n) ci pi s h = Faults-bind _ _ s (probe_pair-Faults ci pi s)

  map_rows-Faults :
      (n ci : ℕ) (s : State W) → 0 < n → 0 < ml.num_physical_cores → Faults (map_rows m p n ci ml s)
  unfolding map_rows
  map_rows-Faults zero ci s hc hp = absurd (omega arith)
  map_rows-Faults (suc n) ci s hc hp =
      Faults-bind _ _ s (map_row-Faults ml.num_physical_cores ci 0 s hp)

  -- For every machine, when the monitor's table has an entry for each unit, the object has no
  -- lines, and there are OS cores and units: the mapping of OS cores to CHAs runs into undefined
  -- behaviour.
  pub map_os_core_id_to_cha_id-Faults :
      (s : State W)
      → 0 < ml.num_cores
      → 0 < ml.num_physical_cores
      → Faults (map_os_core_id_to_cha_id m p ml s)
  unfolding map_os_core_id_to_cha_id
  map_os_core_id_to_cha_id-Faults s hc hp =
      Faults-bind _ _ s (map_rows-Faults ml.num_cores 0 s hc hp)
