-- ===== src/MemLines/Traffic/Pairs.antt =====
-- srcs/mem_lines.cpp, lines 245-271: which pairs of cores `generate_traffic_and_monitor` covers.
use core_map.Base.{
  ℕ, suc, ◌<◌, ◌≡◌, refl, sym, ap, ◌∙◌, ◌⊎◌, inl, inr, ℤ, pos, is_minus_one, length,
  get_elem?-lt_some, Bool-cases, arith,
}
use core_map.Base.Effect.{State}
use core_map.Base.Hoare.{
  Returns, Returns-bind, Returns-then, Returns-index, Returns-mono, for_range-Returns,
}
use core_map.Pmon.{Pmon}
use core_map.Pmon.Safety.{
  Fits, freeze-Returns, unfreeze-Returns, set_pmon_ring_channels-Returns, read_counters-Returns,
  print_busy_path-Returns,
}
use core_map.Tasks.Returns.{read_and_write-Returns}
use core_map.MemLines.Object.{Machine, MemLines, num_lines}
use core_map.MemLines.Locate.Full.{AllFull}
use core_map.MemLines.Locate.Lines.{FirstLine, get_a_line_for_core-Returns}
use core_map.MemLines.Traffic.{
  monitor_pair, monitor_from, monitor_row, generate_traffic_and_monitor,
}
use core_map.MemLines.Traffic.Paths.{busy_nodes, Recorded, collect_busy_paths-Recorded}
use core_map.MemLines.Traffic.Covered.{
  SameButPaths, Mapped, Has, untouched, Monitored, Monitored-assign, Monitored-skip,
  Monitored-skip_row, clash, Monitored-row,
}

module _ {W : Type 0} (m : Machine W) (p : Pmon) (fits : Fits p) (start : MemLines)
    (units : p.num_physical_cores ≡ start.num_physical_cores)
    (full : AllFull num_lines start.local_lines)
    (buckets : length start.local_lines ≡ start.num_physical_cores)
    (cha_size : length start.core_map_cha_to_os ≡ start.num_physical_cores) where
  abbrev At : ℕ → ℕ → MemLines → State W → Type 0
  At a b ml t = Monitored start a b ml

  monitor_pair-Monitored :
      (id_a os_a id_b os_b : ℕ) (ml : MemLines) (s : State W)
      → id_a < start.num_physical_cores
      → Mapped start id_a
      → Mapped start id_b
      → Monitored start id_a id_b ml
      → Returns (At id_a (suc id_b)) (monitor_pair m p ml id_a os_a id_b os_b s)
  unfolding monitor_pair
  monitor_pair-Monitored id_a os_a id_b os_b ml s lt ma mb good =
      let lines : ml.local_lines ≡ start.local_lines =
        ap (λ (x : MemLines). x.local_lines) good.same in
      let phys : ml.num_physical_cores ≡ start.num_physical_cores =
        ap (λ (x : MemLines). x.num_physical_cores) good.same in
      let size : length ml.local_lines ≡ start.num_physical_cores = rw lines buckets in
      Returns-then (At id_a (suc id_b)) _ _ s (freeze-Returns m.msr p s) λ _ s1.
        Returns-then _ _ _ s1 (set_pmon_ring_channels-Returns m.msr p s1 fits) λ _ s2.
          Returns-then _ _ _ s2 (unfreeze-Returns m.msr p s2) λ _ s3.
            Returns-bind (FirstLine ml id_a num_lines) _ _ _ s3
              (get_a_line_for_core-Returns ml id_a num_lines s3 (rw lines full) (omega arith))
              λ line s4 _.
                Returns-then _ _ _ s4 (read_and_write-Returns m.threads _ _ _ _ s4) λ _ s5.
                  Returns-then _ _ _ s5 (freeze-Returns m.msr p s5) λ _ s6.
                    Returns-bind (λ cs t. length cs ≡ p.num_physical_cores) _ _ _ s6
                      (read_counters-Returns m.msr p s6 fits)
                      λ cs s7 len.
                        Returns-bind (Recorded ml id_a id_b 500000 cs s7) _ _ _ s7
                          (collect_busy_paths-Recorded ml id_a id_b 500000 cs s7
                            (len ∙ units ∙ sym phys))
                          λ ml' s8 h.
                            Returns-then _ _ _ s8 (print_busy_path-Returns m.msr p _ _ _ s8 fits)
                              λ _ s9. Returns-then _ _ _ s9 (unfreeze-Returns m.msr p s9) λ _ s10.
                                Monitored-assign start id_a id_b ml ml' (busy_nodes 500000 0 cs)
                                  good h.0 ma mb

  monitor_from-Monitored :
      (id_a id_b : ℕ) (os_a : ℤ) (ml : MemLines) (s : State W)
      → id_a < start.num_physical_cores
      → id_b < start.num_physical_cores
      → Mapped start id_a
      → Monitored start id_a id_b ml
      → Returns (At id_a (suc id_b)) (monitor_from m p id_a os_a id_b ml s)
  unfolding monitor_from
  monitor_from-Monitored id_a id_b os_a ml s la lb ma good =
      let table : ml.core_map_cha_to_os ≡ start.core_map_cha_to_os =
        ap (λ (x : MemLines). x.core_map_cha_to_os) good.same in
      let (x, ex) = get_elem?-lt_some start.core_map_cha_to_os id_b (omega arith) in
      Returns-index (At id_a (suc id_b)) _ _ s {a = x} (rw table ex)
        (elim (Bool-cases (is_minus_one x)) [
          | inl none_b ↦ rw none_b (
              Monitored-skip start id_a id_b ml good
                (λ _ (y, ey, there). clash start id_b x y none_b ex ey there))
          | inr there ↦
              rw there (monitor_pair-Monitored id_a _ id_b _ ml s la ma (x, ex, there) good)
        ])

  monitor_row-Monitored :
      (id_a : ℕ) (ml : MemLines) (s : State W)
      → id_a < start.num_physical_cores
      → Monitored start id_a 0 ml
      → Returns (At (suc id_a) 0) (monitor_row m p id_a ml s)
  unfolding monitor_row
  monitor_row-Monitored id_a ml s la good =
      let table : ml.core_map_cha_to_os ≡ start.core_map_cha_to_os =
        ap (λ (x : MemLines). x.core_map_cha_to_os) good.same in
      let phys : ml.num_physical_cores ≡ start.num_physical_cores =
        ap (λ (x : MemLines). x.num_physical_cores) good.same in
      let (x, ex) = get_elem?-lt_some start.core_map_cha_to_os id_a (omega arith) in
      Returns-index (At (suc id_a) 0) _ _ s {a = x} (rw table ex)
        (elim (Bool-cases (is_minus_one x)) [
          | inl none_a ↦ rw none_a (
              Monitored-skip_row start id_a ml good
                (λ (y, ey, there). clash start id_a x y none_a ex ey there))
          | inr there ↦ rw there (
              Returns-mono (At id_a start.num_physical_cores) (At (suc id_a) 0) _
                (for_range-Returns (At id_a) (monitor_from m p id_a x) ml.num_physical_cores 0
                  start.num_physical_cores (omega arith)
                  (λ k a t lt h. monitor_from-Monitored id_a k x a t la lt (x, ex, there) h) ml s
                  good)
                (λ a t h. Monitored-row start id_a a h))
        ])

-- All pairs are done.
pub generate_traffic_and_monitor-Monitored :
    {W : Type 0} (m : Machine W) (p : Pmon) (ml : MemLines) (s : State W)
    → Fits p
    → p.num_physical_cores ≡ ml.num_physical_cores
    → AllFull num_lines ml.local_lines
    → length ml.local_lines ≡ ml.num_physical_cores
    → length ml.core_map_cha_to_os ≡ ml.num_physical_cores
    → Returns
        (λ got t. (got.1 ≡ pos 0) × Monitored ml ml.num_physical_cores 0 got.0)
        (generate_traffic_and_monitor m p ml s)
unfolding generate_traffic_and_monitor
generate_traffic_and_monitor-Monitored m p ml s fits units full buckets cha_size =
    Returns-bind (λ ml' t. Monitored ml ml.num_physical_cores 0 ml')
      (λ got t. (got.1 ≡ pos 0) × Monitored ml ml.num_physical_cores 0 got.0) _ _ s
      (for_range-Returns (λ k ml' t. Monitored ml k 0 ml') (monitor_row m p) ml.num_physical_cores 0
        ml.num_physical_cores (omega arith)
        (λ k a t lt h. monitor_row-Monitored m p fits ml units full buckets cha_size k a t lt h) ml
        s
        (record {
          same = refl;
          covers = λ a b lt before xa xb. absurd (ground arith);
          only = λ a b h. inl h;
          made = untouched;
        }))
      (λ ml' t h. (refl, h))

-- The busy paths after the call.
pub record MonitorResult (ml ml' : MemLines) (r : ℤ) : Type 0 where
  pub code : r ≡ pos 0
  pub same : SameButPaths ml ml'
  pub covers :
      (a b : ℕ)
      → a < ml.num_physical_cores
      → b < ml.num_physical_cores
      → Mapped ml a
      → Mapped ml b
      → Has ml' a b
  pub only : (a b : ℕ) → Has ml' a b → Has ml a b ⊎ (Mapped ml a × Mapped ml b)

-- For every machine, when the monitor's table has an entry for each unit, the monitor and the
-- object have the same number of units, there are that many buckets of 22 lines each, and the table
-- of CHAs has an entry for each unit: the call returns 0, without undefined behaviour; it changes
-- the busy paths alone; every pair of units that are mapped to OS cores has a path, and a pair that
-- has one afterwards had one before or consists of mapped units.
pub generate_traffic_and_monitor-MonitorResult :
    {W : Type 0} (m : Machine W) (p : Pmon) (ml : MemLines) (s : State W)
    → Fits p
    → p.num_physical_cores ≡ ml.num_physical_cores
    → AllFull num_lines ml.local_lines
    → length ml.local_lines ≡ ml.num_physical_cores
    → length ml.core_map_cha_to_os ≡ ml.num_physical_cores
    → Returns (λ got t. MonitorResult ml got.0 got.1) (generate_traffic_and_monitor m p ml s)
generate_traffic_and_monitor-MonitorResult m p ml s fits units full buckets cha_size =
    Returns-mono (λ got t. (got.1 ≡ pos 0) × Monitored ml ml.num_physical_cores 0 got.0)
      (λ got t. MonitorResult ml got.0 got.1) _
      (generate_traffic_and_monitor-Monitored m p ml s fits units full buckets cha_size)
      (λ got t h. record {
        code = h.0;
        same = h.1.same;
        covers = λ a b la lb xa xb. h.1.covers a b lb (inl la) xa xb;
        only = h.1.only;
      })
