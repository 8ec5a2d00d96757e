-- ===== src/MemLines/Traffic/Observed.antt =====
-- srcs/mem_lines.cpp, lines 251-268, on a mesh: what the path of one pair is recorded from.
use core_map.Base.{ℕ, ◌+◌, ◌<◌, ◌≡◌, refl, ap, ◌∙◌, ◌↔◌, some, List, get_elem?, arith}
use core_map.Base.Effect.{State, RingChannel, ch_up, ch_down, ch_left, ch_right}
use core_map.Base.Hoare.{Returns, Returns-bind, Returns-then}
use core_map.Pmon.{Pmon}
use core_map.Pmon.Tables.{PmonUnit}
use core_map.Pmon.Report.{CoreCounters}
use core_map.Pmon.Readout.{IsTabled, Readout, counters_of, Still, read_counters-Readout}
use core_map.Pmon.Safety.{freeze-Returns, unfreeze-Returns, print_busy_path-Returns}
use core_map.Tasks.Returns.{pair_run, read_and_write-pair_run}
use core_map.MemLines.Object.{Machine, MemLines, Node, line_at}
use core_map.MemLines.Locate.Lines.{get_a_line_for_core-there}
use core_map.MemLines.Locate.AtHome.{IsTabled-Fits}
use core_map.MemLines.Traffic.{monitor_pair, assign, num_rw_to_locate_core}
use core_map.MemLines.Traffic.Paths.{
  Holds, busy_nodes, busy_nodes-Holds, channel, Recorded, collect_busy_paths-Recorded,
}
use core_map.MemLines.Mapping.Mesh.{
  IsMesh, IsCounter, IsCounting, CounterOf, counter_0, counter_1, counter_2, counter_3, unit_of,
}
use core_map.MemLines.Mapping.Mesh.Setting.{Zeroed, IsReset, set_pmon_ring_channels-IsReset}
use core_map.MemLines.Mapping.Mesh.Switching.{freeze-counts, unfreeze-IsCounting}

-- The counter register of a ring channel.
abbrev pub register_of : RingChannel → PmonUnit → ℕ
register_of ch_up u = u.ctr0
register_of ch_down u = u.ctr1
register_of ch_left u = u.ctr2
register_of ch_right u = u.ctr3

register_of-CounterOf : (ch : RingChannel) (u : PmonUnit) → CounterOf u (register_of ch u)
register_of-CounterOf ch_up u = counter_0
register_of-CounterOf ch_down u = counter_1
register_of-CounterOf ch_left u = counter_2
register_of-CounterOf ch_right u = counter_3

module _ {W : Type 0} (m : Machine W) (p : Pmon) (mesh : IsMesh m p) (tabled : IsTabled p) where
  open m use {msr, threads}
  open mesh use {accepts, shows}

  -- The threads ran on the line, from counters that ran from 0; the path is that of the channels above the threshold.
  pub record Observed (ml : MemLines) (id_a os_a id_b os_b line : ℕ) (got : MemLines) : Type 0 where
    pub before : W
    pub path : List Node
    pub counting : IsCounting p (accepts.written before)
    pub none : (a : ℕ) → IsCounter p a → shows.contents before a ≡ 0
    pub recorded : got ≡ record ml { busy_paths = assign (id_a, id_b) path ml.busy_paths }
    pub busy :
        (k : ℕ) (ch : RingChannel)
        → k < p.num_physical_cores
        → Holds (k, ch) path ↔ (
            500000
            < shows.contents
                (pair_run threads
                  (ml.base_core_id + os_a)
                  (ml.base_core_id + os_b)
                  (record { access_ptr = line_at ml line; repeat = 10000000 })
                  before)
                (register_of ch (unit_of p k)))

  same_counter :
      (reg : ℕ → ℕ) (u : PmonUnit) (ch : RingChannel)
      → channel ch (counters_of reg u) ≡ reg (register_of ch u)
  same_counter reg u ch_up = refl
  same_counter reg u ch_down = refl
  same_counter reg u ch_left = refl
  same_counter reg u ch_right = refl

  -- The path that is recorded from the counters that are read.
  busy_from :
      (cs : List CoreCounters) (reg reg' : ℕ → ℕ) (k : ℕ) (ch : RingChannel)
      → Readout reg (unit_of p) p.num_physical_cores cs
      → ((a : ℕ) → IsCounter p a → reg a ≡ reg' a)
      → k < p.num_physical_cores
      → Holds (k, ch) (busy_nodes 500000 0 cs) ↔ (500000 < reg' (register_of ch (unit_of p k)))
  busy_from cs reg reg' k ch r same lt =
      let at_k : 0 + k ≡ k = omega arith in
      let read : channel ch (counters_of reg (unit_of p k)) ≡ reg' (register_of ch (unit_of p k)) =
        same_counter reg (unit_of p k) ch
        ∙ same (register_of ch (unit_of p k)) (k, (lt, register_of-CounterOf ch (unit_of p k))) in
      rw (at_k, read) at (busy_nodes-Holds 500000 0 k ch cs (r.each k lt))

  -- On a mesh (see IsMesh), for a model with a table that has registers for each unit, the monitor
  -- and the object having the same number of units, and a pair of ids of which the first has a
  -- bucket with a first line: the call returns, and the path under the pair of ids is replaced by
  -- one that holds a unit's channel exactly when the counter of that channel is above 500000 after
  -- the two threads, pinned to the pair's OS cores, have done 10000000 rounds on that line, from a
  -- state in which all units count the ring events and all counters are 0; nothing else of the
  -- object changes.
  pub monitor_pair-Observed :
      (ml : MemLines) (id_a os_a id_b os_b line : ℕ) (bucket : List ℕ) (s : State W)
      → p.num_physical_cores ≡ ml.num_physical_cores
      → get_elem? ml.local_lines id_a ≡ some bucket
      → get_elem? bucket 0 ≡ some line
      → Returns
          (λ got t. Observed ml id_a os_a id_b os_b line got)
          (monitor_pair m p ml id_a os_a id_b os_b s)
  unfolding monitor_pair num_rw_to_locate_core
  monitor_pair-Observed ml id_a os_a id_b os_b line bucket s units eb el =
      let Goal = λ (got : MemLines) (t : State W). Observed ml id_a os_a id_b os_b line got in
      let At = λ (addr : ℕ) (t0 t : State W). (addr ≡ line_at ml line) × (t ≡ t0) in
      Returns-then Goal _ _ s (freeze-Returns msr p s) λ _ s1.
        Returns-bind (λ _ t. IsReset m p mesh t) Goal _ _ s1
          (set_pmon_ring_channels-IsReset m p mesh s1 tabled)
          λ _ s2 h2.
            Returns-bind
              (λ _ t.
                IsCounting p (accepts.written t.world) × Zeroed m p mesh p.num_physical_cores t)
              Goal _ _ s2 (unfreeze-IsCounting m p mesh s2 h2)
              λ _ s3 h3.
                Returns-bind (λ addr t. At addr s3 t) Goal _ _ s3
                  (get_a_line_for_core-there ml id_a bucket line s3 eb el)
                  λ addr s4 h4.
                    Returns-bind
                      (λ _ t.
                        t.world
                        ≡ pair_run threads (ml.base_core_id + os_a) (ml.base_core_id + os_b)
                            (record { access_ptr = line_at ml line; repeat = 10000000 }) s3.world)
                      Goal _ _ s4 (rw (h4.0, h4.1) (read_and_write-pair_run threads _ _ _ _ s3))
                      λ _ s5 h5.
                        Returns-bind
                          (λ _ t.
                            (a : ℕ)
                            → IsCounter p a
                            → shows.contents t.world a ≡ shows.contents s5.world a)
                          Goal _ _ s5 (freeze-counts m p mesh s5)
                          λ _ s6 h6.
                            Returns-bind
                              (λ cs t.
                                Readout (shows.contents s6.world) (unit_of p) p.num_physical_cores
                                  cs
                                × Still msr p shows (shows.contents s6.world) t)
                              Goal _ _ s6 (read_counters-Readout msr p shows s6 tabled)
                              λ cs s7 h7.
                                Returns-bind (Recorded ml id_a id_b 500000 cs s7) Goal _ _ s7
                                  (collect_busy_paths-Recorded ml id_a id_b 500000 cs s7
                                    (h7.0.size ∙ units))
                                  λ ml' s8 h8.
                                    Returns-then Goal _ _ s8
                                      (print_busy_path-Returns msr p _ _ _ s8
                                        (IsTabled-Fits p tabled))
                                      λ _ s9.
                                        Returns-then Goal _ _ s9 (unfreeze-Returns msr p s9)
                                          λ _ s10. record {
                                            before = s3.world;
                                            path = busy_nodes 500000 0 cs;
                                            counting = h3.0;
                                            none = λ a c. h3.1 c.0 a c.1.0 c.1.1;
                                            recorded = h8.0;
                                            busy = λ k ch lt.
                                                busy_from cs (shows.contents s6.world) _ k ch h7.0
                                                  (λ a c. h6 a c ∙ ap (λ w. shows.contents w a) h5)
                                                  lt;
                                          }
