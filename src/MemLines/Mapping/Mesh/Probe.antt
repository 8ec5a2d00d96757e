-- ===== src/MemLines/Mapping/Mesh/Probe.antt =====
-- srcs/mem_lines.cpp, lines 182-195, on a mesh: the counters after one probe tell whether the core is at the CHA.
use core_map.Base.{
  ℕ, suc, ◌+◌, ◌*◌, ◌<◌, ◌≡◌, ◌≢◌, refl, ap, ◌∙◌, ℤ, some, map, List, [], ◌∷◌, length, get_elem?,
  arith,
}
use core_map.Base.Effect.{State}
use core_map.Base.Hoare.{Returns, Returns-bind, Returns-then, Returns-mono, Returns-index}
use core_map.Pmon.{Pmon}
use core_map.Pmon.Report.{CoreCounters}
use core_map.Pmon.Readout.{IsTabled, Readout, Still, read_counters-Readout}
use core_map.Pmon.Safety.{freeze-Returns}
use core_map.Tasks.Stores.{All}
use core_map.MemLines.Object.{Machine, MemLines, line_at}
use core_map.MemLines.Locate.{get_lines_for_core}
use core_map.MemLines.Mapping.{probe_pair, num_rw_to_map_core}
use core_map.MemLines.Mapping.Idle.{Quiet, QuietFrom}
use core_map.MemLines.Mapping.Pairing.{Decided, Verdict, find_core_mapping-Verdict}
use core_map.MemLines.Mapping.Mesh.{
  IsMesh, CounterOf, counter_0, counter_1, counter_2, counter_3, unit_of, IsCounter, IsCounting,
}
use core_map.MemLines.Mapping.Mesh.Setting.{Zeroed, IsReset, set_pmon_ring_channels-IsReset}
use core_map.MemLines.Mapping.Mesh.Switching.{freeze-counts, unfreeze-IsCounting}
use core_map.MemLines.Mapping.Mesh.Workload.{Stored, read_and_write_spill_to_l3-Stored}

-- The lines of a bucket, each at home at CHA h.
abbrev pub LinesAt : (ℕ → ℕ) → MemLines → ℕ → Type 0
LinesAt home ml h =
    (ls : List ℕ) × ((get_elem? ml.local_lines h ≡ some ls)
      × ((length ls ≡ 22) × All (λ line. home (line_at ml line) ≡ h) ls))

all_quiet :
    (p : Pmon) (reg : ℕ → ℕ) (cs : List CoreCounters)
    → Readout reg (unit_of p) p.num_physical_cores cs
    → ((b : ℕ) → IsCounter p b → reg b ≡ 0)
    → QuietFrom 0 p.num_physical_cores cs
all_quiet p reg cs h still k c le lt e =
    let z0 = still (unit_of p k).ctr0 (k, (lt, counter_0)) in
    let z1 = still (unit_of p k).ctr1 (k, (lt, counter_1)) in
    let z2 = still (unit_of p k).ctr2 (k, (lt, counter_2)) in
    let z3 = still (unit_of p k).ctr3 (k, (lt, counter_3)) in ground (arith, h.each k lt)

some_loud :
    (p : Pmon) (reg : ℕ → ℕ) (cs : List CoreCounters) (b : ℕ)
    → Readout reg (unit_of p) p.num_physical_cores cs
    → IsCounter p b
    → 100000 < reg b
    → ¬ QuietFrom 0 p.num_physical_cores cs
some_loud p reg cs b h (k, (lt, c)) high quiet =
    loud b c high (quiet k _ (omega arith) lt (h.each k lt))
  where
    loud :
        (b : ℕ)
        → CounterOf (unit_of p k) b
        → 100000 < reg b
        → Quiet 100000 (record {
          ctr0 = reg (unit_of p k).ctr0;
          ctr1 = reg (unit_of p k).ctr1;
          ctr2 = reg (unit_of p k).ctr2;
          ctr3 = reg (unit_of p k).ctr3;
        })
        → ⊥
    loud b counter_0 high q = omega (arith, q.up)
    loud b counter_1 high q = omega (arith, q.down)
    loud b counter_2 high q = omega (arith, q.left)
    loud b counter_3 high q = omega (arith, q.right)

AllMapped :
    (home : ℕ → ℕ) (ml : MemLines) (h : ℕ) (ls : List ℕ)
    → All (λ line. home (line_at ml line) ≡ h) ls
    → All (λ q. home q ≡ h) (map (line_at ml) ls)
AllMapped home ml h [] g = tt
AllMapped home ml h (l ∷ ls) g = (g.0, AllMapped home ml h ls g.1)

length-map : (f : ℕ → ℕ) (ls : List ℕ) → length (map f ls) ≡ length ls
length-map f [] = refl
length-map f (l ∷ ls) = ap suc (length-map f ls)

module _ {W : Type 0} (m : Machine W) (p : Pmon) (mesh : IsMesh m p) (tabled : IsTabled p) where
  open m use {msr, threads}
  open mesh use {accepts, shows, tile, home, via, on_way}

  -- What the readings say: no traffic if the core is at the CHA, and above the limit otherwise.
  abbrev pub Tells : ℕ → ℕ → List CoreCounters → Type 0
  Tells c h cs =
      (tile c ≡ h → QuietFrom 0 p.num_physical_cores cs)
      × (tile c ≢ h → ¬ QuietFrom 0 p.num_physical_cores cs)

  Stored-Tells :
      (c h n : ℕ) (reg : ℕ → ℕ) (cs : List CoreCounters) (w : W)
      → tile c < p.num_physical_cores
      → h < p.num_physical_cores
      → 100000 < n
      → Stored m p mesh c h n w
      → ((b : ℕ) → IsCounter p b → reg b ≡ shows.contents w b)
      → Readout reg (unit_of p) p.num_physical_cores cs
      → Tells c h cs
  Stored-Tells c h n reg cs w lt lh many g same r = (
    λ here. all_quiet p reg cs r (λ b cb. same b cb ∙ g.idle here b cb),
    λ away.
        let cb = on_way (tile c) h away lt lh in
        some_loud p reg cs (via (tile c) h) r cb
          (omega (arith, g.loud away cb, same (via (tile c) h) cb)),
  )

  -- One probe, up to the test of its counters.
  pub probe_pair-Verdict :
      (ml : MemLines) (ci pi : ℕ) (s : State W)
      → p.num_physical_cores ≡ ml.num_physical_cores
      → tile (ml.base_core_id + ci) < p.num_physical_cores
      → pi < length ml.core_map_cha_to_os
      → ci < length ml.core_map_os_to_cha
      → pi < p.num_physical_cores
      → LinesAt home ml pi
      → Returns
          (λ got t.
            (cs : List CoreCounters) × (Tells (ml.base_core_id + ci) pi cs
              × Verdict ml ci pi cs got))
          (probe_pair m p ml ci pi s)
  unfolding probe_pair num_rw_to_map_core get_lines_for_core
  probe_pair-Verdict ml ci pi s units lt hp hc hu (ls, (bucket, (full, homes))) =
      let c : ℕ = ml.base_core_id + ci in
      let Goal = λ (got : MemLines × ℤ) (t : State W).
        (cs : List CoreCounters) × (Tells c pi cs × Verdict ml ci pi cs got) in
      let ptrs : List ℕ = map (line_at ml) ls in
      Returns-then Goal _ _ s (freeze-Returns msr p s) λ _ s1.
        Returns-bind (λ _ t. IsReset m p mesh t) Goal _ _ s1
          (set_pmon_ring_channels-IsReset m p mesh s1 tabled)
          λ _ s2 h2.
            Returns-bind
              (λ _ t.
                IsCounting p (accepts.written t.world) × Zeroed m p mesh p.num_physical_cores t)
              Goal _ _ s2 (unfreeze-IsCounting m p mesh s2 h2)
              λ _ s3 h3.
                Returns-bind (λ got t. (got ≡ ptrs) × (t ≡ s3)) Goal _ _ s3
                  (Returns-index (λ got t. (got ≡ ptrs) × (t ≡ s3)) _ _ s3 bucket (refl, refl))
                  λ got s4 h4.
                    Returns-bind (λ _ t. Stored m p mesh c pi (10000 * length ptrs) t.world) Goal _
                      _ s4
                      (rw (h4.0, h4.1)
                        (read_and_write_spill_to_l3-Stored m p mesh c pi ptrs 10000 s3
                          (AllMapped home ml pi ls homes) h3.0 (λ b cb. h3.1 cb.0 b cb.1.0 cb.1.1)))
                      λ _ s5 h5.
                        Returns-bind
                          (λ _ t.
                            (b : ℕ)
                            → IsCounter p b
                            → shows.contents t.world b ≡ shows.contents s5.world b)
                          Goal _ _ s5 (freeze-counts m p mesh s5)
                          λ _ s6 h6.
                            Returns-bind
                              (λ cs t.
                                Readout (shows.contents s6.world) (unit_of p) p.num_physical_cores
                                  cs
                                × Still msr p shows (shows.contents s6.world) t)
                              Goal _ _ s6 (read_counters-Readout msr p shows s6 tabled)
                              λ cs s7 h7.
                                Returns-mono (Decided ml ci pi cs s7.world) Goal _
                                  (find_core_mapping-Verdict ml ci pi cs s7.world s7 refl
                                    (h7.0.size ∙ units) hp hc)
                                  (λ got t d. (
                                    cs,
                                    (
                                      Stored-Tells c pi (10000 * length ptrs)
                                          (shows.contents s6.world) cs s5.world lt hu
                                          (omega (arith, length-map (line_at ml) ls, full)) h5 h6
                                          h7.0,
                                      d.0,
                                    ),
                                  ))
