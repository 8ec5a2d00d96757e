-- ===== src/MemLines/Locate/AtHome.antt =====
-- srcs/mem_lines.cpp, lines 99-158, on a mesh: which lines the buckets hold.
use core_map.Base.{
  ◌↔◌, ℕ, suc, ◌+◌, ◌*◌, ◌/◌, ◌%◌, ◌^◌, ◌≤◌, ◌<◌, ◌≡◌, ◌≢◌, refl, sym, ap, ◌∙◌, inl, inr, ℤ, Bool,
  true, false, List, length, some, get_elem?, get_elem?-lt_some, take, ltb, ◌==◌, ◌&&◌, Bool-cases,
  ==_iff, arith,
}
use native.Mathlib.Decide.{ℕ_discrete}
use core_map.Base.Effect.{State}
use core_map.Base.Hoare.{Returns, Returns-then, Returns-bind, int_sum-Returns}
use core_map.Pmon.{Pmon}
use core_map.Pmon.Report.{CoreCounters}
use core_map.Pmon.Readout.{IsTabled, Readout, Still, read_counters-Readout}
use core_map.Pmon.Safety.{Fits, freeze-Returns, unfreeze-Returns}
use core_map.Tasks.Returns.{pair_run, read_and_write-pair_run}
use core_map.MemLines.Address.{get_l2_index}
use core_map.MemLines.Address.Translate.{IsPageMap, get_physical_address-Translates}
use core_map.MemLines.Object.{Machine, MemLines, line_at}
use core_map.MemLines.Locate.{resize, sample_line, visit_line, num_rw_to_locate_line}
use core_map.MemLines.Locate.Sampling.{Sampled, Promise, find_local_lines-Sampled}
use core_map.MemLines.Locate.Full.{SameButLines, Between, same-units, same-base}
use core_map.MemLines.Locate.Homes.{lines_of, lines_of-skip, after_sample-take, resize-get}
use core_map.MemLines.Mapping.Mesh.{IsMesh, IsCounter, CounterOf, counter_1, unit_of}
use core_map.MemLines.Mapping.Mesh.Setting.{Zeroed}
use core_map.MemLines.Mapping.Mesh.Switching.{freeze-counts}
use core_map.MemLines.Mapping.Mesh.Lookups.{
  IsLooking, CountsLookups, LooksFresh, set_llc_pmon-LooksFresh, unfreeze-IsLooking,
}

pub line_at-same :
    (start ml : MemLines) (line : ℕ) → SameButLines start ml → line_at ml line ≡ line_at start line
unfolding line_at
line_at-same start ml line same = ap (λ (x : MemLines). (x.memory_bulk + line * 64) % 2 ^ 64) same

line_at-lt : (ml : MemLines) (line : ℕ) → line_at ml line < 2 ^ 64
unfolding line_at
line_at-lt ml line = omega arith

pub IsTabled-Fits : (p : Pmon) → IsTabled p → Fits p
IsTabled-Fits p (inl (model, few)) = record {
  skl = λ e. few;
  icl = λ e. absurd (omega (arith, model, e));
}
IsTabled-Fits p (inr (model, few)) = record {
  skl = λ e. absurd (omega (arith, model, e));
  icl = λ e. omega arith;
}

module _ {W : Type 0} (m : Machine W) (p : Pmon) (mesh : IsMesh m p)
    (looks : CountsLookups m p mesh) (maps : IsPageMap m.pages) (tabled : IsTabled p)
    (start : MemLines) (units : p.num_physical_cores ≡ start.num_physical_cores)
    (pair : start.base_core_id + 1 < 2 ^ 31) where
  open m use {msr}
  open mesh use {accepts, shows, home}

  -- The line falls into L2 set 1: its frame's number is a multiple of 16, and it is the second of its page.
  abbrev pub in_set_1 : ℕ → Bool
  in_set_1 line =
      (maps.entry (line_at start line / 4096) % 16 == 0) && (line_at start line % 4096 / 64 == 1)

  abbrev pub home_of : ℕ → ℕ
  home_of line = home (line_at start line)

  -- The first 22 lines below n in L2 set 1 whose home is unit k.
  abbrev pub first_lines : ℕ → ℕ → List ℕ
  first_lines k n = take 22 (lines_of in_set_1 home_of k n)

  -- The buckets hold them; a bucket that is not there yet counts as empty.
  abbrev pub Gathered : ℕ → MemLines → Type 0
  Gathered n ml =
      (k : ℕ)
      → k < start.num_physical_cores
      → get_elem? (resize start.num_physical_cores ml.local_lines) k ≡ some (first_lines k n)

  -- After a sample, a unit is above the threshold exactly if it is the home of the line.
  hot :
      (ml : MemLines) (line next : ℕ) (w3 w4 w5 : W) (cs : List CoreCounters) (k : ℕ)
      (c : CoreCounters)
      → SameButLines start ml
      → next ≡ ml.base_core_id + 1
      → IsLooking p (accepts.written w3)
      → ((a : ℕ) → CounterOf (unit_of p k) a → shows.contents w3 a ≡ 0)
      → w4
        ≡ pair_run m.threads ml.base_core_id next
            (record { access_ptr = line_at ml line; repeat = num_rw_to_locate_line })
            w3
      → ((a : ℕ) → IsCounter p a → shows.contents w5 a ≡ shows.contents w4 a)
      → Readout (shows.contents w5) (unit_of p) p.num_physical_cores cs
      → k < p.num_physical_cores
      → get_elem? cs k ≡ some c
      → ltb 2000 c.ctr1 ≡ (home_of line == k)
  unfolding num_rw_to_locate_line
  hot ml line next w3 w4 w5 cs k c same other_core looking still ran kept r lt ec =
      let q : ℕ = line_at ml line in
      let at_start : home q ≡ home_of line = ap home (line_at-same start ml line same) in
      let none = still (unit_of p k).ctr1 counter_1 in
      let frozen = kept (unit_of p k).ctr1 (k, (lt, counter_1)) in
      let read : c.ctr1 ≡ shows.contents w5 (unit_of p k).ctr1 = ground (arith, r.each k lt) in
      elim (ℕ_discrete k (home q)) [
        | yes e ↦
            let many : shows.contents w3 (unit_of p k).ctr1 + 100000
                ≤ shows.contents w4 (unit_of p k).ctr1 =
              rw ran (looks.at_home _ _ q _ k w3 (λ z. omega arith) lt e looking) in
            let above : 2000 < c.ctr1 = omega arith in
            let is : home_of line ≡ k = sym (e ∙ at_start) in ground arith
        | no other ↦
            let few : shows.contents w4 (unit_of p k).ctr1 ≡ shows.contents w3 (unit_of p k).ctr1 =
              rw ran (looks.elsewhere _ _ q _ k w3 lt other looking) in
            let below : c.ctr1 ≤ 2000 = omega arith in
            let is : home_of line ≢ k = λ z. other (sym (at_start ∙ z)) in ground arith
      ]

  Gathered-sample :
      (ml ml' : MemLines) (line : ℕ) (cs : List CoreCounters) (r : ℤ)
      → length cs ≡ ml.num_physical_cores
      → ml.num_physical_cores ≡ start.num_physical_cores
      → Sampled line cs ml ml' r
      → in_set_1 line ≡ true
      → ((k : ℕ) (c : CoreCounters)
          → k < p.num_physical_cores
          → get_elem? cs k ≡ some c
          → ltb 2000 c.ctr1 ≡ (home_of line == k))
      → Gathered line ml
      → Gathered (suc line) ml'
  Gathered-sample ml ml' line cs r len same sampled inside is_hot h k lt =
      let (c, ec) = get_elem?-lt_some cs k (omega arith) in
      resize-get start.num_physical_cores ml'.local_lines k lt (
        sampled.after k c (first_lines k line) (omega arith) ec (rw same (h k lt))
        ∙ ap some
            (after_sample-take in_set_1 home_of k line c inside (is_hot k c (omega arith) ec)))

  sample_line-Gathered :
      (ml : MemLines) (line : ℕ) (s : State W)
      → Between start line ml
      → in_set_1 line ≡ true
      → Gathered line ml
      → Returns (λ ml' t. Gathered (suc line) ml') (sample_line m p ml line s)
  unfolding sample_line
  sample_line-Gathered ml line s b inside h =
      let Goal = λ (ml' : MemLines) (t : State W). Gathered (suc line) ml' in
      let same = same-units start ml b.same in
      Returns-then Goal _ _ s (freeze-Returns msr p s) λ _ s1.
        Returns-bind (λ _ t. LooksFresh m p mesh t) Goal _ _ s1
          (set_llc_pmon-LooksFresh m p mesh s1 tabled)
          λ _ s2 h2.
            Returns-bind
              (λ _ t.
                IsLooking p (accepts.written t.world) × Zeroed m p mesh p.num_physical_cores t)
              Goal _ _ s2 (unfreeze-IsLooking m p mesh s2 h2)
              λ _ s3 h3.
                Returns-bind (λ r t. (r ≡ ml.base_core_id + 1) × (t ≡ s3)) Goal _ _ s3
                  (int_sum-Returns ml.base_core_id 1 s3 (rw (same-base start ml b.same) pair))
                  λ next s3' hn.
                    Returns-bind
                      (λ _ t.
                        t.world
                        ≡ pair_run m.threads ml.base_core_id next
                            (record {
                              access_ptr = line_at ml line;
                              repeat = num_rw_to_locate_line;
                            })
                            s3.world)
                      Goal _ _ s3' (rw (hn.1) (read_and_write-pair_run m.threads _ _ _ _ s3))
                      λ _ s4 h4.
                        Returns-bind
                          (λ _ t.
                            (a : ℕ)
                            → IsCounter p a
                            → shows.contents t.world a ≡ shows.contents s4.world a)
                          Goal _ _ s4 (freeze-counts m p mesh s4)
                          λ _ s5 h5.
                            Returns-bind
                              (λ cs t.
                                Readout (shows.contents s5.world) (unit_of p) p.num_physical_cores
                                  cs
                                × Still msr p shows (shows.contents s5.world) t)
                              Goal _ _ s5 (read_counters-Readout msr p shows s5 tabled)
                              λ cs s6 h6.
                                let len : length cs ≡ ml.num_physical_cores =
                                  h6.0.size ∙ units ∙ sym same in
                                Returns-bind (Promise ml line cs s6.world) Goal _ _ s6
                                  (find_local_lines-Sampled ml line cs s6.world len b.located s6
                                    refl)
                                  λ got s7 h7.
                                    Returns-then Goal _ _ s7 (unfreeze-Returns msr p s7) λ _ s8.
                                      Gathered-sample ml got.0 line cs got.1 len same h7.0 inside
                                        (λ k c lt ec.
                                          hot ml line next s3.world s4.world s5.world cs k c b.same
                                            hn.0 h3.0 (λ a q. h3.1 k a lt q) h4 h5 h6.0 lt ec)
                                        h

  pub visit_line-Gathered :
      (ml : MemLines) (line : ℕ) (s : State W)
      → Between start line ml
      → Gathered line ml
      → Returns (λ ml' t. Gathered (suc line) ml') (visit_line m p ml line s)
  unfolding visit_line
  visit_line-Gathered ml line s b h =
      let same = line_at-same start ml line b.same in
      Returns-bind _ (λ ml' t. Gathered (suc line) ml') _ _ s
        (get_physical_address-Translates m.pages maps (line_at ml line) s (line_at-lt ml line))
        λ physical t g. elim (Bool-cases (get_l2_index physical == 1)) [
          | inl one ↦
              rw one
                (sample_line-Gathered ml line t b (inside physical same (rw same at (g.1)) one) h)
          | inr other ↦ rw other (λ k lt.
              h k lt
              ∙ ap (λ xs. some (take 22 xs))
                  (sym (
                    lines_of-skip in_set_1 home_of k line
                      (outside physical (rw same at (g.1)) other))))
        ]
    where
      Tells : ℕ → Type 0
      Tells physical = (get_l2_index physical ≡ 1) ↔ (
          (maps.entry (line_at start line / 4096) % 16 ≡ 0) × (line_at start line % 4096 / 64 ≡ 1))

      inside :
          (physical : ℕ)
          → line_at ml line ≡ line_at start line
          → Tells physical
          → (get_l2_index physical == 1) ≡ true
          → in_set_1 line ≡ true
      inside physical same g one = let (x, y) = g.0 ((==_iff _ _).0 one) in ground arith

      split :
          in_set_1 line ≡ true
          → (maps.entry (line_at start line / 4096) % 16 ≡ 0) × (line_at start line % 4096 / 64 ≡ 1)
      split e = ground arith

      outside :
          (physical : ℕ)
          → Tells physical
          → (get_l2_index physical == 1) ≡ false
          → in_set_1 line ≡ false
      outside physical g other = elim (Bool-cases (in_set_1 line)) [
        | inr no_set ↦ no_set
        | inl set ↦ let one : get_l2_index physical ≡ 1 = g.1 (split set) in absurd (ground arith)
      ]
