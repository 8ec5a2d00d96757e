-- ===== src/MemLines/Mapping/Success.antt =====
-- srcs/mem_lines.cpp, lines 181-208: what `map_os_core_id_to_cha_id` promises, on every machine.
use core_map.Base.{
  ℕ, zero, suc, ◌+◌, ◌≤◌, ◌<◌, ◌≡◌, refl, sym, ap, ◌∙◌, ◌⊎◌, inl, inr, false, ℤ, pos, minus_one,
  is_minus_one, is_minus_one_iff, some, length, get_elem?, get_elem?-lt_some, Bool-cases, arith,
}
use native.Mathlib.Decide.{ℕ_discrete}
use core_map.Base.Effect.{State, ◌>>=◌}
use core_map.Base.Hoare.{Returns, Returns-bind, Returns-then, Returns-index, Returns-mono}
use core_map.Pmon.{Pmon, unfreeze}
use core_map.Pmon.Safety.{
  Fits, freeze-Returns, unfreeze-Returns, set_pmon_ring_channels-Returns, read_counters-Returns,
}
use core_map.Tasks.Returns.{read_and_write_spill_to_l3-Returns}
use core_map.MemLines.Object.{Machine, MemLines}
use core_map.MemLines.Locate.Lines.{get_lines_for_core-Returns}
use core_map.MemLines.Mapping.{
  probe_pair, map_row, map_rows, check_mapped, map_os_core_id_to_cha_id, is_error,
}
use core_map.MemLines.Mapping.Pairing.{
  MapsTo, IsPaired, SameButMaps, Decided, Verdict-IsPaired, find_core_mapping-Verdict,
}

-- What every part of the search keeps.
abbrev Kept : MemLines → MemLines → Type 0
Kept start ml = IsPaired ml × SameButMaps start ml

same_trans :
    (start ml ml' : MemLines) → SameButMaps start ml → SameButMaps ml ml' → SameButMaps start ml'
same_trans start ml ml' e f =
    f
    ∙ ap
        (λ (x : MemLines). record x {
          core_map_cha_to_os = ml'.core_map_cha_to_os;
          core_map_os_to_cha = ml'.core_map_os_to_cha;
        })
        e

-- The entries of the OS cores from i up to j are set.
abbrev MappedFrom : ℕ → ℕ → MemLines → Type 0
MappedFrom i j ml = (k : ℕ) → i ≤ k → k < j → (c : ℕ) × MapsTo ml k c

-- What the return code says of the table.
pub data Complete (ml : MemLines) (r : ℤ) : Type 0 where
  all_mapped : r ≡ pos 0 → MappedFrom 0 ml.num_cores ml → Complete ml r
  failed : r ≡ minus_one → Complete ml r

-- What the last loop finds out.
abbrev Scanned : {W : Type 0} → ℕ → ℕ → MemLines → ℤ → State W → Type 0
Scanned i j ml r t = ((r ≡ pos 0) × MappedFrom i j ml) ⊎ (r ≡ minus_one)

MappedFrom-suc :
    (i j : ℕ) (ml : MemLines)
    → (c : ℕ) × MapsTo ml i c
    → MappedFrom (suc i) j ml
    → MappedFrom i j ml
MappedFrom-suc i j ml first rest k h lt = elim (ℕ_discrete k i) [
  | yes same ↦ rw same first
  | no other ↦ rest k (omega arith) lt
]

module _ {W : Type 0} (m : Machine W) (p : Pmon) (fits : Fits p) (start : MemLines)
    (units : p.num_physical_cores ≡ start.num_physical_cores)
    (buckets : length start.local_lines ≡ start.num_physical_cores) where
  probe_pair-Kept :
      (ml : MemLines) (ci pi : ℕ) (s : State W)
      → Kept start ml
      → ci < start.num_cores
      → pi < start.num_physical_cores
      → Returns (λ got t. Kept start got.0) (probe_pair m p ml ci pi s)
  unfolding probe_pair
  probe_pair-Kept ml ci pi s (good, same) hc hp =
      let cores : ml.num_cores ≡ start.num_cores = ap (λ (x : MemLines). x.num_cores) same in
      let phys : ml.num_physical_cores ≡ start.num_physical_cores =
        ap (λ (x : MemLines). x.num_physical_cores) same in
      let lines : ml.local_lines ≡ start.local_lines = ap (λ (x : MemLines). x.local_lines) same in
      let full : length ml.local_lines ≡ start.num_physical_cores = rw lines buckets in
      Returns-then (λ got t. Kept start got.0) _ _ s (freeze-Returns m.msr p s)
        λ _ s1. Returns-then _ _ _ s1 (set_pmon_ring_channels-Returns m.msr p s1 fits) λ _ s2.
          Returns-then _ _ _ s2 (unfreeze-Returns m.msr p s2) λ _ s3.
            Returns-then _ _ _ s3 (get_lines_for_core-Returns ml pi s3 (omega arith)) λ ls s4.
              Returns-then _ _ _ s4 (read_and_write_spill_to_l3-Returns m.threads _ _ _ s4) λ _ s5.
                Returns-then _ _ _ s5 (freeze-Returns m.msr p s5) λ _ s6.
                  Returns-bind (λ cs t. length cs ≡ p.num_physical_cores) _ _ _ s6
                    (read_counters-Returns m.msr p s6 fits)
                    λ cs s7 len.
                      Returns-mono (Decided ml ci pi cs s7.world) _ _
                        (find_core_mapping-Verdict ml ci pi cs s7.world s7 refl
                          (len ∙ units ∙ sym phys) (omega (arith, good.cha_size))
                          (omega (arith, good.os_size)))
                        (λ got t h.
                          let (good', same') =
                            Verdict-IsPaired ml ci pi cs got good (omega arith) (omega arith) h.0 in
                          (good', same_trans start ml got.0 same same'))

  map_row-Kept :
      (n ci pi : ℕ) (ml : MemLines) (s : State W)
      → Kept start ml
      → ci < start.num_cores
      → pi + n ≡ start.num_physical_cores
      → Returns (λ got t. Kept start got.0) (map_row m p n ci pi ml s)
  unfolding map_row
  map_row-Kept zero ci pi ml s k hc e = k
  map_row-Kept (suc n) ci pi ml s k hc e =
      let later : suc pi + n ≡ start.num_physical_cores = omega arith in
      Returns-bind (λ got t. Kept start got.0) (λ got t. Kept start got.0) _ _ s
        (probe_pair-Kept ml ci pi s k hc (omega arith))
        λ got t k'. elim (Bool-cases (is_error got.1)) [
          | inl bad ↦ rw bad k'
          | inr fine ↦ rw fine (
              Returns-then (λ got t. Kept start got.0) (unfreeze m.msr p)
                (λ _. map_row m p n ci (suc pi) got.0) t (unfreeze-Returns m.msr p t)
                (λ _ u. map_row-Kept n ci (suc pi) got.0 u k' hc later))
        ]

  map_rows-Kept :
      (n ci : ℕ) (ml : MemLines) (s : State W)
      → Kept start ml
      → ci + n ≡ start.num_cores
      → Returns (λ got t. Kept start got.0) (map_rows m p n ci ml s)
  unfolding map_rows
  map_rows-Kept zero ci ml s k e = k
  map_rows-Kept (suc n) ci ml s k e =
      let later : suc ci + n ≡ start.num_cores = omega arith in
      Returns-bind (λ got t. Kept start got.0) (λ got t. Kept start got.0) _ _ s
        (map_row-Kept _ ci 0 ml s k (omega arith)
          (omega (arith, ap (λ (x : MemLines). x.num_physical_cores) k.1)))
        λ got t k'. elim (Bool-cases got.1) [
          | inl bad ↦ rw bad k'
          | inr fine ↦ rw fine (map_rows-Kept n (suc ci) got.0 t k' later)
        ]

  check_mapped-Complete :
      (n ci : ℕ) (ml : MemLines) (s : State W)
      → Kept start ml
      → ci + n ≡ start.num_cores
      → Returns (Scanned ci start.num_cores ml) (check_mapped m p n ci ml s)
  unfolding check_mapped
  check_mapped-Complete zero ci ml s k e = inl (refl, λ i a b. absurd (omega arith))
  check_mapped-Complete (suc n) ci ml s k e =
      let cores : ml.num_cores ≡ start.num_cores = ap (λ (x : MemLines). x.num_cores) k.1 in
      let (x, ex) = get_elem?-lt_some ml.core_map_os_to_cha ci (omega (arith, k.0.os_size)) in
      Returns-index (Scanned ci start.num_cores ml) _ _ s ex (elim (Bool-cases (is_minus_one x)) [
        | inl missing ↦ rw missing (unfold ◌>>=◌ in inr refl)
        | inr there ↦ rw there (
            Returns-mono (Scanned (suc ci) start.num_cores ml) (Scanned ci start.num_cores ml) _
              (check_mapped-Complete n (suc ci) ml s k (omega arith))
              (λ r t h. elim h [
                | inr bad ↦ inr bad
                | inl (ok, rest) ↦
                    inl (ok, MappedFrom-suc ci start.num_cores ml (id_of x ex there) rest)
              ]))
      ])
    where
      id_of :
          (x : ℤ)
          → get_elem? ml.core_map_os_to_cha ci ≡ some x
          → is_minus_one x ≡ false
          → (c : ℕ) × MapsTo ml ci c
      id_of x ex there = elim (k.0.os_ids ci x ex) [
        | inl missing ↦ cc ((is_minus_one_iff x).1 missing)
        | inr (j, value) ↦ (j, ex ∙ ap some value)
      ]

-- The tables after the call, and what the return code says of them.
pub record MapResult (ml ml' : MemLines) (r : ℤ) : Type 0 where
  pub paired : IsPaired ml'
  pub same : SameButMaps ml ml'
  pub complete : Complete ml' r

pub map_os_core_id_to_cha_id-MapResult :
    {W : Type 0} (m : Machine W) (p : Pmon) (ml : MemLines) (s : State W)
    → Fits p
    → p.num_physical_cores ≡ ml.num_physical_cores
    → length ml.local_lines ≡ ml.num_physical_cores
    → IsPaired ml
    → Returns (λ got t. MapResult ml got.0 got.1) (map_os_core_id_to_cha_id m p ml s)
unfolding map_os_core_id_to_cha_id
map_os_core_id_to_cha_id-MapResult {W} m p ml s fits units buckets good =
    let whole : 0 + ml.num_cores ≡ ml.num_cores = omega arith in
    Returns-bind (λ got t. Kept ml got.0) Post _ _ s
      (map_rows-Kept m p fits ml units buckets ml.num_cores 0 ml s (good, refl) whole)
      (λ got t k. elim (Bool-cases got.1) [
        | inl bad ↦ rw bad (record { paired = k.0; same = k.1; complete = failed refl })
        | inr fine ↦ rw fine (
            Returns-bind (Scanned 0 ml.num_cores got.0) Post _ _ t
              (check_mapped-Complete m p fits ml units buckets ml.num_cores 0 got.0 t k whole)
              (λ r u h. record { paired = k.0; same = k.1; complete = tell got.0 r k h }))
      ])
  where
    Post : MemLines × ℤ → State W → Type 0
    Post got t = MapResult ml got.0 got.1

    tell :
        (ml' : MemLines) (r : ℤ)
        → Kept ml ml'
        → ((r ≡ pos 0) × MappedFrom 0 ml.num_cores ml') ⊎ (r ≡ minus_one)
        → Complete ml' r
    tell ml' r k (inr bad) = failed bad
    tell ml' r k (inl (ok, all)) = all_mapped ok (rw (ap (λ (x : MemLines). x.num_cores) k.1) all)
