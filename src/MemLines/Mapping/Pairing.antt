-- ===== src/MemLines/Mapping/Pairing.antt =====
-- srcs/mem_lines.cpp, lines 211-236: every branch of `find_core_mapping`, and the pairing of core ids
-- that it keeps.
use core_map.Base.{
  ℕ, ◌<◌, ◌≡◌, ◌≢◌, refl, ap, ◌∙◌, ◌⊎◌, inl, inr, Bool, true, false, ℤ, pos, minus_one,
  is_minus_one, is_minus_one_iff, some, List, length, get_elem?, set, get_elem?-lt_some,
  get_elem?-some_lt, get_elem?-set_self, get_elem?-set_ne, length-set, get_elem?-set_cases,
  Bool-cases, arith,
}
use core_map.Base.Effect.{State, ◌>>=◌}
use core_map.Base.Hoare.{Returns, Returns-bind, Returns-index}
use core_map.Pmon.Report.{CoreCounters}
use core_map.MemLines.Object.{MemLines}
use core_map.MemLines.Mapping.{find_core_mapping}
use core_map.MemLines.Mapping.Idle.{QuietFrom, Tells, all_idle-Returns}

-- The object after OS core ci and CHA pi have been paired.
abbrev pub paired_with : MemLines → ℕ → ℕ → MemLines
paired_with ml ci pi = record ml {
  core_map_cha_to_os = set ml.core_map_cha_to_os pi (pos ci);
  core_map_os_to_cha = set ml.core_map_os_to_cha ci (pos pi);
}

-- The three ways in which find_core_mapping ends.
pub data Verdict (ml : MemLines) (ci pi : ℕ) (cs : List CoreCounters) (got : MemLines × ℤ)
    : Type 0 where
  busy : ¬ QuietFrom 0 ml.num_physical_cores cs → got ≡ (ml, pos 0) → Verdict ml ci pi cs got
  taken :
      (x : ℤ)
      → QuietFrom 0 ml.num_physical_cores cs
      → get_elem? ml.core_map_cha_to_os pi ≡ some x
      → x ≢ minus_one
      → got ≡ (ml, minus_one)
      → Verdict ml ci pi cs got
  pairs :
      QuietFrom 0 ml.num_physical_cores cs
      → get_elem? ml.core_map_cha_to_os pi ≡ some minus_one
      → got ≡ (paired_with ml ci pi, pos 0)
      → Verdict ml ci pi cs got

module _ {W : Type 0} (ml : MemLines) (ci pi : ℕ) (cs : List CoreCounters) (w : W) where
  abbrev pub Decided : MemLines × ℤ → State W → Type 0
  Decided got t = Verdict ml ci pi cs got × (t.world ≡ w)

  -- For all counters, one for each unit, and ids that are in the tables: if some ring channel is
  -- above 100000, nothing changes and the code is 0; if none is, the CHA and the OS core are
  -- written into each other's tables and the code is 0 when the CHA has no core yet, and otherwise
  -- the object is unchanged and the code is -1; and the world is as it was.
  pub find_core_mapping-Verdict :
      (s : State W)
      → s.world ≡ w
      → length cs ≡ ml.num_physical_cores
      → pi < length ml.core_map_cha_to_os
      → ci < length ml.core_map_os_to_cha
      → Returns Decided (find_core_mapping ml ci pi cs s)
  unfolding find_core_mapping
  find_core_mapping-Verdict s e len hp hc =
      Returns-bind (Tells 0 ml.num_physical_cores cs s) Decided _ _ s
        (all_idle-Returns ml.num_physical_cores 0 ml.num_physical_cores cs s (omega arith)
          (omega arith))
        (λ b t h. elim (Bool-cases b) [
          | inr some_busy ↦
              rw some_busy (busy (λ q. absurd_bool b some_busy (h.0.1 q)) refl, world_kept t h.1)
          | inl idle ↦ rw idle (
              let (x, ex) = get_elem?-lt_some ml.core_map_cha_to_os pi hp in
              Returns-index Decided _ _ t ex (elim (Bool-cases (is_minus_one x)) [
                | inl free ↦ rw free (
                    let (y, ey) = get_elem?-lt_some ml.core_map_os_to_cha ci hc in
                    Returns-index Decided _ _ t ey (
                      pairs (h.0.0 idle) (ex ∙ ap some ((is_minus_one_iff x).0 free)) refl,
                      world_kept t h.1,
                    ))
                | inr held ↦ rw held (
                    unfold ◌>>=◌ in
                    (
                      taken x (h.0.0 idle) ex (λ z. absurd_bool _ held ((is_minus_one_iff x).1 z))
                          refl,
                      world_kept t h.1,
                    ))
              ]))
        ])
    where
      world_kept : (t : State W) → t ≡ s → t.world ≡ w
      world_kept t p = ap (λ (u : State W). u.world) p ∙ e

      absurd_bool : (b : Bool) → b ≡ false → b ≡ true → ⊥
      absurd_bool b p q = cc

-- OS core i is mapped to CHA j.
abbrev pub MapsTo : MemLines → ℕ → ℕ → Type 0
MapsTo ml i j = get_elem? ml.core_map_os_to_cha i ≡ some (pos j)

-- The tables have their sizes; whatever CHA an OS core is mapped to is mapped back to that core; and an entry
-- that is not -1 is an id in range.
pub record IsPaired (ml : MemLines) : Type 0 where
  pub cha_size : length ml.core_map_cha_to_os ≡ ml.num_physical_cores
  pub os_size : length ml.core_map_os_to_cha ≡ ml.num_cores
  pub back : (i j : ℕ) → MapsTo ml i j → get_elem? ml.core_map_cha_to_os j ≡ some (pos i)
  pub os_ids :
      (i : ℕ) (x : ℤ)
      → get_elem? ml.core_map_os_to_cha i ≡ some x
      → (x ≡ minus_one) ⊎ ((j : ℕ) × (x ≡ pos j))
  pub cha_ids :
      (j : ℕ) (x : ℤ)
      → get_elem? ml.core_map_cha_to_os j ≡ some x
      → (x ≡ minus_one) ⊎ ((i : ℕ) × (x ≡ pos i) × (i < ml.num_cores))

module _ (ml : MemLines) (ci pi : ℕ) (good : IsPaired ml)
    (free : get_elem? ml.core_map_cha_to_os pi ≡ some minus_one) (hc : ci < ml.num_cores) where
  paired_back :
      (i j : ℕ)
      → MapsTo (paired_with ml ci pi) i j
      → get_elem? (paired_with ml ci pi).core_map_cha_to_os j ≡ some (pos i)
  paired_back i j e = elim (get_elem?-set_cases ml.core_map_os_to_cha ci i (pos pi) e) [
    | inl (same, value) ↦
        let at_pi : j ≡ pi = ground arith in
        rw (at_pi, same)
          (get_elem?-set_self ml.core_map_cha_to_os pi (pos ci) (get_elem?-some_lt _ pi free))
    | inr (other, old) ↦
        get_elem?-set_ne ml.core_map_cha_to_os pi j (pos ci) (λ q. cc (good.back i j old, free))
        ∙ good.back i j old
  ]

  -- Pairing a core with a CHA that has none keeps the tables consistent.
  paired_with-IsPaired : pi < ml.num_physical_cores → IsPaired (paired_with ml ci pi)
  paired_with-IsPaired hp = record {
    cha_size = length-set ml.core_map_cha_to_os pi (pos ci) ∙ good.cha_size;
    os_size = length-set ml.core_map_os_to_cha ci (pos pi) ∙ good.os_size;
    back = paired_back;
    os_ids = λ i x e. elim (get_elem?-set_cases ml.core_map_os_to_cha ci i (pos pi) e) [
      | inl (same, value) ↦ inr (pi, value)
      | inr (other, old) ↦ good.os_ids i x old
    ];
    cha_ids = λ j x e. elim (get_elem?-set_cases ml.core_map_cha_to_os pi j (pos ci) e) [
      | inl (same, value) ↦ inr (ci, value, hc)
      | inr (other, old) ↦ good.cha_ids j x old
    ];
  }

-- What one call leaves: the tables are consistent, and nothing else has changed.
abbrev pub SameButMaps : MemLines → MemLines → Type 0
SameButMaps ml ml' = ml' ≡ record ml {
  core_map_cha_to_os = ml'.core_map_cha_to_os;
  core_map_os_to_cha = ml'.core_map_os_to_cha;
}

pub Verdict-IsPaired :
    (ml : MemLines) (ci pi : ℕ) (cs : List CoreCounters) (got : MemLines × ℤ)
    → IsPaired ml
    → ci < ml.num_cores
    → pi < ml.num_physical_cores
    → Verdict ml ci pi cs got
    → IsPaired got.0 × SameButMaps ml got.0
Verdict-IsPaired ml ci pi cs got good hc hp (busy q e) = rw e (good, refl)
Verdict-IsPaired ml ci pi cs got good hc hp (taken x q ex ne e) = rw e (good, refl)
Verdict-IsPaired ml ci pi cs got good hc hp (pairs q free e) =
    rw e (paired_with-IsPaired ml ci pi good free hc hp, refl)
