-- ===== src/MemLines/Traffic/Covered.antt =====
-- Which pairs of ids have a path while the loops of `generate_traffic_and_monitor` run.
use core_map.Base.{
  ℕ, suc, ◌<◌, ◌≡◌, sym, ap, ◌∙◌, ◌⊎◌, inl, inr, true, false, ℤ, is_minus_one, some, List,
  get_elem?, Bool-cases, if◌then◌else◌, arith,
}
use native.Mathlib.Decide.{ℕ_discrete}
use core_map.MemLines.Object.{MemLines, Node}
use core_map.MemLines.Traffic.{assign, key_eq}
use core_map.MemLines.Traffic.Paths.{find, find-assign}

-- Only the busy paths differ.
abbrev pub SameButPaths : MemLines → MemLines → Type 0
SameButPaths ml ml' = ml' ≡ record ml { busy_paths = ml'.busy_paths }

same_trans :
    (start ml ml' : MemLines) → SameButPaths start ml → SameButPaths ml ml' → SameButPaths start ml'
same_trans start ml ml' e f = f ∙ ap (λ (x : MemLines). record x { busy_paths = ml'.busy_paths }) e

-- The CHA is mapped to an OS core.
abbrev pub Mapped : MemLines → ℕ → Type 0
Mapped ml a = (x : ℤ) × (get_elem? ml.core_map_cha_to_os a ≡ some x) × (is_minus_one x ≡ false)

-- There is a path under the pair of ids.
abbrev pub Has : MemLines → ℕ → ℕ → Type 0
Has ml a b = (path : List Node) × (find (a, b) ml.busy_paths ≡ some path)

-- The pairs that come before (id_a, id_b) in the order of the loops.
abbrev Before : ℕ → ℕ → ℕ → ℕ → Type 0
Before id_a id_b a b = (a < id_a) ⊎ ((a ≡ id_a) × (b < id_b))

-- The map was made from another by assignments.
pub data AssignedFrom (start : List ((ℕ × ℕ) × List Node))
    : List ((ℕ × ℕ) × List Node) → Type 0 where
  untouched : AssignedFrom start start
  assigned :
      {before after : List ((ℕ × ℕ) × List Node)} (k : ℕ × ℕ) (path : List Node)
      → AssignedFrom start before
      → after ≡ assign k path before
      → AssignedFrom start after

-- What holds when the loops are at (id_a, id_b): each pair of mapped ids that came before has a path,
-- and a path is there only for such a pair, or from the start; the paths were assigned one by one.
pub record Monitored (start : MemLines) (id_a id_b : ℕ) (ml : MemLines) : Type 0 where
  pub same : SameButPaths start ml
  pub covers :
      (a b : ℕ)
      → b < start.num_physical_cores
      → Before id_a id_b a b
      → Mapped start a
      → Mapped start b
      → Has ml a b
  pub only : (a b : ℕ) → Has ml a b → Has start a b ⊎ (Mapped start a × Mapped start b)
  pub made : AssignedFrom start.busy_paths ml.busy_paths

key_eq_self : (a b : ℕ) → key_eq (a, b) (a, b) ≡ true
key_eq_self a b = ground arith

pub key_eq→ : (a b x y : ℕ) → key_eq (a, b) (x, y) ≡ true → (a ≡ x) × (b ≡ y)
key_eq→ a b x y e = ground arith

module _ (start : MemLines) (id_a id_b : ℕ) (ml ml' : MemLines) (path : List Node)
    (good : Monitored start id_a id_b ml)
    (step : ml' ≡ record ml { busy_paths = assign (id_a, id_b) path ml.busy_paths }) where
  found :
      (a b : ℕ)
      → find (a, b) ml'.busy_paths
        ≡ (if key_eq (a, b) (id_a, id_b) then some path else find (a, b) ml.busy_paths)
  found a b =
      ap (λ (x : MemLines). find (a, b) x.busy_paths) step
      ∙ find-assign (a, b) (id_a, id_b) path ml.busy_paths

  keeps : (a b : ℕ) → Has ml a b → Has ml' a b
  keeps a b (old, e) = elim (Bool-cases (key_eq (a, b) (id_a, id_b))) [
    | inl hit ↦ (path, rw (found a b, hit))
    | inr miss ↦ (old, rw (found a b, miss) e)
  ]

  pub Monitored-assign : Mapped start id_a → Mapped start id_b → Monitored start id_a (suc id_b) ml'
  Monitored-assign ma mb = record {
    same = same_trans start ml ml' good.same (
        step
        ∙ ap (λ (q : List ((ℕ × ℕ) × List Node)). record ml { busy_paths = q })
            (sym (ap (λ (x : MemLines). x.busy_paths) step)));
    covers = λ a b lt before xa xb. elim (Bool-cases (key_eq (a, b) (id_a, id_b))) [
      | inl hit ↦ (path, rw (found a b, hit))
      | inr miss ↦ keeps a b (good.covers a b lt (earlier a b miss before) xa xb)
    ];
    only = λ a b (q, e). elim (Bool-cases (key_eq (a, b) (id_a, id_b))) [
      | inl hit ↦ let (ea, eb) = key_eq→ a b id_a id_b hit in inr (rw ea ma, rw eb mb)
      | inr miss ↦ good.only a b (q, rw (found a b, miss) at e)
    ];
    made = assigned (id_a, id_b) path good.made (ap (λ (x : MemLines). x.busy_paths) step);
  }
    where
      earlier :
          (a b : ℕ)
          → key_eq (a, b) (id_a, id_b) ≡ false
          → Before id_a (suc id_b) a b
          → Before id_a id_b a b
      earlier a b miss before = ground arith

pub Monitored-skip :
    (start : MemLines) (id_a id_b : ℕ) (ml : MemLines)
    → Monitored start id_a id_b ml
    → (Mapped start id_a → Mapped start id_b → ⊥)
    → Monitored start id_a (suc id_b) ml
Monitored-skip start id_a id_b ml good none_here = record {
  same = good.same;
  only = good.only;
  made = good.made;
  covers = λ a b lt before xa xb. elim before [
    | inl row ↦ good.covers a b lt (inl row) xa xb
    | inr (ea, lb) ↦ elim (ℕ_discrete b id_b) [
      | yes eb ↦ absurd (none_here (rw ea at xa) (rw eb at xb))
      | no other ↦ good.covers a b lt (inr (ea, omega arith)) xa xb
    ]
  ];
}

pub Monitored-skip_row :
    (start : MemLines) (id_a : ℕ) (ml : MemLines)
    → Monitored start id_a 0 ml
    → ¬ Mapped start id_a
    → Monitored start (suc id_a) 0 ml
Monitored-skip_row start id_a ml good none_here = record {
  same = good.same;
  only = good.only;
  made = good.made;
  covers = λ a b lt before xa xb. elim before [
    | inr (ea, lb) ↦ absurd (omega arith)
    | inl row ↦ elim (ℕ_discrete a id_a) [
      | yes ea ↦ absurd (none_here (rw ea at xa))
      | no other ↦ good.covers a b lt (inl (omega arith)) xa xb
    ]
  ];
}

pub clash :
    (start : MemLines) (a : ℕ) (x y : ℤ)
    → is_minus_one x ≡ true
    → get_elem? start.core_map_cha_to_os a ≡ some x
    → get_elem? start.core_map_cha_to_os a ≡ some y
    → is_minus_one y ≡ false
    → ⊥
clash start a x y h ex ey k = let e : x ≡ y = ground arith in cc (ap is_minus_one e)

-- The end of a row is the start of the next.
pub Monitored-row :
    (start : MemLines) (id_a : ℕ) (ml : MemLines)
    → Monitored start id_a start.num_physical_cores ml
    → Monitored start (suc id_a) 0 ml
Monitored-row start id_a ml good = record {
  same = good.same;
  only = good.only;
  made = good.made;
  covers = λ a b lt before xa xb. good.covers a b lt (ground arith) xa xb;
}
