-- ===== src/MemLines/Traffic/Paths.antt =====
-- srcs/mem_lines.cpp, lines 275-297: which nodes `collect_busy_paths` records, and where.
use core_map.Base.{
  ℕ, zero, suc, ◌+◌, ◌≤◌, ◌<◌, ◌≡◌, refl, sym, ap, ◌∙◌, ◌↔◌, ◌⊎◌, inl, inr, Bool, true, false,
  Option, none, some, List, [], ◌∷◌, ◌++◌, length, get_elem?, get_elem?-lt_some, drop,
  drop-get_elem?, drop-length, ltb, if◌then◌else◌, arith,
}
use mathlib.Core.List.{append_assoc, append-nil}
use core_map.Base.Effect.{State, RingChannel, ch_up, ch_down, ch_left, ch_right}
use core_map.Base.Hoare.{Returns, Returns-bind, Returns-index, for_range-Returns}
use core_map.Pmon.Report.{CoreCounters}
use core_map.MemLines.Object.{MemLines, Node}
use core_map.MemLines.Traffic.{push_if, push_busy, assign, key_eq, collect_busy_paths}

-- The counter of a channel.
abbrev pub channel : RingChannel → CoreCounters → ℕ
channel ch_up c = c.ctr0
channel ch_down c = c.ctr1
channel ch_left c = c.ctr2
channel ch_right c = c.ctr3

abbrev node_if : Bool → Node → List Node
node_if true v = v ∷ []
node_if false v = []

-- The nodes of one unit, and of the units from i on.
unit_nodes : ℕ → ℕ → CoreCounters → List Node
unit_nodes limit i c =
    node_if (ltb limit c.ctr0) (i, ch_up)
    ++ (node_if (ltb limit c.ctr1) (i, ch_down)
        ++ (node_if (ltb limit c.ctr2) (i, ch_left) ++ node_if (ltb limit c.ctr3) (i, ch_right)))

pub busy_nodes : ℕ → ℕ → List CoreCounters → List Node
busy_nodes limit i [] = []
busy_nodes limit i (c ∷ cs) = unit_nodes limit i c ++ busy_nodes limit (suc i) cs

push_if-append : (b : Bool) (v : Node) (path : List Node) → push_if b v path ≡ path ++ node_if b v
push_if-append true v path = refl
push_if-append false v path = sym (append-nil path)

push_busy-append :
    (limit i : ℕ) (c : CoreCounters) (path : List Node)
    → push_busy limit i c path ≡ path ++ unit_nodes limit i c
unfolding push_busy unit_nodes
push_busy-append limit i c path =
    push_if-append _ _ _
    ∙ ap (λ (q : List Node). q ++ right)
        (push_if-append _ _ _
          ∙ ap (λ (q : List Node). q ++ left)
              (push_if-append _ _ _
                ∙ ap (λ (q : List Node). q ++ down)
                    (push_if-append (ltb limit c.ctr0) (i, ch_up) path)))
    ∙ regroup (node_if (ltb limit c.ctr0) (i, ch_up)) down left right
  where
    down : List Node
    down = node_if (ltb limit c.ctr1) (i, ch_down)

    left : List Node
    left = node_if (ltb limit c.ctr2) (i, ch_left)

    right : List Node
    right = node_if (ltb limit c.ctr3) (i, ch_right)

    regroup :
        (u d l r : List Node) → (((path ++ u) ++ d) ++ l) ++ r ≡ path ++ (u ++ (d ++ (l ++ r)))
    regroup u d l r = simp append_assoc

-- The list holds the node.
abbrev pub Holds : Node → List Node → Type 0
Holds x [] = ⊥
Holds x (y ∷ ys) = (x ≡ y) ⊎ Holds x ys

Holds-append : (x : Node) (xs ys : List Node) → Holds x (xs ++ ys) ↔ (Holds x xs ⊎ Holds x ys)
Holds-append x [] ys = ((λ h. inr h), (λ h. elim h [ inl n ↦ absurd n | inr h' ↦ h' ]))
Holds-append x (y ∷ xs) ys = (
  (λ h. elim h [
    | inl e ↦ inl (inl e)
    | inr later ↦ elim ((Holds-append x xs ys).0 later) [ inl a ↦ inl (inr a) | inr b ↦ inr b ]
  ]),
  (λ h. elim h [
    | inl (inl e) ↦ inl e
    | inl (inr a) ↦ inr ((Holds-append x xs ys).1 (inl a))
    | inr b ↦ inr ((Holds-append x xs ys).1 (inr b))
  ]),
)

unit_nodes-Holds :
    (limit i j : ℕ) (ch : RingChannel) (c : CoreCounters)
    → Holds (j, ch) (unit_nodes limit i c) ↔ ((j ≡ i) × (limit < channel ch c))
unfolding unit_nodes
unit_nodes-Holds limit i j ch_up c = ground arith
unit_nodes-Holds limit i j ch_down c = ground arith
unit_nodes-Holds limit i j ch_left c = ground arith
unit_nodes-Holds limit i j ch_right c = ground arith

busy_nodes-le :
    (limit i j : ℕ) (ch : RingChannel) (cs : List CoreCounters)
    → Holds (j, ch) (busy_nodes limit i cs)
    → i ≤ j
unfolding busy_nodes
busy_nodes-le limit i j ch [] h = absurd h
busy_nodes-le limit i j ch (c ∷ cs) h =
    elim ((Holds-append (j, ch) (unit_nodes limit i c) (busy_nodes limit (suc i) cs)).0 h) [
      | inl here ↦ omega (arith, ((unit_nodes-Holds limit i j ch c).0 here).0)
      | inr later ↦ omega (arith, busy_nodes-le limit (suc i) j ch cs later)
    ]

-- A node is on the path exactly when its unit's counter of that channel is above the limit.
pub busy_nodes-Holds :
    (limit i k : ℕ) (ch : RingChannel) (cs : List CoreCounters) {c : CoreCounters}
    → get_elem? cs k ≡ some c
    → Holds (i + k, ch) (busy_nodes limit i cs) ↔ (limit < channel ch c)
unfolding busy_nodes
busy_nodes-Holds limit i k ch [] e = cc
busy_nodes-Holds limit i zero ch (x ∷ cs) {c} e =
    let same : x ≡ c = ground arith in
    let at_i : i + 0 ≡ i = omega arith in
    rw (at_i, same)
      (
        (λ h. elim ((Holds-append (i, ch) (unit_nodes limit i c) _).0 h) [
          | inl here ↦ ((unit_nodes-Holds limit i i ch c).0 here).1
          | inr later ↦ absurd (omega (arith, busy_nodes-le limit (suc i) i ch cs later))
        ]),
        (λ h.
            (Holds-append (i, ch) (unit_nodes limit i c) _).1
              (inl ((unit_nodes-Holds limit i i ch c).1 (refl, h)))),
      )
busy_nodes-Holds limit i (suc k) ch (x ∷ cs) {c} e =
    let next : i + suc k ≡ suc i + k = omega arith in
    rw next (
      (λ h. elim ((Holds-append (suc i + k, ch) (unit_nodes limit i x) _).0 h) [
        | inl here ↦ absurd (omega (arith, ((unit_nodes-Holds limit i (suc i + k) ch x).0 here).0))
        | inr later ↦ (busy_nodes-Holds limit (suc i) k ch cs e).0 later
      ]),
      (λ h.
          (Holds-append (suc i + k, ch) (unit_nodes limit i x) _).1
            (inr ((busy_nodes-Holds limit (suc i) k ch cs e).1 h))),
    )

nothing_left :
    (n : ℕ) (cs : List CoreCounters) (limit : ℕ)
    → length cs ≡ n
    → busy_nodes limit n (drop n cs) ≡ []
unfolding busy_nodes
nothing_left n cs limit len = rw (← len, drop-length cs)

module _ {W : Type 0} (ml : MemLines) (id_a id_b limit : ℕ) (cs : List CoreCounters)
    (s : State W) where
  -- The path so far, and what is left.
  abbrev Built : ℕ → List Node → State W → Type 0
  Built i path t = (path ++ busy_nodes limit i (drop i cs) ≡ busy_nodes limit 0 cs) × (t ≡ s)

  push-Built :
      (i : ℕ) (path : List Node) {c : CoreCounters}
      → get_elem? cs i ≡ some c
      → path ++ busy_nodes limit i (drop i cs) ≡ busy_nodes limit 0 cs
      → push_busy limit i c path ++ busy_nodes limit (suc i) (drop (suc i) cs)
        ≡ busy_nodes limit 0 cs
  unfolding busy_nodes
  push-Built i path {c} e h =
      rw (push_busy-append limit i c path, append_assoc) (rw (drop-get_elem? cs i e) at h)

  -- The object with the busy path of the counters under its pair of ids, and nothing else changed.
  abbrev pub Recorded : MemLines → State W → Type 0
  Recorded ml' t =
      (ml' ≡ record ml { busy_paths = assign (id_a, id_b) (busy_nodes limit 0 cs) ml.busy_paths })
      × (t ≡ s)

  -- When there are counters for each unit, the call replaces the path under the pair of ids by the
  -- list of the nodes whose counters are above the limit, unit by unit and channel by channel, as a
  -- recursion on the counters lists them; it changes nothing else, and leaves the state as it was.
  pub collect_busy_paths-Recorded :
      length cs ≡ ml.num_physical_cores
      → Returns Recorded (collect_busy_paths ml id_a id_b cs limit s)
  unfolding collect_busy_paths
  collect_busy_paths-Recorded len =
      Returns-bind (Built ml.num_physical_cores) Recorded _ _ s
        (for_range-Returns Built _ ml.num_physical_cores 0 ml.num_physical_cores (omega arith)
          (λ k path t lt h.
            let (c, ec) = get_elem?-lt_some cs k (omega arith) in
            Returns-index (Built (suc k)) _ _ t ec (push-Built k path ec h.0, h.1))
          [] s (refl, refl))
        (λ path t h. (emptied path h.0, h.1))
    where
      emptied :
          (path : List Node)
          → path ++ busy_nodes limit ml.num_physical_cores (drop ml.num_physical_cores cs)
            ≡ busy_nodes limit 0 cs
          → record ml { busy_paths = assign (id_a, id_b) path ml.busy_paths }
            ≡ record ml { busy_paths = assign (id_a, id_b) (busy_nodes limit 0 cs) ml.busy_paths }
      emptied path h =
          ap (λ (q : List Node). record ml { busy_paths = assign (id_a, id_b) q ml.busy_paths })
            (sym (append-nil path)
              ∙ ap (◌++◌ path) (sym (nothing_left ml.num_physical_cores cs limit len))
              ∙ h)

pub find : ℕ × ℕ → List ((ℕ × ℕ) × List Node) → Option (List Node)
find k [] = none
find k ((j, path) ∷ rest) = if key_eq k j then some path else find k rest

-- A look-up in the map of busy paths after an assignment gives the new path for the assigned pair
-- of ids, and for every other pair what it gave before.
pub find-assign :
    (k j : ℕ × ℕ) (path : List Node) (entries : List ((ℕ × ℕ) × List Node))
    → find k (assign j path entries) ≡ (if key_eq k j then some path else find k entries)
unfolding find assign
find-assign k j path [] = refl
find-assign (a, b) (c, d) path (((x, y), old) ∷ rest) =
    ground (arith, find-assign (a, b) (c, d) path rest)
