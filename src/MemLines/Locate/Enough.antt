-- ===== src/MemLines/Locate/Enough.antt =====
-- srcs/mem_lines.cpp, lines 99-129, on a mesh: the search finds the first lines of each unit, if there are enough.
use core_map.Base.{
  ℕ, zero, suc, ◌+◌, ◌*◌, ◌^◌, ◌-◌, ◌≤◌, ◌<◌, ◌≡◌, refl, sym, ap, ◌∙◌, ◌⊎◌, inl, inr, ℤ, pos, Bool,
  true, List, [], ◌∷◌, length, some, get_elem?, take, ltb, leb, ltb→lt, ltb→le, leb→le, Bool-cases,
  arith, tests,
}
use native.Mathlib.Numerals.{add-one}
use core_map.Base.Effect.{State}
use core_map.Base.Hoare.{Returns, Returns-then, Returns-bind, Returns-ensured}
use core_map.Pmon.{Pmon}
use core_map.Pmon.Readout.{IsTabled}
use core_map.Pmon.Safety.{Fits}
use core_map.Tasks.Stores.{All}
use core_map.MemLines.Address.Translate.{IsPageMap}
use core_map.MemLines.Object.{Machine, MemLines, line_at, num_lines, zero-lt-num_lines}
use core_map.MemLines.Locate.{resize, initialize_loop, initialize_local_lines}
use core_map.MemLines.Locate.Buckets.{total, length-resize, total-resize}
use core_map.MemLines.Locate.Full.{
  SameButLines, Between, same-units, visit_line-Between, Located, Ends, all_found, too_few,
  stop-Located, initialize_local_lines-Ends,
}
use core_map.MemLines.Locate.Lines.{AllFull-get}
use core_map.MemLines.Locate.Homes.{
  lines_of, length-take-full, lines_of-zero, take-later, length-lines_of, All-take-lines_of,
  resize-none, resize-same, total-full,
}
use core_map.MemLines.Mapping.Mesh.{IsMesh}
use core_map.MemLines.Mapping.Mesh.Probe.{LinesAt}
use core_map.MemLines.Mapping.Mesh.Lookups.{CountsLookups}
use core_map.MemLines.Locate.AtHome.{
  IsTabled-Fits, in_set_1, home_of, Gathered, visit_line-Gathered, line_at-same,
}

module _ {W : Type 0} (m : Machine W) (p : Pmon) (mesh : IsMesh m p)
    (looks : CountsLookups m p mesh) (maps : IsPageMap m.pages) (tabled : IsTabled p)
    (start : MemLines) (units : p.num_physical_cores ≡ start.num_physical_cores)
    (pair : start.base_core_id + 1 < 2 ^ 31) where
  open mesh use {home}

  abbrev in_set : ℕ → Bool
  in_set = in_set_1 m p mesh looks maps tabled start units pair

  abbrev home_line : ℕ → ℕ
  home_line = home_of m p mesh looks maps tabled start units pair

  abbrev Held : ℕ → MemLines → Type 0
  Held = Gathered m p mesh looks maps tabled start units pair

  -- Each unit has 22 lines before the last one.
  abbrev pub HasEnough : Type 0
  HasEnough =
      (k : ℕ)
      → k < start.num_physical_cores
      → 22 ≤ length (lines_of in_set home_line k (num_lines - 1))

  -- The buckets hold the first lines of each unit; the code is 0, or some unit has too few lines.
  pub record Searched (got : MemLines × ℤ) : Type 0 where
    pub lines : Held num_lines got.0
    pub code : (got.1 ≡ pos 0) ⊎ (¬ HasEnough)

  fits : Fits p
  fits = IsTabled-Fits p tabled

  opens : (w : W) → (m.pages.open_pagemap w).0 ≡ true
  opens w = maps.opens w

  -- Buckets that are full hold the first lines of all.
  full-Held :
      (ml : MemLines) (line : ℕ)
      → ml.num_physical_cores ≡ start.num_physical_cores
      → line ≤ num_lines
      → Located ml (pos 0)
      → Held line ml
      → Held num_lines ml
  full-Held ml line same le (too_few e) h k lt = absurd (cc e)
  full-Held ml line same le (all_found e len full) h k lt =
      let whole : resize start.num_physical_cores ml.local_lines ≡ ml.local_lines =
        resize-same start.num_physical_cores ml.local_lines (len ∙ same) in
      let there : get_elem? ml.local_lines k ≡ some (take 22 (lines_of in_set home_line k line)) =
        ap (λ xs. get_elem? xs k) (sym whole) ∙ h k lt in
      let later : (num_lines - line) + line ≡ num_lines = omega arith in
      h k lt
      ∙ ap some (
          sym (
            take-later in_set home_line k (num_lines - line) line
              (AllFull-get num_lines ml.local_lines k full there).0))
      ∙ ap (λ n. some (take 22 (lines_of in_set home_line k n))) later

  -- With enough lines, all buckets are full before the last line.
  enough-counted :
      (ml : MemLines) (line : ℕ)
      → Between start line ml
      → Held line ml
      → suc line ≡ num_lines
      → HasEnough
      → ml.local_found_count ≡ start.num_physical_cores * 22
  enough-counted ml line b h last enough =
      let size = length-resize start.num_physical_cores ml.local_lines in
      let same = same-units start ml b.same in
      let is_line : num_lines - 1 ≡ line = omega arith in
      let all : total (resize start.num_physical_cores ml.local_lines)
          ≡ length (resize start.num_physical_cores ml.local_lines) * 22 =
        total-full (resize start.num_physical_cores ml.local_lines) (λ k lt. (
          take 22 (lines_of in_set home_line k line),
          h k (omega arith),
          length-take-full 22 (lines_of in_set home_line k line)
              (rw is_line at (enough k (omega arith))),
        )) in
      omega (
        arith,
        all,
        size,
        b.located.counted,
        total-resize start.num_physical_cores ml.local_lines (omega (arith, b.located.size)),
      )

  initialize_loop-Searched :
      (fuel line : ℕ) (ml : MemLines) (s : State W)
      → num_lines ≤ fuel + line
      → line < num_lines
      → Between start line ml
      → Held line ml
      → Returns (λ got t. Searched got) (initialize_loop m p fuel ml line s)
  unfolding initialize_loop
  initialize_loop-Searched zero line ml s le lt b h = absurd (omega arith)
  initialize_loop-Searched (suc fuel) line ml s le lt b h =
      let same = same-units start ml b.same in
      elim (Bool-cases (ltb ml.local_found_count (ml.num_physical_cores * 22))) [
        | inr full ↦ rw full (record {
          lines =
              full-Held ml line same (omega arith)
                (stop-Located m p fits start units opens pair line ml s lt b (ltb→le _ _ full)) h;
          code = inl refl;
        })
        | inl few ↦ rw few (
            Returns-bind (λ ml' t. Held (suc line) ml' × Between start (suc line) ml')
              (λ got t. Searched got) _ _ s
              (Returns-ensured _ _ _
                (visit_line-Gathered m p mesh looks maps tabled start units pair ml line s b h)
                (visit_line-Between m p fits start units opens pair ml line s b))
              λ ml' t b'. elim (Bool-cases (leb num_lines (line + 1))) [
                | inl last ↦
                    let is_last : suc line ≡ num_lines = omega (arith, leb→le _ _ last) in
                    rw last (
                      Returns-then (λ got t. Searched got) _ _ t tt
                        λ _ u. record {
                          lines = rw is_last at (b'.0);
                          code = inr (λ enough.
                              missing same few (enough-counted ml line b h is_last enough));
                        })
                | inr more ↦
                    rw (more, add-one line)
                      (initialize_loop-Searched fuel (suc line) ml' t (omega arith) (omega tests)
                        b'.1 b'.0)
              ])
      ]
    where
      missing :
          ml.num_physical_cores ≡ start.num_physical_cores
          → ltb ml.local_found_count (ml.num_physical_cores * 22) ≡ true
          → ml.local_found_count ≡ start.num_physical_cores * 22
          → ⊥
      missing same few all = omega (arith, ltb→lt _ _ few)

  -- On a mesh (see IsMesh) on which, while all units count lookups, two threads on different cores
  -- that work on a line raise the count of lookups of the line's home by at least their rounds and
  -- that of no other CHA (see CountsLookups), with a page map that holds an 8-byte entry for each
  -- page of 4096 bytes and whose calls succeed; for a model with a table that has registers for
  -- each unit, the monitor and the object having the same number of units, a base core whose id
  -- plus 1 fits an int, and an object without lines: the search returns; the bucket of each unit
  -- holds the first 22, in increasing order, of the lines of the block that are in L2 set 1, by the
  -- entry of their page and their place in it, and whose home is that unit, where a bucket that was
  -- never made counts as empty; and the code is 0 or not every unit has 22 such lines before the
  -- last line of the block. With code 0 all buckets are there, with 22 lines each; the only other
  -- code is -1; and nothing of the object but the lines and their number changes.
  pub initialize_local_lines-Searched :
      (s : State W)
      → start.local_lines ≡ []
      → Returns (λ got t. Searched got × Ends start got t) (initialize_local_lines m p start s)
  unfolding initialize_local_lines line_at
  initialize_local_lines-Searched s none_yet =
      Returns-ensured (λ got t. Searched got) (Ends start) _
        (initialize_loop-Searched num_lines 0 (record start { local_found_count = 0 }) s
          (omega arith) zero-lt-num_lines
          (record {
            located = record {
              size = rw none_yet (omega arith);
              counted = rw none_yet;
              bucketed = rw none_yet tt;
            };
            same = refl;
          })
          (rw none_yet (λ k lt.
            resize-none start.num_physical_cores k lt
            ∙ ap (λ xs. some (take 22 xs)) (sym (lines_of-zero in_set home_line k)))))
        (initialize_local_lines-Ends m p start s fits units none_yet opens pair)

  All-same :
      (ml : MemLines) (k : ℕ) (ls : List ℕ)
      → SameButLines start ml
      → All (λ line. home_line line ≡ k) ls
      → All (λ line. home (line_at ml line) ≡ k) ls
  All-same ml k [] same h = tt
  All-same ml k (l ∷ ls) same h =
      (ap home (line_at-same start ml l same) ∙ h.0, All-same ml k ls same h.1)

  -- With enough lines, each unit has a bucket with 22 of its own.
  pub Searched-LinesAt :
      (got : MemLines × ℤ)
      → HasEnough
      → Searched got
      → SameButLines start got.0
      → length got.0.local_lines ≡ got.0.num_physical_cores
      → (k : ℕ) → k < start.num_physical_cores
      → LinesAt home got.0 k
  Searched-LinesAt got enough h same len k lt =
      let whole : resize start.num_physical_cores got.0.local_lines ≡ got.0.local_lines =
        resize-same start.num_physical_cores got.0.local_lines
          (len ∙ same-units start got.0 same) in
      let one_more : 1 + (num_lines - 1) ≡ num_lines = omega (arith, zero-lt-num_lines) in
      let more : length (lines_of in_set home_line k (num_lines - 1))
          ≤ length (lines_of in_set home_line k num_lines) =
        rw one_more at (length-lines_of in_set home_line k 1 (num_lines - 1)) in
      (
        take 22 (lines_of in_set home_line k num_lines),
        (
          ap (λ xs. get_elem? xs k) (sym whole) ∙ h.lines k lt,
          (
            length-take-full 22 (lines_of in_set home_line k num_lines)
                (omega (arith, enough k lt, more)),
            All-same got.0 k (take 22 (lines_of in_set home_line k num_lines)) same
                (All-take-lines_of in_set home_line k num_lines),
          ),
        ),
      )
