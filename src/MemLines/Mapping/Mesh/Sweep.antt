-- ===== src/MemLines/Mapping/Mesh/Sweep.antt =====
-- srcs/mem_lines.cpp, lines 181-201: the tables before the loops, from one row to the next, and after the loops.
use core_map.Base.{
  ℕ, suc, ◌<◌, ◌≡◌, ◌≢◌, refl, sym, ap, ◌∙◌, true, false, if◌then◌else◌, pos, minus_one, some,
  length, get_elem?, arith,
}
use core_map.MemLines.Object.{MemLines, line_at}
use core_map.MemLines.Mapping.Pairing.{SameButMaps}
use core_map.MemLines.Mapping.Mesh.Probe.{LinesAt}
use core_map.MemLines.Mapping.Mesh.Tables.{before, SoFar}

-- No core is mapped yet.
pub record IsUnmapped (ml : MemLines) : Type 0 where
  pub cha_size : length ml.core_map_cha_to_os ≡ ml.num_physical_cores
  pub os_size : length ml.core_map_os_to_cha ≡ ml.num_cores
  pub no_os : (k : ℕ) → k < ml.num_cores → get_elem? ml.core_map_os_to_cha k ≡ some minus_one
  pub no_cha :
      (q : ℕ) → q < ml.num_physical_cores → get_elem? ml.core_map_cha_to_os q ≡ some minus_one

-- Each OS core is mapped to its CHA and back, and the other CHAs are mapped to none.
pub record IsPlaced (seat : ℕ → ℕ) (ml : MemLines) : Type 0 where
  pub cha_size : length ml.core_map_cha_to_os ≡ ml.num_physical_cores
  pub os : (k : ℕ) → k < ml.num_cores → get_elem? ml.core_map_os_to_cha k ≡ some (pos (seat k))
  pub cha : (k : ℕ) → k < ml.num_cores → get_elem? ml.core_map_cha_to_os (seat k) ≡ some (pos k)
  pub empty :
      (q : ℕ)
      → q < ml.num_physical_cores
      → ((k : ℕ) → k < ml.num_cores → seat k ≢ q)
      → get_elem? ml.core_map_cha_to_os q ≡ some minus_one

pub SoFar-start : (seat : ℕ → ℕ) (ml : MemLines) → IsUnmapped ml → SoFar seat ml 0 0 ml
SoFar-start seat ml h = record {
  same = refl;
  cha_size = h.cha_size;
  os_size = h.os_size;
  os = λ k lt. let none : before 0 0 k (seat k) ≡ false = ground arith in rw none (h.no_os k lt);
  taken = λ k lt b. absurd (ground arith);
  free = λ q lt _. h.no_cha q lt;
}

pub SoFar-next :
    (seat : ℕ → ℕ) (start : MemLines) (ci : ℕ) (ml : MemLines)
    → ((k : ℕ) → k < start.num_cores → seat k < start.num_physical_cores)
    → SoFar seat start ci start.num_physical_cores ml
    → SoFar seat start (suc ci) 0 ml
SoFar-next seat start ci ml range h = record {
  same = h.same;
  cha_size = h.cha_size;
  os_size = h.os_size;
  os = λ k lt. rw (row k (seat k) (range k lt)) (h.os k lt);
  taken = λ k lt b. h.taken k lt (sym (row k (seat k) (range k lt)) ∙ b);
  free = λ q lt f. h.free q lt (λ k lk e. sym (row k q lt) ∙ f k lk e);
}
  where
    row :
        (k q : ℕ)
        → q < start.num_physical_cores
        → before (suc ci) 0 k q ≡ before ci start.num_physical_cores k q
    row k q lt = ground arith

pub SoFar-IsPlaced :
    (seat : ℕ → ℕ) (start ml : MemLines) → SoFar seat start start.num_cores 0 ml → IsPlaced seat ml
SoFar-IsPlaced seat start ml h =
    let cores : ml.num_cores ≡ start.num_cores = ap (λ (x : MemLines). x.num_cores) h.same in
    let units : ml.num_physical_cores ≡ start.num_physical_cores =
      ap (λ (x : MemLines). x.num_physical_cores) h.same in
    record {
      cha_size = h.cha_size ∙ sym units;
      os = λ k lt.
          h.os k (omega arith)
          ∙ ap (λ b. some (if b then pos (seat k) else minus_one)) (done k (omega arith));
      cha = λ k lt. h.taken k (omega arith) (done k (omega arith));
      empty = λ q lt none. h.free q (omega arith) (λ k lk e. absurd (none k (omega arith) e));
    }
  where
    done : (k : ℕ) → k < start.num_cores → before start.num_cores 0 k (seat k) ≡ true
    done k lt = ground arith

pub LinesAt-same :
    (home : ℕ → ℕ) (start ml : MemLines) (h : ℕ)
    → SameButMaps start ml
    → LinesAt home start h
    → LinesAt home ml h
unfolding line_at
LinesAt-same home start ml h same ls = go _ ml (sym same) ls
  where
    go : (x y : MemLines) → x ≡ y → LinesAt home x h → LinesAt home y h
    go x y e l = rw e at l
