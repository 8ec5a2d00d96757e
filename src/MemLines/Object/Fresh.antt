-- ===== src/MemLines/Object/Fresh.antt =====
-- srcs/mem_lines.cpp, lines 18-40: what the constructor of Mem_Lines makes.
use core_map.Base.{
  ℕ, ◌+◌, ◌*◌, ◌%◌, ◌^◌, ◌≤◌, ◌<◌, ◌≡◌, refl, inl, inr, [], length-replicate, get_elem?-replicate,
  arith, is_minus_one, Bool-cases, pos, minus_one, ℤ, replicate, get_elem?, some,
}
use core_map.Base.Effect.{State, ◌>>=◌}
use core_map.Base.Hoare.{Ensures, Returns}
use core_map.MemLines.Address.{Allocates}
use core_map.MemLines.Object.{
  Machine, MemLines, align_page, new_mem_lines, delete_mem_lines, num_lines, line_size,
}
use core_map.MemLines.Mapping.Pairing.{IsPaired}

-- An object for the given cores in which nothing was found yet.
pub record Fresh (base cores physical : ℕ) (ml : MemLines) : Type 0 where
  pub base_core : ml.base_core_id ≡ base
  pub units : ml.num_physical_cores ≡ physical
  pub os_cores : ml.num_cores ≡ cores
  pub paired : IsPaired ml
  pub none_yet : ml.local_lines ≡ []
  pub no_paths : ml.busy_paths ≡ []
  pub aligned : ml.memory_bulk % 4096 ≡ 0
  -- The block starts within the first page of its allocation, if that does not wrap around.
  pub inside :
      ml.memory_bulk_alloc + 4096 ≤ 2 ^ 64
      → (ml.memory_bulk_alloc ≤ ml.memory_bulk) × (ml.memory_bulk < ml.memory_bulk_alloc + 4096)

align_page-aligned : (alloc : ℕ) → align_page alloc % 4096 ≡ 0
unfolding align_page
align_page-aligned alloc = omega arith

align_page-inside :
    (alloc : ℕ)
    → alloc + 4096 ≤ 2 ^ 64
    → (alloc ≤ align_page alloc) × (align_page alloc < alloc + 4096)
unfolding align_page
align_page-inside alloc h = omega arith

unset : (n i j : ℕ) {A : Type 0} → get_elem? (replicate n minus_one) i ≡ some (pos j) → A
unset n i j e = absurd (cc (get_elem?-replicate n i minus_one e))

-- The return value of `mlock` in the constructor.
abbrev locking : {W : Type 0} → Machine W → State W → ℤ
locking m s =
    let (alloc, w) = m.pages.malloc (num_lines * line_size + 0x1000) s.world in
    (m.pages.mlock (align_page alloc) (num_lines * line_size) w).0

-- For every machine on which malloc never gives a null pointer, base core and numbers of cores and
-- units: the constructor ends the process or returns an object with that base core and these
-- numbers, with no lines and no busy paths, whose two tables have their sizes and agree, and whose
-- block is aligned to 4096 bytes and starts within 4096 bytes of its allocation when that lies 4096
-- bytes below 2 ^ 64.
pub new_mem_lines-Fresh :
    {W : Type 0} (m : Machine W) (base cores physical : ℕ) (s : State W)
    → Allocates m.pages
    → Ensures (λ ml t. Fresh base cores physical ml) (new_mem_lines m base cores physical s)
unfolding new_mem_lines ◌>>=◌
new_mem_lines-Fresh m base cores physical s allocates =
    elim (Bool-cases (is_minus_one (locking m s))) [
      | inl failed ↦ rw failed tt
      | inr locked ↦
          rw (locked, allocates _ _, allocates _ _)
            (record {
              base_core = refl;
              units = refl;
              os_cores = refl;
              paired = record {
                cha_size = length-replicate physical minus_one;
                os_size = length-replicate cores minus_one;
                back = λ i j e. unset cores i j e;
                os_ids = λ i x e. inl (get_elem?-replicate cores i minus_one e);
                cha_ids = λ j x e. inl (get_elem?-replicate physical j minus_one e);
              };
              none_yet = refl;
              no_paths = refl;
              aligned = align_page-aligned _;
              inside = λ h. align_page-inside _ h;
            })
    ]

-- The destructor frees the allocation that the block lies in.
pub delete_mem_lines-frees :
    {W : Type 0} (m : Machine W) (ml : MemLines) (s : State W)
    → Returns (λ _ t. t.world ≡ m.pages.free ml.memory_bulk_alloc s.world) (delete_mem_lines m ml s)
unfolding delete_mem_lines
delete_mem_lines-frees m ml s = refl
