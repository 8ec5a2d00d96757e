-- ===== src/MemLines/Address/Translate.antt =====
-- srcs/mem_lines.cpp, lines 46-91: what a page map says of an address, and which lines are sampled by it.
use core_map.Base.{
  true, ℕ, zero, suc, ◌+◌, ◌*◌, ◌/◌, ◌%◌, ◌^◌, ◌<◌, ◌≡◌, refl, ◌∙◌, ◌↔◌, pos, List, [], ◌∷◌, arith,
}
use core_map.Base.Effect.{State, ◌>>=◌}
use core_map.Base.Hoare.{Returns, Returns-bind}
use core_map.MemLines.Address.{
  Pages, of_bytes, get_l2_index, get_page_frame_number_of_address, get_physical_address,
}
use core_map.MemLines.Address.Physical.{l2_index_one}

-- The lowest n bytes of a number, the lowest first.
abbrev pub bytes_of : ℕ → ℕ → List ℕ
bytes_of zero x = []
bytes_of (suc n) x = x % 2 ^ 8 ∷ bytes_of n (x / 2 ^ 8)

-- What the kernel documents of /proc/self/pagemap, when no call fails: it holds an entry of 8 bytes for each page,
-- whose low bits are the number of the page's frame. The entries stay as they are, since the pages are locked.
pub record IsPageMap {W : Type 0} (g : Pages W) : Type 0 where
  pub entry : ℕ → ℕ
  pub position : W → ℕ
  pub page_size : g.getpagesize ≡ 4096
  pub opens : (w : W) → (g.open_pagemap w).0 ≡ true
  pub seeks : (offset : ℕ) (w : W) → (g.seek_pagemap offset w).0 ≡ pos 0
  pub sought : (offset : ℕ) (w : W) → position (g.seek_pagemap offset w).1 ≡ offset
  pub reads :
      (n page : ℕ) (w : W)
      → position w ≡ page * 8
      → (g.read_pagemap n w).0 ≡ bytes_of n (entry page)

frame_of_bytes : (e : ℕ) → of_bytes (bytes_of 7 e) % 2 ^ 55 ≡ e % 2 ^ 55
frame_of_bytes e = omega arith

sampled :
    (e off : ℕ)
    → off < 4096
    → (get_l2_index ((e % 2 ^ 55 * 2 ^ 12 + off) % 2 ^ 64) ≡ 1) ↔ ((e % 16 ≡ 0) × (off / 64 ≡ 1))
sampled e off h =
    let (there, back) = l2_index_one (e % 2 ^ 55) off h in
    ((λ q. (omega (arith, (there q).0), (there q).1)), (λ q. back (omega (arith, q.0), q.1)))

module _ {W : Type 0} (g : Pages W) (law : IsPageMap g) where
  open law use {opens, entry, position, page_size, seeks, sought, reads}

  -- The frame of the page that the address lies in.
  abbrev pub frame : ℕ → ℕ
  frame addr = entry (addr / 4096) % 2 ^ 55

  get_page_frame_number_of_address-frame :
      (addr : ℕ) (s : State W)
      → addr < 2 ^ 64
      → Returns (λ pfn t. pfn ≡ frame addr) (get_page_frame_number_of_address g addr s)
  unfolding get_page_frame_number_of_address ◌>>=◌
  get_page_frame_number_of_address-frame addr s h =
      let w : W = (g.open_pagemap s.world).1 in
      let offset : ℕ = addr / g.getpagesize * 8 % 2 ^ 64 in
      let there : offset ≡ addr / 4096 * 8 = rw page_size (omega arith) in
      let bytes : (g.read_pagemap 7 (g.seek_pagemap offset w).1).0
          ≡ bytes_of 7 (entry (addr / 4096)) =
        reads 7 (addr / 4096) _ (sought offset w ∙ there) in
      rw (opens s.world, seeks offset w, bytes) (frame_of_bytes (entry (addr / 4096)))

  -- On a page map that holds an 8-byte entry for each page of 4096 bytes and whose calls succeed,
  -- for an address below 2 ^ 64: the look-up returns the frame in the low 55 bits of the page's
  -- entry, times 4096, plus the offset in the page, modulo 2 ^ 64; and that lies in L2 set 1
  -- exactly when the entry is a multiple of 16 and the address is in the second line of its page.
  pub get_physical_address-Translates :
      (addr : ℕ) (s : State W)
      → addr < 2 ^ 64
      → Returns
          (λ physical t.
            (physical ≡ (frame addr * 4096 + addr % 4096) % 2 ^ 64)
            × ((get_l2_index physical ≡ 1)
                ↔ ((entry (addr / 4096) % 16 ≡ 0) × (addr % 4096 / 64 ≡ 1))))
          (get_physical_address g addr s)
  unfolding get_physical_address
  get_physical_address-Translates addr s h =
      Returns-bind (λ pfn t. pfn ≡ frame addr) _ _ _ s
        (get_page_frame_number_of_address-frame addr s h)
        (λ pfn t e.
          rw (e, page_size) (refl, sampled (entry (addr / 4096)) (addr % 4096) (omega arith)))
