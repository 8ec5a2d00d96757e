-- ===== src/MemLines/Address/Physical.antt =====
-- Which lines are sampled: what the test on the L2 index says of a physical address.
use core_map.Base.{ℕ, ◌+◌, ◌*◌, ◌/◌, ◌%◌, ◌^◌, ◌<◌, ◌≡◌, ◌↔◌, arith}
use core_map.MemLines.Address.{get_l2_index}

-- With pages of 4096 bytes, a physical address falls into L2 set 1 exactly when its page frame's
-- number is a multiple of 16 and the address lies in the second line of its page.
pub l2_index_one :
    (pfn off : ℕ)
    → off < 4096
    → (get_l2_index ((pfn * 2 ^ 12 + off) % 2 ^ 64) ≡ 1) ↔ ((pfn % 16 ≡ 0) × (off / 64 ≡ 1))
unfolding get_l2_index
l2_index_one pfn off h = ((λ e. omega arith), (λ e. omega arith))
