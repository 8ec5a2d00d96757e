-- ===== src/Types/Mcfg.antt =====
-- srcs/types.h, lines 953-989: the table of memory-mapped configuration spaces. A `char[n]` is a list of n
-- bytes; sizes are those of the 64-bit machines that the program runs on.
use Prim.Native.String.{String}
use core_map.Base.{ℕ, ◌+◌, ◌-◌, ◌*◌, ◌/◌, ◌%◌, ◌^◌, ◌≤◌, ◌<◌, ◌≡◌, List, [], ◌∷◌, arith}

pub record McfgRecord : Type 0 where
  pub base_address : ℕ
  pub pci_segment_group_number : ℕ
  pub start_bus_number : ℕ
  pub end_bus_number : ℕ
  pub reserved : List ℕ

pub record McfgHeader : Type 0 where
  pub signature : List ℕ
  pub length : ℕ
  pub revision : ℕ
  pub checksum : ℕ
  pub oem_id : List ℕ
  pub oem_table_id : List ℕ
  pub oem_revision : ℕ
  pub creator_id : ℕ
  pub creator_revision : ℕ
  pub reserved : List ℕ

-- sizeof, with no padding: 8 + 2 + 1 + 1 + 4, and 4 + 4 + 1 + 1 + 6 + 8 + 4 + 4 + 4 + 8.
abbrev sizeof_record : ℕ
sizeof_record = 16

abbrev sizeof_header : ℕ
sizeof_header = 44

-- `length` is an `unsigned`, sizeof a `size_t`: the difference wraps around at 2 ^ 64, and the quotient is cut
-- to 32 bits.
pub nrecords : McfgHeader → ℕ
nrecords h = (h.length + 2 ^ 64 - sizeof_header) % 2 ^ 64 / sizeof_record % 2 ^ 32

-- What `print` prints, a number for each label.
print_header : McfgHeader → List (String × ℕ)
print_header h = ("Header: length=", h.length) ∷ (" nrecords=", nrecords h) ∷ []

print_record : McfgRecord → List (String × ℕ)
print_record r =
    ("BaseAddress=0x", r.base_address)
    ∷ (" PCISegmentGroupNumber=0x", r.pci_segment_group_number)
    ∷ (" startBusNumber=0x", r.start_bus_number)
    ∷ (" endBusNumber=0x", r.end_bus_number)
    ∷ []

nrecords-counts :
    (h : McfgHeader) (n spare : ℕ)
    → spare < 16
    → h.length ≡ 44 + 16 * n + spare
    → h.length < 2 ^ 32
    → nrecords h ≡ n
unfolding nrecords
nrecords-counts h n spare hs e fits = omega arith

-- For a header whose length is below the 44 bytes of the header itself, the number of records is at
-- least 2 ^ 32 - 3.
pub nrecords-wraps :
    (h : McfgHeader) → h.length < 44 → (2 ^ 32 - 3 ≤ nrecords h) × (nrecords h < 2 ^ 32)
unfolding nrecords
nrecords-wraps h short = omega arith
