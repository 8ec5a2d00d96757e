-- ===== src/MemLines/Address/Lookup.antt =====
-- A look-up in the page map ends: it returns an address or ends the process.
use core_map.Base.{ℕ, ◌<◌, ◌^◌, arith}
use core_map.Base.Effect.{State, ◌>>=◌}
use core_map.Base.Hoare.{Ensures, Ensures-bind}
use core_map.MemLines.Address.{Pages, Opens, get_page_frame_number_of_address, get_physical_address}

module _ {W : Type 0} (g : Pages W) where
  get_page_frame_number_of_address-lt :
      Opens g
      → (addr : ℕ) (s : State W)
      → Ensures (λ pfn t. pfn < 2 ^ 55) (get_page_frame_number_of_address g addr s)
  unfolding get_page_frame_number_of_address ◌>>=◌
  get_page_frame_number_of_address-lt opens addr s = ground (arith, opens s.world)

  -- For every page map that opens, the look-up of a physical address returns a number below 2 ^ 64, or ends
  -- the process; it meets no undefined behaviour.
  pub get_physical_address-lt :
      Opens g
      → (addr : ℕ) (s : State W)
      → Ensures (λ physical t. physical < 2 ^ 64) (get_physical_address g addr s)
  unfolding get_physical_address
  get_physical_address-lt opens addr s =
      Ensures-bind _ _ _ _ s (get_page_frame_number_of_address-lt opens addr s)
        (λ pfn t h. omega arith)
