-- ===== src/Base/Effect.antt =====
-- Code that talks to the operating system: a state of the world and what was printed, and the
-- ways in which a C++ function can end.
use mathlib.Core.List.{List, [], ◌∷◌, ◌++◌}
use core_map.Base.Tests.{ltb, if◌then◌else◌}
use Prim.Native.Nat.{◌+◌, ◌^◌, ℕ, zero, suc}
use mathlib.Core.Option.{Option, none, some}
use core_map.Base.Int.{ℤ}

-- The four directions of the mesh ring (pmon.h).
pub data RingChannel : Type 0 where
  ch_up ch_down ch_left ch_right : RingChannel

-- `aborts` is a failed assertion; `faults` is undefined behaviour, such as a read past the end of an array.
pub data Outcome (A : Type 0) : Type 0 where
  ret : A → Outcome A
  exits : ℤ → Outcome A
  aborts : Outcome A
  throws : Outcome A
  faults : Outcome A
  out_of_fuel : Outcome A

-- What the program prints, one constructor for each kind of line.
pub data Message : Type 0 where
  msr_open_failed : ℕ → Message
  unit_ctl_write_failed : Message
  event_write_failed : Message
  freeze_failed : Message
  unfreeze_failed : Message
  ppin_not_unique : Message
  ppin_is : ℕ → Message
  mlock_failed : Message
  seek_failed : Message
  pagemap_read_failed : Message
  not_enough_lines : Message
  no_local_line : ℕ → List ℕ → Message
  doubly_mapped : ℕ → ℤ → ℕ → Message
  os_id_unmapped : ℕ → Message
  busy : ℕ → ℕ → List (ℕ × RingChannel × ℕ) → Message
  usage : Message
  unsupported_cpu : ℕ → ℕ → Message
  brand_missing : Message
  brand_is : List ℕ → Message
  parameters_are : ℤ → ℤ → ℤ → Message

pub record State (W : Type 0) : Type 0 where
  pub world : W
  pub out : List Message

abbrev pub M : Type 0 → Type 0 → Type 0
M W A = State W → Outcome A × State W

module _ {W A B : Type 0} where
  abbrev pub continue : Outcome A → (A → M W B) → M W B
  continue (ret a) f s = f a s
  continue (exits c) f s = (exits c, s)
  continue aborts f s = (aborts, s)
  continue throws f s = (throws, s)
  continue faults f s = (faults, s)
  continue out_of_fuel f s = (out_of_fuel, s)

  infixl 5 ◌>>=◌ ◌>>◌
  unfoldable pub ◌>>=◌ : M W A → (A → M W B) → M W B
  ◌>>=◌ m f s = let (o, s') = m s in continue o f s'

  abbrev pub ◌>>◌ : M W A → M W B → M W B
  m >> k = m >>= λ _. k

module _ {W A : Type 0} where
  abbrev pub pure : A → M W A
  pure a s = (ret a, s)

  abbrev pub exit : ℤ → M W A
  exit c s = (exits c, s)

  abbrev pub abort : M W A
  abort s = (aborts, s)

  abbrev pub throw : M W A
  throw s = (throws, s)

  abbrev pub fault : M W A
  fault s = (faults, s)

  abbrev pub no_fuel : M W A
  no_fuel s = (out_of_fuel, s)

  -- A call of the operating system.
  abbrev pub call : (W → A × W) → M W A
  call f s = let (a, w) = f s.world in (ret a, record s { world = w })

  -- An array read, or `operator[]` of a vector.
  abbrev pub at_index : Option A → M W A
  at_index none = fault
  at_index (some a) = pure a

module _ {W : Type 0} where
  abbrev pub say : Message → M W (Unit {0})
  say msg s = (ret tt, record s { out = s.out ++ msg ∷ [] })

  abbrev pub tell : (W → W) → M W (Unit {0})
  tell f s = (ret tt, record s { world = f s.world })

module _ {W S : Type 0} where
  -- for (k = i; k < i + n; k++) a = body k a
  unfoldable pub for_range : ℕ → ℕ → (ℕ → S → M W S) → S → M W S
  for_range zero i body a = pure a
  for_range (suc n) i body a = body i a >>= λ b. for_range n (suc i) body b

-- A sum of two ints, which is undefined past the largest.
unfoldable pub int_sum : {W : Type 0} → ℕ → ℕ → M W ℕ
int_sum a b = if ltb (a + b) (2 ^ 31) then pure (a + b) else fault
