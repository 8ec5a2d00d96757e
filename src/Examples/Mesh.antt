-- ===== src/Examples/Mesh.antt =====
-- The search for lines and the mapping on a mesh of two tiles.
use core_map.Base.{
  ℕ, zero, suc, ◌+◌, ◌<◌, ◌≡◌, refl, inl, pos, minus_one, List, [], ◌∷◌, length, some, get_elem?,
  arith,
}
use core_map.Base.Effect.{State}
use core_map.Base.Hoare.{Returns}
use core_map.Tasks.Stores.{All}
use core_map.MemLines.Object.{MemLines, line_at, num_lines}
use core_map.MemLines.Mapping.{map_os_core_id_to_cha_id}
use core_map.MemLines.Mapping.Pairing.{SameButMaps}
use core_map.MemLines.Mapping.Mesh.Probe.{LinesAt}
use core_map.MemLines.Mapping.Mesh.Sweep.{IsUnmapped, IsPlaced}
use core_map.MemLines.Mapping.Mesh.Placed.{map_os_core_id_to_cha_id-IsPlaced}
use core_map.MemLines.Locate.{initialize_local_lines}
use core_map.MemLines.Locate.AtHome.{in_set_1}
use core_map.MemLines.Locate.Homes.{lines_of, length-lines_of}
use core_map.MemLines.Locate.Full.{Ends}
use core_map.MemLines.Locate.Enough.{HasEnough, Searched, initialize_local_lines-Searched}
use core_map.MemLines.Mapping.Pairing.{IsPaired}
use core_map.MemLines.Traffic.{monitor_pair}
use core_map.MemLines.Traffic.Observed.{Observed, monitor_pair-Observed}
use core_map.MemLines.Dump.{Json, Output}
use core_map.Main.{measure}
use core_map.Main.Placed.{Charted, measure-Charted}
use core_map.Examples.Memory.{filled-IsPaired}
use core_map.Base.{◌≤◌, Bool}
use core_map.Examples.Toy.{xeon, skylake, fresh}
use core_map.Examples.Chip.{Chip, chip, chip-CountsLookups, chip-IsPageMap, chip-IsMesh, home, tile}

abbrev evens : List ℕ
evens =
    65 ∷ 193 ∷ 321 ∷ 449 ∷ 577 ∷ 705 ∷ 833 ∷ 961 ∷ 1089 ∷ 1217 ∷ 1345 ∷ 1473 ∷ 1601 ∷ 1729 ∷ 1857
    ∷ 1985 ∷ 2113 ∷ 2241 ∷ 2369 ∷ 2497 ∷ 2625 ∷ 2753 ∷ []

abbrev odds : List ℕ
odds =
    1 ∷ 129 ∷ 257 ∷ 385 ∷ 513 ∷ 641 ∷ 769 ∷ 897 ∷ 1025 ∷ 1153 ∷ 1281 ∷ 1409 ∷ 1537 ∷ 1665 ∷ 1793
    ∷ 1921 ∷ 2049 ∷ 2177 ∷ 2305 ∷ 2433 ∷ 2561 ∷ 2689 ∷ []

abbrev located : MemLines
located = record fresh { local_lines = evens ∷ odds ∷ []; local_found_count = 44 }

evens-home : All (λ line. home (line_at located line) ≡ 0) evens
unfolding line_at
evens-home = omega arith

odds-home : All (λ line. home (line_at located line) ≡ 1) odds
unfolding line_at
odds-home = omega arith

located-LinesAt : (h : ℕ) → h < 2 → LinesAt home located h
located-LinesAt zero lt = (evens, (refl, (refl, evens-home)))
located-LinesAt (suc zero) lt = (odds, (refl, (refl, odds-home)))
located-LinesAt (suc (suc h)) lt = absurd (omega arith)

located-IsUnmapped : IsUnmapped located
located-IsUnmapped = record { cha_size = refl; os_size = refl; no_os = none_at; no_cha = none_at }
  where
    none_at : (k : ℕ) → k < 2 → get_elem? (minus_one ∷ minus_one ∷ []) k ≡ some minus_one
    none_at zero lt = refl
    none_at (suc zero) lt = refl
    none_at (suc (suc k)) lt = absurd (omega arith)

map_os_core_id_to_cha_id-IsPlaced_example :
    Returns
      (λ got t. (got.1 ≡ pos 0) × (IsPlaced (λ k. tile (0 + k)) got.0 × SameButMaps located got.0))
      (map_os_core_id_to_cha_id chip skylake located (record {
        world = record {
          core = 0;
          count = 0;
          looks_0 = 0;
          looks_1 = 0;
          position = 0;
          regs = λ b. 0;
        };
        out = [];
      }))
map_os_core_id_to_cha_id-IsPlaced_example =
    map_os_core_id_to_cha_id-IsPlaced chip skylake chip-IsMesh (inl (refl, omega arith)) located
      refl located-LinesAt (λ k lt. ground arith) (λ i j li lj e. ground arith)
      (record {
        world = record {
          core = 0;
          count = 0;
          looks_0 = 0;
          looks_1 = 0;
          position = 0;
          regs = λ b. 0;
        };
        out = [];
      })
      located-IsUnmapped

abbrev awake : State Chip
awake = record {
  world = record { core = 0; count = 0; looks_0 = 0; looks_1 = 0; position = 0; regs = λ b. 0 };
  out = [];
}

initialize_local_lines-Searched_example :
    Returns
      (λ got t.
        Searched chip skylake chip-IsMesh chip-CountsLookups chip-IsPageMap
          (inl (refl, omega arith))
          fresh
          refl
          (omega arith)
          got
        × Ends fresh got t)
      (initialize_local_lines chip skylake fresh awake)
initialize_local_lines-Searched_example =
    initialize_local_lines-Searched chip skylake chip-IsMesh chip-CountsLookups chip-IsPageMap
      (inl (refl, omega arith)) fresh refl (omega arith) awake refl

abbrev blank : Json (Unit {0})
blank = record {
  null = tt;
  array = tt;
  text = λ t. tt;
  int = λ n. tt;
  field = λ k doc. tt;
  with_field = λ k v doc. tt;
  push_back = λ a x. tt;
}

abbrev nowhere : Output Chip (Unit {0})
nowhere = record { show_hex = λ n. "7"; write_file = λ name doc w. w }

fresh-IsPaired : IsPaired fresh
fresh-IsPaired = record {
  cha_size = filled-IsPaired.cha_size;
  os_size = filled-IsPaired.os_size;
  back = filled-IsPaired.back;
  os_ids = filled-IsPaired.os_ids;
  cha_ids = filled-IsPaired.cha_ids;
}

fresh-IsUnmapped : IsUnmapped fresh
fresh-IsUnmapped = record {
  cha_size = refl;
  os_size = refl;
  no_os = located-IsUnmapped.no_os;
  no_cha = located-IsUnmapped.no_cha;
}

abbrev in_block : ℕ → Bool
in_block =
    in_set_1 chip skylake chip-IsMesh chip-CountsLookups chip-IsPageMap (inl (refl, omega arith))
      fresh refl (omega arith)

-- The first 45 pages of the block hold 22 lines of each unit.
many :
    (k : ℕ) → k < 2 → length (lines_of in_block (λ line. home (line_at fresh line)) k 2880) ≡ 22 + k
unfolding lines_of line_at
many zero lt = refl
many (suc zero) lt = refl
many (suc (suc k)) lt = absurd (omega arith)

fresh-HasEnough :
    HasEnough chip skylake chip-IsMesh chip-CountsLookups chip-IsPageMap
      (inl (refl, omega arith))
      fresh
      refl
      (omega arith)
unfolding num_lines
fresh-HasEnough k lt =
    let later : length (lines_of in_block (λ line. home (line_at fresh line)) k 2880)
        ≤ length (lines_of in_block (λ line. home (line_at fresh line)) k (16774335 + 2880)) =
      length-lines_of in_block (λ line. home (line_at fresh line)) k 16774335 2880 in
    omega (arith, later, many k lt)

measure-Charted_example :
    Returns
      (λ ml' t. Charted (λ k. tile (0 + k)) fresh ml')
      (measure chip xeon blank nowhere (λ n. "busy_path.7.json") skylake fresh awake)
measure-Charted_example =
    measure-Charted chip skylake chip-IsMesh chip-CountsLookups chip-IsPageMap
      (inl (refl, omega arith)) fresh refl (omega arith) fresh-IsPaired fresh-IsUnmapped
      fresh-HasEnough (λ k lt. ground arith) (λ i j li lj e. ground arith) xeon blank nowhere
      (λ n. "busy_path.7.json") awake refl

monitor_pair-Observed_example :
    Returns
      (λ got t. Observed chip skylake chip-IsMesh (inl (refl, omega arith)) located 0 1 1 0 65 got)
      (monitor_pair chip skylake located 0 1 1 0 awake)
monitor_pair-Observed_example =
    monitor_pair-Observed chip skylake chip-IsMesh (inl (refl, omega arith)) located 0 1 1 0 65
      evens awake refl refl refl
