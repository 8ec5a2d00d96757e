-- ===== src/Examples/Memory.antt =====
-- srcs/mem_lines.cpp at concrete inputs.
use core_map.Base.{
  ℕ, zero, suc, ◌+◌, ◌*◌, ◌/◌, ◌%◌, ◌^◌, ◌≡◌, refl, ◌↔◌, inl, ℤ, pos, minus_one, [], ◌∷◌, some,
  get_elem?, arith,
}
use core_map.Base.Hoare.{Ensures, Returns}
use core_map.MemLines.Address.{get_l2_index, get_physical_address}
use core_map.MemLines.Address.Physical.{l2_index_one}
use core_map.MemLines.Object.{num_lines, new_mem_lines}
use core_map.MemLines.Object.Fresh.{Fresh, new_mem_lines-Fresh}
use core_map.MemLines.Locate.{find_local_lines, initialize_local_lines, get_a_line_for_core}
use core_map.MemLines.Locate.Sampling.{IsLocated, Promise, find_local_lines-Sampled}
use core_map.MemLines.Locate.Full.{AllFull, Ends, initialize_local_lines-Ends}
use core_map.MemLines.Locate.Lines.{FirstLine, get_a_line_for_core-Returns}
use core_map.MemLines.Mapping.{find_core_mapping, map_os_core_id_to_cha_id}
use core_map.MemLines.Mapping.Pairing.{IsPaired, Decided, find_core_mapping-Verdict}
use core_map.MemLines.Traffic.{collect_busy_paths, generate_traffic_and_monitor}
use core_map.MemLines.Mapping.NoLines.{Faults, map_os_core_id_to_cha_id-Faults}
use core_map.MemLines.Traffic.Paths.{Recorded, collect_busy_paths-Recorded}
use core_map.MemLines.Traffic.Pairs.{MonitorResult, generate_traffic_and_monitor-MonitorResult}
use core_map.MemLines.Address.Translate.{frame, get_physical_address-Translates}
use core_map.MemLines.Mapping.Doubled.{Doubled, find_core_mapping-Doubled}
use core_map.MemLines.Mapping.Idle.{QuietFrom}
use core_map.Base.Effect.{◌>>=◌}
use core_map.Base.{List}
use core_map.Pmon.Report.{CoreCounters}
use core_map.Examples.Toy.{
  paged, paged-IsPageMap, machine, skylake, skylake-Fits, begin, counters, fresh, filled, mapped,
}

l2_index_one_example :
    (get_l2_index ((32 * 2 ^ 12 + 64) % 2 ^ 64) ≡ 1) ↔ ((32 % 16 ≡ 0) × (64 / 64 ≡ 1))
l2_index_one_example = l2_index_one 32 64 (omega arith)

fresh-IsLocated : IsLocated 65 fresh
fresh-IsLocated = record { size = omega arith; counted = refl; bucketed = tt }

find_local_lines-Sampled_example :
    Returns (Promise fresh 65 counters begin.world) (find_local_lines fresh 65 counters begin)
find_local_lines-Sampled_example =
    find_local_lines-Sampled fresh 65 counters begin.world refl fresh-IsLocated begin refl

initialize_local_lines-Ends_example :
    Ensures (Ends fresh) (initialize_local_lines machine skylake fresh begin)
initialize_local_lines-Ends_example =
    initialize_local_lines-Ends machine skylake fresh begin skylake-Fits refl refl (λ w. refl)
      (omega arith)

mapped-AllFull : AllFull num_lines mapped.local_lines
unfolding num_lines
mapped-AllFull = (refl, omega arith, (refl, omega arith, tt))

get_a_line_for_core-Returns_example :
    Returns (FirstLine mapped 1 num_lines) (get_a_line_for_core mapped 1 begin)
get_a_line_for_core-Returns_example =
    get_a_line_for_core-Returns mapped 1 num_lines begin mapped-AllFull (omega arith)

find_core_mapping-Verdict_example :
    Returns (Decided filled 0 1 counters begin.world) (find_core_mapping filled 0 1 counters begin)
find_core_mapping-Verdict_example =
    find_core_mapping-Verdict filled 0 1 counters begin.world begin refl refl (omega arith)
      (omega arith)

unmapped : (i : ℕ) (x : ℤ) → get_elem? (minus_one ∷ minus_one ∷ []) i ≡ some x → x ≡ minus_one
unmapped zero x e = ground arith
unmapped (suc zero) x e = ground arith
unmapped (suc (suc i)) x e = ground arith

pub filled-IsPaired : IsPaired filled
filled-IsPaired = record {
  cha_size = refl;
  os_size = refl;
  back = λ i j e. absurd (cc (unmapped i (pos j) e));
  os_ids = λ i x e. inl (unmapped i x e);
  cha_ids = λ j x e. inl (unmapped j x e);
}

collect_busy_paths-Recorded_example :
    Returns
      (Recorded mapped 0 1 500000 counters begin)
      (collect_busy_paths mapped 0 1 counters 500000 begin)
collect_busy_paths-Recorded_example =
    collect_busy_paths-Recorded mapped 0 1 500000 counters begin refl

generate_traffic_and_monitor-MonitorResult_example :
    Returns
      (λ got t. MonitorResult mapped got.0 got.1)
      (generate_traffic_and_monitor machine skylake mapped begin)
generate_traffic_and_monitor-MonitorResult_example =
    generate_traffic_and_monitor-MonitorResult machine skylake mapped begin skylake-Fits refl
      mapped-AllFull refl refl

new_mem_lines-Fresh_example : Ensures (λ ml t. Fresh 0 2 2 ml) (new_mem_lines machine 0 2 2 begin)
new_mem_lines-Fresh_example = new_mem_lines-Fresh machine 0 2 2 begin (λ n w. refl)

map_os_core_id_to_cha_id-Faults_example :
    Faults (map_os_core_id_to_cha_id machine skylake fresh begin)
map_os_core_id_to_cha_id-Faults_example =
    map_os_core_id_to_cha_id-Faults machine skylake skylake-Fits fresh refl begin (omega arith)
      (omega arith)

get_physical_address-Translates_example :
    Returns
      (λ physical t.
        (physical ≡ (frame paged paged-IsPageMap 0x11040 * 4096 + 0x11040 % 4096) % 2 ^ 64)
        × ((get_l2_index physical ≡ 1) ↔ ((0x11040 / 4096 % 16 ≡ 0) × (0x11040 % 4096 / 64 ≡ 1))))
      (get_physical_address paged 0x11040 (record { world = 0; out = [] }))
get_physical_address-Translates_example =
    get_physical_address-Translates paged paged-IsPageMap 0x11040 (record { world = 0; out = [] })
      (omega arith)

abbrev quiet_counters : List CoreCounters
quiet_counters =
    record { ctr0 = 7; ctr1 = 0; ctr2 = 100000; ctr3 = 0 }
    ∷ record { ctr0 = 0; ctr1 = 1; ctr2 = 0; ctr3 = 9 }
    ∷ []

quiet_counters-QuietFrom : QuietFrom 0 2 quiet_counters
quiet_counters-QuietFrom zero c le lt e = ground arith
quiet_counters-QuietFrom (suc zero) c le lt e = ground arith
quiet_counters-QuietFrom (suc (suc k)) c le lt e = absurd (omega arith)

find_core_mapping-Doubled_example :
    Returns
      (λ got t. Doubled 0 0 1 got)
      ((find_core_mapping filled 0 0 quiet_counters >>= λ got.
          find_core_mapping got.0 0 1 quiet_counters)
        begin)
find_core_mapping-Doubled_example =
    find_core_mapping-Doubled filled filled-IsPaired 0 0 1 quiet_counters quiet_counters begin
      (omega arith) (omega arith) (omega arith) (λ e. absurd (omega (arith, e))) refl refl
      quiet_counters-QuietFrom quiet_counters-QuietFrom refl refl
