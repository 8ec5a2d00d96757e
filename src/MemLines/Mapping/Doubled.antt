-- ===== src/MemLines/Mapping/Doubled.antt =====
-- srcs/mem_lines.cpp, lines 211-236: an OS core for which two CHAs look idle.
use core_map.Base.{
  ℕ, ◌<◌, ◌≡◌, ◌≢◌, refl, sym, ap, ◌∙◌, ℤ, pos, minus_one, some, List, length, get_elem?, set,
  get_elem?-set_self, get_elem?-set_ne, length-set, arith,
}
use core_map.Base.Effect.{State, ◌>>=◌}
use core_map.Base.Hoare.{Returns, Returns-bind, Returns-mono}
use core_map.Pmon.Report.{CoreCounters}
use core_map.MemLines.Object.{MemLines}
use core_map.MemLines.Mapping.{find_core_mapping}
use core_map.MemLines.Mapping.Idle.{QuietFrom}
use core_map.MemLines.Mapping.Pairing.{
  paired_with, Decided, Verdict, busy, taken, pairs, IsPaired, find_core_mapping-Verdict,
}

-- Both CHAs are mapped to the OS core, and it to the second one.
pub record Doubled (ci a b : ℕ) (got : MemLines × ℤ) : Type 0 where
  pub code : got.1 ≡ pos 0
  pub first : get_elem? got.0.core_map_cha_to_os a ≡ some (pos ci)
  pub second : get_elem? got.0.core_map_cha_to_os b ≡ some (pos ci)
  pub mapped : get_elem? got.0.core_map_os_to_cha ci ≡ some (pos b)

-- A CHA that is free and for which all channels are idle gets the core.
free_pairs :
    (ml : MemLines) (ci pi : ℕ) (cs : List CoreCounters) (got : MemLines × ℤ)
    → QuietFrom 0 ml.num_physical_cores cs
    → get_elem? ml.core_map_cha_to_os pi ≡ some minus_one
    → Verdict ml ci pi cs got
    → got ≡ (paired_with ml ci pi, pos 0)
free_pairs ml ci pi cs got quiet free (busy not_quiet e) = absurd (not_quiet quiet)
free_pairs ml ci pi cs got quiet free (taken x q ex ne e) = absurd (ne (cc))
free_pairs ml ci pi cs got quiet free (pairs q fr e) = e

module _ {W : Type 0} (ml : MemLines) (good : IsPaired ml) (ci a b : ℕ)
    (xs ys : List CoreCounters) where
  -- For an object whose tables have their sizes and agree, two different CHAs without a core, and
  -- counters of which none is above 100000: the two calls for one OS core and these CHAs both
  -- return 0, and afterwards both CHAs are mapped to that OS core, which is mapped to the second
  -- one.
  pub find_core_mapping-Doubled :
      (s : State W)
      → ci < ml.num_cores
      → a < ml.num_physical_cores
      → b < ml.num_physical_cores
      → a ≢ b
      → length xs ≡ ml.num_physical_cores
      → length ys ≡ ml.num_physical_cores
      → QuietFrom 0 ml.num_physical_cores xs
      → QuietFrom 0 ml.num_physical_cores ys
      → get_elem? ml.core_map_cha_to_os a ≡ some minus_one
      → get_elem? ml.core_map_cha_to_os b ≡ some minus_one
      → Returns
          (λ got t. Doubled ci a b got)
          ((find_core_mapping ml ci a xs >>= λ got. find_core_mapping got.0 ci b ys) s)
  find_core_mapping-Doubled s hc ha hb ne lx ly qx qy fa fb =
      Returns-bind (Decided ml ci a xs s.world) (λ got t. Doubled ci a b got) _ _ s
        (find_core_mapping-Verdict ml ci a xs s.world s refl lx (omega (arith, good.cha_size))
          (omega (arith, good.os_size)))
        (λ got t d.
          again got.0 t (ap (λ (x : MemLines × ℤ). x.0) (free_pairs ml ci a xs got qx fa d.0)))
    where
      both :
          length (paired_with ml ci a).core_map_cha_to_os ≡ ml.num_physical_cores
          → length (paired_with ml ci a).core_map_os_to_cha ≡ ml.num_cores
          → Doubled ci a b (paired_with (paired_with ml ci a) ci b, pos 0)
      both cha os = record {
        code = refl;
        first =
            get_elem?-set_ne (set ml.core_map_cha_to_os a (pos ci)) b a (pos ci) (λ q. ne (sym q))
            ∙ get_elem?-set_self ml.core_map_cha_to_os a (pos ci) (omega (arith, good.cha_size));
        second =
            get_elem?-set_self (set ml.core_map_cha_to_os a (pos ci)) b (pos ci)
              (omega (arith, cha));
        mapped =
            get_elem?-set_self (set ml.core_map_os_to_cha ci (pos a)) ci (pos b)
              (omega (arith, os));
      }

      again :
          (ml' : MemLines) (t : State W)
          → ml' ≡ paired_with ml ci a
          → Returns (λ got u. Doubled ci a b got) (find_core_mapping ml' ci b ys t)
      again ml' t e =
          let ml1 : MemLines = paired_with ml ci a in
          let cha : length ml1.core_map_cha_to_os ≡ ml.num_physical_cores =
            length-set ml.core_map_cha_to_os a (pos ci) ∙ good.cha_size in
          let os : length ml1.core_map_os_to_cha ≡ ml.num_cores =
            length-set ml.core_map_os_to_cha ci (pos a) ∙ good.os_size in
          let still_free : get_elem? ml1.core_map_cha_to_os b ≡ some minus_one =
            get_elem?-set_ne ml.core_map_cha_to_os a b (pos ci) ne ∙ fb in
          rw e (
            Returns-mono (Decided ml1 ci b ys t.world) (λ got u. Doubled ci a b got) _
              (find_core_mapping-Verdict ml1 ci b ys t.world t refl ly (omega (arith, cha))
                (omega (arith, os)))
              (λ got u d. rw (free_pairs ml1 ci b ys got qy still_free d.0) (both cha os)))
