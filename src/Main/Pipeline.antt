-- ===== src/Main/Pipeline.antt =====
-- srcs/main.cpp, lines 62-66: the three calls on a fresh object, one after the other.
use Prim.Native.String.{String}
use core_map.Base.{ℕ, ◌<◌, ◌≡◌, refl, sym, ap, ◌∙◌, ◌⊎◌, inl, inr, ℤ, minus_one, [], length}
use core_map.Base.Effect.{
  State, Outcome, ret, exits, aborts, throws, faults, out_of_fuel, M, continue, ◌>>=◌,
}
use core_map.Base.Hoare.{Ensures, Returns, Returns-bind, Returns→Ensures}
use core_map.Cpuid.{Cpu}
use core_map.Pmon.{Pmon}
use core_map.Pmon.Safety.{Fits}
use core_map.MemLines.Object.{Machine, MemLines, num_lines}
use core_map.MemLines.Locate.{initialize_local_lines}
use core_map.MemLines.Locate.Full.{
  SameButLines, AllFull, all_found, too_few, Ends, initialize_local_lines-Ends,
}
use core_map.MemLines.Mapping.{map_os_core_id_to_cha_id}
use core_map.MemLines.Mapping.Pairing.{IsPaired, SameButMaps}
use core_map.MemLines.Mapping.Success.{MapResult, map_os_core_id_to_cha_id-MapResult}
use core_map.MemLines.Traffic.{generate_traffic_and_monitor}
use core_map.MemLines.Traffic.Covered.{SameButPaths, Mapped, Has}
use core_map.MemLines.Traffic.Pairs.{MonitorResult, generate_traffic_and_monitor-MonitorResult}
use core_map.MemLines.Address.{Opens}
use core_map.Base.{◌+◌, ◌^◌}
use core_map.MemLines.Dump.{Json, Output}
use core_map.Main.{measure}

-- The search for lines did not find enough of them.
pub data Failed : Outcome (MemLines × ℤ) → Type 0 where
  not_enough : (ml : MemLines) → Failed (ret (ml, minus_one))
  ended : (c : ℤ) → Failed (exits c)
  aborted : Failed aborts
  thrown : Failed throws

-- What the three calls leave: tables that agree, and a path for each pair of mapped units.
pub record Measured (ml ml' : MemLines) : Type 0 where
  pub paired : IsPaired ml'
  pub covers :
      (a b : ℕ)
      → a < ml'.num_physical_cores
      → b < ml'.num_physical_cores
      → Mapped ml' a
      → Mapped ml' b
      → Has ml' a b
  pub units : ml'.num_physical_cores ≡ ml.num_physical_cores

IsPaired-transport :
    (ml ml' : MemLines)
    → ml'.core_map_cha_to_os ≡ ml.core_map_cha_to_os
    → ml'.core_map_os_to_cha ≡ ml.core_map_os_to_cha
    → ml'.num_cores ≡ ml.num_cores
    → ml'.num_physical_cores ≡ ml.num_physical_cores
    → IsPaired ml
    → IsPaired ml'
IsPaired-transport ml ml' cha os cores units h = record {
  cha_size = rw (cha, units) h.cha_size;
  os_size = rw (os, cores) h.os_size;
  back = λ i j e. rw cha (h.back i j (rw os at e));
  os_ids = λ i x e. h.os_ids i x (rw os at e);
  cha_ids = λ j x e. rw cores (h.cha_ids j x (rw cha at e));
}

-- The last two calls, after a search that found all lines.
module _ {W : Type 0} (m : Machine W) (p : Pmon) (ml : MemLines) (fits : Fits p)
    (units : p.num_physical_cores ≡ ml.num_physical_cores) (good : IsPaired ml) where
  abbrev Goal : MemLines → State W → Type 0
  Goal ml' t = Measured ml ml'

  Measured-from :
      (a b c : MemLines)
      → SameButLines ml a
      → SameButMaps a b
      → IsPaired b
      → SameButPaths b c
      → ((x y : ℕ)
          → x < b.num_physical_cores
          → y < b.num_physical_cores
          → Mapped b x
          → Mapped b y
          → Has c x y)
      → Measured ml c
  Measured-from a b c ea eb gb ec covers =
      let cha : c.core_map_cha_to_os ≡ b.core_map_cha_to_os =
        ap (λ (x : MemLines). x.core_map_cha_to_os) ec in
      let os : c.core_map_os_to_cha ≡ b.core_map_os_to_cha =
        ap (λ (x : MemLines). x.core_map_os_to_cha) ec in
      let cores : c.num_cores ≡ b.num_cores = ap (λ (x : MemLines). x.num_cores) ec in
      let same : c.num_physical_cores ≡ b.num_physical_cores =
        ap (λ (x : MemLines). x.num_physical_cores) ec in
      record {
        paired = IsPaired-transport b c cha os cores same gb;
        covers = λ x y lx ly mx my.
            covers x y (rw same at lx) (rw same at ly) (rw cha at mx) (rw cha at my);
        units =
            same
            ∙ ap (λ (x : MemLines). x.num_physical_cores) eb
            ∙ ap (λ (x : MemLines). x.num_physical_cores) ea;
      }

  pub rest-Measured :
      (a : MemLines) (s : State W)
      → SameButLines ml a
      → length a.local_lines ≡ a.num_physical_cores
      → AllFull num_lines a.local_lines
      → Returns Goal (
          (map_os_core_id_to_cha_id m p a >>= λ b.
          generate_traffic_and_monitor m p b.0 >>= λ c. λ t. (ret c.0, t))
            s)
  rest-Measured a s ea len full =
      let units_a : p.num_physical_cores ≡ a.num_physical_cores =
        units ∙ sym (ap (λ (x : MemLines). x.num_physical_cores) ea) in
      let good_a : IsPaired a =
        IsPaired-transport ml a (ap (λ (x : MemLines). x.core_map_cha_to_os) ea)
          (ap (λ (x : MemLines). x.core_map_os_to_cha) ea) (ap (λ (x : MemLines). x.num_cores) ea)
          (ap (λ (x : MemLines). x.num_physical_cores) ea) good in
      Returns-bind (λ got t. MapResult a got.0 got.1) Goal _ _ s
        (map_os_core_id_to_cha_id-MapResult m p a s fits units_a len good_a)
        λ b t r.
          let lines : b.0.local_lines ≡ a.local_lines =
            ap (λ (x : MemLines). x.local_lines) r.same in
          let units_b : b.0.num_physical_cores ≡ a.num_physical_cores =
            ap (λ (x : MemLines). x.num_physical_cores) r.same in
          Returns-bind (λ got u. MonitorResult b.0 got.0 got.1) Goal _ _ t
            (generate_traffic_and_monitor-MonitorResult m p b.0 t fits (units_a ∙ sym units_b)
              (rw lines full) (rw (lines, units_b) len) r.paired.cha_size)
            (λ c u g. Measured-from a b.0 c.0 ea r.same r.paired g.same g.covers)

  split :
      (o : Outcome (MemLines × ℤ)) (s : State W) (k : MemLines × ℤ → M W MemLines)
      → Ensures (Ends ml) (o, s)
      → ((a : MemLines) (r : ℤ)
          → SameButLines ml a
          → length a.local_lines ≡ a.num_physical_cores
          → AllFull num_lines a.local_lines
          → Returns Goal (k (a, r) s))
      → Failed o ⊎ Returns Goal (continue o k s)
  split (ret (a, r)) s k (all_found e len full, same) h = inr (h a r same len full)
  split (ret (a, r)) s k (too_few e, same) h = inl (rw e (not_enough a))
  split (exits c) s k x h = inl (ended c)
  split aborts s k x h = inl aborted
  split throws s k x h = inl thrown
  split faults s k x h = absurd x
  split out_of_fuel s k x h = absurd x

Failed-ends :
    {W : Type 0} (ml : MemLines) (o : Outcome (MemLines × ℤ)) (s : State W)
    (k : MemLines × ℤ → M W MemLines)
    → Failed o
    → ((a : MemLines) × (o ≡ ret (a, minus_one)))
      ⊎ Ensures (λ ml' t. Measured ml ml') (continue o k s)
Failed-ends ml (ret (a, r)) s k (not_enough b) = inl (b, refl)
Failed-ends ml (exits c) s k (ended d) = inr tt
Failed-ends ml aborts s k aborted = inr tt
Failed-ends ml throws s k thrown = inr tt
Failed-ends ml faults s k x = elim x [ ]
Failed-ends ml out_of_fuel s k x = elim x [ ]

module _ {W J : Type 0} (m : Machine W) (cpu : Cpu) (j : Json J) (out : Output W J)
    (file_name : ℕ → String) where
  pub measure-Measured :
      (p : Pmon) (ml : MemLines) (s : State W)
      → Fits p
      → p.num_physical_cores ≡ ml.num_physical_cores
      → IsPaired ml
      → ml.local_lines ≡ []
      → Opens m.pages
      → ml.base_core_id + 1 < 2 ^ 31
      → Failed (initialize_local_lines m p ml s).0
        ⊎ Returns (λ ml' t. Measured ml ml') (measure m cpu j out file_name p ml s)
  unfolding measure ◌>>=◌
  measure-Measured p ml s fits units good none_yet opens pair =
      split m p ml fits units good _ _ _
        (initialize_local_lines-Ends m p ml s fits units none_yet opens pair)
        (λ a r same len full. rest-Measured m p ml fits units good a _ same len full)

  -- A search that failed otherwise has ended the process or thrown.
  pub measure-Ensures :
      (p : Pmon) (ml : MemLines) (s : State W)
      → Fits p
      → p.num_physical_cores ≡ ml.num_physical_cores
      → IsPaired ml
      → ml.local_lines ≡ []
      → Opens m.pages
      → ml.base_core_id + 1 < 2 ^ 31
      → ((a : MemLines) × ((initialize_local_lines m p ml s).0 ≡ ret (a, minus_one)))
        ⊎ Ensures (λ ml' t. Measured ml ml') (measure m cpu j out file_name p ml s)
  unfolding measure ◌>>=◌
  measure-Ensures p ml s fits units good none_yet opens pair =
      elim (measure-Measured p ml s fits units good none_yet opens pair) [
        | inl failed ↦ Failed-ends ml (initialize_local_lines m p ml s).0 _ _ failed
        | inr done ↦ inr (Returns→Ensures (λ ml' t. Measured ml ml') _ done)
      ]
