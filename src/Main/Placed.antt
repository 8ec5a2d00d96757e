-- ===== src/Main/Placed.antt =====
-- srcs/main.cpp, lines 62-66, on a mesh: what the three calls find out of the processor.
use Prim.Native.String.{String}
use core_map.Base.{
  inl, inr, ℕ, ◌+◌, ◌<◌, ◌≡◌, refl, sym, ap, ◌∙◌, ℤ, pos, [], length, get_elem?-some_lt, arith,
}
use core_map.Base.Effect.{State, ret, ◌>>=◌}
use core_map.Base.Hoare.{Returns, Returns-bind, Returns-mono, Returns-and}
use core_map.Cpuid.{Cpu}
use core_map.Pmon.{Pmon}
use core_map.Pmon.Readout.{IsTabled}
use core_map.MemLines.Object.{Machine, MemLines, num_lines}
use core_map.MemLines.Locate.Full.{SameButLines, AllFull, all_found, too_few, Located, Ends}
use core_map.MemLines.Locate.AtHome.{IsTabled-Fits}
use core_map.MemLines.Locate.Enough.{
  HasEnough, Searched, initialize_local_lines-Searched, Searched-LinesAt,
}
use core_map.MemLines.Address.Translate.{IsPageMap}
use core_map.Base.{◌^◌}
use core_map.MemLines.Mapping.{map_os_core_id_to_cha_id}
use core_map.MemLines.Mapping.Pairing.{IsPaired, SameButMaps}
use core_map.MemLines.Mapping.Mesh.{IsMesh}
use core_map.MemLines.Mapping.Mesh.Lookups.{CountsLookups}
use core_map.MemLines.Mapping.Mesh.Probe.{LinesAt}
use core_map.MemLines.Mapping.Mesh.Sweep.{IsUnmapped, IsPlaced}
use core_map.MemLines.Mapping.Mesh.Placed.{map_os_core_id_to_cha_id-IsPlaced}
use core_map.MemLines.Traffic.{generate_traffic_and_monitor}
use core_map.MemLines.Traffic.Covered.{SameButPaths, Has}
use core_map.MemLines.Traffic.Pairs.{MonitorResult, generate_traffic_and_monitor-MonitorResult}
use core_map.MemLines.Dump.{Json, Output}
use core_map.Main.{measure}
use core_map.Main.Pipeline.{Measured, rest-Measured}

IsUnmapped-same : (ml a : MemLines) → SameButLines ml a → IsUnmapped ml → IsUnmapped a
IsUnmapped-same ml a same h =
    go _ a (sym same)
      (record { cha_size = h.cha_size; os_size = h.os_size; no_os = h.no_os; no_cha = h.no_cha })
  where
    go : (x y : MemLines) → x ≡ y → IsUnmapped x → IsUnmapped y
    go x y e g = rw e at g

IsPlaced-same :
    (seat : ℕ → ℕ) (b c : MemLines) → SameButPaths b c → IsPlaced seat b → IsPlaced seat c
IsPlaced-same seat b c same h =
    go _ c (sym same) (record { cha_size = h.cha_size; os = h.os; cha = h.cha; empty = h.empty })
  where
    go : (x y : MemLines) → x ≡ y → IsPlaced seat x → IsPlaced seat y
    go x y e g = rw e at g

-- The CHA of each core is found, and a path between any two of them.
pub record Charted (seat : ℕ → ℕ) (ml ml' : MemLines) : Type 0 where
  pub measured : Measured ml ml'
  pub placed : IsPlaced seat ml'
  pub all_paths : (i j : ℕ) → i < ml'.num_cores → j < ml'.num_cores → Has ml' (seat i) (seat j)

module _ {W : Type 0} (m : Machine W) (p : Pmon) (mesh : IsMesh m p)
    (looks : CountsLookups m p mesh) (maps : IsPageMap m.pages) (tabled : IsTabled p)
    (ml : MemLines) (units : p.num_physical_cores ≡ ml.num_physical_cores)
    (pair : ml.base_core_id + 1 < 2 ^ 31) (good : IsPaired ml) (unmapped : IsUnmapped ml)
    (enough : HasEnough m p mesh looks maps tabled ml units pair) where
  -- The CHA that the OS core sits at.
  abbrev pub seat : ℕ → ℕ
  seat k = mesh.tile (ml.base_core_id + k)

  module _ (range : (k : ℕ) → k < ml.num_cores → seat k < ml.num_physical_cores)
      (inj : (i j : ℕ) → i < ml.num_cores → j < ml.num_cores → seat i ≡ seat j → i ≡ j) where
    rest-IsPlaced :
        (a : MemLines) (s : State W)
        → SameButLines ml a
        → length a.local_lines ≡ a.num_physical_cores
        → AllFull num_lines a.local_lines
        → ((h : ℕ) → h < ml.num_physical_cores → LinesAt mesh.home a h)
        → Returns
            (λ c t. IsPlaced seat c)
            ((map_os_core_id_to_cha_id m p a >>= λ b.
                generate_traffic_and_monitor m p b.0 >>= λ c. λ t. (ret c.0, t))
              s)
    rest-IsPlaced a s ea len full lines =
        let base : a.base_core_id ≡ ml.base_core_id = ap (λ (x : MemLines). x.base_core_id) ea in
        let cores : a.num_cores ≡ ml.num_cores = ap (λ (x : MemLines). x.num_cores) ea in
        let phys : a.num_physical_cores ≡ ml.num_physical_cores =
          ap (λ (x : MemLines). x.num_physical_cores) ea in
        let placed : Returns
            (λ got t.
              (got.1 ≡ pos 0)
              × (IsPlaced (λ k. mesh.tile (a.base_core_id + k)) got.0 × SameButMaps a got.0))
            (map_os_core_id_to_cha_id m p a s) =
          map_os_core_id_to_cha_id-IsPlaced m p mesh tabled a (units ∙ sym phys)
            (λ h lt. lines h (rw phys at lt)) (λ k lt. rw (base, phys) (range k (rw cores at lt)))
            (λ i j li lj e. inj i j (rw cores at li) (rw cores at lj) (rw base at e)) s
            (IsUnmapped-same ml a ea unmapped) in
        Returns-bind
          (λ got t.
            (got.1 ≡ pos 0)
            × (IsPlaced (λ k. mesh.tile (a.base_core_id + k)) got.0 × SameButMaps a got.0))
          (λ c t. IsPlaced seat c) _ _ s placed
          λ b t r.
            let lines_b : b.0.local_lines ≡ a.local_lines =
              ap (λ (x : MemLines). x.local_lines) r.1.1 in
            let units_b : b.0.num_physical_cores ≡ a.num_physical_cores =
              ap (λ (x : MemLines). x.num_physical_cores) r.1.1 in
            Returns-bind (λ got u. MonitorResult b.0 got.0 got.1) (λ c t. IsPlaced seat c) _ _ t
              (generate_traffic_and_monitor-MonitorResult m p b.0 t (IsTabled-Fits p tabled)
                (units ∙ sym phys ∙ sym units_b) (rw lines_b full) (rw (lines_b, units_b) len)
                r.1.0.cha_size)
              (λ c u g. IsPlaced-same seat b.0 c.0 g.same (rw base at (r.1.0)))

    -- The last two calls, after a search that found all lines.
    rest-Charted :
        (a : MemLines) (s : State W)
        → SameButLines ml a
        → length a.local_lines ≡ a.num_physical_cores
        → AllFull num_lines a.local_lines
        → ((h : ℕ) → h < ml.num_physical_cores → LinesAt mesh.home a h)
        → Returns
            (λ c t. Charted seat ml c)
            ((map_os_core_id_to_cha_id m p a >>= λ b.
                generate_traffic_and_monitor m p b.0 >>= λ c. λ t. (ret c.0, t))
              s)
    rest-Charted a s ea len full lines =
        Returns-mono (λ c t. Measured ml c × IsPlaced seat c) (λ c t. Charted seat ml c) _
          (Returns-and (λ c t. Measured ml c) (λ c t. IsPlaced seat c) _
            (rest-Measured m p ml (IsTabled-Fits p tabled) units good a s ea len full)
            (rest-IsPlaced a s ea len full lines))
          (λ c t h. record {
            measured = h.0;
            placed = h.1;
            all_paths = λ i j li lj.
                h.0.covers (seat i) (seat j) (in_range c h.0 h.1 i li) (in_range c h.0 h.1 j lj)
                  (pos i, h.1.cha i li, refl) (pos j, h.1.cha j lj, refl);
          })
      where
        in_range :
            (c : MemLines)
            → Measured ml c
            → IsPlaced seat c
            → (i : ℕ) → i < c.num_cores
            → seat i < c.num_physical_cores
        in_range c h g i li =
            omega (arith, get_elem?-some_lt c.core_map_cha_to_os (seat i) (g.cha i li), g.cha_size)

    -- On a mesh (see IsMesh) on which, while all units count lookups, two threads on different
    -- cores that work on a line raise the count of lookups of the line's home by at least their
    -- rounds and that of no other CHA (see CountsLookups), with a page map that holds an 8-byte
    -- entry for each page of 4096 bytes and whose calls succeed; for a model with a table that has
    -- registers for each unit, the monitor and the object having the same number of units, a base
    -- core whose id plus 1 fits an int, and an object without lines; when each unit has, before the
    -- last line of the block, 22 lines in L2 set 1 whose home it is, the object's tables have their
    -- sizes and only -1 in them, and the OS cores sit at different CHAs among these units: the
    -- three calls one after the other return, each OS core is then mapped to the CHA that it sits
    -- at and that CHA to it, the other CHAs have no core, and there is a busy path for each pair of
    -- OS cores.
    pub measure-Charted :
        {J : Type 0} (cpu : Cpu) (j : Json J) (out : Output W J) (file_name : ℕ → String)
        (s : State W)
        → ml.local_lines ≡ []
        → Returns (λ ml' t. Charted seat ml ml') (measure m cpu j out file_name p ml s)
    unfolding measure
    measure-Charted cpu j out file_name s none_yet =
        Returns-bind
          (λ got t. Searched m p mesh looks maps tabled ml units pair got × Ends ml got t)
          (λ ml' t. Charted seat ml ml') _ _ s
          (initialize_local_lines-Searched m p mesh looks maps tabled ml units pair s none_yet)
          (λ a t h. after_search a t h.0 h.1.0 h.1.1)
      where
        after_search :
            (a : MemLines × ℤ) (t : State W)
            → Searched m p mesh looks maps tabled ml units pair a
            → Located a.0 a.1
            → SameButLines ml a.0
            → Returns
                (λ ml' u. Charted seat ml ml')
                ((map_os_core_id_to_cha_id m p a.0 >>= λ b.
                    generate_traffic_and_monitor m p b.0 >>= λ c. λ u. (ret c.0, u))
                  t)
        after_search a t found (all_found e len full) same =
            rest-Charted a.0 t same len full
              (Searched-LinesAt m p mesh looks maps tabled ml units pair a enough found same len)
        after_search a t found (too_few e) same = elim found.code [
          | inl zero_code ↦ absurd (cc (e, zero_code))
          | inr short ↦ absurd (short enough)
        ]
