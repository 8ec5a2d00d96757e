-- ===== src/MemLines/Mapping/Mesh/Workload.antt =====
-- srcs/tasks.cpp, lines 65-85, on a mesh: what the counters show after the loop over the lines.
use core_map.Base.{ℕ, suc, ◌*◌, ◌≤◌, ◌≡◌, ◌≢◌, sym, ap, ◌∙◌, List, length, arith}
use core_map.Base.Effect.{State}
use core_map.Base.Hoare.{Returns}
use core_map.Pmon.{Pmon}
use core_map.Tasks.{read_and_write_spill_to_l3}
use core_map.Tasks.Stores.{All, read_and_write_spill_to_l3-stores}
use core_map.MemLines.Object.{Machine}
use core_map.MemLines.Mapping.Mesh.{IsMesh, IsCounter, IsCounting, unit_of}

module _ {W : Type 0} (m : Machine W) (p : Pmon) (mesh : IsMesh m p) (c h : ℕ) where
  open m use {threads}
  open mesh use {
    accepts, shows, tile, home, core, via, loads, stores, load_local, store_local, store_remote,
    moves, move_words, move_counts,
  }

  -- The thread on core c has stored k times to lines whose home is h.
  pub record Stored (k : ℕ) (w : W) : Type 0 where
    pub there : core w ≡ c
    pub counting : IsCounting p (accepts.written w)
    pub idle : tile c ≡ h → (b : ℕ) → IsCounter p b → shows.contents w b ≡ 0
    pub loud : tile c ≢ h → IsCounter p (via (tile c) h) → k ≤ shows.contents w (via (tile c) h)

  IsCounting-same :
      (reg reg' : ℕ → ℕ) → ((b : ℕ) → reg' b ≡ reg b) → IsCounting p reg → IsCounting p reg'
  IsCounting-same reg reg' same g = record {
    runs = same 0x0700 ∙ g.runs;
    events = λ i lt.
        let u = unit_of p i in
        let e = g.events i lt in
        record {
          reset = same u.unit_ctl ∙ e.reset;
          up = same u.ctl0 ∙ e.up;
          down = same u.ctl1 ∙ e.down;
          left = same u.ctl2 ∙ e.left;
          right = same u.ctl3 ∙ e.right;
        };
  }

  load8-Stored : (k q : ℕ) (w : W) → home q ≡ h → Stored k w → Stored k (threads.load8 q w).1
  load8-Stored k q w at_home g =
      let pass = loads q w in
      record {
        there = pass.stays ∙ g.there;
        counting = IsCounting-same (accepts.written w) _ pass.same_words g.counting;
        idle = λ same b cb. load_local q b w cb (rw (g.there, at_home) same) ∙ g.idle same b cb;
        loud = λ other cb. omega (arith, pass.rises (via (tile c) h) cb, g.loud other cb);
      }

  store8-Stored :
      (k q v : ℕ) (w : W) → home q ≡ h → Stored k w → Stored (suc k) (threads.store8 q v w)
  store8-Stored k q v w at_home g =
      let pass = stores q v w in
      record {
        there = pass.stays ∙ g.there;
        counting = IsCounting-same (accepts.written w) _ pass.same_words g.counting;
        idle = λ same b cb. store_local q v b w cb (rw (g.there, at_home) same) ∙ g.idle same b cb;
        loud = λ other cb. more other cb;
      }
    where
      at_tile : tile (core w) ≡ tile c
      at_tile = ap tile g.there

      more :
          tile c ≢ h
          → IsCounter p (via (tile c) h)
          → suc k ≤ shows.contents (threads.store8 q v w) (via (tile c) h)
      more other cb =
          let grown : suc (shows.contents w (via (tile c) h))
              ≤ shows.contents (threads.store8 q v w) (via (tile c) h) =
            rw (g.there, at_home) at
              (store_remote q v w (λ e. other (sym at_tile ∙ e ∙ at_home)) g.counting) in
          omega (arith, grown, g.loud other cb)

  pub read_and_write_spill_to_l3-Stored :
      (ptrs : List ℕ) (n : ℕ) (s : State W)
      → All (λ q. home q ≡ h) ptrs
      → IsCounting p (accepts.written s.world)
      → ((b : ℕ) → IsCounter p b → shows.contents s.world b ≡ 0)
      → Returns
          (λ _ t. Stored (n * length ptrs) t.world)
          (read_and_write_spill_to_l3 threads c ptrs n s)
  read_and_write_spill_to_l3-Stored ptrs n s homes counting still =
      read_and_write_spill_to_l3-stores threads Stored (λ q. home q ≡ h) load8-Stored store8-Stored
        c ptrs n s homes
        (record {
          there = moves c s.world;
          counting =
              IsCounting-same (accepts.written s.world) _ (λ b. move_words _ c b s.world) counting;
          idle = λ same b cb. move_counts _ c b s.world cb ∙ still b cb;
          loud = λ other cb. omega arith;
        })
