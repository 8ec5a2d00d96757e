-- ===== src/Tasks/Jobs.antt =====
-- srcs/tasks.cpp, lines 10-37: `rw_job` and `ro_job` run at the same time on one byte. Each access is a
-- step of its own: `*p = *p + 1` is a load and a store, and the other thread may come in between.
pub mod Safety
use core_map.Base.{ℕ, suc, ◌+◌, ◌%◌, ◌^◌, ◌<◌, ◌≡◌, Option, none, some}

pub record Pair : Type 0 where
  pub byte : ℕ
  -- rw_job: its `i`, and the value that it has loaded and not yet stored.
  pub rw_i : ℕ
  pub rw_loaded : Option ℕ
  -- ro_job: its `i` and `res`.
  pub ro_i : ℕ
  pub ro_res : ℕ

-- ro_job reads the byte once before its loop.
unfoldable pub start : ℕ → Pair
start b = record { byte = b; rw_i = 0; rw_loaded = none; ro_i = 0; ro_res = b }

pub data Step (repeat : ℕ) : Pair → Pair → Type 0 where
  rw_load :
      (p : Pair)
      → p.rw_i < repeat
      → p.rw_loaded ≡ none
      → Step repeat p (record p { rw_loaded = some p.byte })
  rw_store :
      (p : Pair) (v : ℕ)
      → p.rw_loaded ≡ some v
      → Step repeat p (record p { byte = (v + 1) % 2 ^ 8; rw_i = p.rw_i + 1; rw_loaded = none })
  ro_read :
      (p : Pair) → p.ro_i < repeat → Step repeat p (record p { ro_i = p.ro_i + 1; ro_res = p.byte })

pub data Reach (repeat : ℕ) (p : Pair) : Pair → Type 0 where
  here : Reach repeat p p
  next : {q r : Pair} → Reach repeat p q → Step repeat q r → Reach repeat p r

-- Both loops have ended.
abbrev pub IsDone : ℕ → Pair → Type 0
IsDone repeat p = (p.rw_i ≡ repeat) × (p.rw_loaded ≡ none) × (p.ro_i ≡ repeat)
