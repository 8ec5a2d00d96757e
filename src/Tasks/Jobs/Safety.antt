-- ===== src/Tasks/Jobs/Safety.antt =====
-- What the two jobs leave in the byte, under every interleaving.
use core_map.Base.{
  ℕ, ◌+◌, ◌-◌, ◌*◌, ◌%◌, ◌^◌, ◌≤◌, ◌<◌, ◌≡◌, ◌⊎◌, inl, inr, Option, none, some, arith, Option-cases,
}
use native.Mathlib.Decide.{dec_lt}
use core_map.Tasks.Jobs.{Pair, start, Step, rw_load, rw_store, ro_read, Reach, here, next, IsDone}

-- The byte counts the finished rounds of rw_job; nothing else writes it.
pub record Counts (repeat b : ℕ) (p : Pair) : Type 0 where
  pub byte : p.byte ≡ (b + p.rw_i) % 2 ^ 8
  pub loaded : (v : ℕ) → p.rw_loaded ≡ some v → (v ≡ p.byte) × (p.rw_i < repeat)
  pub rw_bound : p.rw_i ≤ repeat
  pub ro_bound : p.ro_i ≤ repeat

Step-Counts : {repeat b : ℕ} {p q : Pair} → Step repeat p q → Counts repeat b p → Counts repeat b q
Step-Counts (rw_load p room free) c = record {
  byte = c.byte;
  loaded = λ v e. ground arith;
  rw_bound = c.rw_bound;
  ro_bound = c.ro_bound;
}
Step-Counts (rw_store p v e) c = record {
  byte = ground (arith, c.loaded v e, c.byte);
  loaded = λ w f. cc;
  rw_bound = ground (arith, c.loaded v e);
  ro_bound = c.ro_bound;
}
Step-Counts (ro_read p room) c = record {
  byte = c.byte;
  loaded = c.loaded;
  rw_bound = c.rw_bound;
  ro_bound = ground arith;
}

Reach-Counts :
    {repeat b : ℕ} {p q : Pair} → Counts repeat b p → Reach repeat p q → Counts repeat b q
Reach-Counts c here = c
Reach-Counts c (next r st) = Step-Counts st (Reach-Counts c r)

pub start-Counts : (repeat b : ℕ) → b < 2 ^ 8 → Counts repeat b (start b)
unfolding start
start-Counts repeat b h = record {
  byte = omega arith;
  loaded = λ v e. cc;
  rw_bound = omega arith;
  ro_bound = omega arith;
}

-- However the steps of the two threads interleave from a byte below 256, when both loops have ended
-- the byte has been incremented as often as it was to be, modulo 256: no increment is lost.
pub done_byte :
    (repeat b : ℕ) (p : Pair)
    → b < 2 ^ 8
    → Reach repeat (start b) p
    → IsDone repeat p
    → p.byte ≡ (b + repeat) % 2 ^ 8
done_byte repeat b p h r d = ground (arith, (Reach-Counts (start-Counts repeat b h) r).byte)

-- The steps that are left.
abbrev pending : Option ℕ → ℕ
pending none = 1
pending (some v) = 0

abbrev pub work : ℕ → Pair → ℕ
work repeat p = 2 * (repeat - p.rw_i) + (repeat - p.ro_i) + pending p.rw_loaded

-- Every step, from a state in which the byte counts the finished rounds, a loaded value is the
-- byte's, and neither counter is past its end, leaves strictly less work to do.
pub Step-work :
    (repeat b : ℕ) {p q : Pair}
    → Counts repeat b p
    → Step repeat p q
    → work repeat q < work repeat p
Step-work repeat b c (rw_load p room free) = ground arith
Step-work repeat b c (rw_store p v e) = ground (arith, c.loaded v e)
Step-work repeat b c (ro_read p room) = ground arith

-- A state of the two threads in which the byte counts the finished rounds, a loaded value is the
-- byte's, and neither counter is past its end, is one in which both loops have ended, or it has a
-- step.
progress :
    (repeat b : ℕ) (p : Pair) → Counts repeat b p → IsDone repeat p ⊎ ((q : Pair) × Step repeat p q)
progress repeat b p c = elim (Option-cases p.rw_loaded) [
  | inr (v, e) ↦ inr (_, rw_store p v e)
  | inl e ↦ elim (dec_lt p.rw_i repeat) [
    | yes room ↦ inr (_, rw_load p room e)
    | no full ↦ elim (dec_lt p.ro_i repeat) [
      | yes room ↦ inr (_, ro_read p room)
      | no full' ↦ inl (omega (arith, c.rw_bound), e, omega (arith, c.ro_bound))
    ]
  ]
]
