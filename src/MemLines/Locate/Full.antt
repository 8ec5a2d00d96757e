-- ===== src/MemLines/Locate/Full.antt =====
-- srcs/mem_lines.cpp, lines 99-129: what `initialize_local_lines` promises, on every machine.
use core_map.Base.{
  ℕ, zero, suc, ◌+◌, ◌*◌, ◌≤◌, ◌<◌, ◌≡◌, refl, sym, ap, ◌∙◌, inl, inr, ℤ, pos, minus_one, List, [],
  ◌∷◌, length, arith, tests, ltb, leb, ◌==◌, Bool-cases, ltb→le,
}
use core_map.Base.Effect.{State}
use core_map.Base.Hoare.{Ensures, Ensures-then, Ensures-bind, Ensures-use}
use native.Mathlib.Numerals.{add-one}
use core_map.Pmon.{Pmon}
use core_map.Pmon.Safety.{
  Fits, freeze-Returns, unfreeze-Returns, set_llc_pmon-Returns, read_counters-Returns,
}
use core_map.Tasks.Returns.{read_and_write-Returns}
use core_map.MemLines.Address.{get_l2_index}
use core_map.MemLines.Address.{Opens}
use core_map.Base.Hoare.{int_sum-Returns}
use core_map.Base.{◌^◌}
use core_map.MemLines.Address.Lookup.{get_physical_address-lt}
use core_map.MemLines.Object.{Machine, MemLines, num_lines, zero-lt-num_lines}
use core_map.MemLines.Locate.{sample_line, visit_line, initialize_loop, initialize_local_lines}
use core_map.MemLines.Locate.Buckets.{Climbs, Buckets, Buckets-mono, total}
use core_map.MemLines.Locate.Sampling.{IsLocated, Promise, find_local_lines-Sampled}

-- Only the lines and their number differ.
abbrev pub SameButLines : MemLines → MemLines → Type 0
SameButLines ml ml' =
    ml' ≡ record ml { local_lines = ml'.local_lines; local_found_count = ml'.local_found_count }

-- Each bucket has its 22 lines, each once, all of them below `hi`.
abbrev pub AllFull : ℕ → List (List ℕ) → Type 0
AllFull hi [] = Unit {0}
AllFull hi (xs ∷ xss) = (length xs ≡ 22) × Climbs 0 hi xs × AllFull hi xss

total-le : (hi : ℕ) (xss : List (List ℕ)) → Buckets hi xss → total xss ≤ 22 * length xss
total-le hi [] b = omega arith
total-le hi (xs ∷ xss) b = omega (arith, total-le hi xss b.1)

-- Buckets that hold 22 lines on average hold 22 each.
total-AllFull :
    (hi : ℕ) (xss : List (List ℕ)) → Buckets hi xss → 22 * length xss ≤ total xss → AllFull hi xss
total-AllFull hi [] b h = tt
total-AllFull hi (xs ∷ xss) b h = (
  omega (arith, total-le hi xss b.1, b.0.0),
  b.0.1,
  total-AllFull hi xss b.1 (omega (arith, total-le hi xss b.1, b.0.0)),
)

-- What holds between two rounds.
pub record Between (start : MemLines) (line : ℕ) (ml : MemLines) : Type 0 where
  pub located : IsLocated line ml
  pub same : SameButLines start ml

pub same-units :
    (start ml : MemLines) → SameButLines start ml → ml.num_physical_cores ≡ start.num_physical_cores
same-units start ml = ap (λ (x : MemLines). x.num_physical_cores)

pub same-base : (start ml : MemLines) → SameButLines start ml → ml.base_core_id ≡ start.base_core_id
same-base start ml = ap (λ (x : MemLines). x.base_core_id)

pub same_trans :
    (start ml ml' : MemLines) → SameButLines start ml → SameButLines ml ml' → SameButLines start ml'
same_trans start ml ml' e f =
    f
    ∙ ap
        (λ (x : MemLines). record x {
          local_lines = ml'.local_lines;
          local_found_count = ml'.local_found_count;
        })
        e

-- A return code, and what it promises.
pub data Located (ml : MemLines) (r : ℤ) : Type 0 where
  all_found :
      r ≡ pos 0
      → length ml.local_lines ≡ ml.num_physical_cores
      → AllFull num_lines ml.local_lines
      → Located ml r
  too_few : r ≡ minus_one → Located ml r

abbrev pub Ends : {W : Type 0} → MemLines → MemLines × ℤ → State W → Type 0
Ends start got t = Located got.0 got.1 × SameButLines start got.0

module _ {W : Type 0} (m : Machine W) (p : Pmon) (fits : Fits p) (start : MemLines)
    (units : p.num_physical_cores ≡ start.num_physical_cores) (opens : Opens m.pages)
    (pair : start.base_core_id + 1 < 2 ^ 31) where
  sample_line-Between :
      (ml : MemLines) (line : ℕ) (s : State W)
      → Between start line ml
      → Ensures (λ ml' t. Between start (suc line) ml') (sample_line m p ml line s)
  unfolding sample_line
  sample_line-Between ml line s b = Ensures-then _ _ _ s (freeze-Returns m.msr p s) λ _ s1.
      Ensures-then _ _ _ s1 (set_llc_pmon-Returns m.msr p s1 fits) λ _ s2.
        Ensures-then _ _ _ s2 (unfreeze-Returns m.msr p s2) λ _ s3.
          Ensures-use (λ r t. (r ≡ ml.base_core_id + 1) × (t ≡ s3)) _ _ _ s3
            (int_sum-Returns ml.base_core_id 1 s3 (rw (same-base start ml b.same) pair))
            λ _ s3' _. Ensures-then _ _ _ s3' (read_and_write-Returns m.threads _ _ _ _ s3') λ _ s4.
              Ensures-then _ _ _ s4 (freeze-Returns m.msr p s4) λ _ s5.
                Ensures-use (λ cs t. length cs ≡ p.num_physical_cores) _ _ _ s5
                  (read_counters-Returns m.msr p s5 fits)
                  λ cs s6 len.
                    Ensures-use (Promise ml line cs s6.world) _ _ _ s6
                      (find_local_lines-Sampled ml line cs s6.world
                        (len ∙ units ∙ sym (same-units start ml b.same)) b.located s6 refl)
                      λ got s7 h. Ensures-then _ _ _ s7 (unfreeze-Returns m.msr p s7) λ _ s8.
                        record {
                          located = h.0.located;
                          same = same_trans start ml got.0 b.same h.0.frame;
                        }

  pub visit_line-Between :
      (ml : MemLines) (line : ℕ) (s : State W)
      → Between start line ml
      → Ensures (λ ml' t. Between start (suc line) ml') (visit_line m p ml line s)
  unfolding visit_line
  visit_line-Between ml line s b =
      Ensures-bind _ _ _ _ s (get_physical_address-lt m.pages opens _ s) λ physical t _.
        elim (Bool-cases (get_l2_index physical == 1)) [
          | inl one ↦ rw one (sample_line-Between ml line t b)
          | inr other ↦ rw other (record { located = skip_line; same = b.same })
        ]
    where
      skip_line : IsLocated (suc line) ml
      skip_line = record {
        size = b.located.size;
        counted = b.located.counted;
        bucketed = Buckets-mono line (suc line) ml.local_lines b.located.bucketed (omega arith);
      }

  pub stop-Located :
      (line : ℕ) (ml : MemLines) (s : State W)
      → line < num_lines
      → Between start line ml
      → ml.num_physical_cores * 22 ≤ ml.local_found_count
      → Located ml (pos 0)
  stop-Located line ml s lt b h =
      all_found refl
        (omega (
          arith,
          total-le line ml.local_lines b.located.bucketed,
          b.located.counted,
          b.located.size,
        ))
        (total-AllFull num_lines ml.local_lines
          (Buckets-mono line num_lines ml.local_lines b.located.bucketed (omega arith))
          (omega (arith, b.located.counted, b.located.size)))

  initialize_loop-Located :
      (fuel line : ℕ) (ml : MemLines) (s : State W)
      → num_lines ≤ fuel + line
      → line < num_lines
      → Between start line ml
      → Ensures (Ends start) (initialize_loop m p fuel ml line s)
  unfolding initialize_loop
  initialize_loop-Located zero line ml s h lt b = absurd (omega arith)
  initialize_loop-Located (suc fuel) line ml s h lt b =
      elim (Bool-cases (ltb ml.local_found_count (ml.num_physical_cores * 22))) [
        | inr full ↦ rw full (stop-Located line ml s lt b (ltb→le _ _ full), b.same)
        | inl few ↦ rw few (
            Ensures-bind (λ ml' t. Between start (suc line) ml') _ _ _ s
              (visit_line-Between ml line s b)
              λ ml' t b'. elim (Bool-cases (leb num_lines (line + 1))) [
                | inl last ↦
                    rw last (Ensures-then (Ends start) _ _ t tt λ _ u. (too_few refl, b'.same))
                | inr more ↦
                    rw (more, add-one line)
                      (initialize_loop-Located fuel (suc line) ml' t (omega arith) (omega tests) b')
              ])
      ]

-- For every machine on which the page map opens, when the monitor's table has an entry for each
-- unit, the monitor and the object have the same number of units, the base core's id plus 1 fits an
-- int, and the object has no lines yet: the search for lines meets no undefined behaviour and never
-- uses up its bound of NUM_LINES rounds. If it returns 0, there is a bucket for each unit, with 22
-- lines each, strictly increasing and below NUM_LINES; otherwise it returns -1, or the process has
-- ended or thrown. Nothing of the object but the lines and their number changes.
pub initialize_local_lines-Ends :
    {W : Type 0} (m : Machine W) (p : Pmon) (ml : MemLines) (s : State W)
    → Fits p
    → p.num_physical_cores ≡ ml.num_physical_cores
    → ml.local_lines ≡ []
    → Opens m.pages
    → ml.base_core_id + 1 < 2 ^ 31
    → Ensures (Ends ml) (initialize_local_lines m p ml s)
unfolding initialize_local_lines
initialize_local_lines-Ends m p ml s fits units none_yet opens pair =
    initialize_loop-Located m p fits ml units opens pair num_lines 0
      (record ml { local_found_count = 0 }) s (omega arith) zero-lt-num_lines
      (record {
        located = record {
          size = rw none_yet (omega arith);
          counted = rw none_yet;
          bucketed = rw none_yet tt;
        };
        same = refl;
      })
