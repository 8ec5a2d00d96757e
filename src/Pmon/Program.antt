-- ===== src/Pmon/Program.antt =====
-- srcs/pmon.cpp, lines 195-266: what the four counters of each unit are set to count.
pub mod Loop
pub mod Writes
pub mod Units
pub mod Lookups
use core_map.Base.{
  ℕ, ◌<◌, ◌≡◌, ◌≢◌, refl, ap, ◌∙◌, List, [], ◌∷◌, ℤ, pos, ◌==◌, if◌then◌else◌, arith,
}
use core_map.Base.Effect.{State, Message, M, ◌>>=◌, ◌>>◌}
use core_map.Base.Hoare.{Returns, Returns-bind, Returns-index, Returns-mono}
use core_map.Msr.{MsrDevice, write}
use core_map.Pmon.Tables.{PmonUnit}
use core_map.Pmon.Tables.Layout.{skl_unit, icl_unit, get_elem?-c_skl, get_elem?-c_icl}
use core_map.Pmon.Events.{event_unit}
use core_map.Pmon.{Pmon, checked_write, ring_channels_skl_at, ring_channels_icl_at}

-- What the kernel documents of `pwrite` on the device of one handle, when it does not fail: it
-- transfers 8 bytes, to the given register and no other. `written` is the last word sent to a register.
pub record Accepts {W : Type 0} (d : MsrDevice W) (fd : ℤ) : Type 0 where
  pub written : W → ℕ → ℕ
  pub whole : (a v : ℕ) (w : W) → (d.pwrite fd a v w).0 ≡ pos 8
  pub stores :
      (a v b : ℕ) (w : W) → written (d.pwrite fd a v w).1 b ≡ (if a == b then v else written w b)

-- What a register holds after a sequence of writes, if it held x before.
unfoldable pub final : List (ℕ × ℕ) → ℕ → ℕ → ℕ
final [] b x = x
final ((a, v) ∷ ws) b x = final ws b (if a == b then v else x)

-- The words for the five registers of a unit, in the order of the program.
abbrev pub ring_writes : ℕ → ℕ → PmonUnit → List (ℕ × ℕ)
ring_writes vert horz u =
    (u.unit_ctl, 0x3)
    ∷ (u.ctl0, event_unit vert 0b00000011)
    ∷ (u.ctl1, event_unit vert 0b00001100)
    ∷ (u.ctl2, event_unit horz 0b00000011)
    ∷ (u.ctl3, event_unit horz 0b00001100)
    ∷ []

-- The controls of a unit hold the four ring events: up, down, left and right.
pub record Programmed (reg : ℕ → ℕ) (vert horz : ℕ) (u : PmonUnit) : Type 0 where
  pub reset : reg u.unit_ctl ≡ 0x3
  pub up : reg u.ctl0 ≡ event_unit vert 0b00000011
  pub down : reg u.ctl1 ≡ event_unit vert 0b00001100
  pub left : reg u.ctl2 ≡ event_unit horz 0b00000011
  pub right : reg u.ctl3 ≡ event_unit horz 0b00001100

module _ {W : Type 0} (d : MsrDevice W) (p : Pmon) (law : Accepts d p.msr_h.fd) where
  open law use {written, whole, stores}

  -- Nothing was printed, and the registers are as after the writes.
  pub record Sends (ws : List (ℕ × ℕ)) (s t : State W) : Type 0 where
    pub quiet : t.out ≡ s.out
    pub regs : (b : ℕ) → written t.world b ≡ final ws b (written s.world b)

  pub checked_write-Sends :
      (msg : Message) (a v : ℕ) (s : State W)
      → Returns (λ _ t. Sends ((a, v) ∷ []) s t) (checked_write d msg p a v s)
  unfolding checked_write write ◌>>=◌ final
  checked_write-Sends msg a v s =
      rw (whole a v s.world) (record { quiet = refl; regs = λ b. stores a v b s.world })

  pub Returns-send :
      (msg : Message) (a v : ℕ) (ws : List (ℕ × ℕ)) (k : M W (Unit {0})) (s : State W)
      → ((t : State W) → Returns (λ _ u. Sends ws t u) (k t))
      → Returns (λ _ u. Sends ((a, v) ∷ ws) s u) ((checked_write d msg p a v >> k) s)
  unfolding final
  Returns-send msg a v ws k s rest =
      Returns-bind (λ _ t. Sends ((a, v) ∷ []) s t) (λ _ u. Sends ((a, v) ∷ ws) s u) _ _ s
        (checked_write-Sends msg a v s)
        (λ _ t h.
          Returns-mono (λ _ u. Sends ws t u) (λ _ u. Sends ((a, v) ∷ ws) s u) _ (rest t)
            (λ _ u g. record {
              quiet = g.quiet ∙ h.quiet;
              regs = λ b. g.regs b ∙ ap (final ws b) (h.regs b);
            }))

  pub ring_channels_skl_at-Sends :
      (i : ℕ) (s : State W)
      → i < 28
      → Returns
          (λ _ t. Sends (ring_writes 0xaa 0xab (skl_unit i).regs) s t)
          (ring_channels_skl_at d p i s)
  unfolding ring_channels_skl_at
  ring_channels_skl_at-Sends i s h =
      Returns-index (λ _ t. Sends (ring_writes 0xaa 0xab (skl_unit i).regs) s t) _ _ s
        (get_elem?-c_skl i h)
        (Returns-send _ _ _ _ _ s λ s1. Returns-send _ _ _ _ _ s1 λ s2.
          Returns-send _ _ _ _ _ s2
            λ s3. Returns-send _ _ _ _ _ s3 λ s4. checked_write-Sends _ _ _ s4)

  pub ring_channels_icl_at-Sends :
      (i : ℕ) (s : State W)
      → i < 39
      → Returns
          (λ _ t. Sends (ring_writes 0xb2 0xb8 (icl_unit i).regs) s t)
          (ring_channels_icl_at d p i s)
  unfolding ring_channels_icl_at
  ring_channels_icl_at-Sends i s h =
      Returns-index (λ _ t. Sends (ring_writes 0xb2 0xb8 (icl_unit i).regs) s t) _ _ s
        (get_elem?-c_icl i h)
        (Returns-send _ _ _ _ _ s λ s1. Returns-send _ _ _ _ _ s1 λ s2.
          Returns-send _ _ _ _ _ s2
            λ s3. Returns-send _ _ _ _ _ s3 λ s4. checked_write-Sends _ _ _ s4)
