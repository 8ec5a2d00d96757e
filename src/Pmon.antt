-- ===== src/Pmon.antt =====
-- srcs/pmon.h and srcs/pmon.cpp: the performance monitor. An object is a record; a method that
-- changes it returns the new record.
pub mod Tables
pub mod Events
pub mod Report
pub mod Safety
pub mod Program
pub mod Ppin
pub mod Readout
pub mod Prefetch
pub mod Lifetime
use Prim.Native.Nat.{bit_and}
use core_map.Base.{
  ℕ, ◌^◌, Bool, true, false, not, List, [], ◌∷◌, ◌++◌, ℤ, pos, minus_one, is_minus_one, to_uint64,
  get_elem?, ◌==◌, if◌then◌else◌,
}
use core_map.Base.Effect.{
  Message, unit_ctl_write_failed, event_write_failed, freeze_failed, unfreeze_failed,
  ppin_not_unique, ppin_is, busy, M, ◌>>=◌, ◌>>◌, pure, at_index, say, for_range,
}
use core_map.Msr.{MsrDevice, MsrHandle, open_handle, close_handle, write, read, uninitialised}
use core_map.Cpuid.{core_model_skl, core_model_icl}
use Tables.{PmonUnit, c_skl, c_icl}
use Events.{event_unit, event_unit_lookup_icl, box_filter0_skl, box_filter1_skl}
use Report.{CoreCounters, busy_report}

pub record Pmon : Type 0 where
  pub msr_h : MsrHandle
  pub ppin : ℕ
  pub processor_model : ℕ
  pub base_core_id : ℕ
  pub num_cores : ℕ
  pub num_physical_cores : ℕ

-- The conversion of the comparison in `v & 0x3 != 0x2`, which binds tighter than `&`.
abbrev int_of : Bool → ℕ
int_of true = 1
int_of false = 0

module _ {W : Type 0} (d : MsrDevice W) where
  unfoldable pub new_pmon : ℕ → ℕ → ℕ → ℕ → M W Pmon
  new_pmon model base cores physical = do
    h ← open_handle d base
    junk ← uninitialised d
    pure (record {
      msr_h = h;
      ppin = junk;
      processor_model = model;
      base_core_id = base;
      num_cores = cores;
      num_physical_cores = physical;
    })

  unfoldable pub delete_pmon : Pmon → M W (Unit {0})
  delete_pmon p = close_handle d p.msr_h

  pub check_unique_ppin : Pmon → M W (Pmon × ℤ)
  check_unique_ppin p = do
    junk ← uninitialised d
    got ← read d p.msr_h 0x4E junk
    if not (bit_and got.1 (int_of (not (0x3 == 0x2))) == 0)
        then (do say ppin_not_unique; pure (p, minus_one))
        else (do
          id ← read d p.msr_h 0x4F p.ppin
          say (ppin_is id.1)
          pure (record p { ppin = id.1 }, pos 0))

  unfoldable pub freeze : Pmon → M W ℤ
  freeze p = do
    r ← write d p.msr_h 0x0700 (2 ^ 63)
    if is_minus_one r then (do say freeze_failed; pure minus_one) else pure (pos 0)

  unfoldable pub unfreeze : Pmon → M W ℤ
  unfreeze p = do
    r ← write d p.msr_h 0x0700 (2 ^ 61)
    if is_minus_one r then (do say unfreeze_failed; pure minus_one) else pure (pos 0)

  -- ret = msr_h->write(addr, value); if(ret != 8) std::cout << ...
  unfoldable pub checked_write : Message → Pmon → ℕ → ℕ → M W (Unit {0})
  checked_write msg p addr value = do
    r ← write d p.msr_h addr value
    if to_uint64 r == 8 then pure tt else say msg

  unfoldable pub ring_channels_skl_at : Pmon → ℕ → M W (Unit {0})
  ring_channels_skl_at p cha_num = do
    u ← at_index (get_elem? c_skl cha_num)
    checked_write unit_ctl_write_failed p u.unit_ctl 0x3
    checked_write event_write_failed p u.ctl0 (event_unit 0xaa 0b00000011)
    checked_write event_write_failed p u.ctl1 (event_unit 0xaa 0b00001100)
    checked_write event_write_failed p u.ctl2 (event_unit 0xab 0b00000011)
    checked_write event_write_failed p u.ctl3 (event_unit 0xab 0b00001100)

  unfoldable pub set_pmon_ring_channels_skl : Pmon → M W (Unit {0})
  unfolding ring_channels_skl_at
  set_pmon_ring_channels_skl p =
      for_range p.num_physical_cores 0 (λ cha_num _. ring_channels_skl_at p cha_num) tt

  unfoldable pub ring_channels_icl_at : Pmon → ℕ → M W (Unit {0})
  ring_channels_icl_at p cha_num = do
    u ← at_index (get_elem? c_icl cha_num)
    checked_write unit_ctl_write_failed p u.unit_ctl 0x3
    checked_write event_write_failed p u.ctl0 (event_unit 0xb2 0b00000011)
    checked_write event_write_failed p u.ctl1 (event_unit 0xb2 0b00001100)
    checked_write event_write_failed p u.ctl2 (event_unit 0xb8 0b00000011)
    checked_write event_write_failed p u.ctl3 (event_unit 0xb8 0b00001100)

  unfoldable pub set_pmon_ring_channels_icl : Pmon → M W (Unit {0})
  unfolding ring_channels_icl_at
  set_pmon_ring_channels_icl p =
      for_range p.num_physical_cores 0 (λ cha_num _. ring_channels_icl_at p cha_num) tt

  unfoldable pub set_pmon_ring_channels : Pmon → M W (Unit {0})
  set_pmon_ring_channels p =
      if p.processor_model == core_model_skl
      then set_pmon_ring_channels_skl p
      else if p.processor_model == core_model_icl
      then set_pmon_ring_channels_icl p
      else pure tt

  unfoldable pub llc_skl_at : Pmon → ℕ → M W (Unit {0})
  llc_skl_at p cha_num = do
    u ← at_index (get_elem? c_skl cha_num)
    checked_write unit_ctl_write_failed p u.unit_ctl 0x3
    checked_write event_write_failed p u.ctl0 (event_unit 0x36 0b00100001)
    checked_write event_write_failed p u.ctl1 (event_unit 0x34 0b00010001)
    checked_write event_write_failed p u.ctl2 (event_unit 0x37 0b00101111)
    checked_write event_write_failed p u.box_filter0 box_filter0_skl
    checked_write event_write_failed p u.box_filter1 box_filter1_skl

  unfoldable pub set_llc_pmon_skl : Pmon → M W (Unit {0})
  unfolding llc_skl_at
  set_llc_pmon_skl p = for_range p.num_physical_cores 0 (λ cha_num _. llc_skl_at p cha_num) tt

  unfoldable pub llc_icl_at : Pmon → ℕ → M W (Unit {0})
  llc_icl_at p cha_num = do
    u ← at_index (get_elem? c_icl cha_num)
    checked_write unit_ctl_write_failed p u.unit_ctl 0x3
    checked_write event_write_failed p u.ctl0 (event_unit 0x36 0b00100001)
    checked_write event_write_failed p u.ctl1 event_unit_lookup_icl
    checked_write event_write_failed p u.ctl2 (event_unit 0x37 0b00101111)

  unfoldable pub set_llc_pmon_icl : Pmon → M W (Unit {0})
  unfolding llc_icl_at
  set_llc_pmon_icl p = for_range p.num_physical_cores 0 (λ cha_num _. llc_icl_at p cha_num) tt

  unfoldable pub set_llc_pmon : Pmon → M W (Unit {0})
  set_llc_pmon p =
      if p.processor_model == core_model_skl
      then set_llc_pmon_skl p
      else if p.processor_model == core_model_icl
      then set_llc_pmon_icl p
      else pure tt

  -- The four reads of one unit into a struct that holds `junk`.
  pub read_unit : Pmon → ℕ → PmonUnit → M W CoreCounters
  read_unit p junk u = do
    c0 ← read d p.msr_h u.ctr0 junk
    c1 ← read d p.msr_h u.ctr1 junk
    c2 ← read d p.msr_h u.ctr2 junk
    c3 ← read d p.msr_h u.ctr3 junk
    pure (record { ctr0 = c0.1; ctr1 = c1.1; ctr2 = c2.1; ctr3 = c3.1 })

  pub read_counters_at : Pmon → ℕ → M W CoreCounters
  unfolding read_unit
  read_counters_at p i = do
    junk ← uninitialised d
    if p.processor_model == core_model_skl
        then (do u ← at_index (get_elem? c_skl i); read_unit p junk u.regs)
        else if p.processor_model == core_model_icl
        then (do u ← at_index (get_elem? c_icl i); read_unit p junk u.regs)
        else pure (record { ctr0 = junk; ctr1 = junk; ctr2 = junk; ctr3 = junk })

  pub read_counters : Pmon → M W (List CoreCounters)
  unfolding read_counters_at
  read_counters p =
      for_range p.num_physical_cores 0
        (λ i res. do counters ← read_counters_at p i; pure (res ++ counters ∷ [])) []

  unfoldable pub prefetch_at : ℕ → ℕ → M W (Unit {0})
  prefetch_at value i = do
    socket ← open_handle d i
    write d socket 0x1a4 value
    close_handle d socket

  pub enable_prefetch : Pmon → M W (Unit {0})
  enable_prefetch p = for_range p.num_cores p.base_core_id (λ i _. prefetch_at 0x0 i) tt

  pub disable_prefetch : Pmon → M W (Unit {0})
  disable_prefetch p = for_range p.num_cores p.base_core_id (λ i _. prefetch_at 0xF i) tt

  unfoldable pub print_busy_path : Pmon → ℕ → ℕ → ℕ → M W (Unit {0})
  unfolding busy_report
  print_busy_path p core_id data_loc_cha_id limit = do
    counters ← read_counters p
    say (busy core_id data_loc_cha_id (busy_report limit 0 counters))
