-- ===== src/Msr/Mac.antt =====
-- srcs/msr.cpp, lines 100-158, the macOS version: all handles share one accessor, which the first
-- one creates and the last one deletes. MSRAccessor is a parameter.
pub mod Lifetime
use mathlib.Core.Option.{get_or}
use core_map.Base.{
  is_zero, ℕ, zero, suc, Bool, true, false, Option, none, some, ℤ, pos, if◌then◌else◌,
}
use core_map.Base.Effect.{State, M, ◌>>=◌, ◌>>◌, pure, fault, call, tell}

pub record Accessor (W D : Type 0) : Type 0 where
  pub create : W → D × W
  pub delete : D → W → W
  pub write : D → ℕ → ℕ → ℕ → W → ℤ × W
  pub read : D → ℕ → ℕ → W → (ℤ × Option ℕ) × W
  pub build_topology : D → ℕ → ℕ → W → ℤ × W
  pub get_num_instances : D → W → ℕ × W
  pub increment_num_instances : D → W → ℕ × W
  pub decrement_num_instances : D → W → ℕ × W

-- The static members, beside the world. `none` is the null pointer.
pub record Mac (W D : Type 0) : Type 0 where
  pub driver : Option D
  pub num_handles : ℤ
  pub world : W

abbrev add_one : ℤ → ℤ
add_one (pos n) = pos (suc n)
add_one (ℤ.negsuc zero) = pos 0
add_one (ℤ.negsuc (suc n)) = ℤ.negsuc n

abbrev sub_one : ℤ → ℤ
sub_one (pos zero) = ℤ.negsuc 0
sub_one (pos (suc n)) = pos n
sub_one (ℤ.negsuc n) = ℤ.negsuc (suc n)

module _ {W D : Type 0} (a : Accessor W D) where
  create_or_count : Option D → M (Mac W D) (Unit {0})
  create_or_count none s =
      let (d, w) = a.create s.world.world in
      tell (λ _. record { driver = some d; num_handles = pos 1; world = w }) s
  create_or_count (some d) s = tell (λ x. record x { num_handles = add_one x.num_handles }) s

  -- The constructor, for the core with the given id.
  pub construct : ℕ → M (Mac W D) ℕ
  unfolding create_or_count
  construct cpu s = (create_or_count s.world.driver >> pure cpu) s

  -- delete of a null pointer does nothing.
  free_driver : Option D → W → W
  free_driver none w = w
  free_driver (some d) w = a.delete d w

  -- The destructor.
  pub destroy : M (Mac W D) (Unit {0})
  unfolding free_driver
  destroy = tell λ x.
      let n = sub_one x.num_handles in
      if is_zero n
      then record { driver = none; num_handles = n; world = free_driver x.driver x.world }
      else record x { num_handles = n }

  -- driver->...; a call through the null pointer is undefined.
  through : {A : Type 0} → Option D → (D → W → A × W) → M (Mac W D) A
  through none f = fault
  through (some d) f = call λ x. let (r, w) = f d x.world in (r, record x { world = w })

  pub mac_write : ℕ → ℕ → ℕ → M (Mac W D) ℤ
  unfolding through
  mac_write cpu_id msr_number value s =
      through s.world.driver (λ d. a.write d cpu_id msr_number value) s

  pub mac_read : ℕ → ℕ → ℕ → M (Mac W D) (ℤ × ℕ)
  unfolding through
  mac_read cpu_id msr_number old s =
      through s.world.driver
        (λ d w. let (got, w') = a.read d cpu_id msr_number w in ((got.0, get_or got.1 old), w')) s

  pub build_topology : ℕ → ℕ → M (Mac W D) ℤ
  unfolding through
  build_topology num_cores ptr s = through s.world.driver (λ d. a.build_topology d num_cores ptr) s

  pub get_num_instances : M (Mac W D) ℕ
  unfolding through
  get_num_instances s = through s.world.driver a.get_num_instances s

  pub increment_num_instances : M (Mac W D) ℕ
  unfolding through
  increment_num_instances s = through s.world.driver a.increment_num_instances s

  pub decrement_num_instances : M (Mac W D) ℕ
  unfolding through
  decrement_num_instances s = through s.world.driver a.decrement_num_instances s
