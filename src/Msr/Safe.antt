-- ===== src/Msr/Safe.antt =====
-- srcs/msr.h, lines 65-151: a handle that may be empty, with a mutex. An empty one reads 0 and takes every
-- write. The object is not copied, so it alone owns its handle.
use core_map.Base.{ℕ, Option, none, some, ℤ, pos}
use core_map.Base.Effect.{M, ◌>>=◌, ◌>>◌, pure, throw}
use core_map.Msr.{MsrDevice, MsrHandle, open_handle, close_handle, read, write, get_core_id}
use core_map.Msr.Mac.{
  Accessor, Mac, build_topology, get_num_instances, increment_num_instances,
  decrement_num_instances,
}
use core_map.Mutex.{MutexCalls, Mutex, new_mutex, delete_mutex, lock, unlock}

pub record SafeMsrHandle : Type 0 where
  pub handle : Option MsrHandle
  pub mutex : Mutex

module _ {W : Type 0} (d : MsrDevice W) (t : MutexCalls W) where
  -- Both constructors, for an object whose mutex stands at the address.
  empty_handle : ℕ → M W SafeMsrHandle
  empty_handle address = do m ← new_mutex t address; pure (record { handle = none; mutex = m })

  -- The handle is opened before the mutex is made.
  safe_handle : ℕ → ℕ → M W SafeMsrHandle
  safe_handle address core_id = do
    h ← open_handle d core_id
    m ← new_mutex t address
    pure (record { handle = some h; mutex = m })

  close_if_some : Option MsrHandle → M W (Unit {0})
  close_if_some none = pure tt
  close_if_some (some h) = close_handle d h

  -- The destructor: the members go in the reverse order.
  delete_safe_handle : SafeMsrHandle → M W (Unit {0})
  unfolding close_if_some
  delete_safe_handle s = do delete_mutex t s.mutex; close_if_some s.handle

  read_or_zero : Option MsrHandle → ℕ → ℕ → M W (ℤ × ℕ)
  read_or_zero (some h) msr_number old = read d h msr_number old
  read_or_zero none msr_number old = pure (pos 8, 0)

  safe_read : SafeMsrHandle → ℕ → ℕ → M W (ℤ × ℕ)
  unfolding read_or_zero
  safe_read s msr_number old = read_or_zero s.handle msr_number old

  write_or_ignore : Option MsrHandle → ℕ → ℕ → M W ℤ
  write_or_ignore (some h) msr_number value = write d h msr_number value
  write_or_ignore none msr_number value = pure (pos 8)

  safe_write : SafeMsrHandle → ℕ → ℕ → M W ℤ
  unfolding write_or_ignore
  safe_write s msr_number value = write_or_ignore s.handle msr_number value

module _ {W : Type 0} where
  core_id_or_throw : Option MsrHandle → M W ℕ
  core_id_or_throw (some h) = pure (get_core_id h)
  core_id_or_throw none = throw

  safe_get_core_id : SafeMsrHandle → M W ℕ
  unfolding core_id_or_throw
  safe_get_core_id s = core_id_or_throw s.handle

module _ {W : Type 0} (t : MutexCalls W) where
  safe_lock : SafeMsrHandle → M W (Unit {0})
  safe_lock s = lock t s.mutex

  safe_unlock : SafeMsrHandle → M W (Unit {0})
  safe_unlock s = unlock t s.mutex

-- The macOS members. A handle of that version is known by its core.
module _ {W D : Type 0} (a : Accessor W D) where
  or_throw : {A : Type 0} → Option ℕ → M (Mac W D) A → M (Mac W D) A
  or_throw (some cpu) call = call
  or_throw none call = throw

  safe_build_topology : Option ℕ → ℕ → ℕ → M (Mac W D) ℤ
  unfolding or_throw
  safe_build_topology handle num_cores p = or_throw handle (build_topology a num_cores p)

  safe_get_num_instances : Option ℕ → M (Mac W D) ℕ
  unfolding or_throw
  safe_get_num_instances handle = or_throw handle (get_num_instances a)

  safe_increment_num_instances : Option ℕ → M (Mac W D) ℕ
  unfolding or_throw
  safe_increment_num_instances handle = or_throw handle (increment_num_instances a)

  safe_decrement_num_instances : Option ℕ → M (Mac W D) ℕ
  unfolding or_throw
  safe_decrement_num_instances handle = or_throw handle (decrement_num_instances a)
