-- ===== src/Thread.antt =====
-- src/thread.c: barriers, mutexes, read-write locks, conditions and semaphores. The five types repeat
-- one shape: __init__ once, methods behind a test, and a destructor. What blocks is libuv's.
pub mod Types
pub mod Protocol
pub mod Lives
mod Examples
use pyuv.Base.{ℕ, zero, Bool, true, false, not, Option, none, some, List, [], ◌∷◌, if◌then◌else◌}
use pyuv.Base.Int.{is_zero, ℤ, pos, negsuc}
use pyuv.Error.{runtime_error, thread_error}
use pyuv.Py.{Obj, Refs, incref, decref, M, ok, ◌>>=◌, ◌>>◌, guard, parse, put, pure}

pub data SyncType : Type 0 where
  barrier mutex rwlock condition semaphore : SyncType

-- libuv's functions on an initialized primitive; the last two are what uv_cond_wait and
-- uv_cond_timedwait do to the mutex.
pub data UvOp : Type 0 where
  uv_barrier_wait : UvOp
  uv_mutex_lock uv_mutex_unlock uv_mutex_trylock : UvOp
  uv_rwlock_rdlock uv_rwlock_rdunlock uv_rwlock_tryrdlock : UvOp
  uv_rwlock_wrlock uv_rwlock_wrunlock uv_rwlock_trywrlock : UvOp
  uv_cond_signal uv_cond_broadcast uv_cond_wait uv_cond_timedwait : UvOp
  uv_sem_post uv_sem_wait uv_sem_trywait : UvOp
  wait_mutex timedwait_mutex : UvOp

-- A call of libuv on the primitive of an object; an init returns 0 or fails.
pub data UvCall : Type 0 where
  uv_init : SyncType → Bool → UvCall
  uv_op : UvOp → UvCall
  uv_destroy : SyncType → UvCall

-- struct Barrier, Condition, Mutex, RWLock, Semaphore: `calls` is what libuv was called with, the
-- last call first.
pub record Sync : Type 0 where
  pub initialized : Bool
  pub freed : Bool
  pub calls : List UvCall

abbrev pub called : UvCall → Sync → Sync
called c s = record s { calls = c ∷ s.calls }

-- Mutex_tp_new and its kin
unfoldable pub sync_new : Sync
sync_new = record { initialized = false; freed = false; calls = [] }

-- What follows the parsed arguments of __init__.
abbrev pub init_uv : SyncType → ℤ → M Sync (Unit {0})
init_uv t code s =
    (do
      put (called (uv_init t (is_zero code)) s)
      guard (is_zero code) thread_error
      put (record (called (uv_init t (is_zero code)) s) { initialized = true }))
      s
