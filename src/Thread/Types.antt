-- ===== src/Thread/Types.antt =====
-- The five types of src/thread.c: __init__, the methods and the destructor of each.
use pyuv.Base.{ℕ, Bool, true, not, Option, get_or, if◌then◌else◌}
use pyuv.Base.Int.{is_zero, ℤ}
use pyuv.Error.{runtime_error}
use pyuv.Py.{Obj, none_obj, Refs, incref, decref, M, pure, ◌>>=◌, ◌>>◌, guard, parse, put}
use pyuv.Thread.{
  Sync, barrier, mutex, rwlock, condition, semaphore, UvOp, uv_barrier_wait, uv_mutex_lock,
  uv_mutex_unlock, uv_mutex_trylock, uv_rwlock_rdlock, uv_rwlock_rdunlock, uv_rwlock_tryrdlock,
  uv_rwlock_wrlock, uv_rwlock_wrunlock, uv_rwlock_trywrlock, uv_cond_signal, uv_cond_broadcast,
  uv_sem_post, uv_sem_wait, uv_sem_trywait, uv_cond_wait, uv_cond_timedwait, wait_mutex,
  timedwait_mutex, uv_op, uv_destroy, called, init_uv,
}

-- A method: RAISE_IF_NOT_INITIALIZED, and libuv's function.
abbrev pub method : {A : Type 0} → UvOp → A → M Sync A
method op r s = (do guard s.initialized runtime_error; put (called (uv_op op) s); pure r) s

-- Barrier_tp_init: `uv` is uv_barrier_init, which is given the count.
unfoldable pub barrier_init : (uv : ℕ → ℤ) → Option ℕ → M Sync (Unit {0})
barrier_init uv args s =
    (do guard (not s.initialized) runtime_error; count ← parse args; init_uv barrier (uv count)) s

-- Barrier_func_wait; `r` is what libuv returns
unfoldable pub barrier_wait : ℤ → M Sync Bool
barrier_wait r = method uv_barrier_wait (not (is_zero r))

-- Barrier_tp_dealloc
unfoldable pub barrier_dealloc : Sync → Sync
barrier_dealloc s =
    let t = if s.initialized then called (uv_destroy barrier) s else s in record t { freed = true }

-- Mutex_tp_init: `code` is what uv_mutex_init returns.
unfoldable pub mutex_init : (code : ℤ) → M Sync (Unit {0})
mutex_init code s = (do guard (not s.initialized) runtime_error; init_uv mutex code) s

-- Mutex_func_lock, Mutex_func_unlock, Mutex_func_trylock; `r` is what libuv returns
unfoldable pub mutex_lock : M Sync Obj
mutex_lock = method uv_mutex_lock none_obj

unfoldable pub mutex_unlock : M Sync Obj
mutex_unlock = method uv_mutex_unlock none_obj

unfoldable pub mutex_trylock : ℤ → M Sync Bool
mutex_trylock r = method uv_mutex_trylock (is_zero r)

-- Mutex_tp_dealloc
unfoldable pub mutex_dealloc : Sync → Sync
mutex_dealloc s =
    let t = if s.initialized then called (uv_destroy mutex) s else s in record t { freed = true }

-- RWLock_tp_init: `code` is what uv_rwlock_init returns.
unfoldable pub rwlock_init : (code : ℤ) → M Sync (Unit {0})
rwlock_init code s = (do guard (not s.initialized) runtime_error; init_uv rwlock code) s

-- RWLock_func_rdlock, RWLock_func_rdunlock, RWLock_func_tryrdlock, RWLock_func_wrlock, RWLock_func_wrunlock, RWLock_func_trywrlock; `r` is what libuv returns
unfoldable pub rwlock_rdlock : M Sync Obj
rwlock_rdlock = method uv_rwlock_rdlock none_obj

unfoldable pub rwlock_rdunlock : M Sync Obj
rwlock_rdunlock = method uv_rwlock_rdunlock none_obj

unfoldable pub rwlock_tryrdlock : ℤ → M Sync Bool
rwlock_tryrdlock r = method uv_rwlock_tryrdlock (is_zero r)

unfoldable pub rwlock_wrlock : M Sync Obj
rwlock_wrlock = method uv_rwlock_wrlock none_obj

unfoldable pub rwlock_wrunlock : M Sync Obj
rwlock_wrunlock = method uv_rwlock_wrunlock none_obj

unfoldable pub rwlock_trywrlock : ℤ → M Sync Bool
rwlock_trywrlock r = method uv_rwlock_trywrlock (is_zero r)

-- RWLock_tp_dealloc
unfoldable pub rwlock_dealloc : Sync → Sync
rwlock_dealloc s =
    let t = if s.initialized then called (uv_destroy rwlock) s else s in record t { freed = true }

-- Condition_tp_init: `code` is what uv_cond_init returns.
unfoldable pub condition_init : (code : ℤ) → M Sync (Unit {0})
condition_init code s = (do guard (not s.initialized) runtime_error; init_uv condition code) s

-- Condition_func_signal, Condition_func_broadcast
unfoldable pub condition_signal : M Sync Obj
condition_signal = method uv_cond_signal none_obj

unfoldable pub condition_broadcast : M Sync Obj
condition_broadcast = method uv_cond_broadcast none_obj

-- Condition_tp_dealloc
unfoldable pub condition_dealloc : Sync → Sync
condition_dealloc s =
    let t = if s.initialized then called (uv_destroy condition) s else s in
    record t { freed = true }

-- Semaphore_tp_init: the value is 1 where it is left out.
unfoldable pub semaphore_init : (uv : ℕ → ℤ) → Option (Option ℕ) → M Sync (Unit {0})
semaphore_init uv args s =
    (do
      guard (not s.initialized) runtime_error
      value ← parse args
      init_uv semaphore (uv (get_or value 1)))
      s

-- Semaphore_func_post, Semaphore_func_wait, Semaphore_func_trywait; `r` is what libuv returns
unfoldable pub semaphore_post : M Sync Obj
semaphore_post = method uv_sem_post none_obj

unfoldable pub semaphore_wait : M Sync Obj
semaphore_wait = method uv_sem_wait none_obj

unfoldable pub semaphore_trywait : ℤ → M Sync Bool
semaphore_trywait r = method uv_sem_trywait (is_zero r)

-- Semaphore_tp_dealloc
unfoldable pub semaphore_dealloc : Sync → Sync
semaphore_dealloc s =
    let t = if s.initialized then called (uv_destroy semaphore) s else s in
    record t { freed = true }

-- A condition and the mutex that it is given, at address `m`, with the counts of the interpreter.
pub record Waiting : Type 0 where
  pub cond : Sync
  pub lock : Sync
  pub refs : Refs

-- Condition_func_wait and Condition_func_timedwait, by libuv's calls; `args` says whether the
-- arguments parse. The mutex is held while libuv waits.
abbrev pub wait_by :
    {A : Type 0} → (on_cond on_lock : UvOp) → A → Obj → Option (Unit {0}) → M Waiting A
wait_by on_cond on_lock r m args w =
    (do
      guard w.cond.initialized runtime_error
      parse args
      put (record w { refs = incref m w.refs })
      put (record {
        cond = called (uv_op on_cond) w.cond;
        lock = called (uv_op on_lock) w.lock;
        refs = incref m w.refs;
      })
      put (record {
        cond = called (uv_op on_cond) w.cond;
        lock = called (uv_op on_lock) w.lock;
        refs = decref m (incref m w.refs);
      })
      pure r)
      w

unfoldable pub condition_wait : Obj → Option (Unit {0}) → M Waiting Obj
condition_wait m args = wait_by uv_cond_wait wait_mutex none_obj m args

unfoldable pub condition_timedwait : (r : ℤ) → Obj → Option (Unit {0}) → M Waiting Bool
condition_timedwait r m args = wait_by uv_cond_timedwait timedwait_mutex (is_zero r) m args
