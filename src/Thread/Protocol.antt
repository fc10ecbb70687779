-- ===== src/Thread/Protocol.antt =====
-- The life of a primitive as libuv wants it, and the objects of src/thread.c against it.
use pyuv.Base.{ℕ, ◌≡◌, Bool, true, false, Option, none, some, List, [], ◌∷◌, if◌then◌else◌}
use pyuv.Base.Int.{ℤ}
use pyuv.Py.{Obj}
use pyuv.Thread.{
  Sync, SyncType, barrier, mutex, rwlock, condition, semaphore, UvOp, uv_barrier_wait,
  uv_mutex_lock, uv_mutex_unlock, uv_mutex_trylock, uv_rwlock_rdlock, uv_rwlock_rdunlock,
  uv_rwlock_tryrdlock, uv_rwlock_wrlock, uv_rwlock_wrunlock, uv_rwlock_trywrlock, uv_cond_signal,
  uv_cond_broadcast, uv_sem_post, uv_sem_wait, uv_sem_trywait, uv_cond_wait, uv_cond_timedwait,
  wait_mutex, timedwait_mutex, UvCall, uv_init, uv_op, uv_destroy,
}
use pyuv.Thread.Types.{
  barrier_init, barrier_wait, barrier_dealloc, mutex_init, mutex_lock, mutex_unlock, mutex_trylock,
  mutex_dealloc, rwlock_init, rwlock_rdlock, rwlock_rdunlock, rwlock_tryrdlock, rwlock_wrlock,
  rwlock_wrunlock, rwlock_trywrlock, rwlock_dealloc, condition_init, condition_signal,
  condition_broadcast, condition_dealloc, semaphore_init, semaphore_post, semaphore_wait,
  semaphore_trywait, semaphore_dealloc, Waiting, condition_wait, condition_timedwait,
}

-- The type whose functions and methods `op` is one of.
abbrev pub of_op : UvOp → SyncType
of_op uv_barrier_wait = barrier
of_op uv_mutex_lock = mutex
of_op uv_mutex_unlock = mutex
of_op uv_mutex_trylock = mutex
of_op uv_rwlock_rdlock = rwlock
of_op uv_rwlock_rdunlock = rwlock
of_op uv_rwlock_tryrdlock = rwlock
of_op uv_rwlock_wrlock = rwlock
of_op uv_rwlock_wrunlock = rwlock
of_op uv_rwlock_trywrlock = rwlock
of_op uv_cond_signal = condition
of_op uv_cond_broadcast = condition
of_op uv_sem_post = semaphore
of_op uv_sem_wait = semaphore
of_op uv_sem_trywait = semaphore
of_op uv_cond_wait = condition
of_op uv_cond_timedwait = condition
of_op wait_mutex = mutex
of_op timedwait_mutex = mutex

abbrev pub same : SyncType → SyncType → Bool
same barrier barrier = true
same mutex mutex = true
same rwlock rwlock = true
same condition condition = true
same semaphore semaphore = true
same a b = false

-- A primitive: its memory may hold anything, it is initialized, or it was destroyed.
pub data Stage : Type 0 where
  blank ready destroyed : Stage

-- The specification: one step of a primitive of type `t`; `none` is a call that libuv leaves
-- undefined.
abbrev pub step : SyncType → UvCall → Stage → Option Stage
step t (uv_init u success) blank =
    if same t u then some (if success then ready else blank) else none
step t (uv_op op) ready = if same t (of_op op) then some ready else none
step t (uv_destroy u) ready = if same t u then some destroyed else none
step t c s = none

abbrev pub then_step : SyncType → UvCall → Option Stage → Option Stage
then_step t c none = none
then_step t c (some s) = step t c s

-- The stage after the calls, the last one first.
abbrev pub stage_after : SyncType → List UvCall → Option Stage
stage_after t [] = some blank
stage_after t (c ∷ r) = then_step t c (stage_after t r)

-- The stage that an object stands for.
abbrev pub stage_of : Sync → Stage
stage_of s = if s.initialized then (if s.freed then destroyed else ready) else blank

-- A call of __init__ or of a method, with what libuv returns. A condition waits with some mutex.
pub data Command : Type 0 where
  barrier_inits : (ℕ → ℤ) → Option ℕ → Command
  barrier_waits : ℤ → Command
  mutex_inits : ℤ → Command
  mutex_locks : Command
  mutex_unlocks : Command
  mutex_trylocks : ℤ → Command
  rwlock_inits : ℤ → Command
  rwlock_rdlocks : Command
  rwlock_rdunlocks : Command
  rwlock_tryrdlocks : ℤ → Command
  rwlock_wrlocks : Command
  rwlock_wrunlocks : Command
  rwlock_trywrlocks : ℤ → Command
  condition_inits : ℤ → Command
  condition_signals : Command
  condition_broadcasts : Command
  semaphore_inits : (ℕ → ℤ) → Option (Option ℕ) → Command
  semaphore_posts : Command
  semaphore_waits : Command
  semaphore_trywaits : ℤ → Command
  condition_waits : Obj → Option (Unit {0}) → Waiting → Command
  condition_timedwaits : ℤ → Obj → Option (Unit {0}) → Waiting → Command

abbrev pub of_command : Command → SyncType
of_command (barrier_inits uv args) = barrier
of_command (barrier_waits r) = barrier
of_command (mutex_inits code) = mutex
of_command mutex_locks = mutex
of_command mutex_unlocks = mutex
of_command (mutex_trylocks r) = mutex
of_command (rwlock_inits code) = rwlock
of_command rwlock_rdlocks = rwlock
of_command rwlock_rdunlocks = rwlock
of_command (rwlock_tryrdlocks r) = rwlock
of_command rwlock_wrlocks = rwlock
of_command rwlock_wrunlocks = rwlock
of_command (rwlock_trywrlocks r) = rwlock
of_command (condition_inits code) = condition
of_command condition_signals = condition
of_command condition_broadcasts = condition
of_command (semaphore_inits uv args) = semaphore
of_command semaphore_posts = semaphore
of_command semaphore_waits = semaphore
of_command (semaphore_trywaits r) = semaphore
of_command (condition_waits m args w) = condition
of_command (condition_timedwaits r m args w) = condition

unfoldable pub perform : Command → Sync → Sync
unfolding barrier_init barrier_wait mutex_init mutex_lock mutex_unlock mutex_trylock rwlock_init
    rwlock_rdlock rwlock_rdunlock rwlock_tryrdlock rwlock_wrlock rwlock_wrunlock rwlock_trywrlock
    condition_init condition_signal condition_broadcast semaphore_init semaphore_post semaphore_wait
    semaphore_trywait condition_wait condition_timedwait
perform (barrier_inits uv args) s = (barrier_init uv args s).1
perform (barrier_waits r) s = (barrier_wait r s).1
perform (mutex_inits code) s = (mutex_init code s).1
perform mutex_locks s = (mutex_lock s).1
perform mutex_unlocks s = (mutex_unlock s).1
perform (mutex_trylocks r) s = (mutex_trylock r s).1
perform (rwlock_inits code) s = (rwlock_init code s).1
perform rwlock_rdlocks s = (rwlock_rdlock s).1
perform rwlock_rdunlocks s = (rwlock_rdunlock s).1
perform (rwlock_tryrdlocks r) s = (rwlock_tryrdlock r s).1
perform rwlock_wrlocks s = (rwlock_wrlock s).1
perform rwlock_wrunlocks s = (rwlock_wrunlock s).1
perform (rwlock_trywrlocks r) s = (rwlock_trywrlock r s).1
perform (condition_inits code) s = (condition_init code s).1
perform condition_signals s = (condition_signal s).1
perform condition_broadcasts s = (condition_broadcast s).1
perform (semaphore_inits uv args) s = (semaphore_init uv args s).1
perform semaphore_posts s = (semaphore_post s).1
perform semaphore_waits s = (semaphore_wait s).1
perform (semaphore_trywaits r) s = (semaphore_trywait r s).1
perform (condition_waits m args w) s = (condition_wait m args (record w { cond = s })).1.cond
perform (condition_timedwaits r m args w) s =
    (condition_timedwait r m args (record w { cond = s })).1.cond

unfoldable pub destroy : SyncType → Sync → Sync
unfolding barrier_dealloc mutex_dealloc rwlock_dealloc condition_dealloc semaphore_dealloc
destroy barrier s = barrier_dealloc s
destroy mutex s = mutex_dealloc s
destroy rwlock s = rwlock_dealloc s
destroy condition s = condition_dealloc s
destroy semaphore s = semaphore_dealloc s

unfoldable pub perform_all : List Command → Sync → Sync
unfolding perform
perform_all [] s = s
perform_all (c ∷ r) s = perform_all r (perform c s)

-- All commands are of one type.
abbrev pub AllOf : SyncType → List Command → Type 0
AllOf t [] = Unit {0}
AllOf t (c ∷ r) = (of_command c ≡ t) × AllOf t r
