-- ===== src/Thread/Lives.antt =====
-- The calls of libuv that the objects of src/thread.c make.
use pyuv.Base.{
  zero, suc, get_or, ◌≡◌, refl, arith, Bool, true, false, not, none, some, List, [], ◌∷◌,
  if◌then◌else◌,
}
use pyuv.Base.Int.{is_zero, ℤ, pos, negsuc}
use mathlib.Core.Path.{subst}
use pyuv.Error.{runtime_error}
use pyuv.Py.{none_obj, guard, ◌>>◌, Obj}
use pyuv.Thread.{
  Sync, SyncType, barrier, mutex, rwlock, condition, semaphore, UvOp, uv_barrier_wait,
  uv_mutex_lock, uv_mutex_unlock, uv_mutex_trylock, uv_rwlock_rdlock, uv_rwlock_rdunlock,
  uv_rwlock_tryrdlock, uv_rwlock_wrlock, uv_rwlock_wrunlock, uv_rwlock_trywrlock, uv_cond_signal,
  uv_cond_broadcast, uv_sem_post, uv_sem_wait, uv_sem_trywait, uv_cond_wait, uv_cond_timedwait,
  wait_mutex, timedwait_mutex, UvCall, uv_init, uv_op, init_uv, sync_new,
}
use pyuv.Thread.Types.{
  method, barrier_init, barrier_wait, barrier_dealloc, mutex_init, mutex_lock, mutex_unlock,
  mutex_trylock, mutex_dealloc, rwlock_init, rwlock_rdlock, rwlock_rdunlock, rwlock_tryrdlock,
  rwlock_wrlock, rwlock_wrunlock, rwlock_trywrlock, rwlock_dealloc, condition_init,
  condition_signal, condition_broadcast, condition_dealloc, semaphore_init, semaphore_post,
  semaphore_wait, semaphore_trywait, semaphore_dealloc, Waiting, condition_wait,
  condition_timedwait,
}
use pyuv.Thread.Protocol.{
  of_op, same, blank, ready, destroyed, step, stage_after, stage_of, Command, of_command, perform,
  destroy, perform_all, AllOf, barrier_inits, barrier_waits, mutex_inits, mutex_locks,
  mutex_unlocks, mutex_trylocks, rwlock_inits, rwlock_rdlocks, rwlock_rdunlocks, rwlock_tryrdlocks,
  rwlock_wrlocks, rwlock_wrunlocks, rwlock_trywrlocks, condition_inits, condition_signals,
  condition_broadcasts, semaphore_inits, semaphore_posts, semaphore_waits, semaphore_trywaits,
  condition_waits, condition_timedwaits,
}

-- The calls so far lead to the stage that the object stands for.
pub record Follows (t : SyncType) (s : Sync) : Type 0 where
  pub kept : s.freed ≡ false
  pub staged : stage_after t s.calls ≡ some (stage_of s)

same_refl : (t : SyncType) → same t t ≡ true
same_refl barrier = refl
same_refl mutex = refl
same_refl rwlock = refl
same_refl condition = refl
same_refl semaphore = refl

-- A call that the specification has a step for.
called-Follows :
    (t : SyncType) (c : UvCall) (b b' f : Bool) (calls : List UvCall)
    → Follows t (record { initialized = b; freed = f; calls = calls })
    → step t c (if b then ready else blank) ≡ some (if b' then ready else blank)
    → Follows t (record { initialized = b'; freed = f; calls = c ∷ calls })
called-Follows t c b b' f calls v e = record {
  kept = v.kept;
  staged = ground (arith, v.staged, v.kept, e);
}

abbrev of_fields : Bool → Bool → List UvCall → Sync
of_fields b f calls = record { initialized = b; freed = f; calls = calls }

init-Follows :
    (t : SyncType) (code : ℤ) (f : Bool) (calls : List UvCall)
    → Follows t (of_fields false f calls)
    → Follows t (init_uv t code (of_fields false f calls)).1
init-Follows t (pos zero) f calls v =
    called-Follows t (uv_init t true) false true f calls v (rw (same_refl t) refl)
init-Follows t (pos (suc n)) f calls v =
    called-Follows t (uv_init t false) false false f calls v (rw (same_refl t) refl)
init-Follows t (negsuc n) f calls v =
    called-Follows t (uv_init t false) false false f calls v (rw (same_refl t) refl)

guarded_init-Follows :
    (t : SyncType) (code : ℤ) (b f : Bool) (calls : List UvCall)
    → Follows t (of_fields b f calls)
    → Follows t ((do guard (not b) runtime_error; init_uv t code) (of_fields b f calls)).1
guarded_init-Follows t code true f calls v = v
guarded_init-Follows t code false f calls v = init-Follows t code f calls v

method-Follows :
    {A : Type 0} (op : UvOp) (r : A) (b f : Bool) (calls : List UvCall)
    → Follows (of_op op) (of_fields b f calls)
    → Follows (of_op op) (method op r (of_fields b f calls)).1
method-Follows op r false f calls v = v
method-Follows op r true f calls v =
    called-Follows (of_op op) (uv_op op) true true f calls v (rw (same_refl (of_op op)) refl)

perform_fields-Follows :
    (c : Command) (b f : Bool) (calls : List UvCall)
    → Follows (of_command c) (of_fields b f calls)
    → Follows (of_command c) (perform c (of_fields b f calls))
unfolding perform barrier_init barrier_wait mutex_init mutex_lock mutex_unlock mutex_trylock
    rwlock_init rwlock_rdlock rwlock_rdunlock rwlock_tryrdlock rwlock_wrlock rwlock_wrunlock
    rwlock_trywrlock condition_init condition_signal condition_broadcast semaphore_init
    semaphore_post semaphore_wait semaphore_trywait condition_wait condition_timedwait
perform_fields-Follows (barrier_inits uv none) true f calls v = v
perform_fields-Follows (barrier_inits uv none) false f calls v = v
perform_fields-Follows (barrier_inits uv (some n)) b f calls v =
    guarded_init-Follows barrier (uv n) b f calls v
perform_fields-Follows (barrier_waits r) b f calls v =
    method-Follows uv_barrier_wait (not (is_zero r)) b f calls v
perform_fields-Follows (mutex_inits code) b f calls v = guarded_init-Follows mutex code b f calls v
perform_fields-Follows mutex_locks b f calls v = method-Follows uv_mutex_lock none_obj b f calls v
perform_fields-Follows mutex_unlocks b f calls v =
    method-Follows uv_mutex_unlock none_obj b f calls v
perform_fields-Follows (mutex_trylocks r) b f calls v =
    method-Follows uv_mutex_trylock (is_zero r) b f calls v
perform_fields-Follows (rwlock_inits code) b f calls v =
    guarded_init-Follows rwlock code b f calls v
perform_fields-Follows rwlock_rdlocks b f calls v =
    method-Follows uv_rwlock_rdlock none_obj b f calls v
perform_fields-Follows rwlock_rdunlocks b f calls v =
    method-Follows uv_rwlock_rdunlock none_obj b f calls v
perform_fields-Follows (rwlock_tryrdlocks r) b f calls v =
    method-Follows uv_rwlock_tryrdlock (is_zero r) b f calls v
perform_fields-Follows rwlock_wrlocks b f calls v =
    method-Follows uv_rwlock_wrlock none_obj b f calls v
perform_fields-Follows rwlock_wrunlocks b f calls v =
    method-Follows uv_rwlock_wrunlock none_obj b f calls v
perform_fields-Follows (rwlock_trywrlocks r) b f calls v =
    method-Follows uv_rwlock_trywrlock (is_zero r) b f calls v
perform_fields-Follows (condition_inits code) b f calls v =
    guarded_init-Follows condition code b f calls v
perform_fields-Follows condition_signals b f calls v =
    method-Follows uv_cond_signal none_obj b f calls v
perform_fields-Follows condition_broadcasts b f calls v =
    method-Follows uv_cond_broadcast none_obj b f calls v
perform_fields-Follows (semaphore_inits uv none) true f calls v = v
perform_fields-Follows (semaphore_inits uv none) false f calls v = v
perform_fields-Follows (semaphore_inits uv (some n)) b f calls v =
    guarded_init-Follows semaphore (uv (get_or n 1)) b f calls v
perform_fields-Follows semaphore_posts b f calls v = method-Follows uv_sem_post none_obj b f calls v
perform_fields-Follows semaphore_waits b f calls v = method-Follows uv_sem_wait none_obj b f calls v
perform_fields-Follows (semaphore_trywaits r) b f calls v =
    method-Follows uv_sem_trywait (is_zero r) b f calls v
perform_fields-Follows (condition_waits m args w) false f calls v = v
perform_fields-Follows (condition_waits m none w) true f calls v = v
perform_fields-Follows (condition_waits m (some tt) w) true f calls v =
    method-Follows uv_cond_wait none_obj true f calls v
perform_fields-Follows (condition_timedwaits r m args w) false f calls v = v
perform_fields-Follows (condition_timedwaits r m none w) true f calls v = v
perform_fields-Follows (condition_timedwaits r m (some tt) w) true f calls v =
    method-Follows uv_cond_timedwait none_obj true f calls v

all-Follows :
    (t : SyncType) (cmds : List Command) (s : Sync)
    → AllOf t cmds
    → Follows t s
    → Follows t (perform_all cmds s)
unfolding perform_all
all-Follows t [] s same_type v = v
all-Follows t (c ∷ r) s (e, same_type) v = all-Follows t r (perform c s) same_type (
    subst (λ u. Follows u s → Follows u (perform c s)) e
      (perform_fields-Follows c s.initialized s.freed s.calls) v)

destroy_fields :
    (t : SyncType) (b f : Bool) (calls : List UvCall)
    → stage_after t calls ≡ some (if b then ready else blank)
    → stage_after t (destroy t (of_fields b f calls)).calls ≡ some (if b then destroyed else blank)
unfolding destroy barrier_dealloc mutex_dealloc rwlock_dealloc condition_dealloc semaphore_dealloc
destroy_fields barrier true f calls e = rw e refl
destroy_fields barrier false f calls e = e
destroy_fields mutex true f calls e = rw e refl
destroy_fields mutex false f calls e = e
destroy_fields rwlock true f calls e = rw e refl
destroy_fields rwlock false f calls e = e
destroy_fields condition true f calls e = rw e refl
destroy_fields condition false f calls e = e
destroy_fields semaphore true f calls e = rw e refl
destroy_fields semaphore false f calls e = e

lives_lem :
    (t : SyncType) (s : Sync)
    → Follows t s
    → (stage_after t s.calls ≡ some (if s.initialized then ready else blank))
      × (stage_after t (destroy t s).calls ≡ some (if s.initialized then destroyed else blank))
lives_lem t s v =
    let e : stage_after t s.calls ≡ some (if s.initialized then ready else blank) =
      ground (arith, v.staged, v.kept) in
    (e, destroy_fields t s.initialized s.freed s.calls e)

-- A new object of any of the five types, after any calls of __init__ and of the methods of its type,
-- whatever libuv returns: libuv's calls so far follow the specification, which ends ready where the
-- object is initialized, and blank where it is not; with the destructor's they do so too, and end
-- destroyed or blank.
pub lives-Protocol :
    (t : SyncType) (cmds : List Command)
    → AllOf t cmds
    → let s = perform_all cmds sync_new in
      (stage_after t s.calls ≡ some (if s.initialized then ready else blank))
      × (stage_after t (destroy t s).calls ≡ some (if s.initialized then destroyed else blank))
unfolding sync_new
lives-Protocol t cmds same_type =
    lives_lem t (perform_all cmds sync_new)
      (all-Follows t cmds sync_new same_type (record { kept = refl; staged = refl }))

waited :
    (op : UvOp) (b f : Bool) (calls : List UvCall)
    → of_op op ≡ mutex
    → stage_after mutex calls ≡ some (if b then ready else blank)
    → stage_after mutex (uv_op op ∷ calls) ≡ (if b then some ready else none)
waited op true f calls e v = rw (v, e) refl
waited op false f calls e v = rw v refl

-- Condition.wait and Condition.timedwait of an initialized condition with a mutex whose calls follow
-- the specification: where the mutex is initialized they still do and the mutex is ready; where it
-- is not, libuv waits with a primitive that was not initialized, which the specification does not
-- allow. The count of every object is as before.
pub wait_mutex-Protocol :
    (r : ℤ) (m : Obj) (w : Waiting)
    → w.cond.initialized ≡ true
    → stage_after mutex w.lock.calls ≡ some (if w.lock.initialized then ready else blank)
    → let u = (condition_wait m (some tt) w).1 in
      let v = (condition_timedwait r m (some tt) w).1 in
      (stage_after mutex u.lock.calls ≡ (if w.lock.initialized then some ready else none))
      × (stage_after mutex v.lock.calls ≡ (if w.lock.initialized then some ready else none))
      × ((o : Obj) → (u.refs o ≡ w.refs o) × (v.refs o ≡ w.refs o))
unfolding condition_wait condition_timedwait
wait_mutex-Protocol r m w init v = simp init (
  waited wait_mutex w.lock.initialized w.lock.freed w.lock.calls refl v,
  waited timedwait_mutex w.lock.initialized w.lock.freed w.lock.calls refl v,
  λ o. (omega arith, omega arith),
)
