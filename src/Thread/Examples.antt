-- ===== src/Thread/Examples.antt =====
-- A mutex that is locked and unlocked, and a condition that waits with a mutex at address 8.
use pyuv.Base.{◌≡◌, refl, true, false, some, none, List, [], ◌∷◌, if◌then◌else◌}
use pyuv.Base.Int.{pos}
use pyuv.Py.{Obj}
use pyuv.Thread.{mutex, sync_new}
use pyuv.Thread.Types.{Waiting, condition_wait, condition_timedwait}
use pyuv.Thread.Protocol.{
  ready, blank, destroyed, stage_after, Command, mutex_inits, mutex_locks, mutex_unlocks,
  perform_all, destroy,
}
use pyuv.Thread.Lives.{lives-Protocol, wait_mutex-Protocol}

abbrev locking : List Command
locking = mutex_locks ∷ mutex_inits (pos 1) ∷ mutex_inits (pos 0) ∷ mutex_locks ∷ mutex_unlocks ∷ []

lives-Protocol_example :
    let s = perform_all locking sync_new in
    (stage_after mutex s.calls ≡ some (if s.initialized then ready else blank))
    × (stage_after mutex (destroy mutex s).calls
        ≡ some (if s.initialized then destroyed else blank))
lives-Protocol_example = lives-Protocol mutex locking (refl, (refl, (refl, (refl, (refl, tt)))))

-- The condition is initialized, the mutex is not.
abbrev waiting : Waiting
waiting = record {
  cond = record { initialized = true; freed = false; calls = [] };
  lock = record { initialized = false; freed = false; calls = [] };
  refs = λ o. 1;
}

wait_mutex-Protocol_example :
    (stage_after mutex (condition_wait 8 (some tt) waiting).1.lock.calls ≡ none)
    × (stage_after mutex (condition_timedwait (pos 0) 8 (some tt) waiting).1.lock.calls ≡ none)
    × ((o : Obj)
        → ((condition_wait 8 (some tt) waiting).1.refs o ≡ 1)
          × ((condition_timedwait (pos 0) 8 (some tt) waiting).1.refs o ≡ 1))
wait_mutex-Protocol_example = wait_mutex-Protocol (pos 0) 8 waiting refl refl
