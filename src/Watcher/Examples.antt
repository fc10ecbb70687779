-- ===== src/Watcher/Examples.antt =====
-- A watcher at address 7 of the loop at address 5, with a function at address 9.
use pyuv.Base.{◌+◌, ◌≡◌, refl, true, false, Option, none, some, arith, ltb, if◌then◌else◌}
use pyuv.Base.Int.{pos}
use pyuv.Error.{poll_error}
use pyuv.Py.{held, Obj, Refs, incref}
use pyuv.Uv.{phases, Phase, opened, returns}
use pyuv.Handle.{tp_new, initialize_handle, handle_incref}
use pyuv.Watcher.{tp_init, Watcher, start}
use pyuv.Watcher.Lifecycle.{
  watcher_new, there, living, kind_of, plain_kind, act_it, init_it, start_it, run_poll, none_yet,
  WatcherReach, at_start, and_then,
}
use pyuv.Watcher.Kinds.{poll_cb}
use pyuv.Watcher.Safety.{new_watcher, watchers_accounted}
use pyuv.Handle.Ownership.{fields, pyref, owed}
use pyuv.Watcher.Ownership.{WatcherInv}

abbrev start_refs : Refs
start_refs o = if ltb o 10 then 1 else 0

abbrev idle_watcher : Watcher Phase
idle_watcher = record { handle = initialize_handle 5 (tp_new opened start_refs); callback = none }

idle_accounted : WatcherInv phases 7 start_refs idle_watcher
unfolding initialize_handle tp_new
idle_accounted = record {
  counted = λ o. ground arith;
  blank = ground arith;
  unclosed = ground arith;
  closable = ground arith;
  looped = ground arith;
  released = ground arith;
}

live : idle_watcher.freed ≡ false
unfolding initialize_handle tp_new
live = refl

-- A new Poll gets its loop and is started; then libuv calls its function with the events 1, made
-- into the number at address 50, and it raises.
abbrev made : Watcher Phase
made = watcher_new opened start_refs

abbrev ready : Watcher Phase
ready = (tp_init phases poll_error (pos 0, opened) (some 5) made).1

abbrev started : Watcher Phase
started = (start phases poll_error (λ o. true) 7 (returns (pos 0)) (some 9) ready).1

abbrev raises : Obj → Obj → Option Obj → Watcher Phase → Option Obj × Watcher Phase
raises events errorno cb w = (none, w)

abbrev called : Watcher Phase
called = poll_cb (λ n. 50) raises (λ w. w) 7 (pos 0) (pos 1) started

started_ready : (started.initialized ≡ true) × (phases.is_closing started.uv_handle ≡ false)
unfolding start tp_init watcher_new tp_new initialize_handle handle_incref
started_ready = (refl, refl)

abbrev lost : Refs
lost = incref 0 (incref 50 (λ o. 0))

one_round :
    WatcherReach phases 7 poll_error
      (new_watcher phases 7 poll_error opened start_refs)
      (living (there called start_refs) lost)
one_round =
    and_then
      (and_then
        (and_then at_start
          (act_it (λ o. 0) (init_it made start_refs (pos 0) opened (some 5) (omega arith) refl)))
        (act_it (λ o. 0)
          (start_it ready start_refs (λ o. true) (returns (pos 0)) (some 9) (omega arith))))
      (run_poll started start_refs start_refs (λ o. 0) (λ n. 50) raises (λ w. w) (pos 0) (pos 1)
        refl started_ready.0 started_ready.1 none_yet)

watchers_accounted_example :
    ((o : Obj)
      → called.refs o
        ≡ start_refs o
          + lost o
          + held called.callback o
          + fields called.handle o
          + pyref called.flags 7 o
          + owed (phases.pending called.uv_handle) 7 o)
    × (kind_of poll_error ≡ plain_kind → (o : Obj) → lost o ≡ 0)
    × (called.freed ≡ true
        → (phases.pending called.uv_handle ≡ none)
          × (called.initialized ≡ true → phases.is_closing called.uv_handle ≡ true)
          × (start_refs 7 ≡ 0)
          × ((o : Obj) → called.refs o ≡ start_refs o + lost o))
watchers_accounted_example =
    watchers_accounted phases 7 poll_error opened start_refs (living (there called start_refs) lost)
      refl one_round
