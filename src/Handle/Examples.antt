-- ===== src/Handle/Examples.antt =====
-- A handle at address 7 of the loop at address 5, over the libuv that only keeps phases.
use pyuv.Base.{
  zero, suc, ◌+◌, ◌≡◌, ◌≤◌, inl, refl, true, false, Option, none, some, arith, if◌then◌else◌, ltb,
}
use pyuv.Py.{Obj, Refs, is, incref, decref, ok, is_ok}
use pyuv.Uv.{phases, Phase, opened}
use pyuv.Handle.Defs.{
  Handle, tp_new, initialize_handle, func_close, close_cb, tp_dealloc, dealloc_close_cb, run_user,
}
use pyuv.Handle.Ownership.{fields, pyref, owed, fired}
use pyuv.Handle.Lifecycle.{
  World, world, recount, drop, init, close, Acts, done, act, dealloc, uv_dealloc_close, Reach, here,
  next,
}
use pyuv.Handle.Safety.{new_world, no_use_after_free, references_accounted, close_cb_returns}
use pyuv.Handle.Phases.{may, rank, life, phases-Refines}
use pyuv.Handle.Liveness.{Released, unheld-Released}
use pyuv.Handle.Methods.{closes, func_close_outcome}

-- Python code holds the handle, the loop, None and a function at address 9.
abbrev start_refs : Refs
start_refs o = if ltb o 10 then 1 else 0

abbrev fresh : World Phase
fresh = new_world phases 7 opened start_refs

abbrev ready : World Phase
ready = world (initialize_handle 5 fresh.handle) start_refs

abbrev dropped : World Phase
dropped = world (recount (decref 7 ready.handle.refs) ready.handle) (decref 7 start_refs)

abbrev revived : World Phase
revived = world (tp_dealloc phases 7 dropped.handle) dropped.ext

abbrev quiet : World Phase
quiet = world (dealloc_close_cb 7 (fired phases 7 revived.handle)) dropped.ext

abbrev gone : World Phase
gone = world (tp_dealloc phases 7 quiet.handle) dropped.ext

gone_reached : Reach phases 7 fresh gone
unfolding tp_new initialize_handle tp_dealloc dealloc_close_cb is
gone_reached =
    next
      (next
        (next
          (next (next here (act (init fresh.handle start_refs 5 opened (omega arith) refl refl)))
            (act (drop ready.handle start_refs 7 (omega arith))))
          (dealloc dropped.handle dropped.ext refl refl))
        (uv_dealloc_close revived.handle dropped.ext refl))
      (dealloc quiet.handle dropped.ext refl refl)

no_use_after_free_example :
    (phases.pending gone.handle.uv_handle ≡ none)
    × (gone.ext 7 ≡ 0)
    × (gone.handle.initialized ≡ true → phases.is_closing gone.handle.uv_handle ≡ true)
unfolding tp_new initialize_handle tp_dealloc dealloc_close_cb is
no_use_after_free_example = no_use_after_free phases 7 opened start_refs gone refl gone_reached refl

references_accounted_example :
    gone.handle.refs 5
    ≡ gone.ext 5
      + fields gone.handle 5
      + pyref gone.handle.flags 7 5
      + owed (phases.pending gone.handle.uv_handle) 7 5
references_accounted_example =
    references_accounted phases 7 opened start_refs gone refl gone_reached 5

-- close(None), whose callback does nothing.
abbrev shut : World Phase
shut = world (func_close phases (λ o. false) 7 (some none) ready.handle).1 start_refs

shut_reached : Reach phases 7 fresh shut
unfolding tp_new
shut_reached =
    next (next here (act (init fresh.handle start_refs 5 opened (omega arith) refl refl)))
      (act (close ready.handle start_refs (λ o. false) (some none) (omega arith)))

abbrev no_call : Obj → Handle Phase → Option Obj × Handle Phase
no_call o s = (none, s)

no_call-Acts :
    (cb : Obj)
    → shut.handle.on_close_cb ≡ some cb
    → Acts phases 7
        (world (fired phases 7 shut.handle) (incref 7 start_refs))
        (world (run_user no_call (λ s. s) cb (fired phases 7 shut.handle)) (incref 7 start_refs))
unfolding func_close tp_new initialize_handle
no_call-Acts zero e = done
no_call-Acts (suc n) e = absurd (ground arith)

close_cb_returns_example : (close_cb no_call (λ s. s) 7 (fired phases 7 shut.handle)).0 ≡ ok tt
unfolding func_close tp_new initialize_handle
close_cb_returns_example =
    close_cb_returns phases 7 opened start_refs shut.handle start_refs start_refs no_call (λ s. s)
      refl shut_reached refl no_call-Acts

func_close_outcome_example :
    is_ok (func_close phases (λ o. true) 7 (some (some 9)) ready.handle).0
    ≡ closes phases 7 (λ o. true) (some (some 9)) ready.handle
func_close_outcome_example =
    (func_close_outcome phases 7 (λ o. true) (some (some 9)) ready.handle).0

dropped_reached : Reach phases 7 fresh dropped
unfolding tp_new initialize_handle is
dropped_reached =
    next (next here (act (init fresh.handle start_refs 5 opened (omega arith) refl refl)))
      (act (drop ready.handle start_refs 7 (omega arith)))

phases-Refines_example :
    (may (life phases 7 dropped.handle) (life phases 7 revived.handle) ≡ true)
    × (rank (life phases 7 revived.handle) ≤ rank (life phases 7 revived.handle))
unfolding tp_new initialize_handle is
phases-Refines_example =
    phases-Refines phases 7 opened start_refs dropped revived revived refl dropped_reached
      (dealloc dropped.handle dropped.ext refl refl) here

unheld-Released_example : Released phases 7 dropped
unfolding tp_new initialize_handle is
unheld-Released_example =
    unheld-Released phases 7 opened start_refs dropped.handle dropped.ext refl dropped_reached refl
      refl refl (inl refl)
