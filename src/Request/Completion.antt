-- ===== src/Request/Completion.antt =====
-- pyuv__tp_done_cb of src/loop.c, when libuv reports that the work is done.
use pyuv.Base.{
  ◌+◌, ◌<◌, ◌≡◌, refl, Bool, true, false, Option, none, some, arith, get_or, if◌then◌else◌, inl,
  inr, ap, ◌∙◌, Bool-cases,
}
use mathlib.Core.Path.{subst}
use pyuv.Base.Int.{ℤ, is_neg}
use pyuv.Error.{runtime_error}
use pyuv.Py.{Obj, none_obj, Refs, is_self, held, incref, decref, ok, raised, set_string}
use pyuv.Request.{Request, tp_init, tp_clear, func_cancel}
use pyuv.Request.Work.{
  WorkRequest, with_refs, work_dealloc, release, queued, queue_work, finish_call, run_done,
  tp_done_cb, is_none_obj,
}
use pyuv.Request.Ownership.{WorkInv, Balanced, release-Inv, queue_work-Balanced}

-- If the user's function, its argument and result given up, leaves the references accounted for,
-- libuv's own one included, then so does the callback of the work, with libuv's given up.
pub tp_done_cb-WorkInv :
    (call : Option Obj → Obj → WorkRequest → Option Obj × WorkRequest)
    (hook : WorkRequest → WorkRequest) (status : ℤ) (number me : Obj) (ext : Refs)
    (w t : WorkRequest)
    → run_done call hook (if is_neg status then number else none_obj) w ≡ t
    → t.freed ≡ false
    → WorkInv me (incref me ext) t
    → WorkInv me ext (tp_done_cb call hook status number me w)
unfolding tp_done_cb
tp_done_cb-WorkInv call hook status number me ext w t e live v =
    rw e
      (release-Inv me ext _ live (record { counted = v.counted; alive = v.alive; dead = v.dead }))

-- Whatever the user's function did, after the callback cancel() answers False without asking libuv.
pub cancel_done :
    (call : Option Obj → Obj → WorkRequest → Option Obj × WorkRequest)
    (hook : WorkRequest → WorkRequest) (status : ℤ) (number me : Obj) (w : WorkRequest) (answer : ℤ)
    → func_cancel answer (tp_done_cb call hook status number me w).request ≡ false
unfolding tp_done_cb func_cancel release work_dealloc tp_clear
cancel_done call hook status number me w answer = ground arith

-- A function that, its result given up or its exception handled, leaves the request and all counts
-- alone.
abbrev pub Neutral :
    (Option Obj → Obj → WorkRequest → Option Obj × WorkRequest)
    → (WorkRequest → WorkRequest)
    → Type 0
Neutral call hook =
    (cb : Option Obj) (errorno : Obj) (w : WorkRequest)
    → (finish_call hook (call cb errorno w)
        ≡ with_refs (finish_call hook (call cb errorno w)).refs w)
      × ((o : Obj) → (finish_call hook (call cb errorno w)).refs o ≡ w.refs o)

run_done-Neutral :
    (call : Option Obj → Obj → WorkRequest → Option Obj × WorkRequest)
    (hook : WorkRequest → WorkRequest) (errorno : Obj) (w : WorkRequest)
    → Neutral call hook
    → (r : Refs) × (run_done call hook errorno w ≡ with_refs r w) × ((o : Obj) → r o ≡ w.refs o)
run_done-Neutral call hook errorno w neutral = elim (Bool-cases (is_none_obj w.done_cb)) [
  | inl passed ↦ (w.refs, rw passed, λ o. refl)
  | inr called ↦
      let n = neutral w.done_cb errorno (with_refs (incref errorno w.refs) w) in
      (
        decref errorno
            (finish_call hook (call w.done_cb errorno (with_refs (incref errorno w.refs) w))).refs,
        rw called (ap (λ t. with_refs (decref errorno t.refs) t) n.0),
        λ o. ground (arith, n.1 o),
      )
]

release_kept :
    (me : Obj) (w : WorkRequest) → w.refs me ≡ 2 → release me w ≡ with_refs (decref me w.refs) w
unfolding release
release_kept me w two = ground (arith, two, is_self me)

-- Two releases of a request with two references from the outside, which its fields do not refer to.
release_twice :
    (me : Obj) (refs : Refs) (w : WorkRequest)
    → w.freed ≡ false
    → refs me ≡ 0
    → w.refs me ≡ 2
    → WorkInv me (incref me (incref me refs)) w
    → ((release me (release me w)).freed ≡ true)
      × ((o : Obj) → (release me (release me w)).refs o ≡ refs o)
unfolding release work_dealloc tp_clear
release_twice me refs w live fresh two v =
    rw (release_kept me w two)
      (ground (arith, two, is_self me), λ o. ground (arith, v.counted o, two, is_self me, fresh))

-- From queue_work to the end: when libuv accepts the request, calls a function that leaves the
-- counts alone, and the caller gives up the request as well, the request is released and every count
-- is as before the call.
pub work_cycle :
    (callable : Obj → Bool) (self me work : Obj) (done : Option Obj) (sliced : Bool) (err : ℤ)
    (refs : Refs) (w : WorkRequest)
    (call : Option Obj → Obj → WorkRequest → Option Obj × WorkRequest)
    (hook : WorkRequest → WorkRequest) (status : ℤ) (number : Obj)
    → refs me ≡ 0
    → 0 < refs self
    → 0 < refs work
    → 0 < refs (get_or done none_obj)
    → Neutral call hook
    → queue_work callable self (some (work, done)) (some me) sliced err refs ≡ queued w
    → ((release me (tp_done_cb call hook status number me w)).freed ≡ true)
      × ((o : Obj) → (release me (tp_done_cb call hook status number me w)).refs o ≡ refs o)
unfolding tp_done_cb
work_cycle callable self me work done sliced err refs w call hook status number fresh hs hw hd
      neutral accepted =
    let b = subst (Balanced me refs) accepted (
      queue_work-Balanced callable self me (some (work, done)) true sliced err refs fresh hs
        (hw, hd)) in
    let errorno = if is_neg status then number else none_obj in
    let d = run_done-Neutral call hook errorno w neutral in
    rw d.1 (
      release_twice me refs
        (record w { request = record w.request { refs = d.0; req_ptr = false } }) b.0 fresh
        (d.2 me ∙ b.2)
        (record {
          counted = λ o. ground (arith, d.2 o, b.3.counted o);
          alive = ground (arith, d.2 me, b.2);
          dead = ground (arith, b.0);
        }))

-- __init__ of a request that is initialized raises RuntimeError and changes nothing, and one that
-- succeeds leaves the request initialized on its loop, with one more reference to it.
pub init_once :
    (args : Option Obj) (s : Request)
    → (s.initialized ≡ true → tp_init args s ≡ (raised (set_string runtime_error), s))
      × ((tp_init args s).0 ≡ ok tt
          → ((tp_init args s).1.initialized ≡ true)
            × ((tp_init args s).1.loop ≡ args)
            × ((o : Obj) → s.loop ≡ none → (tp_init args s).1.refs o ≡ s.refs o + held args o))
unfolding tp_init
init_once args s =
    (ground arith, λ e. (ground (arith, e), ground (arith, e), λ o n. ground (arith, e, n)))
