-- ===== src/Request/Examples.antt =====
-- A request at address 20 on the loop at address 5: the work is the function at address 9, and None
-- stands for the function that hears of its end.
use pyuv.Base.{◌≡◌, refl, true, false, Option, none, some, arith, ltb, if◌then◌else◌}
use mathlib.Core.Path.{subst}
use pyuv.Base.Int.{pos, negsuc}
use pyuv.Py.{Obj, Refs, incref}
use pyuv.Request.{tp_new, tp_init}
use pyuv.Request.Work.{
  WorkRequest, Queued, refused, given_up, queued, work_tp_init, work_tp_new, queue_work, release,
  tp_done_cb,
}
use pyuv.Request.Ownership.{WorkInv, Balanced, queue_work-Balanced}
use pyuv.Request.Completion.{Neutral, work_cycle}

abbrev start_refs : Refs
start_refs o = if ltb o 10 then 1 else 0

abbrev done_fails : Option Obj → Obj → WorkRequest → Option Obj × WorkRequest
done_fails cb errorno w = (none, w)

abbrev hook : WorkRequest → WorkRequest
hook w = w

calm : Neutral done_fails hook
calm cb errorno w = (refl, λ o. refl)

-- The call that libuv accepts, and the request that its caller and libuv then hold.
abbrev sent : Queued
sent = queue_work (λ o. true) 5 (some (9, none)) (some 20) true (pos 0) start_refs

abbrev request_of : Queued → WorkRequest
request_of (refused e r) = work_tp_new 20 r
request_of (given_up e w) = w
request_of (queued w) = w

abbrev accepted : WorkRequest
accepted = request_of sent

sent-accepted : sent ≡ queued accepted
unfolding queue_work work_tp_init work_tp_new tp_init tp_new
sent-accepted = refl

balance :
    (accepted.freed ≡ false)
    × (accepted.req_ptr ≡ true)
    × (accepted.refs 20 ≡ 2)
    × WorkInv 20 (incref 20 (incref 20 start_refs)) accepted
balance = subst (Balanced 20 start_refs) sent-accepted (
    queue_work-Balanced (λ o. true) 5 20 (some (9, none)) true true (pos 0) start_refs refl
      (omega arith) (omega arith, omega arith))

-- libuv refuses the request.
queue_work-Balanced_example :
    Balanced 20 start_refs
      (queue_work (λ o. true) 5 (some (9, none)) (some 20) true (negsuc 10) start_refs)
queue_work-Balanced_example =
    queue_work-Balanced (λ o. true) 5 20 (some (9, none)) true true (negsuc 10) start_refs refl
      (omega arith) (omega arith, omega arith)

work_cycle_example :
    ((release 20 (tp_done_cb done_fails hook (pos 0) 30 20 accepted)).freed ≡ true)
    × ((o : Obj)
        → (release 20 (tp_done_cb done_fails hook (pos 0) 30 20 accepted)).refs o ≡ start_refs o)
work_cycle_example =
    work_cycle (λ o. true) 5 20 9 none true (pos 0) start_refs accepted done_fails hook (pos 0) 30
      refl (omega arith) (omega arith) (omega arith) calm sent-accepted
