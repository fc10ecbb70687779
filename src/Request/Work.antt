-- ===== src/Request/Work.antt =====
-- struct WorkRequest of src/request.c, and Loop_func_queue_work and its callbacks of src/loop.c.
use pyuv.Base.{Bool, true, false, ◌||◌, Option, none, some, ◌==◌, if◌then◌else◌, get_or}
use pyuv.Base.Int.{ℤ, is_neg}
use pyuv.Error.{exception, type_error, memory_error}
use pyuv.Py.{
  Obj, none_obj, Refs, incref, decref, xdecref, Exc, uv, by_callee, set_string, Result, M, ok,
  raised, aborted,
}
use pyuv.Request.{Request, tp_new, tp_init, tp_clear}

-- struct WorkRequest
pub record WorkRequest : Type 0 where
  pub request : Request
  pub open request use *
  pub work_cb : Option Obj
  pub done_cb : Option Obj

abbrev pub with_refs : Refs → WorkRequest → WorkRequest
with_refs r w = record w { request = record w.request { refs = r } }

-- WorkRequest_tp_new: the new object has one reference.
unfoldable pub work_tp_new : Obj → Refs → WorkRequest
unfolding tp_new
work_tp_new me refs = record {
  request = record (tp_new (incref me refs)) { req_ptr = true };
  work_cb = none;
  done_cb = none;
}

-- The arguments of WorkRequest's __init__: the loop, the work and what follows it.
pub record WorkArgs : Type 0 where
  pub loop_arg : Obj
  pub work_arg : Obj
  pub done_arg : Obj

-- The two assignments at the end of WorkRequest_tp_init.
abbrev pub set_callbacks : WorkArgs → WorkRequest → WorkRequest
set_callbacks a w =
    record (with_refs
      (xdecref w.done_cb (incref a.done_arg (xdecref w.work_cb (incref a.work_arg w.refs)))) w) {
        work_cb = some a.work_arg;
        done_cb = some a.done_arg;
      }

abbrev pub finish_init :
    WorkArgs → Result (Unit {0}) × Request → WorkRequest → Result (Unit {0}) × WorkRequest
finish_init a (ok t, r) w = (ok t, set_callbacks a (record w { request = r }))
finish_init a (raised e, r) w = (raised e, record w { request = r })
finish_init a (aborted, r) w = (aborted, record w { request = r })

-- WorkRequest_tp_init; `sliced` says that PySequence_GetSlice made its tuple, which is released
-- again.
unfoldable pub work_tp_init : Option WorkArgs → (sliced : Bool) → M WorkRequest (Unit {0})
work_tp_init none sliced w = (raised by_callee, w)
work_tp_init (some a) false w = (raised by_callee, w)
work_tp_init (some a) true w = finish_init a (tp_init (some a.loop_arg) w.request) w

-- WorkRequest_tp_clear and Request_tp_dealloc
unfoldable pub work_dealloc : WorkRequest → WorkRequest
unfolding tp_clear
work_dealloc w = record {
  request =
      record (tp_clear (record w.request { refs = xdecref w.done_cb (xdecref w.work_cb w.refs) })) {
        freed = true;
      };
  work_cb = none;
  done_cb = none;
}

-- Py_DECREF(work_req): the object dies with its last reference.
unfoldable pub release : Obj → WorkRequest → WorkRequest
release me w =
    let t = with_refs (decref me w.refs) w in if t.refs me == 0 then work_dealloc t else t

-- What a call of queue_work comes to: refused before there is a request, a request that was made
-- and given up, or one that libuv has.
pub data Queued : Type 0 where
  refused : Exc → Refs → Queued
  given_up : Exc → WorkRequest → Queued
  queued : WorkRequest → Queued

-- From uv_queue_work on.
abbrev pub submit_work : ℤ → Obj → WorkRequest → Queued
submit_work err me w =
    if is_neg err
    then given_up (uv exception err) (release me w)
    else queued (with_refs (incref me w.refs) w)

abbrev pub submit_made : ℤ → Obj → Result (Unit {0}) × WorkRequest → Queued
submit_made err me (ok t, w) = submit_work err me w
submit_made err me (raised e, w) = given_up (set_string memory_error) (release me w)
submit_made err me (aborted, w) = given_up (set_string memory_error) (release me w)

-- Loop_func_queue_work on the loop at `self`: `args` are the work and what may follow it, `alloc`
-- is the memory for the request, and `err` is uv_queue_work's answer.
unfoldable pub queue_work :
    (Obj → Bool)
    → (self : Obj) → (args : Option (Obj × Option Obj)) → (alloc : Option Obj) → (sliced : Bool)
    → (err : ℤ) → Refs
    → Queued
queue_work callable self none alloc sliced err refs = refused by_callee refs
queue_work callable self (some (work, done)) alloc sliced err refs =
    if callable work
    then if get_or done none_obj == none_obj || callable (get_or done none_obj)
      then elim alloc [
        | none ↦ refused (set_string memory_error) refs
        | some me ↦ submit_made err me (
            work_tp_init
              (some (record { loop_arg = self; work_arg = work; done_arg = get_or done none_obj }))
              sliced (work_tp_new me refs))
      ]
      else refused (set_string type_error) refs
    else refused (set_string type_error) refs

-- What a call of a Python function leaves behind: its result is released, or `hook` has handled
-- the exception.
abbrev pub finish_call : (WorkRequest → WorkRequest) → Option Obj × WorkRequest → WorkRequest
finish_call hook (some r, w) = with_refs (decref r w.refs) w
finish_call hook (none, w) = hook w

-- pyuv__tp_work_cb, in a thread of the pool: `print` is PyErr_Print.
unfoldable pub tp_work_cb :
    (Option Obj → WorkRequest → Option Obj × WorkRequest)
    → (print : WorkRequest → WorkRequest) → WorkRequest
    → WorkRequest
tp_work_cb call print w = finish_call print (call w.work_cb w)

abbrev pub is_none_obj : Option Obj → Bool
is_none_obj none = false
is_none_obj (some cb) = cb == none_obj

-- The user's part of pyuv__tp_done_cb: `errorno` is the object that it passes, None or a new
-- number, and gives up again.
abbrev pub run_done :
    (Option Obj → Obj → WorkRequest → Option Obj × WorkRequest)
    → (hook : WorkRequest → WorkRequest) → (errorno : Obj) → WorkRequest
    → WorkRequest
run_done call hook errorno w =
    if is_none_obj w.done_cb
    then w
    else let t = finish_call hook (call w.done_cb errorno (with_refs (incref errorno w.refs) w)) in
      with_refs (decref errorno t.refs) t

-- pyuv__tp_done_cb: `number` is PyInt_FromLong(status).
unfoldable pub tp_done_cb :
    (Option Obj → Obj → WorkRequest → Option Obj × WorkRequest)
    → (hook : WorkRequest → WorkRequest) → (status : ℤ) → (number : Obj) → Obj
    → WorkRequest
    → WorkRequest
tp_done_cb call hook status number me w =
    let t = run_done call hook (if is_neg status then number else none_obj) w in
    release me (record t { request = record t.request { req_ptr = false } })
