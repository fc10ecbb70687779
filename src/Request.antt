-- ===== src/Request.antt =====
-- src/request.c, and the work requests of src/loop.c: objects for something that libuv runs in its
-- thread pool and reports on once.
pub mod Work
pub mod Ownership
pub mod Completion
mod Examples
use pyuv.Base.{ℕ, ◌+◌, ◌-◌, Bool, true, false, not, ◌&&◌, Option, none, some, ◌==◌, if◌then◌else◌}
use pyuv.Base.Int.{ℤ, is_zero}
use pyuv.Error.{type_error, runtime_error}
use pyuv.Py.{
  Obj, Refs, incref, xdecref, M, ok, raised, set_string, by_callee, ◌>>=◌, ◌>>◌, guard, parse, put,
}

-- struct Request. Of the pointer to libuv's request, which lies in the same object, only whether it
-- is NULL matters: `req_ptr` is false then. `refs` and `freed` are as in a handle.
pub record Request : Type 0 where
  pub req_ptr : Bool
  pub initialized : Bool
  pub loop : Option Obj
  pub dict : Option Obj
  pub refs : Refs
  pub freed : Bool

-- Request_tp_new, over memory that the allocator has cleared.
unfoldable pub tp_new : Refs → Request
tp_new refs = record {
  req_ptr = false;
  initialized = false;
  loop = none;
  dict = none;
  refs = refs;
  freed = false;
}

-- Request_tp_init
unfoldable pub tp_init : Option Obj → M Request (Unit {0})
tp_init args s =
    (do
      guard (not s.initialized) runtime_error
      loop ← parse args
      put (record s {
        loop = some loop;
        refs = xdecref s.loop (incref loop s.refs);
        initialized = true;
      }))
      s

-- Request_func_cancel: `uv_cancel` is libuv's answer, which is asked for only with a request.
unfoldable pub func_cancel : ℤ → Request → Bool
func_cancel uv_cancel s = s.req_ptr && is_zero uv_cancel

-- Request_dict_get: `new` is what PyDict_New returns, with its one reference.
unfoldable pub dict_get : Option Obj → M Request Obj
dict_get new s = elim s.dict [
  | some d ↦ (ok d, record s { refs = incref d s.refs })
  | none ↦ elim new [
    | some d ↦ (ok d, record s { dict = some d; refs = incref d (incref d s.refs) })
    | none ↦ (raised by_callee, s)
  ]
]

-- Request_dict_set: `val` is NULL when the attribute is deleted.
unfoldable pub dict_set : (Obj → Bool) → Option Obj → M Request (Unit {0})
dict_set is_dict none s = (raised (set_string type_error), s)
dict_set is_dict (some d) s =
    (do
      guard (is_dict d) type_error
      put (record s { dict = some d; refs = xdecref s.dict (incref d s.refs) }))
      s

-- Request_tp_clear
unfoldable pub tp_clear : Request → Request
tp_clear s = record s { loop = none; dict = none; refs = xdecref s.dict (xdecref s.loop s.refs) }
