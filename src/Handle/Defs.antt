-- ===== src/Handle/Defs.antt =====
-- The functions of src/handle.c over the object's fields, the reference counts, and whether the
-- memory was released.
use pyuv.Base.{
  ℕ, zero, ◌+◌, ◌-◌, ◌/◌, ◌%◌, Bool, true, false, not, ◌&&◌, ◌||◌, Option, none, some, ◌==◌,
  if◌then◌else◌, get_or,
}
use pyuv.Base.Int.{ℤ, pos}
use pyuv.Error.{type_error, runtime_error}
use pyuv.Py.{
  Obj, none_obj, Refs, incref, decref, xdecref, M, ok, raised, aborted, set_string, by_callee, pure,
  ◌>>=◌, ◌>>◌, guard, parse, put, check_open,
}
use pyuv.Uv.{Libuv, handle_close_cb, handle_dealloc_close_cb}

-- struct Handle. A NULL pointer is `none`. `refs` is the interpreter's count of every object, and
-- `freed` says that tp_free has run; weak references are left out.
pub record Handle (Hdl : Type 0) : Type 0 where
  pub uv_handle : Hdl
  pub flags : ℕ
  pub initialized : Bool
  pub dict : Option Obj
  pub loop : Option Obj
  pub on_close_cb : Option Obj
  pub refs : Refs
  pub freed : Bool

-- flags & PYUV__PYREF, where PYUV__PYREF is 1 << 1
abbrev pub has_pyref : ℕ → Bool
has_pyref flags = flags / 2 % 2 == 1

-- PYUV_HANDLE_INCREF: at most one such reference is held. Bit 1 is clear where 2 is added.
unfoldable pub handle_incref : {Hdl : Type 0} → Obj → Handle Hdl → Handle Hdl
handle_incref me s =
    if has_pyref s.flags then s else record s { flags = s.flags + 2; refs = incref me s.refs }

-- PYUV_HANDLE_DECREF
unfoldable pub handle_decref : {Hdl : Type 0} → Obj → Handle Hdl → Handle Hdl
handle_decref me s =
    if has_pyref s.flags then record s { flags = s.flags - 2; refs = decref me s.refs } else s

-- Handle_tp_new, over memory that the allocator has cleared; `h` is the embedded handle.
unfoldable pub tp_new : {Hdl : Type 0} → Hdl → Refs → Handle Hdl
tp_new h refs = record {
  uv_handle = h;
  flags = 0;
  initialized = false;
  dict = none;
  loop = none;
  on_close_cb = none;
  refs = refs;
  freed = false;
}

-- initialize_handle
unfoldable pub initialize_handle : {Hdl : Type 0} → Obj → Handle Hdl → Handle Hdl
initialize_handle loop s = record s {
  refs = xdecref s.loop (incref loop s.refs);
  loop = some loop;
  flags = 0;
  initialized = true;
}

-- Handle_dict_get: `new` is what PyDict_New returns, with its one reference.
unfoldable pub dict_get : {Hdl : Type 0} → Option Obj → M (Handle Hdl) Obj
dict_get new s = elim s.dict [
  | some d ↦ (ok d, record s { refs = incref d s.refs })
  | none ↦ elim new [
    | some d ↦ (ok d, record s { dict = some d; refs = incref d (incref d s.refs) })
    | none ↦ (raised by_callee, s)
  ]
]

-- Handle_dict_set: `val` is NULL when the attribute is deleted.
unfoldable pub dict_set : {Hdl : Type 0} → (Obj → Bool) → Option Obj → M (Handle Hdl) (Unit {0})
dict_set is_dict none s = (raised (set_string type_error), s)
dict_set is_dict (some d) s =
    (do
      guard (is_dict d) type_error
      put (record s { dict = some d; refs = xdecref s.dict (incref d s.refs) }))
      s

-- Handle_tp_clear
unfoldable pub tp_clear : {Hdl : Type 0} → Handle Hdl → Handle Hdl
tp_clear s = record s {
  on_close_cb = none;
  loop = none;
  dict = none;
  refs = xdecref s.dict (xdecref s.loop (xdecref s.on_close_cb s.refs));
}

-- What a call of a Python function leaves behind: its result is released, or `hook` has handled
-- the exception (handle_uncaught_exception).
abbrev pub finish_call :
    {Hdl : Type 0} → (Handle Hdl → Handle Hdl) → Option Obj × Handle Hdl → Handle Hdl
finish_call hook (some r, s) = record s { refs = decref r s.refs }
finish_call hook (none, s) = hook s

-- The end of pyuv__handle_close_cb, after the user's callback; Py_DECREF of NULL aborts.
unfoldable pub finish_close : {Hdl : Type 0} → Obj → M (Handle Hdl) (Unit {0})
unfolding handle_decref
finish_close me s = elim s.on_close_cb [
  | none ↦ (aborted, s)
  | some cb ↦ elim s.loop [
    | none ↦ (aborted, s)
    | some l ↦
        let t = handle_decref me (record s {
          on_close_cb = none;
          loop = some none_obj;
          refs = incref none_obj (decref l (decref cb s.refs));
        }) in
        (ok tt, record t { refs = decref me t.refs })
  ]
]

-- The user's part of pyuv__handle_close_cb: `call` runs his function with the handle.
abbrev pub run_user :
    {Hdl : Type 0}
    → (Obj → Handle Hdl → Option Obj × Handle Hdl)
    → (Handle Hdl → Handle Hdl)
    → Obj
    → Handle Hdl
    → Handle Hdl
run_user call hook cb s = if cb == none_obj then s else finish_call hook (call cb s)

-- pyuv__handle_close_cb
unfoldable pub close_cb :
    {Hdl : Type 0}
    → (Obj → Handle Hdl → Option Obj × Handle Hdl)
    → (Handle Hdl → Handle Hdl)
    → Obj
    → M (Handle Hdl) (Unit {0})
close_cb call hook me s = elim s.on_close_cb [
  | none ↦ (aborted, s)
  | some cb ↦ finish_close me (run_user call hook cb s)
]

-- pyuv__handle_dealloc_close_cb
unfoldable pub dealloc_close_cb : {Hdl : Type 0} → Obj → Handle Hdl → Handle Hdl
dealloc_close_cb me s = record s { refs = decref me s.refs }

module _ (U : Libuv) where
  open U use {Hdl, is_closing, close}

  -- Handle_func_close: the argument is optional, and None stands for no callback.
  unfoldable pub func_close : (Obj → Bool) → Obj → Option (Option Obj) → M (Handle Hdl) Obj
  func_close callable me args s =
      (do
        check_open s.initialized (is_closing s.uv_handle)
        arg ← parse args
        let callback = get_or arg none_obj
        guard (callback == none_obj || callable callback) type_error
        put (record s {
          on_close_cb = some callback;
          refs = incref me (incref callback s.refs);
          uv_handle = close handle_close_cb s.uv_handle;
        })
        pure none_obj)
        s

  -- Handle_tp_dealloc, run when the last reference is gone: an open handle is closed and lives
  -- again until its close callback; any other is released.
  unfoldable pub tp_dealloc : Obj → Handle Hdl → Handle Hdl
  unfolding tp_clear
  tp_dealloc me s =
      if s.initialized && not (is_closing s.uv_handle)
      then record s {
        uv_handle = close handle_dealloc_close_cb s.uv_handle;
        refs = incref me s.refs;
      }
      else record (tp_clear s) { freed = true }

  -- Handle_closed_get, and Handle_active_get and Handle_ref_get over libuv's answer
  unfoldable pub closed_get : M (Handle Hdl) Bool
  closed_get s = (do guard s.initialized runtime_error; pure (is_closing s.uv_handle)) s

  unfoldable pub flag_get : (Hdl → Bool) → M (Handle Hdl) Bool
  flag_get uv_flag s = (do guard s.initialized runtime_error; pure (uv_flag s.uv_handle)) s

  -- Handle_ref_set: `val` is what PyLong_AsLong returns. There is no test that the handle is
  -- initialized.
  unfoldable pub ref_set : (Hdl → Hdl) → (Hdl → Hdl) → Option ℤ → M (Handle Hdl) (Unit {0})
  ref_set uv_ref uv_unref none s = (raised by_callee, s)
  ref_set uv_ref uv_unref (some (pos zero)) s =
      put (record s { uv_handle = uv_unref s.uv_handle }) s
  ref_set uv_ref uv_unref (some n) s = put (record s { uv_handle = uv_ref s.uv_handle }) s
