-- ===== src/Watcher.antt =====
-- src/check.c, src/idle.c, src/prepare.c, src/signal.c and src/poll.c: handles that call one Python
-- function from the loop. The five files repeat the same code; what differs is the exception type,
-- libuv's functions, and whether stop() forgets the function.
pub mod Kinds
pub mod Ownership
pub mod Files
pub mod Async
pub mod Lifecycle
pub mod Acts
pub mod Callbacks
pub mod Safety
mod Examples
use pyuv.Base.{Bool, true, false, not, Option, none, some}
use pyuv.Base.Int.{ℤ}
use pyuv.Error.{ExcType, type_error, runtime_error}
use pyuv.Py.{
  Obj, none_obj, Refs, incref, decref, xdecref, M, ok, pure, ◌>>=◌, ◌>>◌, guard, check, parse, put,
  check_open,
}
use pyuv.Uv.{Libuv, Call}
use pyuv.Handle.{Handle, handle_incref, handle_decref, initialize_handle}

-- struct Check, Idle, Prepare, Signal, Poll: the base class and the function.
pub record Watcher (Hdl : Type 0) : Type 0 where
  pub handle : Handle Hdl
  pub open handle use *
  pub callback : Option Obj

abbrev pub with_uv : {Hdl : Type 0} → Hdl → Watcher Hdl → Watcher Hdl
with_uv h w = record w { handle = record w.handle { uv_handle = h } }

abbrev pub with_refs : {Hdl : Type 0} → Refs → Watcher Hdl → Watcher Hdl
with_refs r w = record w { handle = record w.handle { refs = r } }

-- `tmp = self->callback; Py_INCREF(callback); self->callback = callback; Py_XDECREF(tmp);`
abbrev pub set_callback : {Hdl : Type 0} → Obj → Watcher Hdl → Watcher Hdl
set_callback cb w = record (with_refs (xdecref w.callback (incref cb w.refs)) w) {
  callback = some cb;
}

-- `Py_XDECREF(self->callback); self->callback = NULL;`
abbrev pub drop_callback : {Hdl : Type 0} → Watcher Hdl → Watcher Hdl
drop_callback w = record (with_refs (xdecref w.callback w.refs) w) { callback = none }

abbrev pub over_handle : {Hdl : Type 0} → (Handle Hdl → Handle Hdl) → Watcher Hdl → Watcher Hdl
over_handle f w = record w { handle = f w.handle }

-- What PyObject_CallFunctionObjArgs leaves: the result is released, or the hook has run.
abbrev pub finish_call :
    {Hdl : Type 0} → (Watcher Hdl → Watcher Hdl) → Option Obj × Watcher Hdl → Watcher Hdl
finish_call hook (some r, w) = with_refs (decref r w.refs) w
finish_call hook (none, w) = hook w

-- pyuv__check_cb and its kin: `call` runs the function on the handle; the object is held
-- meanwhile.
unfoldable pub watcher_cb :
    {Hdl : Type 0}
    → (Option Obj → Watcher Hdl → Option Obj × Watcher Hdl)
    → (Watcher Hdl → Watcher Hdl)
    → Obj
    → Watcher Hdl
    → Watcher Hdl
watcher_cb call hook me w =
    let held_w = with_refs (incref me w.refs) w in
    let t = finish_call hook (call w.callback held_w) in with_refs (decref me t.refs) t

module _ (U : Libuv) (exc : ExcType) where
  open U use {Hdl, is_closing}

  -- Check_func_start and its kin: `args` are the parsed arguments, the function first.
  unfoldable pub start : (Obj → Bool) → Obj → Call U → Option Obj → M (Watcher Hdl) Obj
  start callable me uv_start args w =
      (do
        check_open w.initialized (is_closing w.uv_handle)
        callback ← parse args
        guard (callable callback) type_error
        let called = uv_start.run w.uv_handle
        put (with_uv called.1 w)
        check called.0 exc
        put (over_handle (handle_incref me) (set_callback callback (with_uv called.1 w)))
        pure none_obj)
        w

  -- Signal_func_stop: the function is kept.
  unfoldable pub stop : Obj → Call U → M (Watcher Hdl) Obj
  stop me uv_stop w =
      (do
        check_open w.initialized (is_closing w.uv_handle)
        let called = uv_stop.run w.uv_handle
        put (with_uv called.1 w)
        check called.0 exc
        put (over_handle (handle_decref me) (with_uv called.1 w))
        pure none_obj)
        w

  -- Check_func_stop, Idle_func_stop, Prepare_func_stop, Poll_func_stop: the function is dropped.
  unfoldable pub stop_clear : Obj → Call U → M (Watcher Hdl) Obj
  stop_clear me uv_stop w =
      (do
        check_open w.initialized (is_closing w.uv_handle)
        let called = uv_stop.run w.uv_handle
        put (with_uv called.1 w)
        check called.0 exc
        put (over_handle (handle_decref me) (drop_callback (with_uv called.1 w)))
        pure none_obj)
        w

  -- Check_tp_init and its kin: `uv_init` gives the code and the handle that libuv initialized.
  unfoldable pub tp_init : ℤ × Hdl → Option Obj → M (Watcher Hdl) (Unit {0})
  tp_init uv_init args w =
      (do
        guard (not w.initialized) runtime_error
        loop ← parse args
        put (with_uv uv_init.1 w)
        check uv_init.0 exc
        put (over_handle (initialize_handle loop) (with_uv uv_init.1 w)))
        w
