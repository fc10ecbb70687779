-- ===== src/Connections.antt =====
-- src/tcp.c, src/pipe.c and src/abstract.c: what TCP and Pipe add to a stream, over the requests to
-- connect that libuv owns.
pub mod Calls
pub mod Abstract
pub mod Ownership
pub mod Requests
pub mod Callbacks
pub mod Methods
mod Examples
use pyuv.Base.{
  ℕ, zero, suc, ◌+◌, ◌-◌, Bool, true, false, not, ◌&&◌, ◌||◌, Option, none, some, List, [], ◌∷◌,
  if◌then◌else◌, get_or,
}
use pyuv.Base.Int.{ℤ, pos, is_neg}
use pyuv.Error.{ExcType, type_error, value_error, runtime_error, memory_error}
use pyuv.Py.{
  Obj, none_obj, Refs, incref, decref, xdecref, set_string, uv, M, ok, raised, pure, ◌>>=◌, ◌>>◌,
  guard, check, check_open, parse, put,
}
use pyuv.Uv.{Libuv, Call}
use pyuv.Handle.{Handle, initialize_handle}

-- struct TCP, struct Pipe. `connects` has the functions of the uv_connect_t that libuv owns, and
-- `timers` those of the requests whose timer is running; each holds the handle too and is a block of
-- memory. `closing` counts the requests whose timer libuv is closing; they are memory only. `blocks`
-- counts all blocks, `fds` the descriptors that the code opened and libuv does not have.
pub record Peer (Hdl : Type 0) : Type 0 where
  pub handle : Handle Hdl
  pub open handle use *
  pub on_read_cb : Option Obj
  pub on_new_connection_cb : Option Obj
  pub connects : List Obj
  pub timers : List Obj
  pub closing : ℕ
  pub blocks : ℕ
  pub fds : ℕ

abbrev pub with_uv : {Hdl : Type 0} → Hdl → Peer Hdl → Peer Hdl
with_uv h s = record s { handle = record s.handle { uv_handle = h } }

abbrev pub with_refs : {Hdl : Type 0} → Refs → Peer Hdl → Peer Hdl
with_refs r s = record s { handle = record s.handle { refs = r } }

-- The objects that a callback passes as its error: a new number, or None with a new reference.
abbrev pub error_arg : ℤ → Obj → Obj
error_arg (pos zero) number = none_obj
error_arg status number = number

-- What PyObject_CallFunctionObjArgs leaves: the result is released, or the hook has run.
abbrev pub finish_call : {Hdl : Type 0} → (Peer Hdl → Peer Hdl) → Option Obj × Peer Hdl → Peer Hdl
finish_call hook (some r, s) = with_refs (decref r s.refs) s
finish_call hook (none, s) = hook s

-- pyuv__tcp_listen_cb, pyuv__pipe_listen_cb; `call` runs the function on the handle and the error.
unfoldable pub listen_cb :
    {Hdl : Type 0}
    → (Option Obj → Obj → Peer Hdl → Option Obj × Peer Hdl)
    → (Peer Hdl → Peer Hdl)
    → (me number : Obj) → (status : ℤ) → Peer Hdl
    → Peer Hdl
listen_cb call hook me number status s =
    let error = error_arg status number in
    let held_s = with_refs (incref error (incref me s.refs)) s in
    let t = finish_call hook (call held_s.on_new_connection_cb error held_s) in
    with_refs (decref me (decref error t.refs)) t

-- pyuv__tcp_connect_cb, pyuv__pipe_connect_cb for the function `callback`, whose request libuv has
-- given back.
unfoldable pub connect_cb :
    {Hdl : Type 0}
    → (Obj → Obj → Peer Hdl → Option Obj × Peer Hdl)
    → (Peer Hdl → Peer Hdl)
    → (me number : Obj) → (status : ℤ) → (callback : Obj) → Peer Hdl
    → Peer Hdl
connect_cb call hook me number status callback s =
    let error = error_arg status number in
    let t = finish_call hook (call callback error (with_refs (incref error s.refs) s)) in
    record (with_refs (decref me (decref callback (decref error t.refs))) t) {
      blocks = t.blocks - 1;
    }

-- What listen() does with libuv's answer.
abbrev pub listen_set : {Hdl : Type 0} → ExcType → Obj → ℤ × Hdl → M (Peer Hdl) Obj
listen_set exc callback called s =
    if is_neg called.0 then (raised (uv exc called.0), with_uv called.1 s) else (
      ok none_obj,
      record (with_refs (xdecref s.on_new_connection_cb (incref callback s.refs))
          (with_uv called.1 s)) { on_new_connection_cb = some callback },
    )

module _ (U : Libuv) (exc : ExcType) where
  open U use {Hdl, is_closing}

  -- TCP_func_listen, Pipe_func_listen: the backlog is 511 where it is left out.
  unfoldable pub listen :
      (Obj → Bool) → (uv_listen : ℤ → Call U) → Option (Obj × Option ℤ) → M (Peer Hdl) Obj
  listen callable uv_listen args s =
      (do
        check_open s.initialized (is_closing s.uv_handle)
        a ← parse args
        let backlog = get_or a.1 (pos 511)
        guard (not (is_neg backlog)) value_error
        guard (callable a.0) type_error
        λ t. listen_set exc a.0 ((uv_listen backlog).run t.uv_handle) t)
        s

  abbrev pub request_uv : (me callback : Obj) → ℤ × Hdl → M (Peer Hdl) Obj
  request_uv me callback called s =
      if is_neg called.0
      then (
        raised (uv exc called.0),
        with_refs (decref callback (incref callback s.refs)) (with_uv called.1 s),
      )
      else (
        ok none_obj,
        record (with_refs (incref me (incref callback s.refs)) (with_uv called.1 s)) {
          connects = callback ∷ s.connects;
          blocks = s.blocks + 1;
        },
      )

  -- The request of connect, behind Py_INCREF(callback); `uv_connect` always succeeds for a Pipe.
  abbrev pub connect_request : (me callback : Obj) (malloc : Bool) → Call U → M (Peer Hdl) Obj
  connect_request me callback malloc uv_connect s =
      if malloc then request_uv me callback (uv_connect.run s.uv_handle) s else (
        raised (set_string memory_error),
        with_refs (decref callback (incref callback s.refs)) s,
      )

  -- TCP_func_connect: the address, where pyuv_parse_addr_tuple accepts it, and the function.
  unfoldable pub tcp_connect :
      (Obj → Bool) → (me : Obj) (malloc : Bool) → Option (Option (Call U) × Obj) → M (Peer Hdl) Obj
  tcp_connect callable me malloc args s =
      (do
        check_open s.initialized (is_closing s.uv_handle)
        a ← parse args
        guard (callable a.1) type_error
        uv_connect ← parse a.0
        connect_request me a.1 malloc uv_connect)
        s

  abbrev pub plain_pipe_request : (me callback : Obj) (malloc : Bool) → Call U → M (Peer Hdl) Obj
  plain_pipe_request me callback malloc uv_connect s =
      if malloc then request_uv me callback (pos 0, (uv_connect.run s.uv_handle).1) s else (
        raised (set_string memory_error),
        with_refs (decref callback (incref callback s.refs)) s,
      )

  abbrev pub pipe_request :
      (me : Obj) (malloc : Bool)
      → (Obj → M (Peer Hdl) Obj)
      → (Bool × Call U) × Obj
      → M (Peer Hdl) Obj
  pipe_request me malloc abstract ((true, uv_connect), callback) s = abstract callback s
  pipe_request me malloc abstract ((false, uv_connect), callback) s =
      plain_pipe_request me callback malloc uv_connect s

  -- Pipe_func_connect; uv_pipe_connect returns no code. `abstract` follows where the name begins with
  -- a NUL, on Linux.
  unfoldable pub pipe_connect :
      (Obj → Bool)
      → (me : Obj) (malloc : Bool) → (abstract : Obj → M (Peer Hdl) Obj)
      → Option ((Bool × Call U) × Obj)
      → M (Peer Hdl) Obj
  pipe_connect callable me malloc abstract args s =
      (do
        check_open s.initialized (is_closing s.uv_handle)
        a ← parse args
        guard (callable a.1) type_error
        pipe_request me malloc abstract a)
        s
