-- ===== src/Connections/Abstract.antt =====
-- src/abstract.c: Pipes whose name begins with a NUL, on Linux. A request to connect is a timer that
-- fires at once.
use pyuv.Base.{ℕ, ◌+◌, ◌-◌, Bool, Option, ◌∷◌, leb, if◌then◌else◌}
use pyuv.Base.Int.{ℤ, is_neg}
use pyuv.Error.{pipe_error, memory_error}
use pyuv.Py.{Obj, none_obj, incref, decref, uv, M, ok, raised, ◌>>◌, guard, pure}
use pyuv.Uv.{Libuv, Call}
use pyuv.Connections.{Peer, with_refs, with_uv, finish_call}

-- `if (len >= (int) sizeof(saddr.sun_path)) len = sizeof(saddr.sun_path) - 1;`
unfoldable pub clip : ℕ → ℕ → ℕ
clip size len = if leb size len then size - 1 else len

-- What the system and libuv answer: the codes of socket, bind or connect, uv_timer_init and
-- uv_timer_start, the negated errno, and whether there is memory.
pub record System : Type 0 where
  pub socket_code : ℤ
  pub call_code : ℤ
  pub errno : ℤ
  pub malloc : Bool
  pub init_code : ℤ
  pub start_code : ℤ

abbrev pub add_fd : {Hdl : Type 0} → Peer Hdl → Peer Hdl
add_fd s = record s { fds = s.fds + 1 }

-- close(fd), or libuv has taken it
abbrev pub drop_fd : {Hdl : Type 0} → Peer Hdl → Peer Hdl
drop_fd s = record s { fds = s.fds - 1 }

-- pyuv__pipe_connect_abstract_cb for the function `callback`, whose timer has fired: libuv then
-- closes the timer.
unfoldable pub abstract_cb :
    {Hdl : Type 0}
    → (Obj → Obj → Peer Hdl → Option Obj × Peer Hdl)
    → (Peer Hdl → Peer Hdl)
    → (me callback : Obj) → Peer Hdl
    → Peer Hdl
abstract_cb call hook me callback s =
    let t = finish_call hook (call callback none_obj (with_refs (incref none_obj s.refs) s)) in
    record (with_refs (decref me (decref callback (decref none_obj t.refs))) t) {
      closing = t.closing + 1;
    }

-- pyuv__deallocate_handle_data
unfoldable pub timer_closed : {Hdl : Type 0} → Peer Hdl → Peer Hdl
timer_closed s = record s { closing = s.closing - 1; blocks = s.blocks - 1 }

module _ (U : Libuv) where
  open U use {Hdl}

  -- uv_pipe_open of the new descriptor; the label `error` closes it.
  abbrev pub open_fd : ℤ × Hdl → M (Peer Hdl) (Unit {0})
  open_fd called s =
      if is_neg called.0
      then (raised (uv pipe_error called.0), drop_fd (with_uv called.1 s))
      else (ok tt, drop_fd (with_uv called.1 s))

  -- socket, then bind or connect
  abbrev pub make_fd : System → M (Peer Hdl) (Unit {0})
  make_fd y s =
      if is_neg y.socket_code
      then (raised (uv pipe_error y.errno), s)
      else (if is_neg y.call_code
          then (raised (uv pipe_error y.errno), drop_fd (add_fd s))
          else (ok tt, add_fd s))

  abbrev pub open_new : System → Call U → M (Peer Hdl) (Unit {0})
  open_new y uv_open s = (do make_fd y; λ t. open_fd (uv_open.run t.uv_handle) t) s

  -- Pipe_func_bind_abstract
  unfoldable pub bind_abstract : System → Call U → M (Peer Hdl) Obj
  bind_abstract y uv_open s = (do open_new y uv_open; pure none_obj) s

  -- The request of Pipe_func_connect_abstract; the label `error` frees its block and nothing else.
  abbrev pub abstract_request : (me callback : Obj) → System → M (Peer Hdl) Obj
  abstract_request me callback y s =
      if is_neg y.init_code
      then (raised (uv pipe_error y.init_code), s)
      else (if is_neg y.start_code
          then (
            raised (uv pipe_error y.start_code),
            with_refs (incref callback (incref me s.refs)) s,
          )
          else (
            ok none_obj,
            record (with_refs (incref callback (incref me s.refs)) s) {
              timers = callback ∷ s.timers;
              blocks = s.blocks + 1;
            },
          ))

  -- Pipe_func_connect_abstract
  unfoldable pub connect_abstract : (me : Obj) → System → Call U → Obj → M (Peer Hdl) Obj
  connect_abstract me y uv_open callback s =
      (do open_new y uv_open; guard y.malloc memory_error; abstract_request me callback y) s
