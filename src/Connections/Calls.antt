-- ===== src/Connections/Calls.antt =====
-- The methods of src/tcp.c and src/pipe.c that call libuv at once.
use pyuv.Base.{ℕ, [], Bool, true, false, not, Option, none, is_some, if◌then◌else◌, get_or}
use pyuv.Base.Int.{ℤ, to_int, long_of}
use pyuv.Error.{ExcType, tcp_error, pipe_error, type_error, runtime_error}
use pyuv.Py.{
  Obj, none_obj, Refs, xdecref, M, pure, ◌>>=◌, ◌>>◌, guard, check, check_open, parse, put,
}
use pyuv.Uv.{Libuv, Call}
use pyuv.Stream.{StreamType, uv_tcp, uv_named_pipe, uv_tty, uv_other}
use pyuv.Handle.{tp_new, tp_clear, initialize_handle}
use pyuv.Connections.{Peer, with_uv}

-- The argument of accept(), by its type; a Stream or UDP object also by whether it was initialized,
-- and a Stream by the type of its libuv handle, which is `uv_other` before.
pub data Client : Type 0 where
  stream_client : StreamType → Bool → Client
  udp_client : Bool → Client
  other_client : Client

-- The test of TCP_func_accept, and that of Pipe_func_accept
abbrev pub tcp_accepts : Client → Bool
tcp_accepts (stream_client t initialized) = true
tcp_accepts (udp_client initialized) = false
tcp_accepts other_client = false

abbrev pub pipe_accepts : Client → Bool
pipe_accepts (stream_client uv_tcp initialized) = true
pipe_accepts (stream_client uv_named_pipe initialized) = true
pipe_accepts (stream_client uv_tty initialized) = false
pipe_accepts (stream_client uv_other initialized) = false
pipe_accepts (udp_client initialized) = true
pipe_accepts other_client = false

-- TCP_tp_new, Pipe_tp_new; `blocks` and `fds` are what the code has elsewhere.
unfoldable pub peer_new : {Hdl : Type 0} → Hdl → Refs → ℕ → ℕ → Peer Hdl
unfolding tp_new
peer_new h refs blocks fds = record {
  handle = tp_new h refs;
  on_read_cb = none;
  on_new_connection_cb = none;
  connects = [];
  timers = [];
  closing = 0;
  blocks = blocks;
  fds = fds;
}

-- TCP_tp_clear, Pipe_tp_clear, with Stream_tp_clear
unfoldable pub peer_clear : {Hdl : Type 0} → Peer Hdl → Peer Hdl
unfolding tp_clear
peer_clear s = record s {
  handle =
      tp_clear
        (record s.handle { refs = xdecref s.on_read_cb (xdecref s.on_new_connection_cb s.refs) });
  on_read_cb = none;
  on_new_connection_cb = none;
}

module _ (U : Libuv) where
  open U use {Hdl, is_closing}

  -- The call of libuv, the test of its code, and what is returned.
  abbrev pub call_uv : {A : Type 0} → ExcType → A → Call U → M (Peer Hdl) A
  call_uv exc r c s =
      (do put (with_uv (c.run s.uv_handle).1 s); check (c.run s.uv_handle).0 exc; pure r) s

  -- A method that hands its arguments to one function of libuv.
  abbrev pub uv_call : ExcType → Option (Call U) → M (Peer Hdl) Obj
  uv_call exc args s =
      (do
        check_open s.initialized (is_closing s.uv_handle)
        uv ← parse args
        call_uv exc none_obj uv)
        s

  -- TCP_func_bind: the address where pyuv_parse_addr_tuple accepts it, and the flags.
  unfoldable pub tcp_bind : Option (Option (Call U)) → M (Peer Hdl) Obj
  tcp_bind args s =
      (do
        check_open s.initialized (is_closing s.uv_handle)
        a ← parse args
        uv_bind ← parse a
        call_uv tcp_error none_obj uv_bind)
        s

  unfoldable pub tcp_nodelay : Option (Call U) → M (Peer Hdl) Obj
  tcp_nodelay = uv_call tcp_error

  unfoldable pub tcp_keepalive : Option (Call U) → M (Peer Hdl) Obj
  tcp_keepalive = uv_call tcp_error

  unfoldable pub tcp_simultaneous_accepts : Option (Call U) → M (Peer Hdl) Obj
  tcp_simultaneous_accepts = uv_call tcp_error

  unfoldable pub tcp_open : Option (Call U) → M (Peer Hdl) Obj
  tcp_open = uv_call tcp_error

  unfoldable pub pipe_open : Option (Call U) → M (Peer Hdl) Obj
  pipe_open = uv_call pipe_error

  -- Pipe_func_bind; `abstract` follows where the name begins with a NUL, on Linux.
  unfoldable pub pipe_bind : M (Peer Hdl) Obj → Option (Bool × Call U) → M (Peer Hdl) Obj
  pipe_bind abstract args s =
      (do
        check_open s.initialized (is_closing s.uv_handle)
        a ← parse args
        λ t. if a.0 then abstract t else call_uv pipe_error none_obj a.1 t)
        s

  -- TCP_func_accept, Pipe_func_accept, by the test of the client
  abbrev pub accept :
      ExcType → (Client → Bool) → (Client → Call U) → Option Client → M (Peer Hdl) Obj
  accept exc accepts uv_accept args s =
      (do
        check_open s.initialized (is_closing s.uv_handle)
        client ← parse args
        guard (accepts client) type_error
        call_uv exc none_obj (uv_accept client))
        s

  unfoldable pub tcp_accept : (Client → Call U) → Option Client → M (Peer Hdl) Obj
  tcp_accept = accept tcp_error tcp_accepts

  unfoldable pub pipe_accept : (Client → Call U) → Option Client → M (Peer Hdl) Obj
  pipe_accept = accept pipe_error pipe_accepts

  -- What libuv answers about an open handle: TCP_func_getsockname, TCP_func_getpeername and those of
  -- Pipe.
  abbrev pub uv_query : {A : Type 0} → ExcType → (Hdl → ℤ × A) → M (Peer Hdl) A
  uv_query exc query s =
      (do
        check_open s.initialized (is_closing s.uv_handle)
        check (query s.uv_handle).0 exc
        pure (query s.uv_handle).1)
        s

  unfoldable pub tcp_getsockname : {A : Type 0} → (Hdl → ℤ × A) → M (Peer Hdl) A
  tcp_getsockname = uv_query tcp_error

  unfoldable pub tcp_getpeername : {A : Type 0} → (Hdl → ℤ × A) → M (Peer Hdl) A
  tcp_getpeername = uv_query tcp_error

  unfoldable pub pipe_getsockname : {A : Type 0} → (Hdl → ℤ × A) → M (Peer Hdl) A
  pipe_getsockname = uv_query pipe_error

  unfoldable pub pipe_getpeername : {A : Type 0} → (Hdl → ℤ × A) → M (Peer Hdl) A
  pipe_getpeername = uv_query pipe_error

  -- The sizes of the socket's buffers: the getters, and the setters, whose value is NULL when the
  -- attribute is deleted. They do not ask whether the handle is closed.
  abbrev pub size_get : ExcType → (Hdl → ℤ × ℤ) → M (Peer Hdl) ℤ
  size_get exc query s =
      (do
        guard s.initialized runtime_error
        check (query s.uv_handle).0 exc
        pure (query s.uv_handle).1)
        s

  abbrev pub size_set :
      ExcType → (long_max : ℕ) → (ℤ → Call U) → Option (Option ℤ) → M (Peer Hdl) (Unit {0})
  size_set exc long_max uv_size val s =
      (do
        guard s.initialized runtime_error
        guard (is_some val) type_error
        n ← parse (long_of long_max (get_or val none))
        call_uv exc tt (uv_size (to_int n)))
        s

  unfoldable pub tcp_sndbuf_get : (Hdl → ℤ × ℤ) → M (Peer Hdl) ℤ
  tcp_sndbuf_get = size_get tcp_error

  unfoldable pub tcp_sndbuf_set :
      (long_max : ℕ) → (ℤ → Call U) → Option (Option ℤ) → M (Peer Hdl) (Unit {0})
  tcp_sndbuf_set = size_set tcp_error

  unfoldable pub tcp_rcvbuf_get : (Hdl → ℤ × ℤ) → M (Peer Hdl) ℤ
  tcp_rcvbuf_get = size_get tcp_error

  unfoldable pub tcp_rcvbuf_set :
      (long_max : ℕ) → (ℤ → Call U) → Option (Option ℤ) → M (Peer Hdl) (Unit {0})
  tcp_rcvbuf_set = size_set tcp_error

  unfoldable pub pipe_sndbuf_get : (Hdl → ℤ × ℤ) → M (Peer Hdl) ℤ
  pipe_sndbuf_get = size_get pipe_error

  unfoldable pub pipe_sndbuf_set :
      (long_max : ℕ) → (ℤ → Call U) → Option (Option ℤ) → M (Peer Hdl) (Unit {0})
  pipe_sndbuf_set = size_set pipe_error

  unfoldable pub pipe_rcvbuf_get : (Hdl → ℤ × ℤ) → M (Peer Hdl) ℤ
  pipe_rcvbuf_get = size_get pipe_error

  unfoldable pub pipe_rcvbuf_set :
      (long_max : ℕ) → (ℤ → Call U) → Option (Option ℤ) → M (Peer Hdl) (Unit {0})
  pipe_rcvbuf_set = size_set pipe_error

  -- TCP_tp_init, Pipe_tp_init: `uv_init` gives the code and the handle that libuv initialized.
  unfoldable pub peer_init : ExcType → ℤ × Hdl → Option Obj → M (Peer Hdl) (Unit {0})
  unfolding initialize_handle
  peer_init exc uv_init args s =
      (do
        guard (not s.initialized) runtime_error
        loop ← parse args
        put (with_uv uv_init.1 s)
        check uv_init.0 exc
        put (record (with_uv uv_init.1 s) {
          handle = initialize_handle loop (with_uv uv_init.1 s).handle;
        }))
        s

  unfoldable pub tcp_init : ℤ × Hdl → Option Obj → M (Peer Hdl) (Unit {0})
  unfolding peer_init
  tcp_init = peer_init tcp_error

  unfoldable pub pipe_init : ℤ × Hdl → Option Obj → M (Peer Hdl) (Unit {0})
  unfolding peer_init
  pipe_init = peer_init pipe_error
