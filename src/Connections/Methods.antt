-- ===== src/Connections/Methods.antt =====
-- The methods of TCP and Pipe that call libuv at once (src/tcp.c, src/pipe.c, src/abstract.c).
use pyuv.Base.{
  ℕ, ◌≡◌, refl, arith, Bool, true, false, not, ◌&&◌, Option, none, some, is_some, get_or,
  if◌then◌else◌,
}
use pyuv.Base.Int.{to_int, long_of, ℤ, is_neg}
use pyuv.Error.{ExcType, pipe_error, tcp_error, type_error, runtime_error}
use pyuv.Py.{
  Obj, none_obj, Refs, ok, raised, uv, is_ok, ◌>>=◌, ◌>>◌, parse, guard, check, pure, if_keeps,
  bind_keeps, guard_keeps, open_keeps, parse_keeps,
}
use pyuv.Uv.{Libuv, Call}
use pyuv.Stream.{uv_other}
use pyuv.Connections.{Peer, with_uv}
use pyuv.Connections.Calls.{
  Client, stream_client, udp_client, call_uv, uv_call, tcp_bind, pipe_bind, accept, tcp_accept,
  pipe_accept, tcp_accepts, pipe_accepts, size_set,
}
use pyuv.Connections.Abstract.{System, bind_abstract, open_new}
use pyuv.Connections.Ownership.{Live, run-Live, open_new-Live}

module _ (U : Libuv) (me : Obj) where
  open U use {Hdl, is_closing, pending}

  call_uv-Live :
      {A : Type 0} (exc : ExcType) (r : A) (c : Call U) (spare : ℕ) (ext : Refs) (s : Peer Hdl)
      → Live U me spare ext s
      → Live U me spare ext (call_uv U exc r c s).1
  call_uv-Live {A} exc r c spare ext s v =
      let t = with_uv (c.run s.uv_handle).1 s in
      let w = run-Live U me spare ext c s.fds s v in
      bind_keeps {A = A} (Live U me spare ext) (check (c.run s.uv_handle).0 exc t) (λ u. pure r)
        (if_keeps {A = Unit {0}} (Live U me spare ext) (is_neg (c.run s.uv_handle).0)
          (raised (uv exc (c.run s.uv_handle).0), t) (ok tt, t) w w)
        (λ u p q. q)

  uv_call-Live :
      (exc : ExcType) (args : Option (Call U)) (spare : ℕ) (ext : Refs) (s : Peer Hdl)
      → Live U me spare ext s
      → Live U me spare ext (uv_call U exc args s).1
  uv_call-Live exc args spare ext s v =
      open_keeps {A = Obj} (Live U me spare ext) s.initialized (is_closing s.uv_handle)
        (λ t. (do c ← parse args; call_uv U exc none_obj c) t) s v
        (parse_keeps {A = Obj} (Live U me spare ext) args (call_uv U exc none_obj) s v
          (λ c. call_uv-Live exc none_obj c spare ext s v))

  tcp_bind-Live :
      (args : Option (Option (Call U))) (spare : ℕ) (ext : Refs) (s : Peer Hdl)
      → Live U me spare ext s
      → Live U me spare ext (tcp_bind U args s).1
  unfolding tcp_bind
  tcp_bind-Live args spare ext s v =
      let bound = λ (a : Option (Call U)).
        λ (t : Peer Hdl). (do c ← parse a; call_uv U tcp_error none_obj c) t in
      open_keeps {A = Obj} (Live U me spare ext) s.initialized (is_closing s.uv_handle)
        (λ t. (do a ← parse args; bound a) t) s v
        (parse_keeps {A = Obj} (Live U me spare ext) args bound s v (λ a.
          parse_keeps {A = Obj} (Live U me spare ext) a (call_uv U tcp_error none_obj) s v
            (λ c. call_uv-Live tcp_error none_obj c spare ext s v)))

  bind_abstract-Live :
      (y : System) (c : Call U) (spare : ℕ) (ext : Refs) (s : Peer Hdl)
      → Live U me spare ext s
      → Live U me spare ext (bind_abstract U y c s).1
  unfolding bind_abstract
  bind_abstract-Live y c spare ext s v =
      bind_keeps {A = Obj} (Live U me spare ext) (open_new U y c s) (λ u. pure none_obj)
        (open_new-Live U me y c spare ext s v) (λ u t w. w)

  pipe_bind-Live :
      (y : System) (c : Call U) (args : Option (Bool × Call U)) (spare : ℕ) (ext : Refs)
      (s : Peer Hdl)
      → Live U me spare ext s
      → Live U me spare ext (pipe_bind U (bind_abstract U y c) args s).1
  unfolding pipe_bind
  pipe_bind-Live y c args spare ext s v =
      let bound = λ (a : Bool × Call U). λ (t : Peer Hdl).
        if a.0 then bind_abstract U y c t else call_uv U pipe_error none_obj a.1 t in
      open_keeps {A = Obj} (Live U me spare ext) s.initialized (is_closing s.uv_handle)
        (λ t. (do a ← parse args; bound a) t) s v
        (parse_keeps {A = Obj} (Live U me spare ext) args bound s v (λ a.
          if_keeps (Live U me spare ext) a.0 (bind_abstract U y c s)
            (call_uv U pipe_error none_obj a.1 s) (bind_abstract-Live y c spare ext s v)
            (call_uv-Live pipe_error none_obj a.1 spare ext s v)))

  accept-Live :
      (exc : ExcType) (accepts : Client → Bool) (uv_accept : Client → Call U) (args : Option Client)
      (spare : ℕ) (ext : Refs) (s : Peer Hdl)
      → Live U me spare ext s
      → Live U me spare ext (accept U exc accepts uv_accept args s).1
  accept-Live exc accepts uv_accept args spare ext s v =
      let called = λ (c : Client). call_uv U exc none_obj (uv_accept c) in
      let tested =
        λ (c : Client). λ (t : Peer Hdl). (do guard (accepts c) type_error; called c) t in
      open_keeps {A = Obj} (Live U me spare ext) s.initialized (is_closing s.uv_handle)
        (λ t. (do c ← parse args; tested c) t) s v
        (parse_keeps {A = Obj} (Live U me spare ext) args tested s v (λ c.
          guard_keeps {A = Obj} (Live U me spare ext) (accepts c) type_error (called c) s v
            (call_uv-Live exc none_obj (uv_accept c) spare ext s v)))

  size_set-Live :
      (exc : ExcType) (long_max : ℕ) (uv_size : ℤ → Call U) (val : Option (Option ℤ)) (spare : ℕ)
      (ext : Refs) (s : Peer Hdl)
      → Live U me spare ext s
      → Live U me spare ext (size_set U exc long_max uv_size val s).1
  size_set-Live exc long_max uv_size val spare ext s v =
      let set = λ (n : ℤ). call_uv U exc tt (uv_size (to_int n)) in
      let given = λ (t : Peer Hdl). (do n ← parse (long_of long_max (get_or val none)); set n) t in
      guard_keeps {A = Unit {0}} (Live U me spare ext) s.initialized runtime_error
        (λ t. (do guard (is_some val) type_error; given) t) s v
        (guard_keeps {A = Unit {0}} (Live U me spare ext) (is_some val) type_error given s v (
          parse_keeps {A = Unit {0}} (Live U me spare ext) (long_of long_max (get_or val none)) set
            s v (λ n. call_uv-Live exc tt (uv_size (to_int n)) spare ext s v)))

  -- bind(), accept(), the setters of the buffer sizes, and the methods that hand their arguments to
  -- libuv, of a TCP or a Pipe that was not released, whatever the system and libuv answer: the
  -- account of references and memory blocks still holds, and the handle is not released.
  pub calls-Live :
      (exc : ExcType) (args : Option (Call U)) (address : Option (Option (Call U)))
      (name : Option (Bool × Call U)) (y : System) (uv_open : Call U) (accepts : Client → Bool)
      (uv_accept : Client → Call U) (client : Option Client) (long_max : ℕ) (uv_size : ℤ → Call U)
      (val : Option (Option ℤ)) (spare : ℕ) (ext : Refs) (s : Peer Hdl)
      → Live U me spare ext s
      → Live U me spare ext (uv_call U exc args s).1
        × Live U me spare ext (tcp_bind U address s).1
        × Live U me spare ext (pipe_bind U (bind_abstract U y uv_open) name s).1
        × Live U me spare ext (accept U exc accepts uv_accept client s).1
        × Live U me spare ext (size_set U exc long_max uv_size val s).1
  calls-Live exc args address name y uv_open accepts uv_accept client long_max uv_size val spare ext
        s v =
      (
        uv_call-Live exc args spare ext s v,
        tcp_bind-Live address spare ext s v,
        pipe_bind-Live y uv_open name spare ext s v,
        accept-Live exc accepts uv_accept client spare ext s v,
        size_set-Live exc long_max uv_size val spare ext s v,
      )

-- accept() of a TCP and of a Pipe with a client, each returns normally exactly when the handle is
-- initialized and not closing, the client is of a type that it accepts, and libuv accepts the
-- connection; where the handle or the client's type is refused, nothing changes. A Stream that was
-- never initialized is handed to libuv by a TCP, but not by a Pipe; a UDP object is by a Pipe.
pub accept_outcome :
    (U : Libuv) (uv_accept : Client → Call U) (client : Client) (s : Peer U.Hdl)
    → let ready = s.initialized && not (U.is_closing s.uv_handle) in
      let taken = not (is_neg ((uv_accept client).run s.uv_handle).0) in
      (is_ok (tcp_accept U uv_accept (some client) s).0 ≡ (ready && tcp_accepts client && taken))
      × (is_ok (pipe_accept U uv_accept (some client) s).0
          ≡ (ready && pipe_accepts client && taken))
      × ((ready && tcp_accepts client) ≡ false → (tcp_accept U uv_accept (some client) s).1 ≡ s)
      × ((ready && pipe_accepts client) ≡ false → (pipe_accept U uv_accept (some client) s).1 ≡ s)
      × (tcp_accepts (stream_client uv_other false) ≡ true)
      × (pipe_accepts (stream_client uv_other false) ≡ false)
      × (pipe_accepts (udp_client false) ≡ true)
unfolding tcp_accept pipe_accept
accept_outcome U uv_accept client s =
    (ground arith, ground arith, ground arith, ground arith, refl, refl, refl)
