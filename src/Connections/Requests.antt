-- ===== src/Connections/Requests.antt =====
-- connect() of a Pipe and listen() (src/pipe.c, src/tcp.c, src/abstract.c) against the account.
use pyuv.Base.{
  ℕ, ◌+◌, ◌-◌, ◌≡◌, refl, arith, Bool, true, false, not, Option, some, ◌∷◌, get_or, if◌then◌else◌,
}
use pyuv.Base.Int.{ℤ, pos, negsuc, is_neg}
use pyuv.Error.{ExcType, pipe_error, memory_error, type_error, value_error}
use pyuv.Py.{
  Obj, none_obj, Refs, incref, decref, xdecref, raised, ok, uv, ◌>>=◌, ◌>>◌, parse, guard, if_keeps,
  else_keeps, bind_keeps, guard_keeps, open_keeps, parse_keeps,
}
use pyuv.Uv.{Libuv, Call}
use pyuv.Connections.{
  Peer, listen_set, with_refs, with_uv, listen, pipe_connect, pipe_request, plain_pipe_request,
  tcp_connect,
}
use pyuv.Connections.Abstract.{System, open_new, abstract_request, connect_abstract}
use pyuv.Connections.Ownership.{
  owns, Live, recount-Inv, recount-PeerInv, request_uv-PeerInv, open_new-Live, tcp_connect-Live,
}

module _ (U : Libuv) (me : Obj) where
  open U use {Hdl, is_closing, pending}

  abstract_request-Live :
      (y : System) (callback : Obj) (spare : ℕ) (ext : Refs) (s : Peer Hdl)
      → is_neg y.start_code ≡ false
      → Live U me spare ext s
      → Live U me spare ext (abstract_request U me callback y s).1
  abstract_request-Live y callback spare ext s starts (v, live) =
      let done = record (with_refs (incref callback (incref me s.refs)) s) {
        timers = callback ∷ s.timers;
        blocks = s.blocks + 1;
      } in
      if_keeps (Live U me spare ext) (is_neg y.init_code) (raised (uv pipe_error y.init_code), s)
        (if is_neg y.start_code
          then (
            raised (uv pipe_error y.start_code),
            with_refs (incref callback (incref me s.refs)) s,
          )
          else (ok none_obj, done))
        (v, live)
        (else_keeps (Live U me spare ext) (is_neg y.start_code)
          (raised (uv pipe_error y.start_code), with_refs (incref callback (incref me s.refs)) s)
          (ok none_obj, done) starts
          (
            record {
              handled =
                  recount-Inv U me (owns me ext s) (owns me ext done)
                    (incref callback (incref me s.refs)) s.uv_handle s.handle live refl refl
                    (λ o. omega arith) v.handled;
              allocated = omega (arith, v.allocated);
            },
            live,
          ))

  connect_abstract-Live :
      (y : System) (c : Call U) (callback : Obj) (spare : ℕ) (ext : Refs) (s : Peer Hdl)
      → is_neg y.start_code ≡ false
      → Live U me spare ext s
      → Live U me spare ext (connect_abstract U me y c callback s).1
  unfolding connect_abstract
  connect_abstract-Live y c callback spare ext s starts v =
      bind_keeps {A = Obj} (Live U me spare ext) (open_new U y c s)
        (λ u t. (do guard y.malloc memory_error; abstract_request U me callback y) t)
        (open_new-Live U me y c spare ext s v)
        (λ u t w.
          guard_keeps {A = Obj} (Live U me spare ext) y.malloc memory_error
            (abstract_request U me callback y) t w
            (abstract_request-Live y callback spare ext t starts w))

  plain_pipe_request-Live :
      (exc : ExcType) (callback : Obj) (malloc : Bool) (c : Call U) (spare : ℕ) (ext : Refs)
      (s : Peer Hdl)
      → Live U me spare ext s
      → Live U me spare ext (plain_pipe_request U exc me callback malloc c s).1
  plain_pipe_request-Live exc callback true c spare ext s (v, live) = (
    request_uv-PeerInv U me exc callback (pos 0) (c.run s.uv_handle).1 spare ext s live
        (c.is_closing-run s.uv_handle) (c.pending-run s.uv_handle) v,
    live,
  )
  plain_pipe_request-Live exc callback false c spare ext s (v, live) = (
    recount-PeerInv U me spare ext ext (decref callback (incref callback s.refs)) s.uv_handle s live
        refl refl (λ o. omega arith) v,
    live,
  )

  pipe_request-Live :
      (exc : ExcType) (malloc : Bool) (y : System) (c : Call U) (a : (Bool × Call U) × Obj)
      (spare : ℕ) (ext : Refs) (s : Peer Hdl)
      → is_neg y.start_code ≡ false
      → Live U me spare ext s
      → Live U me spare ext (pipe_request U exc me malloc (connect_abstract U me y c) a s).1
  pipe_request-Live exc malloc y c ((true, d), callback) spare ext s starts v =
      connect_abstract-Live y c callback spare ext s starts v
  pipe_request-Live exc malloc y c ((false, d), callback) spare ext s starts v =
      plain_pipe_request-Live exc callback malloc d spare ext s v

  pipe_connect-Live :
      (exc : ExcType) (callable : Obj → Bool) (malloc : Bool) (y : System) (c : Call U)
      (args : Option ((Bool × Call U) × Obj)) (spare : ℕ) (ext : Refs) (s : Peer Hdl)
      → is_neg y.start_code ≡ false
      → Live U me spare ext s
      → Live U me spare ext
          (pipe_connect U exc callable me malloc (connect_abstract U me y c) args s).1
  unfolding pipe_connect
  pipe_connect-Live exc callable malloc y c args spare ext s starts v =
      let request = pipe_request U exc me malloc (connect_abstract U me y c) in
      let tested = λ (a : (Bool × Call U) × Obj).
        λ (t : Peer Hdl). (do guard (callable a.1) type_error; request a) t in
      open_keeps {A = Obj} (Live U me spare ext) s.initialized (is_closing s.uv_handle)
        (λ t. (do a ← parse args; tested a) t) s v
        (parse_keeps {A = Obj} (Live U me spare ext) args tested s v (λ a.
          guard_keeps {A = Obj} (Live U me spare ext) (callable a.1) type_error (request a) s v
            (pipe_request-Live exc malloc y c a spare ext s starts v)))

  listen_set-Live :
      (exc : ExcType) (cb : Obj) (code : ℤ) (h' : Hdl) (spare : ℕ) (ext : Refs) (s : Peer Hdl)
      → is_closing h' ≡ is_closing s.uv_handle
      → pending h' ≡ pending s.uv_handle
      → Live U me spare ext s
      → Live U me spare ext (listen_set exc cb (code, h') s).1
  listen_set-Live exc cb (negsuc n) h' spare ext s phase due (v, live) =
      (recount-PeerInv U me spare ext ext s.refs h' s live phase due (λ o. refl) v, live)
  listen_set-Live exc cb (pos n) h' spare ext s phase due (v, live) = (
    record {
      handled =
          recount-Inv U me (owns me ext s)
            (owns me ext (record s { on_new_connection_cb = some cb }))
            (xdecref s.on_new_connection_cb (incref cb s.refs)) h' s.handle live phase due
            (λ o. omega (arith, v.handled.counted o)) v.handled;
      allocated = v.allocated;
    },
    live,
  )

  listen-Live :
      (exc : ExcType) (callable : Obj → Bool) (uv_listen : ℤ → Call U)
      (args : Option (Obj × Option ℤ)) (spare : ℕ) (ext : Refs) (s : Peer Hdl)
      → Live U me spare ext s
      → Live U me spare ext (listen U exc callable uv_listen args s).1
  unfolding listen
  listen-Live exc callable uv_listen args spare ext s v =
      let set = λ (a : Obj × Option ℤ). λ (t : Peer Hdl).
        listen_set exc a.0 ((uv_listen (get_or a.1 (pos 511))).run t.uv_handle) t in
      let fits =
        λ (a : Obj × Option ℤ). λ (t : Peer Hdl). (do guard (callable a.0) type_error; set a) t in
      let ranged = λ (a : Obj × Option ℤ).
        λ (t : Peer Hdl). (do guard (not (is_neg (get_or a.1 (pos 511)))) value_error; fits a) t in
      open_keeps {A = Obj} (Live U me spare ext) s.initialized (is_closing s.uv_handle)
        (λ t. (do a ← parse args; ranged a) t) s v
        (parse_keeps {A = Obj} (Live U me spare ext) args ranged s v (λ a.
          guard_keeps {A = Obj} (Live U me spare ext) (not (is_neg (get_or a.1 (pos 511))))
            value_error (fits a) s v
            (guard_keeps {A = Obj} (Live U me spare ext) (callable a.0) type_error (set a) s v (
              let c = uv_listen (get_or a.1 (pos 511)) in
              listen_set-Live exc a.0 (c.run s.uv_handle).0 (c.run s.uv_handle).1 spare ext s
                (c.is_closing-run s.uv_handle) (c.pending-run s.uv_handle) v))))

  -- connect() of a TCP, connect() of a Pipe and listen() of both, on a handle that was not released,
  -- on every branch and whatever the system and libuv answer, but for a uv_timer_start that fails:
  -- the account of references and memory blocks still holds, and the handle is not released.
  pub requests-Live :
      (exc : ExcType) (callable : Obj → Bool) (malloc : Bool)
      (to_address : Option (Option (Call U) × Obj)) (to_name : Option ((Bool × Call U) × Obj))
      (uv_listen : ℤ → Call U) (to_listen : Option (Obj × Option ℤ)) (y : System) (uv_open : Call U)
      (spare : ℕ) (ext : Refs) (s : Peer Hdl)
      → is_neg y.start_code ≡ false
      → Live U me spare ext s
      → Live U me spare ext (tcp_connect U exc callable me malloc to_address s).1
        × Live U me spare ext
            (pipe_connect U exc callable me malloc (connect_abstract U me y uv_open) to_name s).1
        × Live U me spare ext (listen U exc callable uv_listen to_listen s).1
  requests-Live exc callable malloc to_address to_name uv_listen to_listen y uv_open spare ext s
        starts v =
      (
        tcp_connect-Live U me exc callable malloc to_address spare ext s v,
        pipe_connect-Live exc callable malloc y uv_open to_name spare ext s starts v,
        listen-Live exc callable uv_listen to_listen spare ext s v,
      )

  -- The handle that such a call leaves.
  abbrev half_connected : Call U → Obj → Peer Hdl → Peer Hdl
  half_connected uv_open callback s =
      record (with_refs (incref callback (incref me s.refs))
        (with_uv (uv_open.run s.uv_handle).1 s)) { fds = s.fds + 1 - 1 }

  abstract_start_lem :
      (y : System) (uv_open : Call U) (callback : Obj) (s : Peer Hdl)
      → is_neg y.socket_code ≡ false
      → is_neg y.call_code ≡ false
      → is_neg (uv_open.run s.uv_handle).0 ≡ false
      → y.malloc ≡ true
      → is_neg y.init_code ≡ false
      → is_neg y.start_code ≡ true
      → connect_abstract U me y uv_open callback s
        ≡ (raised (uv pipe_error y.start_code), half_connected uv_open callback s)
  unfolding connect_abstract
  abstract_start_lem y uv_open callback s e1 e2 e3 e4 e5 e6 = ground arith

  -- Where the system and libuv do all that connect() to an abstract name asks for but
  -- uv_timer_start, the call raises, and the function and the handle have one reference more than
  -- the account allows, which nothing gives up.
  pub abstract_start_leaks :
      (y : System) (uv_open : Call U) (callback : Obj) (spare : ℕ) (ext : Refs) (s : Peer Hdl)
      → is_neg y.socket_code ≡ false
      → is_neg y.call_code ≡ false
      → is_neg (uv_open.run s.uv_handle).0 ≡ false
      → y.malloc ≡ true
      → is_neg y.init_code ≡ false
      → is_neg y.start_code ≡ true
      → Live U me spare ext s
      → ((connect_abstract U me y uv_open callback s).0 ≡ raised (uv pipe_error y.start_code))
        × Live U me spare
            (incref callback (incref me ext))
            (connect_abstract U me y uv_open callback s).1
  abstract_start_leaks y uv_open callback spare ext s e1 e2 e3 e4 e5 e6 (v, live) =
      let w =
        recount-PeerInv U me spare ext (incref callback (incref me ext))
          (incref callback (incref me s.refs)) (uv_open.run s.uv_handle).1 s live
          (uv_open.is_closing-run s.uv_handle) (uv_open.pending-run s.uv_handle) (λ o. omega arith)
          v in
      rw (abstract_start_lem y uv_open callback s e1 e2 e3 e4 e5 e6)
        (refl, (record { handled = w.handled; allocated = w.allocated }, live))
