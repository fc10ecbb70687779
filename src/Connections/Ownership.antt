-- ===== src/Connections/Ownership.antt =====
-- The account of references and memory of a TCP or Pipe handle (src/tcp.c, src/pipe.c).
use pyuv.Base.{
  ℕ, ◌+◌, ◌-◌, ◌≡◌, refl, arith, Bool, true, false, Option, List, [], ◌∷◌, length, if◌then◌else◌,
}
use pyuv.Base.Int.{ℤ, pos, negsuc, is_neg}
use pyuv.Error.{pipe_error, ExcType, type_error}
use pyuv.Py.{
  ◌>>=◌, ◌>>◌, guard, parse, uv, ok, raised, if_keeps, bind_keeps, guard_keeps, open_keeps,
  parse_keeps, Obj, Refs, is, held, incref, decref,
}
use pyuv.Uv.{Libuv, Call}
use pyuv.Handle.{Handle}
use pyuv.Handle.Ownership.{Inv}
use pyuv.Connections.Abstract.{add_fd, drop_fd, make_fd, open_fd, System, open_new}
use pyuv.Connections.{request_uv, connect_request, Peer, with_refs, with_uv, tcp_connect}

-- The references that the requests hold: the function's and the handle's.
abbrev pub requested : Obj → List Obj → Obj → ℕ
requested me [] o = 0
requested me (cb ∷ r) o = is cb o + is me o + requested me r o

-- What the requests and the fields hold, besides those of the base class.
abbrev pub owns : {Hdl : Type 0} → Obj → Refs → Peer Hdl → Refs
owns me ext s o =
    ext o
    + held s.on_read_cb o
    + held s.on_new_connection_cb o
    + requested me s.connects o
    + requested me s.timers o

module _ (U : Libuv) (me : Obj) where
  open U use {Hdl, is_closing, pending}

  -- `ext` counts the references that other code holds, and `spare` the blocks.
  pub record PeerInv (spare : ℕ) (ext : Refs) (s : Peer Hdl) : Type 0 where
    pub handled : Inv U me (owns me ext s) s.handle
    pub allocated : s.blocks ≡ spare + length s.connects + length s.timers + s.closing

  -- A handle with other counts and another libuv handle in the same phase.
  pub recount-Inv :
      (ext ext' refs' : Refs) (h' : Hdl) (h : Handle Hdl)
      → h.freed ≡ false
      → is_closing h' ≡ is_closing h.uv_handle
      → pending h' ≡ pending h.uv_handle
      → ((o : Obj) → refs' o + ext o ≡ h.refs o + ext' o)
      → Inv U me ext h
      → Inv U me ext' (record h { uv_handle = h'; refs = refs' })
  recount-Inv ext ext' refs' h' h live phase due moved v = record {
    counted = λ o. ground (arith, moved o, v.counted o);
    blank = ground (arith, v.blank);
    unclosed = ground (arith, v.unclosed);
    closable = ground (arith, v.closable);
    looped = v.looped;
    released = ground arith;
  }

  pub recount-PeerInv :
      (spare : ℕ) (ext ext' refs' : Refs) (h' : Hdl) (s : Peer Hdl)
      → s.freed ≡ false
      → is_closing h' ≡ is_closing s.uv_handle
      → pending h' ≡ pending s.uv_handle
      → ((o : Obj) → refs' o + ext o ≡ s.refs o + ext' o)
      → PeerInv spare ext s
      → PeerInv spare ext' (with_refs refs' (with_uv h' s))
  recount-PeerInv spare ext ext' refs' h' s live phase due moved v = record {
    handled =
        recount-Inv (owns me ext s) (owns me ext' s) refs' h' s.handle live phase due
          (λ o. omega (arith, moved o)) v.handled;
    allocated = v.allocated;
  }

  -- tcp_connect with arguments that parse, behind the tests.
  pub request_uv-PeerInv :
      (exc : ExcType) (callback : Obj) (code : ℤ) (h' : Hdl) (spare : ℕ) (ext : Refs) (s : Peer Hdl)
      → s.freed ≡ false
      → is_closing h' ≡ is_closing s.uv_handle
      → pending h' ≡ pending s.uv_handle
      → PeerInv spare ext s
      → PeerInv spare ext (request_uv U exc me callback (code, h') s).1
  request_uv-PeerInv exc callback (negsuc n) h' spare ext s live phase due v =
      recount-PeerInv spare ext ext (decref callback (incref callback s.refs)) h' s live phase due
        (λ o. omega arith) v
  request_uv-PeerInv exc callback (pos n) h' spare ext s live phase due v = record {
    handled =
        recount-Inv (owns me ext s) (owns me ext (record s { connects = callback ∷ s.connects }))
          (incref me (incref callback s.refs)) h' s.handle live phase due (λ o. omega arith)
          v.handled;
    allocated = omega (arith, v.allocated);
  }

  request_uv_live :
      (exc : ExcType) (callback : Obj) (code : ℤ) (h' : Hdl) (s : Peer Hdl)
      → s.freed ≡ false
      → (request_uv U exc me callback (code, h') s).1.freed ≡ false
  request_uv_live exc callback (negsuc n) h' s live = live
  request_uv_live exc callback (pos n) h' s live = live

  -- A handle that was not released, with its account.
  abbrev pub Live : ℕ → Refs → Peer Hdl → Type 0
  Live spare ext s = PeerInv spare ext s × (s.freed ≡ false)

  connect_request-Live :
      (exc : ExcType) (callback : Obj) (malloc : Bool) (c : Call U) (spare : ℕ) (ext : Refs)
      (s : Peer Hdl)
      → Live spare ext s
      → Live spare ext (connect_request U exc me callback malloc c s).1
  connect_request-Live exc callback true c spare ext s (v, live) = (
    request_uv-PeerInv exc callback (c.run s.uv_handle).0 (c.run s.uv_handle).1 spare ext s live
        (c.is_closing-run s.uv_handle) (c.pending-run s.uv_handle) v,
    request_uv_live exc callback (c.run s.uv_handle).0 (c.run s.uv_handle).1 s live,
  )
  connect_request-Live exc callback false c spare ext s (v, live) = (
    recount-PeerInv spare ext ext (decref callback (incref callback s.refs)) s.uv_handle s live refl
        refl (λ o. omega arith) v,
    live,
  )

  pub tcp_connect-Live :
      (exc : ExcType) (callable : Obj → Bool) (malloc : Bool)
      (args : Option (Option (Call U) × Obj)) (spare : ℕ) (ext : Refs) (s : Peer Hdl)
      → Live spare ext s
      → Live spare ext (tcp_connect U exc callable me malloc args s).1
  unfolding tcp_connect
  tcp_connect-Live exc callable malloc args spare ext s v =
      let P = λ (t : Peer Hdl). Live spare ext t in
      let request = λ (a : Option (Call U) × Obj). λ (t : Peer Hdl).
        (do uv_connect ← parse a.0; connect_request U exc me a.1 malloc uv_connect) t in
      let tested = λ (a : Option (Call U) × Obj).
        λ (t : Peer Hdl). (do guard (callable a.1) type_error; request a) t in
      open_keeps {A = Obj} P s.initialized (is_closing s.uv_handle)
        (λ t. (do a ← parse args; tested a) t) s v
        (parse_keeps {A = Obj} P args tested s v (λ a.
          guard_keeps {A = Obj} P (callable a.1) type_error (request a) s v (
            parse_keeps {A = Obj} P a.0 (connect_request U exc me a.1 malloc) s v
              (λ c. connect_request-Live exc a.1 malloc c spare ext s v))))

  pub fds-Live :
      (spare : ℕ) (ext : Refs) (n : ℕ) (s : Peer Hdl)
      → Live spare ext s
      → Live spare ext (record s { fds = n })
  fds-Live spare ext n s (v, live) = (record { handled = v.handled; allocated = v.allocated }, live)

  pub run-Live :
      (spare : ℕ) (ext : Refs) (c : Call U) (n : ℕ) (s : Peer Hdl)
      → Live spare ext s
      → Live spare ext (record (with_uv (c.run s.uv_handle).1 s) { fds = n })
  run-Live spare ext c n s (v, live) = fds-Live spare ext n (with_uv (c.run s.uv_handle).1 s) (
    recount-PeerInv spare ext ext s.refs (c.run s.uv_handle).1 s live (c.is_closing-run s.uv_handle)
        (c.pending-run s.uv_handle) (λ o. refl) v,
    live,
  )

  pub open_new-Live :
      (y : System) (c : Call U) (spare : ℕ) (ext : Refs) (s : Peer Hdl)
      → Live spare ext s
      → Live spare ext (open_new U y c s).1
  open_new-Live y c spare ext s v =
      bind_keeps {A = Unit {0}} (Live spare ext) (make_fd U y s)
        (λ u t. open_fd U (c.run t.uv_handle) t)
        (if_keeps (Live spare ext) (is_neg y.socket_code) (raised (uv pipe_error y.errno), s)
          (if is_neg y.call_code
            then (raised (uv pipe_error y.errno), drop_fd (add_fd s))
            else (ok tt, add_fd s))
          v
          (if_keeps (Live spare ext) (is_neg y.call_code)
            (raised (uv pipe_error y.errno), drop_fd (add_fd s)) (ok tt, add_fd s)
            (fds-Live spare ext (s.fds + 1 - 1) s v) (fds-Live spare ext (s.fds + 1) s v)))
        (λ u t w.
          if_keeps (Live spare ext) (is_neg (c.run t.uv_handle).0)
            (
              raised (uv pipe_error (c.run t.uv_handle).0),
              drop_fd (with_uv (c.run t.uv_handle).1 t),
            )
            (ok tt, drop_fd (with_uv (c.run t.uv_handle).1 t))
            (run-Live spare ext c (t.fds - 1) t w) (run-Live spare ext c (t.fds - 1) t w))
