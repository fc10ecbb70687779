-- ===== src/Connections/Callbacks.antt =====
-- The callbacks that libuv makes on a TCP or Pipe (src/tcp.c, src/pipe.c, src/abstract.c) against the
-- account.
use pyuv.Base.{ap, ℕ, suc, ◌+◌, ◌-◌, ◌≡◌, refl, arith, Option, List, [], ◌∷◌, ◌++◌, length}
use pyuv.Base.Int.{ℤ}
use pyuv.Py.{Obj, none_obj, Refs, is, incref, decref}
use pyuv.Uv.{Libuv}
use pyuv.Connections.{Peer, with_refs, error_arg, finish_call, listen_cb, connect_cb}
use pyuv.Connections.Abstract.{abstract_cb, timer_closed}
use pyuv.Connections.Ownership.{owns, requested, Live, recount-Inv, recount-PeerInv}

requested-append :
    (me cb : Obj) (xs ys : List Obj) (o : Obj)
    → requested me (xs ++ cb ∷ ys) o ≡ is cb o + is me o + requested me (xs ++ ys) o
requested-append me cb [] ys o = refl
requested-append me cb (x ∷ xs) ys o = omega (arith, requested-append me cb xs ys o)

length-remove : (cb : Obj) (xs ys : List Obj) → length (xs ++ cb ∷ ys) ≡ suc (length (xs ++ ys))
length-remove cb [] ys = refl
length-remove cb (x ∷ xs) ys = omega (arith, length-remove cb xs ys)

module _ (U : Libuv) (me : Obj) where
  open U use {Hdl}

  -- libuv takes a request out of those that are under way: its references and its block are then the
  -- callback's.
  abbrev pub taken : Obj → Refs → Refs
  taken cb ext = incref me (incref cb ext)

  abbrev pub end_connect : List Obj → Peer Hdl → Peer Hdl
  end_connect rest s = record s { connects = rest }

  abbrev pub end_timer : List Obj → Peer Hdl → Peer Hdl
  end_timer rest s = record s { timers = rest }

  end_connect-Live :
      (cb : Obj) (xs ys : List Obj) (spare : ℕ) (ext : Refs) (s : Peer Hdl)
      → s.connects ≡ xs ++ cb ∷ ys
      → Live U me spare ext s
      → Live U me (suc spare) (taken cb ext) (end_connect (xs ++ ys) s)
  end_connect-Live cb xs ys spare ext s e (v, live) = (
    record {
      handled =
          recount-Inv U me (owns me ext s) (owns me (taken cb ext) (end_connect (xs ++ ys) s))
            s.refs s.uv_handle s.handle live refl refl
            (λ o. rw e (omega (arith, requested-append me cb xs ys o))) v.handled;
      allocated = omega (arith, v.allocated, ap length e, length-remove cb xs ys);
    },
    live,
  )

  end_timer-Live :
      (cb : Obj) (xs ys : List Obj) (spare : ℕ) (ext : Refs) (s : Peer Hdl)
      → s.timers ≡ xs ++ cb ∷ ys
      → Live U me spare ext s
      → Live U me (suc spare) (taken cb ext) (end_timer (xs ++ ys) s)
  end_timer-Live cb xs ys spare ext s e (v, live) = (
    record {
      handled =
          recount-Inv U me (owns me ext s) (owns me (taken cb ext) (end_timer (xs ++ ys) s)) s.refs
            s.uv_handle s.handle live refl refl
            (λ o. rw e (omega (arith, requested-append me cb xs ys o))) v.handled;
      allocated = omega (arith, v.allocated, ap length e, length-remove cb xs ys);
    },
    live,
  )

  refs-Live :
      (spare : ℕ) (ext ext' refs' : Refs) (s : Peer Hdl)
      → ((o : Obj) → refs' o + ext o ≡ s.refs o + ext' o)
      → Live U me spare ext s
      → Live U me spare ext' (with_refs refs' s)
  refs-Live spare ext ext' refs' s moved (v, live) =
      (recount-PeerInv U me spare ext ext' refs' s.uv_handle s live refl refl moved v, live)

  drop-Live :
      (spare : ℕ) (x ext refs' : Refs) (t : Peer Hdl)
      → ((o : Obj) → refs' o ≡ t.refs o - x o)
      → Live U me spare (λ o. x o + ext o) t
      → Live U me spare ext (with_refs refs' t)
  drop-Live spare x ext refs' t e v =
      refs-Live spare (λ o. x o + ext o) ext refs' t
        (λ o. omega (arith, e o, v.0.handled.counted o)) v

  free-Live :
      (spare : ℕ) (ext : Refs) (t : Peer Hdl)
      → Live U me (suc spare) ext t
      → Live U me spare ext (record t { blocks = t.blocks - 1 })
  free-Live spare ext t (v, live) =
      (record { handled = v.handled; allocated = omega (arith, v.allocated) }, live)

  -- What a user's function does with the handle that is passed to it, for a caller who holds `base`
  -- meanwhile: it keeps the account, though it may hold other references afterwards.
  abbrev pub Behaves : ℕ → Refs → Refs → Refs → (Peer Hdl → Peer Hdl) → Type 0
  Behaves spare base ext ext' run =
      (t : Peer Hdl)
      → Live U me spare (λ o. base o + ext o) t
      → Live U me spare (λ o. base o + ext' o) (run t)

  -- The callback of a connection on a server, where the user's function keeps the account, so long
  -- as the handle and the error are held: the account holds after it.
  pub listen_cb-Live :
      (call : Option Obj → Obj → Peer Hdl → Option Obj × Peer Hdl) (hook : Peer Hdl → Peer Hdl)
      (number : Obj) (status : ℤ) (spare : ℕ) (ext ext' : Refs) (s : Peer Hdl)
      → ((cb : Option Obj)
          → Behaves spare
              (λ o. is me o + is (error_arg status number) o)
              ext
              ext'
              (λ t. finish_call hook (call cb (error_arg status number) t)))
      → Live U me spare ext s
      → Live U me spare ext' (listen_cb call hook me number status s)
  unfolding listen_cb
  listen_cb-Live call hook number status spare ext ext' s user v =
      let e = error_arg status number in
      let begun = with_refs (incref e (incref me s.refs)) s in
      let done = finish_call hook (call begun.on_new_connection_cb e begun) in
      drop-Live spare (λ o. is me o + is e o) ext' (decref me (decref e done.refs)) done
        (λ o. omega arith)
        (user begun.on_new_connection_cb begun (
          refs-Live spare ext (λ o. is me o + is e o + ext o) (incref e (incref me s.refs)) s
            (λ o. omega arith) v))

  -- The callback of a request to connect that libuv takes out of those under way, where the user's
  -- function keeps the account, so long as the handle, the function and the error are held: the
  -- account holds after it, with the request's references and its block given up.
  pub connect_cb-Live :
      (call : Obj → Obj → Peer Hdl → Option Obj × Peer Hdl) (hook : Peer Hdl → Peer Hdl)
      (number : Obj) (status : ℤ) (cb : Obj) (xs ys : List Obj) (spare : ℕ) (ext ext' : Refs)
      (s : Peer Hdl)
      → s.connects ≡ xs ++ cb ∷ ys
      → Behaves
          (suc spare)
          (λ o. is me o + is cb o + is (error_arg status number) o)
          ext
          ext'
          (λ t. finish_call hook (call cb (error_arg status number) t))
      → Live U me spare ext s
      → Live U me spare ext' (connect_cb call hook me number status cb (end_connect (xs ++ ys) s))
  unfolding connect_cb
  connect_cb-Live call hook number status cb xs ys spare ext ext' s under_way user v =
      let e = error_arg status number in
      let s0 = end_connect (xs ++ ys) s in
      let begun = with_refs (incref e s0.refs) s0 in
      let done = finish_call hook (call cb e begun) in
      free-Live spare ext' (with_refs (decref me (decref cb (decref e done.refs))) done) (
        drop-Live (suc spare) (λ o. is me o + is cb o + is e o) ext'
          (decref me (decref cb (decref e done.refs))) done (λ o. omega arith)
          (user begun (
            refs-Live (suc spare) (taken cb ext) (λ o. is me o + is cb o + is e o + ext o)
              (incref e s.refs) s0 (λ o. omega arith)
              (end_connect-Live cb xs ys spare ext s under_way v))))

  -- The timer of a request to connect to an abstract name, where the user's function keeps the
  -- account, so long as the handle, the function and None are held: the account holds after it and
  -- after the timer's close callback, with the request's references given up; its block is given up
  -- by the close callback.
  pub abstract_cb-Live :
      (call : Obj → Obj → Peer Hdl → Option Obj × Peer Hdl) (hook : Peer Hdl → Peer Hdl) (cb : Obj)
      (xs ys : List Obj) (spare : ℕ) (ext ext' : Refs) (s : Peer Hdl)
      → s.timers ≡ xs ++ cb ∷ ys
      → Behaves
          (suc spare)
          (λ o. is me o + is cb o + is none_obj o)
          ext
          ext'
          (λ t. finish_call hook (call cb none_obj t))
      → Live U me spare ext s
      → let t = abstract_cb call hook me cb (end_timer (xs ++ ys) s) in
        Live U me spare ext' t × Live U me spare ext' (timer_closed t)
  unfolding abstract_cb timer_closed
  abstract_cb-Live call hook cb xs ys spare ext ext' s under_way user v =
      let s0 = end_timer (xs ++ ys) s in
      let begun = with_refs (incref none_obj s0.refs) s0 in
      let done = finish_call hook (call cb none_obj begun) in
      let w =
        drop-Live (suc spare) (λ o. is me o + is cb o + is none_obj o) ext'
          (decref me (decref cb (decref none_obj done.refs))) done (λ o. omega arith)
          (user begun (
            refs-Live (suc spare) (taken cb ext) (λ o. is me o + is cb o + is none_obj o + ext o)
              (incref none_obj s.refs) s0 (λ o. omega arith)
              (end_timer-Live cb xs ys spare ext s under_way v))) in
      (
        (record { handled = w.0.handled; allocated = omega (arith, w.0.allocated) }, w.1),
        (record { handled = w.0.handled; allocated = omega (arith, w.0.allocated) }, w.1),
      )
