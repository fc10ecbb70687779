-- ===== src/Handle/Methods.antt =====
-- What close(), the destructor and the flag macros do to one handle.
use pyuv.Base.{
  ◌+◌, ◌-◌, ◌≡◌, Bool, true, false, not, ◌&&◌, ◌||◌, ◌==◌, Option, none, some, arith, get_or,
}
use pyuv.Error.{handle_closed_error}
use pyuv.Py.{Obj, none_obj, is, is_self, held, ok, raised, set_string, is_ok}
use pyuv.Uv.{Libuv, handle_close_cb, handle_dealloc_close_cb}
use pyuv.Handle.Defs.{
  Handle, has_pyref, handle_incref, handle_decref, func_close, tp_dealloc, dealloc_close_cb,
}
use pyuv.Handle.Ownership.{fired}

module _ (U : Libuv) (me : Obj) where
  open U use {Hdl, is_closing, pending, take}

  -- What must hold for close() to go through.
  abbrev pub closes : (Obj → Bool) → Option (Option Obj) → Handle Hdl → Bool
  closes callable none s = false
  closes callable (some arg) s =
      s.initialized
      && not (is_closing s.uv_handle)
      && (get_or arg none_obj == none_obj || callable (get_or arg none_obj))

  -- close() returns normally exactly when the handle was initialized and not closing, the arguments
  -- could be parsed, and the callback is None or callable. It then leaves the handle closing, with
  -- that callback still to be called, and one more reference to the handle beside the one to the
  -- callback. In every other case it raises and changes nothing.
  pub func_close_outcome :
      (callable : Obj → Bool) (args : Option (Option Obj)) (s : Handle Hdl)
      → let (r, t) = func_close U callable me args s in
        (is_ok r ≡ closes callable args s)
        × (is_ok r ≡ false → t ≡ s)
        × (is_ok r ≡ true
            → (is_closing t.uv_handle ≡ true)
              × (pending t.uv_handle ≡ some handle_close_cb)
              × (t.on_close_cb ≡ some (get_or (get_or args none) none_obj))
              × ((o : Obj) → t.refs o ≡ s.refs o + held t.on_close_cb o + is me o))
  unfolding func_close
  func_close_outcome callable none s = ground arith
  func_close_outcome callable (some arg) s = ground (
    arith,
    U.is_closing-close handle_close_cb s.uv_handle,
    U.pending-close handle_close_cb s.uv_handle,
  )

  -- After a close() that returned normally, every further close() raises HandleClosedError and
  -- changes nothing.
  pub close_twice :
      (callable callable' : Obj → Bool) (args args' : Option (Option Obj)) (s t : Handle Hdl)
      (r : Obj)
      → func_close U callable me args s ≡ (ok r, t)
      → func_close U callable' me args' t ≡ (raised (set_string handle_closed_error), t)
  unfolding func_close
  close_twice callable callable' args args' s t r e =
      ground (arith, U.is_closing-close handle_close_cb s.uv_handle)

  -- The destructor of an open handle that nobody holds does not release it: it starts a close, and
  -- the handle holds itself. When libuv has made that callback, nobody holds the handle again, and
  -- the destructor now releases it, with its fields.
  pub dealloc_twice :
      (s : Handle Hdl)
      → s.initialized ≡ true
      → is_closing s.uv_handle ≡ false
      → s.refs me ≡ 0
      → s.freed ≡ false
      → let t = tp_dealloc U me s in
        let u = dealloc_close_cb me (fired U me t) in
        let z = tp_dealloc U me u in
        (t.freed ≡ false)
        × (t.refs me ≡ 1)
        × (pending t.uv_handle ≡ some handle_dealloc_close_cb)
        × (u.refs me ≡ 0)
        × (z.freed ≡ true)
        × ((o : Obj) → z.refs o ≡ s.refs o - held s.on_close_cb o - held s.loop o - held s.dict o)
  unfolding tp_dealloc dealloc_close_cb
  dealloc_twice s init opened dead live = ground (
    arith,
    is_self me,
    U.is_closing-close handle_dealloc_close_cb s.uv_handle,
    U.pending-close handle_dealloc_close_cb s.uv_handle,
    U.is_closing-take (U.close handle_dealloc_close_cb s.uv_handle),
  )

  -- However often a handle is started, it holds itself once: the macro that takes the reference
  -- does nothing the second time, and the one that gives it up restores the counts, after which
  -- it does nothing either.
  pub pyref_once :
      (s : Handle Hdl)
      → has_pyref s.flags ≡ false
      → let t = handle_incref me s in
        let u = handle_decref me t in
        (t.refs me ≡ s.refs me + 1)
        × (handle_incref me t ≡ t)
        × ((o : Obj) → u.refs o ≡ s.refs o)
        × (u.flags ≡ s.flags)
        × (handle_decref me u ≡ u)
  unfolding handle_incref handle_decref
  pyref_once s clear = ground (arith, is_self me)
