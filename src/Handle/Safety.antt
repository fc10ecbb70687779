-- ===== src/Handle/Safety.antt =====
-- The reachable states of a handle of src/handle.c.
use pyuv.Base.{
  ◌+◌, ◌<◌, ◌≡◌, true, false, Option, none, some, arith, ◌==◌, inl, inr, Bool-cases, Option-cases,
  is_some,
}
use pyuv.Py.{is-le, Obj, Refs, is, is_self, is_other, incref, decref, ok}
use pyuv.Uv.{Libuv, CloseCb, handle_close_cb, handle_dealloc_close_cb}
use pyuv.Handle.Defs.{Handle, tp_new, run_user, finish_close, close_cb}
use pyuv.Handle.Ownership.{
  Inv, fields, pyref, owed, fired, func_close-Inv, handle_incref-Inv, handle_decref-Inv,
  initialize_handle-Inv, dict_get-Inv, dict_set-Inv, tp_dealloc-Inv, fired-Inv,
  dealloc_close_cb-Inv, finish_close-Inv,
}
use pyuv.Handle.Lifecycle.{
  World, world, recount, Act, hold, drop, init, close, start, stop, get_dict, set_dict, Acts, done,
  then, Step, act, dealloc, uv_dealloc_close, uv_close, Reach, here, next,
}
use pyuv.Handle.Closing.{Closing, Acts-Closing}

module _ (U : Libuv) (me : Obj) where
  open U use {Hdl, is_closing, pending, take}

  -- A handle that somebody holds was not released.
  pub live : (ext : Refs) (s : Handle Hdl) → 0 < ext me → Inv U me ext s → s.freed ≡ false
  live ext s h v = ground (arith, v.released, v.counted me)

  hold_released :
      (ext : Refs) (s : Handle Hdl) (o : Obj)
      → (o ≡ me → 0 < ext me)
      → s.freed ≡ true
      → Inv U me ext s
      → (pending s.uv_handle ≡ none)
        × (s.refs me + is o me ≡ 0)
        × (s.initialized ≡ true → is_closing s.uv_handle ≡ true)
  hold_released ext s o known e v = elim (Bool-cases (o == me)) [
    | inl same ↦ absurd (ground (arith, known (ground arith), v.released e, v.counted me))
    | inr other ↦ ground (arith, v.released e, is_other o me other)
  ]

  pub hold-Inv :
      (ext : Refs) (s : Handle Hdl) (o : Obj)
      → (o ≡ me → 0 < ext me)
      → Inv U me ext s
      → Inv U me (incref o ext) (recount (incref o s.refs) s)
  hold-Inv ext s o known v = record {
    counted = λ x. ground (arith, v.counted x);
    blank = v.blank;
    unclosed = v.unclosed;
    closable = v.closable;
    looped = v.looped;
    released = λ e. hold_released ext s o known e v;
  }

  pub drop-Inv :
      (ext : Refs) (s : Handle Hdl) (o : Obj)
      → 0 < ext o
      → Inv U me ext s
      → Inv U me (decref o ext) (recount (decref o s.refs) s)
  drop-Inv ext s o held v = record {
    counted = λ x. ground (arith, v.counted x, is-le o x ext held);
    blank = v.blank;
    unclosed = v.unclosed;
    closable = v.closable;
    looped = v.looped;
    released = ground (arith, v.released);
  }

  Act-Inv : {w v : World Hdl} → Act U me w v → Inv U me w.ext w.handle → Inv U me v.ext v.handle
  Act-Inv (hold s ext o known) v = hold-Inv ext s o known v
  Act-Inv (drop s ext o held) v = drop-Inv ext s o held v
  Act-Inv (init s ext loop h held new opened) v =
      initialize_handle-Inv U me loop h ext s new (live ext s held v) opened v
  Act-Inv (close s ext callable args held) v =
      func_close-Inv U me callable args ext s (live ext s held v) v
  Act-Inv (start s ext held ready _) v = handle_incref-Inv U me ext s ready (live ext s held v) v
  Act-Inv (stop s ext held _ _) v = handle_decref-Inv U me ext s (live ext s held v) v
  Act-Inv (get_dict s ext new held) v = dict_get-Inv U me new ext s (live ext s held v) v
  Act-Inv (set_dict s ext is_dict val held) v =
      dict_set-Inv U me is_dict val ext s (live ext s held v) v

  pub Acts-Inv :
      {w v : World Hdl} → Acts U me w v → Inv U me w.ext w.handle → Inv U me v.ext v.handle
  Acts-Inv done v = v
  Acts-Inv (then r a) v = Act-Inv a (Acts-Inv r v)

  pub close_cb_lem :
      (call : Obj → Handle Hdl → Option Obj × Handle Hdl) (hook : Handle Hdl → Handle Hdl)
      (cb : Obj) (s : Handle Hdl)
      → s.on_close_cb ≡ some cb
      → close_cb call hook me s ≡ finish_close me (run_user call hook cb s)
  unfolding close_cb
  close_cb_lem call hook cb s e = ground arith

  pub begin :
      (cb : Obj) (ext : Refs) (s : Handle Hdl)
      → pending s.uv_handle ≡ some handle_close_cb
      → s.on_close_cb ≡ some cb
      → Inv U me ext s
      → Closing U me cb (fired U me s)
  begin cb ext s due e v = record {
    ready = ground (arith, v.blank, U.pending_open s.uv_handle);
    shut = ground (arith, U.is_closing-take s.uv_handle, U.pending_open s.uv_handle);
    quiet = U.pending-take s.uv_handle;
    kept = e;
  }

  pub owner : (ext : Refs) → 0 < incref me ext me
  owner ext = ground (arith, is_self me)

  pub pending_live :
      (s : Handle Hdl) (ext : Refs)
      → pending s.uv_handle ≡ some handle_dealloc_close_cb
      → Inv U me ext s
      → s.freed ≡ false
  pending_live s ext due v = ground (arith, v.released)

  -- The close callback of libuv, whatever the user's function does: it does not abort, and the
  -- account of references holds after it.
  pub uv_close-Inv :
      (s : Handle Hdl) (ext ext' : Refs) (call : Obj → Handle Hdl → Option Obj × Handle Hdl)
      (hook : Handle Hdl → Handle Hdl)
      → pending s.uv_handle ≡ some handle_close_cb
      → ((cb : Obj)
          → s.on_close_cb ≡ some cb
          → Acts U me
              (world (fired U me s) (incref me ext))
              (world (run_user call hook cb (fired U me s)) (incref me ext')))
      → Inv U me ext s
      → ((close_cb call hook me (fired U me s)).0 ≡ ok tt)
        × Inv U me ext' (close_cb call hook me (fired U me s)).1
  uv_close-Inv s ext ext' call hook due acts v = elim (Option-cases s.on_close_cb) [
    | inl e ↦ absurd (ground (arith, v.closable))
    | inr (cb, e) ↦
        let s0 = fired U me s in
        let s1 = run_user call hook cb s0 in
        let v1 : Inv U me (incref me ext') s1 =
          Acts-Inv (acts cb e) (fired-Inv U me _ ext s due v) in
        let c1 : Closing U me cb s1 = Acts-Closing U me cb (acts cb e) (begin cb ext s due e v) in
        rw (close_cb_lem call hook cb s0 e) (
          finish_close-Inv U me ext' s1 cb (live (incref me ext') s1 (owner ext') v1) c1.ready
            c1.shut c1.quiet c1.kept v1)
  ]

  pub Step-Inv :
      {w v : World Hdl} → Step U me w v → Inv U me w.ext w.handle → Inv U me v.ext v.handle
  Step-Inv (act a) v = Act-Inv a v
  Step-Inv (dealloc s ext still dead) v = tp_dealloc-Inv U me ext s still dead v
  Step-Inv (uv_dealloc_close s ext due) v =
      dealloc_close_cb-Inv U me ext (fired U me s) (pending_live s ext due v)
        (fired-Inv U me handle_dealloc_close_cb ext s due v)
  Step-Inv (uv_close s ext call hook due ext' acts) v =
      (uv_close-Inv s ext ext' call hook due acts v).1

  pub Reach-Inv :
      {w v : World Hdl} → Reach U me w v → Inv U me w.ext w.handle → Inv U me v.ext v.handle
  Reach-Inv here v = v
  Reach-Inv (next r st) v = Step-Inv st (Reach-Inv r v)

  -- A handle as tp_new leaves it: libuv knows nothing of it, and the code outside holds all
  -- references.
  abbrev pub new_world : Hdl → Refs → World Hdl
  new_world h refs = world (tp_new h refs) refs

  never : (p : Option CloseCb) → p ≡ none → p ≡ some handle_close_cb → is_some {A = Obj} none ≡ true
  never p q r = cc

  pub new-Inv : (h : Hdl) (refs : Refs) → is_closing h ≡ false → Inv U me refs (tp_new h refs)
  unfolding tp_new
  new-Inv h refs opened = record {
    counted = λ o. ground (arith, U.pending_open h);
    blank = ground arith;
    unclosed = ground arith;
    closable = λ e. never (pending h) (U.pending_open h opened) e;
    looped = ground arith;
    released = ground arith;
  }

  -- For a handle made by tp_new around a `uv_handle_t` that is not closing, after any steps: if its
  -- memory was released, then libuv has no callback left to make on it, nobody holds a reference
  -- to it, and, if it was initialized, its `uv_handle_t` is closed.
  pub no_use_after_free :
      (h : Hdl) (refs : Refs) (w : World Hdl)
      → is_closing h ≡ false
      → Reach U me (new_world h refs) w
      → w.handle.freed ≡ true
      → (pending w.handle.uv_handle ≡ none)
        × (w.ext me ≡ 0)
        × (w.handle.initialized ≡ true → is_closing w.handle.uv_handle ≡ true)
  no_use_after_free h refs w opened r gone =
      let v = Reach-Inv r (new-Inv h refs opened) in
      let (quiet, dead, shut) = v.released gone in (quiet, ground (arith, v.counted me), shut)

  -- For a handle made by tp_new around a `uv_handle_t` that is not closing, after any steps: the
  -- count of every object is the number of references that the code outside holds, plus those of
  -- the handle's fields, plus one of the handle to itself while PYUV__PYREF is set, plus one while
  -- libuv has yet to call a close callback.
  pub references_accounted :
      (h : Hdl) (refs : Refs) (w : World Hdl)
      → is_closing h ≡ false
      → Reach U me (new_world h refs) w
      → (o : Obj)
      → w.handle.refs o
        ≡ w.ext o
          + fields w.handle o
          + pyref w.handle.flags me o
          + owed (pending w.handle.uv_handle) me o
  references_accounted h refs w opened r = (Reach-Inv r (new-Inv h refs opened)).counted

  -- For a handle made by tp_new around a `uv_handle_t` that is not closing, after any steps: when
  -- libuv makes the callback of a close(), pyuv__handle_close_cb runs to its end without aborting,
  -- for any user function that acts on the handle as Python code can.
  pub close_cb_returns :
      (h : Hdl) (refs : Refs) (s : Handle Hdl) (ext ext' : Refs)
      (call : Obj → Handle Hdl → Option Obj × Handle Hdl) (hook : Handle Hdl → Handle Hdl)
      → is_closing h ≡ false
      → Reach U me (new_world h refs) (world s ext)
      → pending s.uv_handle ≡ some handle_close_cb
      → ((cb : Obj)
          → s.on_close_cb ≡ some cb
          → Acts U me
              (world (fired U me s) (incref me ext))
              (world (run_user call hook cb (fired U me s)) (incref me ext')))
      → (close_cb call hook me (fired U me s)).0 ≡ ok tt
  close_cb_returns h refs s ext ext' call hook opened r due acts =
      (uv_close-Inv s ext ext' call hook due acts (Reach-Inv r (new-Inv h refs opened))).0
