-- ===== src/Handle/Phases.antt =====
-- The life of a handle of src/handle.c as an abstract machine of five phases.
use pyuv.Base.{
  ℕ, ◌≤◌, ◌≡◌, refl, arith, Bool, true, false, Option, some, is_some, Option-cases, inl, inr,
  if◌then◌else◌,
}
use pyuv.Py.{Obj, Refs, incref}
use pyuv.Uv.{Libuv, handle_close_cb, handle_dealloc_close_cb}
use pyuv.Handle.Defs.{
  Handle, handle_incref, handle_decref, initialize_handle, dict_get, dict_set, run_user, close_cb,
  dealloc_close_cb, func_close, tp_dealloc, finish_close,
}
use pyuv.Handle.Ownership.{Inv, fired, dead_quiet, fired-Inv}
use pyuv.Handle.Lifecycle.{
  World, world, Act, hold, drop, init, close, start, stop, get_dict, set_dict, Acts, Step, act,
  dealloc, uv_dealloc_close, uv_close, Reach, here, next,
}
use pyuv.Handle.Closing.{Closing, Acts-Closing}
use pyuv.Handle.Safety.{
  Reach-Inv, new-Inv, new_world, live, begin, close_cb_lem, owner, pending_live, Acts-Inv,
}

pub data Life : Type 0 where
  fresh active closing closed freed : Life

-- The abstract machine: what may come next.
abbrev pub may : Life → Life → Bool
may fresh fresh = true
may fresh active = true
may fresh freed = true
may active active = true
may active closing = true
may closing closing = true
may closing closed = true
may closed closed = true
may closed freed = true
may freed freed = true
may a b = false

-- The order of the phases.
abbrev pub rank : Life → ℕ
rank fresh = 0
rank active = 1
rank closing = 2
rank closed = 3
rank freed = 4

may-rank : (a b : Life) → may a b ≡ true → rank a ≤ rank b
may-rank a b h = ground (arith, h)

module _ (U : Libuv) (me : Obj) where
  open U use {Hdl, is_closing, pending}

  -- The phase that a handle stands for.
  abbrev pub life : Handle Hdl → Life
  life s =
      if s.freed
      then Life.freed
      else (if is_closing s.uv_handle
          then (if is_some (pending s.uv_handle) then closing else closed)
          else (if s.initialized then active else fresh))

  Act-may :
      {w v : World Hdl}
      → Act U me w v
      → Inv U me w.ext w.handle
      → may (life w.handle) (life v.handle) ≡ true
  unfolding func_close handle_incref handle_decref initialize_handle dict_get dict_set
  Act-may (hold s ext o known) v = ground arith
  Act-may (drop s ext o held) v = ground arith
  Act-may (init s ext loop h held new opened) v = ground (arith, v.blank)
  Act-may (close s ext callable args held) v = ground (
    arith,
    U.is_closing-close handle_close_cb s.uv_handle,
    U.pending-close handle_close_cb s.uv_handle,
  )
  Act-may (start s ext held ready _) v = ground arith
  Act-may (stop s ext held _ _) v = ground arith
  Act-may (get_dict s ext new held) v = ground arith
  Act-may (set_dict s ext is_dict val held) v = ground arith

  dealloc-may :
      (s : Handle Hdl) (ext : Refs)
      → s.freed ≡ false
      → s.refs me ≡ 0
      → Inv U me ext s
      → may (life s) (life (tp_dealloc U me s)) ≡ true
  unfolding tp_dealloc
  dealloc-may s ext still dead v = ground (
    arith,
    dead_quiet U me ext s dead v,
    v.blank,
    U.is_closing-close handle_dealloc_close_cb s.uv_handle,
    U.pending-close handle_dealloc_close_cb s.uv_handle,
  )

  dealloc_close-may :
      (s : Handle Hdl) (ext : Refs)
      → pending s.uv_handle ≡ some handle_dealloc_close_cb
      → Inv U me ext s
      → may (life s) (life (dealloc_close_cb me (fired U me s))) ≡ true
  unfolding dealloc_close_cb
  dealloc_close-may s ext due v = ground (
    arith,
    pending_live U me s ext due v,
    U.is_closing-take s.uv_handle,
    U.pending-take s.uv_handle,
    U.pending_open s.uv_handle,
  )

  finish_close-closed :
      (cb : Obj) (s : Handle Hdl)
      → s.freed ≡ false
      → Closing U me cb s
      → life (finish_close me s).1 ≡ closed
  unfolding finish_close handle_decref
  finish_close-closed cb s alive c = ground (arith, c.kept, c.quiet, c.shut)

  due_closing :
      (s : Handle Hdl) (ext : Refs)
      → pending s.uv_handle ≡ some handle_close_cb
      → Inv U me ext s
      → life s ≡ closing
  due_closing s ext due v = ground (arith, v.released, U.pending_open s.uv_handle)

  close-may :
      (s : Handle Hdl) (ext ext' : Refs) (call : Obj → Handle Hdl → Option Obj × Handle Hdl)
      (hook : Handle Hdl → Handle Hdl)
      → pending s.uv_handle ≡ some handle_close_cb
      → ((cb : Obj)
          → s.on_close_cb ≡ some cb
          → Acts U me
              (world (fired U me s) (incref me ext))
              (world (run_user call hook cb (fired U me s)) (incref me ext')))
      → Inv U me ext s
      → may (life s) (life (close_cb call hook me (fired U me s)).1) ≡ true
  close-may s ext ext' call hook due acts v = elim (Option-cases s.on_close_cb) [
    | inl e ↦ absurd (ground (arith, v.closable))
    | inr (cb, e) ↦
        let s0 = fired U me s in
        let s1 = run_user call hook cb s0 in
        let v1 : Inv U me (incref me ext') s1 =
          Acts-Inv U me (acts cb e) (fired-Inv U me handle_close_cb ext s due v) in
        let c1 : Closing U me cb s1 =
          Acts-Closing U me cb (acts cb e) (begin U me cb ext s due e v) in
        rw
          (
            due_closing s ext due v,
            close_cb_lem U me call hook cb s0 e,
            finish_close-closed cb s1 (live U me (incref me ext') s1 (owner U me ext') v1) c1,
          )
          refl
  ]

  Step-may :
      {w v : World Hdl}
      → Step U me w v
      → Inv U me w.ext w.handle
      → may (life w.handle) (life v.handle) ≡ true
  Step-may (act a) v = Act-may a v
  Step-may (dealloc s ext still dead) v = dealloc-may s ext still dead v
  Step-may (uv_dealloc_close s ext due) v = dealloc_close-may s ext due v
  Step-may (uv_close s ext call hook due ext' acts) v = close-may s ext ext' call hook due acts v

  Reach-rank :
      {w v : World Hdl}
      → Reach U me w v
      → Inv U me w.ext w.handle
      → rank (life w.handle) ≤ rank (life v.handle)
  Reach-rank here v = omega arith
  Reach-rank (next r st) v =
      omega (arith, Reach-rank r v, may-rank _ _ (Step-may st (Reach-Inv U me r v)))

  -- For a handle made by tp_new around a `uv_handle_t` that is not closing, after any steps: a
  -- further step is one of the abstract machine or leaves its phase as it is, and after any steps
  -- from there the phase is the same or a later one. So a handle is closed at most once, stays
  -- closed, and is released only before its __init__ or after its close callback.
  pub phases-Refines :
      (h : Hdl) (refs : Refs) (w v u : World Hdl)
      → is_closing h ≡ false
      → Reach U me (new_world U me h refs) w
      → Step U me w v
      → Reach U me v u
      → (may (life w.handle) (life v.handle) ≡ true) × (rank (life v.handle) ≤ rank (life u.handle))
  phases-Refines h refs w v u opened r st more =
      let i = new-Inv U me h refs opened in
      (Step-may st (Reach-Inv U me r i), Reach-rank more (Reach-Inv U me (next r st) i))
