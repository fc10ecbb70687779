-- ===== src/Handle/Liveness.antt =====
-- A handle of src/handle.c that nobody holds any more: the destructor and libuv's callbacks.
use pyuv.Base.{
  ◌+◌, ◌≡◌, ◌⊎◌, inl, inr, refl, arith, Bool, true, false, not, ◌&&◌, Option, none, some,
  Option-cases, Bool-cases, ◌==◌,
}
use pyuv.Py.{Obj, none_obj, Refs, is, is_self, is_other, incref}
use pyuv.Uv.{Libuv, handle_close_cb, handle_dealloc_close_cb}
use pyuv.Handle.Defs.{
  Handle, has_pyref, handle_decref, run_user, close_cb, dealloc_close_cb, tp_dealloc, finish_close,
}
use pyuv.Handle.Ownership.{Inv, fields, pyref, fired}
use pyuv.Handle.Lifecycle.{
  World, world, act, Acts, done, Step, dealloc, uv_dealloc_close, uv_close, Reach,
}
use pyuv.Handle.Safety.{Reach-Inv, new-Inv, new_world, close_cb_lem}

module _ (U : Libuv) (me : Obj) where
  open U use {Hdl, is_closing, pending, take}

  -- Whether Python code acts, or the interpreter and libuv do.
  abbrev pub is_act : {w v : World Hdl} → Step U me w v → Bool
  is_act (act a) = true
  is_act (dealloc s ext live dead) = false
  is_act (uv_dealloc_close s ext due) = false
  is_act (uv_close s ext call hook due ext' acts) = false

  -- Steps of the interpreter and of libuv only.
  pub data Winds (v : World Hdl) : World Hdl → Type 0 where
    rest : Winds v v
    wind : {w u : World Hdl} → (st : Step U me w u) → is_act st ≡ false → Winds v u → Winds v w

  -- They lead to a state in which the memory is released and other code holds what it held.
  abbrev pub Released : World Hdl → Type 0
  Released w = (v : World Hdl) × Winds v w × (v.handle.freed ≡ true) × (v.ext ≡ w.ext)

  closed_freed :
      (s : Handle Hdl)
      → (s.initialized ≡ false) ⊎ (is_closing s.uv_handle ≡ true)
      → (tp_dealloc U me s).freed ≡ true
  unfolding tp_dealloc
  closed_freed s (inl new) = ground (arith, new)
  closed_freed s (inr shut) = ground (arith, shut)

  -- The destructor of a handle that is closed, or was never initialized.
  closed-Released :
      (ext : Refs) (s : Handle Hdl)
      → s.freed ≡ false
      → s.refs me ≡ 0
      → (s.initialized ≡ false) ⊎ (is_closing s.uv_handle ≡ true)
      → Released (world s ext)
  closed-Released ext s live dead shut = (
    world (tp_dealloc U me s) ext,
    wind (dealloc s ext live dead) refl rest,
    closed_freed s shut,
    refl,
  )

  -- libuv's callback after a destructor that closed the handle.
  dealloc_due-Released :
      (ext : Refs) (s : Handle Hdl)
      → s.freed ≡ false
      → s.refs me ≡ 1
      → pending s.uv_handle ≡ some handle_dealloc_close_cb
      → Released (world s ext)
  unfolding dealloc_close_cb
  dealloc_due-Released ext s live one due =
      let t = dealloc_close_cb me (fired U me s) in
      let (u, w, gone, same) =
        closed-Released ext t live (ground (arith, one, is_self me))
          (inr (ground (arith, U.is_closing-take s.uv_handle, U.pending_open s.uv_handle))) in
      (u, wind (uv_dealloc_close s ext due) refl w, gone, same)

  no_open :
      (s : Handle Hdl)
      → (s.initialized && not (is_closing s.uv_handle)) ≡ false
      → (s.initialized ≡ false) ⊎ (is_closing s.uv_handle ≡ true)
  no_open s e = elim (Bool-cases s.initialized) [
    | inl ready ↦ inr (ground (arith, ready, e))
    | inr new ↦ inl new
  ]

  -- The destructor of a handle for which libuv has no callback.
  idle-Released :
      (ext : Refs) (s : Handle Hdl) → s.freed ≡ false → s.refs me ≡ 0 → Released (world s ext)
  unfolding tp_dealloc
  idle-Released ext s live dead =
      elim (Bool-cases (s.initialized && not (is_closing s.uv_handle))) [
        | inr no_close ↦ closed-Released ext s live dead (no_open s no_close)
        | inl opened ↦
            let t = tp_dealloc U me s in
            let (u, w, gone, same) =
              dealloc_due-Released ext t (ground (arith, opened))
                (ground (arith, opened, is_self me))
                (ground (arith, opened, U.pending-close handle_dealloc_close_cb s.uv_handle)) in
            (u, wind (dealloc s ext live dead) refl w, gone, same)
      ]

  -- A user's function that leaves the handle alone, and a hook that does.
  abbrev pub leave : Obj → Handle Hdl → Option Obj × Handle Hdl
  leave cb s = (none, s)

  leave_lem : (cb : Obj) (s : Handle Hdl) → run_user leave (λ t. t) cb s ≡ s
  leave_lem cb s = ground arith

  left :
      (cb : Obj) (ext : Refs) (s : Handle Hdl)
      → Acts U me (world s ext) (world (run_user leave (λ t. t) cb s) ext)
  left cb ext s = rw (leave_lem cb s) done

  finish_close-refs :
      (ext : Refs) (cb l : Obj) (s : Handle Hdl)
      → s.on_close_cb ≡ some cb
      → s.loop ≡ some l
      → (me == none_obj) ≡ false
      → fields s me ≡ 0
      → s.refs me ≡ pyref s.flags me me + is me me
      → ((finish_close me s).1.refs me ≡ 0)
        × ((finish_close me s).1.freed ≡ s.freed)
        × ((finish_close me s).1.uv_handle ≡ s.uv_handle)
  unfolding finish_close handle_decref
  finish_close-refs ext cb l s has looped other none_held e = (
    ground (arith, has, looped, none_held, e, is_self me, is_other none_obj me),
    ground (arith, has, looped),
    ground (arith, has, looped),
  )

  -- The close callback of a handle that only its pending close and its start hold.
  close_due-Released :
      (ext : Refs) (s : Handle Hdl) (cb l : Obj)
      → s.freed ≡ false
      → s.on_close_cb ≡ some cb
      → s.loop ≡ some l
      → (me == none_obj) ≡ false
      → fields s me ≡ 0
      → s.refs me ≡ pyref s.flags me me + is me me
      → pending s.uv_handle ≡ some handle_close_cb
      → Released (world s ext)
  close_due-Released ext s cb l live has looped other none_held e due =
      let s0 = fired U me s in
      let t = (finish_close me s0).1 in
      let (dead, freed_t, uv_t) = finish_close-refs ext cb l s0 has looped other none_held e in
      let same : (close_cb leave (λ x. x) me s0).1 ≡ t =
        rw (close_cb_lem U me leave (λ x. x) cb s0 has, leave_lem cb s0) refl in
      let (u, w, gone, kept) =
        closed-Released ext (close_cb leave (λ x. x) me s0).1 (rw same (rw freed_t live))
          (rw same dead)
          (inr (
            rw same (
              rw uv_t (
                ground
                  (arith, due, U.is_closing-take s.uv_handle, U.pending_open s.uv_handle))))) in
      (
        u,
        wind (uv_close s ext leave (λ x. x) due ext (λ c h. left c (incref me ext) s0)) refl w,
        gone,
        kept,
      )

  by_account :
      (ext : Refs) (s : Handle Hdl)
      → Inv U me ext s
      → (me == none_obj) ≡ false
      → ext me ≡ 0
      → fields s me ≡ 0
      → (has_pyref s.flags ≡ false) ⊎ (pending s.uv_handle ≡ some handle_close_cb)
      → Released (world s ext)
  by_account ext s v other unheld none_held unstarted = elim (Bool-cases s.freed) [
    | inl gone ↦ (world s ext, rest, gone, refl)
    | inr live ↦ elim (Option-cases (pending s.uv_handle)) [
      | inl quiet ↦ idle-Released ext s live (elim unstarted [
        | inl clear ↦ ground (arith, v.counted me, unheld, none_held, clear, quiet)
        | inr due ↦ ground (arith, due, quiet)
      ])
      | inr (handle_dealloc_close_cb, due) ↦
          dealloc_due-Released ext s live
            (elim unstarted [
              | inl clear ↦ ground (arith, v.counted me, unheld, none_held, clear, due, is_self me)
              | inr other_due ↦ ground (arith, due, other_due)
            ])
            due
      | inr (handle_close_cb, due) ↦ elim (Option-cases s.on_close_cb) [
        | inl missing ↦ absurd (ground (arith, v.closable, due, missing))
        | inr (cb, has) ↦ elim (Option-cases s.loop) [
          | inl missing ↦
              absurd
                (ground (arith, v.looped, v.blank, due, live, missing, U.pending_open s.uv_handle))
          | inr (l, looped) ↦
              close_due-Released ext s cb l live has looped other none_held
                (ground (arith, v.counted me, unheld, none_held, due)) due
        ]
      ]
    ]
  ]

  -- For a handle made by tp_new around a `uv_handle_t` that is not closing, after any steps: where
  -- the code outside holds no reference to it, it holds none to itself by its fields, it is not
  -- started or has a close() pending, and it is not None, the destructor and libuv's callbacks
  -- alone, with a user's close callback that leaves the handle alone, lead to its release, and the
  -- references of the code outside are as they were.
  pub unheld-Released :
      (h : Hdl) (refs : Refs) (s : Handle Hdl) (ext : Refs)
      → is_closing h ≡ false
      → Reach U me (new_world U me h refs) (world s ext)
      → (me == none_obj) ≡ false
      → ext me ≡ 0
      → fields s me ≡ 0
      → (has_pyref s.flags ≡ false) ⊎ (pending s.uv_handle ≡ some handle_close_cb)
      → Released (world s ext)
  unheld-Released h refs s ext opened r other unheld none_held unstarted =
      by_account ext s (Reach-Inv U me r (new-Inv U me h refs opened)) other unheld none_held
        unstarted
