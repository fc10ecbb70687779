-- ===== src/Handle/Ownership.antt =====
-- The account of references of a handle, through every function of src/handle.c.
use pyuv.Base.{
  ℕ, ◌+◌, ◌≡◌, Bool, true, false, Option, none, some, arith, if◌then◌else◌, is_some, Option-cases,
  inl, inr,
}
use pyuv.Py.{Obj, Refs, is, is_self, held, incref, Result, ok, raised, aborted}
use pyuv.Uv.{Libuv, CloseCb, handle_close_cb, handle_dealloc_close_cb}
use pyuv.Handle.Defs.{
  Handle, has_pyref, handle_incref, handle_decref, initialize_handle, dict_get, dict_set,
  finish_close, dealloc_close_cb, func_close, tp_dealloc,
}

-- The reference that PYUV__PYREF stands for.
abbrev pub pyref : ℕ → Obj → Obj → ℕ
pyref flags me o = if has_pyref flags then is me o else 0

-- The reference that libuv's pending close callback will give up.
abbrev pub owed : Option CloseCb → Obj → Obj → ℕ
owed none me o = 0
owed (some cb) me o = is me o

-- The references that the fields of a handle hold.
abbrev pub fields : {Hdl : Type 0} → Handle Hdl → Obj → ℕ
fields s o = held s.on_close_cb o + held s.loop o + held s.dict o

-- The references of the other code, with the one that a call returns.
abbrev pub result_ref : Result Obj → Refs → Refs
result_ref (ok r) ext = incref r ext
result_ref (raised e) ext = ext
result_ref aborted ext = ext

module _ (U : Libuv) (me : Obj) where
  open U use {Hdl, is_closing, pending, take}

  -- `ext` counts the references that other code holds.
  pub record Inv (ext : Refs) (s : Handle Hdl) : Type 0 where
    pub counted :
        (o : Obj)
        → s.refs o ≡ ext o + fields s o + pyref s.flags me o + owed (pending s.uv_handle) me o
    pub blank :
        s.initialized ≡ false → (has_pyref s.flags ≡ false) × (is_closing s.uv_handle ≡ false)
    pub unclosed : is_closing s.uv_handle ≡ false → s.on_close_cb ≡ none
    pub closable : pending s.uv_handle ≡ some handle_close_cb → is_some s.on_close_cb ≡ true
    pub looped : s.initialized ≡ true → s.freed ≡ false → is_some s.loop ≡ true
    pub released :
        s.freed ≡ true
        → (pending s.uv_handle ≡ none)
          × (s.refs me ≡ 0)
          × (s.initialized ≡ true → is_closing s.uv_handle ≡ true)

  pub func_close-Inv :
      (callable : Obj → Bool) (args : Option (Option Obj)) (ext : Refs) (s : Handle Hdl)
      → s.freed ≡ false
      → Inv ext s
      → Inv ext (func_close U callable me args s).1
  unfolding func_close
  func_close-Inv callable args ext s live v = record {
    counted = λ o. ground (
      arith,
      v.counted o,
      U.pending-close handle_close_cb s.uv_handle,
      U.pending_open s.uv_handle,
    );
    blank = ground (arith, v.blank, U.is_closing-close handle_close_cb s.uv_handle);
    unclosed = ground (arith, v.unclosed, U.is_closing-close handle_close_cb s.uv_handle);
    closable = ground (arith, v.closable);
    looped = ground (arith, v.looped);
    released = ground (arith, v.released);
  }

  -- The macros, on a handle that is open.
  pub handle_incref-Inv :
      (ext : Refs) (s : Handle Hdl)
      → s.initialized ≡ true
      → s.freed ≡ false
      → Inv ext s
      → Inv ext (handle_incref me s)
  unfolding handle_incref
  handle_incref-Inv ext s init live v = record {
    counted = λ o. ground (arith, v.counted o);
    blank = ground (arith, v.blank);
    unclosed = ground (arith, v.unclosed);
    closable = ground (arith, v.closable);
    looped = ground (arith, v.looped);
    released = ground (arith, v.released);
  }

  pub handle_decref-Inv :
      (ext : Refs) (s : Handle Hdl) → s.freed ≡ false → Inv ext s → Inv ext (handle_decref me s)
  unfolding handle_decref
  handle_decref-Inv ext s live v = record {
    counted = λ o. ground (arith, v.counted o);
    blank = ground (arith, v.blank);
    unclosed = ground (arith, v.unclosed);
    closable = ground (arith, v.closable);
    looped = ground (arith, v.looped);
    released = ground (arith, v.released);
  }

  pub initialize_handle-Inv :
      (loop : Obj) (h : Hdl) (ext : Refs) (s : Handle Hdl)
      → s.initialized ≡ false
      → s.freed ≡ false
      → is_closing h ≡ false
      → Inv ext s
      → Inv ext (initialize_handle loop (record s { uv_handle = h }))
  unfolding initialize_handle
  initialize_handle-Inv loop h ext s new live opened v = record {
    counted =
        λ o. ground (arith, v.counted o, v.blank new, U.pending_open h, U.pending_open s.uv_handle);
    blank = ground arith;
    unclosed = ground (arith, v.unclosed, v.blank new);
    closable = ground (arith, U.pending_open h);
    looped = ground arith;
    released = ground arith;
  }

  pub dict_set-Inv :
      (is_dict : Obj → Bool) (val : Option Obj) (ext : Refs) (s : Handle Hdl)
      → s.freed ≡ false
      → Inv ext s
      → Inv ext (dict_set is_dict val s).1
  unfolding dict_set
  dict_set-Inv is_dict none ext s live v = v
  dict_set-Inv is_dict (some d) ext s live v = record {
    counted = λ o. ground (arith, v.counted o);
    blank = ground (arith, v.blank);
    unclosed = ground (arith, v.unclosed);
    closable = ground (arith, v.closable);
    looped = ground (arith, v.looped);
    released = ground (arith, v.released);
  }

  -- The caller gets one new reference to the dictionary.
  pub dict_get-Inv :
      (new : Option Obj) (ext : Refs) (s : Handle Hdl)
      → s.freed ≡ false
      → Inv ext s
      → Inv (result_ref (dict_get new s).0 ext) (dict_get new s).1
  unfolding dict_get
  dict_get-Inv new ext s live v = record {
    counted = λ o. ground (arith, v.counted o);
    blank = ground (arith, v.blank);
    unclosed = ground (arith, v.unclosed);
    closable = ground (arith, v.closable);
    looped = ground (arith, v.looped);
    released = ground (arith, v.released);
  }

  -- With no reference left libuv has no callback to make.
  pub dead_quiet :
      (ext : Refs) (s : Handle Hdl) → s.refs me ≡ 0 → Inv ext s → pending s.uv_handle ≡ none
  dead_quiet ext s dead v = elim (Option-cases (pending s.uv_handle)) [
    | inl e ↦ e
    | inr (cb, e) ↦ ground (arith, v.counted me, is_self me)
  ]

  -- When the last reference is gone the handle is released, or lives on for its close callback.
  pub tp_dealloc-Inv :
      (ext : Refs) (s : Handle Hdl)
      → s.freed ≡ false
      → s.refs me ≡ 0
      → Inv ext s
      → Inv ext (tp_dealloc U me s)
  unfolding tp_dealloc
  tp_dealloc-Inv ext s live dead v = record {
    counted = λ o. ground (
      arith,
      v.counted o,
      U.pending-close handle_dealloc_close_cb s.uv_handle,
      U.pending_open s.uv_handle,
    );
    blank = ground (arith, v.blank, U.is_closing-close handle_dealloc_close_cb s.uv_handle);
    unclosed = ground (arith, v.unclosed, U.is_closing-close handle_dealloc_close_cb s.uv_handle);
    closable =
        ground
          (arith, dead_quiet ext s dead v, U.pending-close handle_dealloc_close_cb s.uv_handle);
    looped = ground (arith, v.looped);
    released =
        ground (arith, v.released, v.counted me, is_self me, dead_quiet ext s dead v, v.blank);
  }

  -- libuv calls the close callback: while it runs, the reference that was owed is the callback's.
  abbrev pub fired : Handle Hdl → Handle Hdl
  fired s = record s { uv_handle = take s.uv_handle }

  pub fired-Inv :
      (cb : CloseCb) (ext : Refs) (s : Handle Hdl)
      → pending s.uv_handle ≡ some cb
      → Inv ext s
      → Inv (incref me ext) (fired s)
  fired-Inv cb ext s due v = record {
    counted = λ o. ground (arith, v.counted o, U.pending-take s.uv_handle);
    blank = ground (arith, v.blank, U.is_closing-take s.uv_handle);
    unclosed = ground (arith, v.unclosed, U.is_closing-take s.uv_handle);
    closable = ground (arith, U.pending-take s.uv_handle);
    looped = v.looped;
    released = ground (arith, v.released);
  }

  pub dealloc_close_cb-Inv :
      (ext : Refs) (s : Handle Hdl)
      → s.freed ≡ false
      → Inv (incref me ext) s
      → Inv ext (dealloc_close_cb me s)
  unfolding dealloc_close_cb
  dealloc_close_cb-Inv ext s live v = record {
    counted = λ o. ground (arith, v.counted o);
    blank = v.blank;
    unclosed = v.unclosed;
    closable = v.closable;
    looped = v.looped;
    released = ground arith;
  }

  -- The rest of the close callback does not abort, and gives up what the close took.
  pub finish_close-Inv :
      (ext : Refs) (s : Handle Hdl) (cb : Obj)
      → s.freed ≡ false
      → s.initialized ≡ true
      → is_closing s.uv_handle ≡ true
      → pending s.uv_handle ≡ none
      → s.on_close_cb ≡ some cb
      → Inv (incref me ext) s
      → ((finish_close me s).0 ≡ ok tt) × Inv ext (finish_close me s).1
  unfolding finish_close
  finish_close-Inv ext s cb live init shut quiet has v = (
    ground (arith, v.looped),
    record {
      counted = λ o. ground (arith, v.counted o, v.looped);
      blank = ground (arith, v.looped);
      unclosed = ground (arith, v.looped);
      closable = ground (arith, v.looped);
      looped = ground (arith, v.looped);
      released = ground (arith, v.looped);
    },
  )
