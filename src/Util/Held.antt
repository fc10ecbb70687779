-- ===== src/Util/Held.antt =====
-- The references to a SignalChecker (src/util.c).
use pyuv.Base.{ℕ, ◌+◌, ◌≡◌, arith, Bool, false, Option, List, [], ◌∷◌, ◌==◌, if◌then◌else◌}
use pyuv.Base.Int.{ℤ}
use pyuv.Py.{Obj, Refs}
use pyuv.Uv.{Libuv, Call}
use pyuv.Handle.{
  Handle, handle_incref, handle_decref, initialize_handle, tp_dealloc, dealloc_close_cb,
}
use pyuv.Handle.Ownership.{Inv}
use pyuv.Util.Checker.{
  SignalChecker, after_signals, checker_start, checker_stop, checker_init, look_for_signals,
}

module _ (U : Libuv) (me : Obj) where
  open U use {Hdl, is_closing, pending, take}

  -- For a SignalChecker whose references are accounted for and that was not released, whatever libuv
  -- answers: start(), stop() and __init__ keep the account, on every branch.
  pub checker_methods-Inv :
      (c : Call U) (err : ℤ) (h : Hdl) (args : Option (Obj × ℤ)) (ext : Refs)
      (s : SignalChecker Hdl)
      → s.freed ≡ false
      → is_closing h ≡ false
      → Inv U me ext s.handle
      → Inv U me ext (checker_start U me c s).1.handle
        × Inv U me ext (checker_stop U me c s).1.handle
        × Inv U me ext (checker_init U me (err, h) args s).1.handle
  unfolding checker_start checker_stop checker_init handle_incref handle_decref initialize_handle
  checker_methods-Inv c err h args ext s live opened v = (
    record {
      counted = λ o. ground (arith, v.counted o, c.pending-run s.uv_handle);
      blank = ground (arith, v.blank, c.is_closing-run s.uv_handle);
      unclosed = ground (arith, v.unclosed, c.is_closing-run s.uv_handle);
      closable = ground (arith, v.closable, c.pending-run s.uv_handle);
      looped = ground (arith, v.looped);
      released = ground (arith, v.released);
    },
    record {
      counted = λ o. ground (arith, v.counted o, c.pending-run s.uv_handle);
      blank = ground (arith, v.blank, c.is_closing-run s.uv_handle);
      unclosed = ground (arith, v.unclosed, c.is_closing-run s.uv_handle);
      closable = ground (arith, v.closable, c.pending-run s.uv_handle);
      looped = ground (arith, v.looped);
      released = ground (arith, v.released);
    },
    record {
      counted =
          λ o. ground (arith, v.counted o, v.blank, U.pending_open h, U.pending_open s.uv_handle);
      blank = ground (arith, v.blank);
      unclosed = ground (arith, v.unclosed, v.blank);
      closable = ground (arith, v.closable, U.pending_open h);
      looped = ground (arith, v.looped);
      released = ground (arith, v.released);
    },
  )

  -- A signal handler, or the hook for what it raised, that leaves the object and all counts alone,
  -- as one that only notes the signal does.
  abbrev pub Calm :
      (SignalChecker Hdl → Bool × SignalChecker Hdl)
      → (SignalChecker Hdl → SignalChecker Hdl)
      → Type 0
  Calm signals hook = (s : SignalChecker Hdl) → after_signals hook (signals s) ≡ s

  -- The callback for each of a list of answers of pyuv__drain_poll_fd, one after another.
  abbrev pub callbacks :
      Call U
      → (SignalChecker Hdl → Bool × SignalChecker Hdl)
      → (SignalChecker Hdl → SignalChecker Hdl)
      → List Bool
      → SignalChecker Hdl
      → SignalChecker Hdl
  callbacks c signals hook [] s = s
  callbacks c signals hook (e ∷ es) s =
      callbacks c signals hook es (look_for_signals U me c signals hook e s)

  -- What stays as it is, and how many references to the object itself are gone.
  record Fewer (n : ℕ) (s t : SignalChecker Hdl) : Type 0 where
    own : t.refs me + n ≡ s.refs me
    others : (o : Obj) → (me == o) ≡ false → t.refs o ≡ s.refs o
    same_flags : t.flags ≡ s.flags
    same_init : t.initialized ≡ s.initialized
    same_loop : t.loop ≡ s.loop
    same_close : t.on_close_cb ≡ s.on_close_cb
    same_dict : t.dict ≡ s.dict
    same_freed : t.freed ≡ s.freed
    same_closing : is_closing t.uv_handle ≡ is_closing s.uv_handle

  -- What the destructor and libuv's callback for it do once no reference is left; the destructor
  -- runs again where the callback gives up the last one.
  abbrev pub destroyed : SignalChecker Hdl → Handle Hdl
  destroyed s =
      let t = tp_dealloc U me s.handle in
      let u = dealloc_close_cb me (record t { uv_handle = take t.uv_handle }) in
      if u.refs me == 0 then tp_dealloc U me u else u
