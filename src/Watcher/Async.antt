-- ===== src/Watcher/Async.antt =====
-- src/async.c: a handle whose function, which may be None, is given to __init__, and runs after send().
use pyuv.Base.{
  zero, suc, ◌≡◌, arith, Bool, true, false, not, ◌||◌, ◌==◌, Option, none, some, if◌then◌else◌,
}
use pyuv.Base.Int.{ℤ, pos, negsuc, is_zero}
use pyuv.Error.{type_error, runtime_error, async_error}
use pyuv.Py.{
  Obj, none_obj, Refs, incref, M, ok, raised, uv, pure, ◌>>=◌, ◌>>◌, guard, check, check_open,
  parse, put, guard_gives, guard_keeps, parse_keeps,
}
use pyuv.Uv.{Libuv, Call}
use pyuv.Handle.{initialize_handle}
use pyuv.Watcher.{Watcher, with_uv, with_refs, over_handle, watcher_cb}
use pyuv.Watcher.Ownership.{WatcherInv}

-- self->callback != Py_None
abbrev pub has_function : Option Obj → Bool
has_function none = true
has_function (some cb) = not (cb == none_obj)

-- pyuv__async_cb
unfoldable pub async_cb :
    {Hdl : Type 0}
    → (Option Obj → Watcher Hdl → Option Obj × Watcher Hdl)
    → (Watcher Hdl → Watcher Hdl)
    → Obj
    → Watcher Hdl
    → Watcher Hdl
unfolding watcher_cb
async_cb call hook me w = if has_function w.callback then watcher_cb call hook me w else w

module _ (U : Libuv) where
  open U use {Hdl, is_closing}

  -- Async_func_send
  unfoldable pub async_send : Call U → M (Watcher Hdl) Obj
  async_send uv_async_send w =
      (do
        check_open w.initialized (is_closing w.uv_handle)
        put (with_uv (uv_async_send.run w.uv_handle).1 w)
        check (uv_async_send.run w.uv_handle).0 async_error
        pure none_obj)
        w

  -- The end of Async_tp_init, behind uv_async_init.
  unfoldable pub async_set : (loop callback : Obj) → Watcher Hdl → Watcher Hdl
  unfolding initialize_handle
  async_set loop callback w =
      over_handle (initialize_handle loop)
        (record (with_refs (incref callback w.refs) w) { callback = some callback })

  -- uv_async_init fails where its code is not 0.
  unfoldable pub async_uv : ℤ × Hdl → (loop callback : Obj) → M (Watcher Hdl) (Unit {0})
  unfolding async_set
  async_uv called loop callback w =
      if is_zero called.0
      then (ok tt, async_set loop callback (with_uv called.1 w))
      else (raised (uv async_error called.0), with_uv called.1 w)

  -- Async_tp_init: the callback is None where it is left out.
  unfoldable pub async_init :
      (Obj → Bool) → ℤ × Hdl → Option (Obj × Obj) → M (Watcher Hdl) (Unit {0})
  unfolding async_uv
  async_init callable uv_init args w =
      (do
        guard (not w.initialized) runtime_error
        a ← parse args
        guard (a.1 == none_obj || callable a.1) type_error
        async_uv uv_init a.0 a.1)
        w

  module _ (me : Obj) where
    async_set-Inv :
        (h : Hdl) (loop cb : Obj) (ext : Refs) (w : Watcher Hdl)
        → w.initialized ≡ false
        → w.callback ≡ none
        → w.freed ≡ false
        → is_closing h ≡ false
        → WatcherInv U me ext w
        → WatcherInv U me ext (async_set loop cb (with_uv h w))
    unfolding async_set initialize_handle
    async_set-Inv h loop cb ext w new unset live opened v = record {
      counted = λ o.
          ground
            (arith, v.counted o, v.blank new, unset, U.pending_open h, U.pending_open w.uv_handle);
      blank = ground arith;
      unclosed = ground (arith, v.unclosed, v.blank new);
      closable = ground (arith, U.pending_open h);
      looped = ground arith;
      released = ground arith;
    }

    failed-Inv :
        (h : Hdl) (ext : Refs) (w : Watcher Hdl)
        → w.initialized ≡ false
        → w.freed ≡ false
        → is_closing h ≡ false
        → WatcherInv U me ext w
        → WatcherInv U me ext (with_uv h w)
    failed-Inv h ext w new live opened v = record {
      counted = λ o.
          ground (arith, v.counted o, v.blank new, U.pending_open h, U.pending_open w.uv_handle);
      blank = ground (arith, v.blank);
      unclosed = ground (arith, v.unclosed, v.blank new);
      closable = ground (arith, U.pending_open h);
      looped = ground (arith, v.looped);
      released = ground arith;
    }

    async_uv-Inv :
        (code : ℤ) (h : Hdl) (loop cb : Obj) (ext : Refs) (w : Watcher Hdl)
        → w.initialized ≡ false
        → w.callback ≡ none
        → w.freed ≡ false
        → is_closing h ≡ false
        → WatcherInv U me ext w
        → WatcherInv U me ext (async_uv (code, h) loop cb w).1
    unfolding async_uv
    async_uv-Inv (pos zero) h loop cb ext w new unset live opened v =
        async_set-Inv h loop cb ext w new unset live opened v
    async_uv-Inv (pos (suc n)) h loop cb ext w new unset live opened v =
        failed-Inv h ext w new live opened v
    async_uv-Inv (negsuc n) h loop cb ext w new unset live opened v =
        failed-Inv h ext w new live opened v

    async_send-Inv :
        (c : Call U) (ext : Refs) (w : Watcher Hdl)
        → w.freed ≡ false
        → WatcherInv U me ext w
        → WatcherInv U me ext (async_send c w).1
    unfolding async_send
    async_send-Inv c ext w live v = record {
      counted = λ o. ground (arith, v.counted o, c.pending-run w.uv_handle);
      blank = ground (arith, v.blank, c.is_closing-run w.uv_handle);
      unclosed = ground (arith, v.unclosed, c.is_closing-run w.uv_handle);
      closable = ground (arith, v.closable, c.pending-run w.uv_handle);
      looped = ground (arith, v.looped);
      released = ground (arith, v.released);
    }

    -- __init__ and send() of an Async that was not released and that has a function only where it
    -- is initialized, whatever libuv answers: they keep the account of references on every branch.
    pub async-Inv :
        (callable : Obj → Bool) (code : ℤ) (h : Hdl) (args : Option (Obj × Obj)) (c : Call U)
        (ext : Refs) (w : Watcher Hdl)
        → w.freed ≡ false
        → is_closing h ≡ false
        → (w.initialized ≡ false → w.callback ≡ none)
        → WatcherInv U me ext w
        → WatcherInv U me ext (async_init callable (code, h) args w).1
          × WatcherInv U me ext (async_send c w).1
    unfolding async_init
    async-Inv callable code h args c ext w live opened unset v =
        let P = WatcherInv U me ext in
        let called = λ (a : Obj × Obj). async_uv (code, h) a.0 a.1 in
        let tested = λ (a : Obj × Obj). λ (t : Watcher Hdl).
          (do guard (a.1 == none_obj || callable a.1) type_error; called a) t in
        (
          guard_gives {A = Unit {0}} P (not w.initialized) runtime_error
              (λ t. (do a ← parse args; tested a) t) w v
              (λ e.
                let new : w.initialized ≡ false = ground (arith, e) in
                parse_keeps {A = Unit {0}} P args tested w v (λ a.
                  guard_keeps {A = Unit {0}} P (a.1 == none_obj || callable a.1) type_error
                    (called a) w v
                    (async_uv-Inv code h a.0 a.1 ext w new (unset new) live opened v))),
          async_send-Inv c ext w live v,
        )
