-- ===== src/Watcher/Ownership.antt =====
-- The account of references of a watcher: that of its base class (src/handle.c), with the reference
-- to its function added.
use pyuv.Base.{◌≡◌, Bool, false, Option, arith}
use pyuv.Base.Int.{ℤ}
use pyuv.Error.{ExcType}
use pyuv.Py.{Obj, Refs, is_self, incref, xincref, is_ok}
use pyuv.Uv.{Libuv, Call}
use pyuv.Handle.{handle_incref, handle_decref, initialize_handle}
use pyuv.Handle.Ownership.{Inv}
use pyuv.Watcher.{
  Watcher, with_uv, with_refs, finish_call, start, stop, stop_clear, tp_init, watcher_cb,
}

module _ (U : Libuv) (me : Obj) where
  open U use {Hdl, is_closing, pending}

  -- `ext` counts the references outside the object, its function being one that it holds itself.
  abbrev pub WatcherInv : Refs → Watcher Hdl → Type 0
  WatcherInv ext w = Inv U me (xincref w.callback ext) w.handle

  pub call-Inv :
      (c : Call U) (ext : Refs) (w : Watcher Hdl)
      → w.freed ≡ false
      → WatcherInv ext w
      → WatcherInv ext (with_uv (c.run w.uv_handle).1 w)
  call-Inv c ext w live v = record {
    counted = λ o. ground (arith, v.counted o, c.pending-run w.uv_handle);
    blank = ground (arith, v.blank, c.is_closing-run w.uv_handle);
    unclosed = ground (arith, v.unclosed, c.is_closing-run w.uv_handle);
    closable = ground (arith, v.closable, c.pending-run w.uv_handle);
    looped = ground (arith, v.looped);
    released = ground (arith, v.released);
  }

  pub start-Inv :
      (exc : ExcType) (callable : Obj → Bool) (c : Call U) (args : Option Obj) (ext : Refs)
      (w : Watcher Hdl)
      → w.freed ≡ false
      → WatcherInv ext w
      → WatcherInv ext (start U exc callable me c args w).1
  unfolding start handle_incref
  start-Inv exc callable c args ext w live v = record {
    counted = λ o. ground (arith, v.counted o, c.pending-run w.uv_handle);
    blank = ground (arith, v.blank, c.is_closing-run w.uv_handle);
    unclosed = ground (arith, v.unclosed, c.is_closing-run w.uv_handle);
    closable = ground (arith, v.closable, c.pending-run w.uv_handle);
    looped = ground (arith, v.looped);
    released = ground (arith, v.released);
  }

  pub stop-Inv :
      (exc : ExcType) (c : Call U) (ext : Refs) (w : Watcher Hdl)
      → w.freed ≡ false
      → WatcherInv ext w
      → WatcherInv ext (stop U exc me c w).1
  unfolding stop handle_decref
  stop-Inv exc c ext w live v = record {
    counted = λ o. ground (arith, v.counted o, c.pending-run w.uv_handle);
    blank = ground (arith, v.blank, c.is_closing-run w.uv_handle);
    unclosed = ground (arith, v.unclosed, c.is_closing-run w.uv_handle);
    closable = ground (arith, v.closable, c.pending-run w.uv_handle);
    looped = ground (arith, v.looped);
    released = ground (arith, v.released);
  }

  pub stop_clear-Inv :
      (exc : ExcType) (c : Call U) (ext : Refs) (w : Watcher Hdl)
      → w.freed ≡ false
      → WatcherInv ext w
      → WatcherInv ext (stop_clear U exc me c w).1
  unfolding stop_clear handle_decref
  stop_clear-Inv exc c ext w live v = record {
    counted = λ o. ground (arith, v.counted o, c.pending-run w.uv_handle);
    blank = ground (arith, v.blank, c.is_closing-run w.uv_handle);
    unclosed = ground (arith, v.unclosed, c.is_closing-run w.uv_handle);
    closable = ground (arith, v.closable, c.pending-run w.uv_handle);
    looped = ground (arith, v.looped);
    released = ground (arith, v.released);
  }

  pub tp_init-Inv :
      (exc : ExcType) (err : ℤ) (h : Hdl) (args : Option Obj) (ext : Refs) (w : Watcher Hdl)
      → w.freed ≡ false
      → is_closing h ≡ false
      → WatcherInv ext w
      → WatcherInv ext (tp_init U exc (err, h) args w).1
  unfolding tp_init initialize_handle
  tp_init-Inv exc err h args ext w live opened v = record {
    counted =
        λ o. ground (arith, v.counted o, v.blank, U.pending_open h, U.pending_open w.uv_handle);
    blank = ground (arith, v.blank);
    unclosed = ground (arith, v.unclosed, v.blank);
    closable = ground (arith, v.closable, U.pending_open h);
    looped = ground (arith, v.looped);
    released = ground (arith, v.released);
  }

  -- For every watcher handle whose references are accounted for and that was not released, whatever
  -- libuv answers: start(), both kinds of stop() and __init__ keep the account, on every branch.
  pub methods-WatcherInv :
      (exc : ExcType) (callable : Obj → Bool) (c : Call U) (args : Option Obj) (err : ℤ) (h : Hdl)
      (ext : Refs) (w : Watcher Hdl)
      → w.freed ≡ false
      → is_closing h ≡ false
      → WatcherInv ext w
      → WatcherInv ext (start U exc callable me c args w).1
        × WatcherInv ext (stop U exc me c w).1
        × WatcherInv ext (stop_clear U exc me c w).1
        × WatcherInv ext (tp_init U exc (err, h) args w).1
  methods-WatcherInv exc callable c args err h ext w live opened v = (
    start-Inv exc callable c args ext w live v,
    stop-Inv exc c ext w live v,
    stop_clear-Inv exc c ext w live v,
    tp_init-Inv exc err h args ext w live opened v,
  )

  -- A start() or stop() that fails changes no reference count and none of the object's fields but
  -- the embedded libuv handle.
  pub failure_unchanged :
      (exc : ExcType) (callable : Obj → Bool) (c : Call U) (args : Option Obj) (w : Watcher Hdl)
      → (is_ok (start U exc callable me c args w).0 ≡ false
          → (start U exc callable me c args w).1
            ≡ with_uv (start U exc callable me c args w).1.uv_handle w)
        × (is_ok (stop U exc me c w).0 ≡ false
            → (stop U exc me c w).1 ≡ with_uv (stop U exc me c w).1.uv_handle w)
        × (is_ok (stop_clear U exc me c w).0 ≡ false
            → (stop_clear U exc me c w).1 ≡ with_uv (stop_clear U exc me c w).1.uv_handle w)
  unfolding start stop stop_clear
  failure_unchanged exc callable c args w =
      (ground (arith, c.is_closing-run w.uv_handle), ground arith, ground arith)

  -- If the user's function, its result or its exception handled, leaves the references accounted
  -- for, the loop's own one included, then so does the callback of the watcher, the loop's given up.
  pub watcher_cb-Inv :
      (call : Option Obj → Watcher Hdl → Option Obj × Watcher Hdl)
      (hook : Watcher Hdl → Watcher Hdl) (ext : Refs) (w : Watcher Hdl)
      → WatcherInv
          (incref me ext)
          (finish_call hook (call w.callback (with_refs (incref me w.refs) w)))
      → WatcherInv ext (watcher_cb call hook me w)
  unfolding watcher_cb
  watcher_cb-Inv call hook ext w v = record {
    counted = λ o. ground (arith, v.counted o);
    blank = v.blank;
    unclosed = v.unclosed;
    closable = v.closable;
    looped = v.looped;
    released = ground (arith, v.released, v.counted me, is_self me);
  }

  -- While the function runs, the account has the loop's own reference.
  pub watcher_cb_begin :
      (ext : Refs) (w : Watcher Hdl)
      → w.freed ≡ false
      → WatcherInv ext w
      → WatcherInv (incref me ext) (with_refs (incref me w.refs) w)
  watcher_cb_begin ext w live v = record {
    counted = λ o. ground (arith, v.counted o);
    blank = v.blank;
    unclosed = v.unclosed;
    closable = v.closable;
    looped = v.looped;
    released = ground arith;
  }
