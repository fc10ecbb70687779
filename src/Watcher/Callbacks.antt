-- ===== src/Watcher/Callbacks.antt =====
-- The callbacks that libuv makes on a watcher, and its destructor, keep the account of references.
use pyuv.Base.{
  ◌+◌, ◌≡◌, refl, sym, ◌∙◌, true, false, not, ◌&&◌, Option, none, some, arith, inl, inr, Bool-cases,
  Option-cases,
}
use mathlib.Core.Bool.{false≢true}
use pyuv.Error.{ExcType}
use pyuv.Py.{Obj, Refs, is_self, incref, decref, xincref, ok}
use pyuv.Uv.{Libuv, handle_close_cb, handle_dealloc_close_cb}
use pyuv.Handle.{Handle, tp_dealloc, handle_decref, finish_close, dealloc_close_cb}
use pyuv.Handle.Ownership.{
  Inv, fired, fired-Inv, tp_dealloc-Inv, dealloc_close_cb-Inv, finish_close-Inv,
}
use pyuv.Handle.Safety.{begin, owner, pending_live}
use pyuv.Handle.Closing.{Closing}
use pyuv.Handle.Frame.{plus, Inv-ext}
use pyuv.Watcher.{Watcher, with_refs, over_handle, drop_callback}
use pyuv.Watcher.Ownership.{WatcherInv}
use pyuv.Watcher.Lifecycle.{
  watcher_clear, run_user, watcher_close_cb, there, watcher_dealloc, WatcherActs,
}
use pyuv.Watcher.Acts.{Sound, watched, WatcherActs-Sound, WatcherActs-Closing}

module _ (U : Libuv) (me : Obj) where
  open U use {Hdl, is_closing, pending, take}

  module _ (exc : ExcType) where
    -- An open handle that libuv calls back on was not released.
    running :
        (ext : Refs) (w : Watcher Hdl)
        → w.initialized ≡ true
        → is_closing w.uv_handle ≡ false
        → WatcherInv U me ext w
        → w.freed ≡ false
    running ext w ready opened v = ground (arith, v.released)

    -- While code runs that holds the object, it is not released.
    kept_alive :
        (ext : Refs) (w : Watcher Hdl) → WatcherInv U me (incref me ext) w → w.freed ≡ false
    kept_alive ext w v = watched U me (incref me ext) w (owner U me ext) v

    -- A callback begins: it holds the object, and takes references that nothing will give up.
    begin-Sound :
        (w : Watcher Hdl) (ext lost lost' r : Refs)
        → w.freed ≡ false
        → ((o : Obj) → r o + lost o ≡ incref me w.refs o + lost' o)
        → Sound U me (plus ext lost) w
        → Sound U me (plus (incref me ext) lost') (with_refs r w)
    begin-Sound w ext lost lost' r still e v = record {
      account = record {
        counted = λ o. omega (arith, v.account.counted o, e o);
        blank = v.account.blank;
        unclosed = v.account.unclosed;
        closable = v.account.closable;
        looped = v.account.looped;
        released = λ gone. absurd (false≢true (sym still ∙ gone));
      };
      cleared = λ gone. absurd (false≢true (sym still ∙ gone));
    }

    -- It ends: the object is given up.
    end-Sound :
        (t : Watcher Hdl) (ext' lost' : Refs)
        → Sound U me (plus (incref me ext') lost') t
        → Sound U me (plus ext' lost') (with_refs (decref me t.refs) t)
    end-Sound t ext' lost' v =
        let still =
          watched U me (plus (incref me ext') lost') t (ground (arith, is_self me)) v.account in
        record {
          account = record {
            counted = λ o. omega (arith, v.account.counted o);
            blank = v.account.blank;
            unclosed = v.account.unclosed;
            closable = v.account.closable;
            looped = v.account.looped;
            released = λ gone. absurd (false≢true (sym still ∙ gone));
          };
          cleared = λ gone. absurd (false≢true (sym still ∙ gone));
        }

    -- The callback as a whole, for the counts `r` that the function is called with.
    pub callback-Sound :
        (w t : Watcher Hdl) (ext ext' lost lost' r : Refs)
        → w.initialized ≡ true
        → is_closing w.uv_handle ≡ false
        → ((o : Obj) → r o + lost o ≡ incref me w.refs o + lost' o)
        → WatcherActs U me exc (there (with_refs r w) (incref me ext)) (there t (incref me ext'))
        → Sound U me (plus ext lost) w
        → Sound U me (plus ext' lost') (with_refs (decref me t.refs) t)
    callback-Sound w t ext ext' lost lost' r ready opened e acts v =
        let still = running (plus ext lost) w ready opened v.account in
        end-Sound t ext' lost'
          (WatcherActs-Sound U me exc lost' acts (begin-Sound w ext lost lost' r still e v))

    dropped-Inv :
        (ext : Refs) (w : Watcher Hdl)
        → w.freed ≡ false
        → WatcherInv U me ext w
        → WatcherInv U me ext (drop_callback w)
    dropped-Inv ext w still v = record {
      counted = λ o. ground (arith, v.counted o);
      blank = v.blank;
      unclosed = v.unclosed;
      closable = v.closable;
      looped = v.looped;
      released = ground (arith, still);
    }

    pub dealloc-Sound :
        (w : Watcher Hdl) (ext : Refs)
        → w.freed ≡ false
        → w.refs me ≡ 0
        → Sound U me ext w
        → Sound U me ext (watcher_dealloc U me w)
    unfolding watcher_dealloc tp_dealloc watcher_clear
    dealloc-Sound w ext still dead v =
        elim (Bool-cases (w.initialized && not (is_closing w.uv_handle))) [
          | inl opened ↦
              let d = tp_dealloc-Inv U me (xincref w.callback ext) w.handle still dead v.account in
              rw opened (record {
                account = rw opened at d;
                cleared = λ gone. absurd (false≢true (sym still ∙ gone));
              })
          | inr shut ↦
              let d =
                tp_dealloc-Inv U me (xincref none ext) (drop_callback w).handle still
                  (omega (arith, dead)) (dropped-Inv ext w still v.account) in
              rw shut
                (record { account = rw shut at d; cleared = λ gone. (refl, (refl, refl, refl)) })
        ]

    pub dealloc_close-Sound :
        (w : Watcher Hdl) (ext : Refs)
        → pending w.uv_handle ≡ some handle_dealloc_close_cb
        → Sound U me ext w
        → Sound U me ext (over_handle (λ s. dealloc_close_cb me (fired U me s)) w)
    unfolding dealloc_close_cb
    dealloc_close-Sound w ext due v =
        let more = xincref w.callback ext in
        let still = pending_live U me w.handle more due v.account in
        record {
          account =
              dealloc_close_cb-Inv U me more (fired U me w.handle) still
                (fired-Inv U me handle_dealloc_close_cb more w.handle due v.account);
          cleared = λ gone. absurd (false≢true (sym still ∙ gone));
        }

    -- Both orders in which the callback's own reference and the function's are added.
    swapped :
        (cb : Option Obj) (ext : Refs) (s : Handle Hdl)
        → (Inv U me (incref me (xincref cb ext)) s → Inv U me (xincref cb (incref me ext)) s)
          × (Inv U me (xincref cb (incref me ext)) s → Inv U me (incref me (xincref cb ext)) s)
    swapped cb ext s = (
      Inv-ext U me (incref me (xincref cb ext)) (xincref cb (incref me ext)) s (λ o. omega arith),
      Inv-ext U me (xincref cb (incref me ext)) (incref me (xincref cb ext)) s (λ o. omega arith),
    )

    finish-Sound :
        (cb : Obj) (ext : Refs) (t : Watcher Hdl)
        → Sound U me (incref me ext) t
        → Closing U me cb t.handle
        → ((finish_close me t.handle).0 ≡ ok tt)
          × Sound U me ext (record t { handle = (finish_close me t.handle).1 })
    unfolding finish_close handle_decref
    finish-Sound cb ext t v c =
        let still = kept_alive ext t v.account in
        let f =
          finish_close-Inv U me (xincref t.callback ext) t.handle cb still c.ready c.shut c.quiet
            c.kept ((swapped t.callback ext t.handle).1 v.account) in
        (f.0, record { account = f.1; cleared = λ gone. ground (arith, still, gone) })

    close_cb_lem :
        (call : Obj → Watcher Hdl → Option Obj × Watcher Hdl) (hook : Watcher Hdl → Watcher Hdl)
        (cb : Obj) (w : Watcher Hdl)
        → w.on_close_cb ≡ some cb
        → let t = run_user call hook cb w in
          watcher_close_cb call hook me w
          ≡ ((finish_close me t.handle).0, record t { handle = (finish_close me t.handle).1 })
    unfolding watcher_close_cb
    close_cb_lem call hook cb w e = ground arith

    -- libuv's callback for close(), whatever the user's function does: it does not abort, and the
    -- account of references holds after it.
    pub close-Sound :
        (w : Watcher Hdl) (ext ext' lost : Refs)
        (call : Obj → Watcher Hdl → Option Obj × Watcher Hdl) (hook : Watcher Hdl → Watcher Hdl)
        → pending w.uv_handle ≡ some handle_close_cb
        → ((cb : Obj)
            → w.on_close_cb ≡ some cb
            → WatcherActs U me exc
                (there (over_handle (fired U me) w) (incref me ext))
                (there (run_user call hook cb (over_handle (fired U me) w)) (incref me ext')))
        → Sound U me (plus ext lost) w
        → ((watcher_close_cb call hook me (over_handle (fired U me) w)).0 ≡ ok tt)
          × Sound U me
              (plus ext' lost)
              (watcher_close_cb call hook me (over_handle (fired U me) w)).1
    close-Sound w ext ext' lost call hook due acts v = elim (Option-cases w.on_close_cb) [
      | inl e ↦ absurd (ground (arith, v.account.closable))
      | inr (cb, e) ↦
          let more = xincref w.callback (plus ext lost) in
          let inner = fired-Inv U me handle_close_cb more w.handle due v.account in
          let inside : WatcherInv U me (plus (incref me ext) lost) (over_handle (fired U me) w) =
            Inv-ext U me (incref me more) (xincref w.callback (plus (incref me ext) lost))
              (fired U me w.handle) (λ o. omega arith) inner in
          let still =
            watched U me (plus (incref me ext) lost) (over_handle (fired U me) w)
              (ground (arith, is_self me)) inside in
          let t = run_user call hook cb (over_handle (fired U me) w) in
          let after = WatcherActs-Sound U me exc lost (acts cb e) (record {
            account = inside;
            cleared = λ gone. absurd (false≢true (sym still ∙ gone));
          }) in
          let c : Closing U me cb t.handle =
            WatcherActs-Closing U me exc cb (acts cb e)
              (begin U me cb more w.handle due e v.account) in
          let after' : Sound U me (incref me (plus ext' lost)) t = record {
            account =
                Inv-ext U me (xincref t.callback (plus (incref me ext') lost))
                  (xincref t.callback (incref me (plus ext' lost))) t.handle (λ o. omega arith)
                  after.account;
            cleared = after.cleared;
          } in
          rw (close_cb_lem call hook cb (over_handle (fired U me) w) e)
            (finish-Sound cb (plus ext' lost) t after' c)
    ]
