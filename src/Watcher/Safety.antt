-- ===== src/Watcher/Safety.antt =====
-- The reachable states of a watcher.
use pyuv.Base.{◌+◌, ◌≡◌, ◌∙◌, refl, sym, true, false, none, arith, inl, inr, Bool-cases}
use pyuv.Error.{ExcType}
use pyuv.Py.{Obj, Refs, is_self, held, incref, xincref}
use pyuv.Uv.{Libuv}
use pyuv.Handle.{has_pyref, tp_new}
use pyuv.Handle.Ownership.{fields, pyref, owed}
use pyuv.Handle.Safety.{new-Inv}
use pyuv.Handle.Frame.{plus, Inv-ext}
use pyuv.Watcher.{Watcher, watcher_cb}
use pyuv.Watcher.Ownership.{WatcherInv}
use pyuv.Watcher.Lifecycle.{
  watcher_new, there, WatcherLife, living, kind_of, plain_kind, signal_kind, poll_kind, WatcherStep,
  act_it, run_callback, run_signal, run_poll, dealloc_it, uv_dealloc_close_it, uv_close_it,
  WatcherReach, at_start, and_then,
}
use pyuv.Watcher.Kinds.{poll_args, poll_cb, signal_cb}
use pyuv.Watcher.Acts.{Sound, WatcherAct-Sound}
use pyuv.Watcher.Callbacks.{callback-Sound, dealloc-Sound, dealloc_close-Sound, close-Sound}

plain-signal : plain_kind ≡ signal_kind → ⊥
plain-signal e = cc

plain-poll : plain_kind ≡ poll_kind → ⊥
plain-poll e = cc

module _ (U : Libuv) (me : Obj) where
  open U use {Hdl, is_closing, pending, take}

  module _ (exc : ExcType) where
    -- All references that are not the watcher's own.
    abbrev others : WatcherLife Hdl → Refs
    others t = plus t.now.ext t.lost

    WatcherStep-Sound :
        {t u : WatcherLife Hdl}
        → WatcherStep U me exc t u
        → Sound U me (others t) t.now.watcher
        → Sound U me (others u) u.now.watcher
    unfolding watcher_cb signal_cb poll_cb
    WatcherStep-Sound (act_it lost a) v = WatcherAct-Sound U me exc lost a v
    WatcherStep-Sound (run_callback w ext ext' lost call hook kind ready opened acts) v =
        callback-Sound U me exc w _ ext ext' lost lost (incref me w.refs) ready opened (λ o. refl)
          acts v
    WatcherStep-Sound (run_signal w ext ext' lost of_int call hook n kind ready opened acts) v =
        callback-Sound U me exc w _ ext ext' lost (incref (of_int n) lost)
          (incref (of_int n) (incref me w.refs)) ready opened (λ o. omega arith) acts v
    WatcherStep-Sound (run_poll w ext ext' lost of_int call hook n m kind ready opened acts) v =
        let a = poll_args of_int n m in
        callback-Sound U me exc w _ ext ext' lost (incref a.1 (incref a.0 lost))
          (incref a.1 (incref a.0 (incref me w.refs))) ready opened (λ o. omega arith) acts v
    WatcherStep-Sound (dealloc_it w ext lost still dead) v =
        dealloc-Sound U me exc w (plus ext lost) still dead v
    WatcherStep-Sound (uv_dealloc_close_it w ext lost due) v =
        dealloc_close-Sound U me exc w (plus ext lost) due v
    WatcherStep-Sound (uv_close_it w ext ext' lost call hook due acts) v =
        (close-Sound U me exc w ext ext' lost call hook due acts v).1

    WatcherReach-Sound :
        {t u : WatcherLife Hdl}
        → WatcherReach U me exc t u
        → Sound U me (others t) t.now.watcher
        → Sound U me (others u) u.now.watcher
    WatcherReach-Sound at_start v = v
    WatcherReach-Sound (and_then r s) v = WatcherStep-Sound s (WatcherReach-Sound r v)

    -- Only the callbacks of a Signal and of a Poll lose references.
    WatcherStep-lost :
        {t u : WatcherLife Hdl}
        → kind_of exc ≡ plain_kind
        → WatcherStep U me exc t u
        → (o : Obj) → u.lost o ≡ t.lost o
    WatcherStep-lost plain (act_it lost a) o = refl
    WatcherStep-lost plain (run_callback w ext ext' lost call hook kind ready opened acts) o = refl
    WatcherStep-lost plain (run_signal w ext ext' lost i call hook n kind ready opened acts) o =
        absurd (plain-signal (sym plain ∙ kind))
    WatcherStep-lost plain (run_poll w ext ext' lost i call hook n m kind ready opened acts) o =
        absurd (plain-poll (sym plain ∙ kind))
    WatcherStep-lost plain (dealloc_it w ext lost still dead) o = refl
    WatcherStep-lost plain (uv_dealloc_close_it w ext lost due) o = refl
    WatcherStep-lost plain (uv_close_it w ext ext' lost call hook due acts) o = refl

    WatcherReach-lost :
        {t u : WatcherLife Hdl}
        → kind_of exc ≡ plain_kind
        → WatcherReach U me exc t u
        → (o : Obj) → u.lost o ≡ t.lost o
    WatcherReach-lost plain at_start o = refl
    WatcherReach-lost plain (and_then r s) o =
        WatcherStep-lost plain s o ∙ WatcherReach-lost plain r o

    abbrev pub new_watcher : Hdl → Refs → WatcherLife Hdl
    new_watcher h refs = living (there (watcher_new h refs) refs) (λ o. 0)

    new-Sound :
        (h : Hdl) (refs : Refs) → is_closing h ≡ false → Sound U me refs (watcher_new h refs)
    unfolding watcher_new tp_new
    new-Sound h refs opened = record {
      account =
          Inv-ext U me refs (xincref none refs) (tp_new h refs) (λ o. omega arith)
            (new-Inv U me h refs opened);
      cleared = λ gone. absurd (cc);
    }

    started-Sound :
        (h : Hdl) (refs : Refs)
        → is_closing h ≡ false
        → Sound U me (plus refs (λ o. 0)) (watcher_new h refs)
    unfolding watcher_new tp_new
    started-Sound h refs opened = record {
      account =
          Inv-ext U me (xincref none refs) (xincref none (plus refs (λ o. 0))) (tp_new h refs)
            (λ o. omega arith) (new-Sound h refs opened).account;
      cleared = λ gone. absurd (cc);
    }

    unflagged :
        (ext : Refs) (w : Watcher Hdl)
        → w.refs me ≡ 0
        → WatcherInv U me ext w
        → has_pyref w.flags ≡ false
    unflagged ext w dead v = elim (Bool-cases (has_pyref w.flags)) [
      | inr e ↦ e
      | inl e ↦ ground (arith, v.counted me, is_self me)
    ]

    released_whole :
        (ext : Refs) (w : Watcher Hdl)
        → Sound U me ext w
        → w.freed ≡ true
        → (pending w.uv_handle ≡ none)
          × (w.initialized ≡ true → is_closing w.uv_handle ≡ true)
          × (ext me ≡ 0)
          × ((o : Obj) → w.refs o ≡ ext o)
    released_whole ext w v gone =
        let (quiet, dead, shut) = v.account.released gone in
        let c = v.cleared gone in
        let clear = unflagged ext w dead v.account in
        (
          quiet,
          shut,
          omega (arith, v.account.counted me, dead),
          λ o. ground (arith, v.account.counted o, c.0, c.1, quiet, clear),
        )

    -- For a watcher (a Check, Idle, Prepare, Signal or Poll) made by tp_new around a uv_handle_t that
    -- is not closing, after any steps: methods, calls of libuv that do not close it, references
    -- taken and dropped, libuv's calls of its function, by the callback of its type, while the
    -- handle is open, destructor runs, and libuv's close callbacks, with user functions that act on
    -- the watcher as Python code can: the count of every object is the number of references of the
    -- code outside, plus those that the callbacks of a Signal or a Poll took for the numbers they
    -- pass and never give up, of which the others have none, plus those of the function and the
    -- other fields, plus one of the watcher to itself while PYUV__PYREF is set, plus one while libuv
    -- has yet to call a close callback; and if its memory was released, libuv has no callback left
    -- to make on it, an initialized handle is closed, and every count is that of the code outside,
    -- which holds no reference to the watcher, and of those that were lost: all that the watcher
    -- held was given back.
    pub watchers_accounted :
        (h : Hdl) (refs : Refs) (t : WatcherLife Hdl)
        → is_closing h ≡ false
        → WatcherReach U me exc (new_watcher h refs) t
        → let w = t.now.watcher in
          ((o : Obj)
            → w.refs o
              ≡ t.now.ext o
                + t.lost o
                + held w.callback o
                + fields w.handle o
                + pyref w.flags me o
                + owed (pending w.uv_handle) me o)
          × (kind_of exc ≡ plain_kind → (o : Obj) → t.lost o ≡ 0)
          × (w.freed ≡ true
              → (pending w.uv_handle ≡ none)
                × (w.initialized ≡ true → is_closing w.uv_handle ≡ true)
                × (t.now.ext me ≡ 0)
                × ((o : Obj) → w.refs o ≡ t.now.ext o + t.lost o))
    watchers_accounted h refs t opened r =
        let v = WatcherReach-Sound r (started-Sound h refs opened) in
        (
          v.account.counted,
          λ plain. WatcherReach-lost plain r,
          λ gone.
              let (quiet, shut, dead, all) = released_whole (others t) t.now.watcher v gone in
              (quiet, shut, omega (arith, dead), all),
        )
