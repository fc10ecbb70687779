-- ===== src/Watcher/Lifecycle.antt =====
-- The life of one watcher as a step relation: its methods, those of its base class, its destructor
-- (Check_tp_clear and its kin), and the callbacks that libuv makes. It stands over the life of a
-- handle, with the function as a further field.
use pyuv.Base.{◌<◌, ◌≡◌, Bool, true, false, not, ◌&&◌, ◌==◌, Option, none, some, if◌then◌else◌}
use pyuv.Base.Int.{ℤ}
use pyuv.Error.{ExcType, signal_error, poll_error}
use pyuv.Py.{Obj, none_obj, Refs, incref, M, aborted}
use pyuv.Uv.{Libuv, Call, handle_close_cb, handle_dealloc_close_cb}
use pyuv.Handle.{Handle, tp_new, tp_clear, tp_dealloc, finish_close, dealloc_close_cb}
use pyuv.Handle.Ownership.{fired}
use pyuv.Handle.Lifecycle.{Act, world}
use pyuv.Watcher.{
  Watcher, with_uv, with_refs, over_handle, drop_callback, finish_call, start, stop, stop_clear,
  tp_init, watcher_cb,
}
use pyuv.Watcher.Kinds.{poll_args, poll_cb, signal_cb}

-- Check_tp_new and its kin
unfoldable pub watcher_new : {Hdl : Type 0} → Hdl → Refs → Watcher Hdl
watcher_new h refs = record { handle = tp_new h refs; callback = none }

-- Check_tp_clear and its kin: Py_CLEAR(self->callback), and the base class's
unfoldable pub watcher_clear : {Hdl : Type 0} → Watcher Hdl → Watcher Hdl
watcher_clear w = over_handle tp_clear (drop_callback w)

-- The user's part of pyuv__handle_close_cb on a watcher
abbrev pub run_user :
    {Hdl : Type 0}
    → (Obj → Watcher Hdl → Option Obj × Watcher Hdl)
    → (Watcher Hdl → Watcher Hdl)
    → Obj
    → Watcher Hdl
    → Watcher Hdl
run_user call hook cb w = if cb == none_obj then w else finish_call hook (call cb w)

-- pyuv__handle_close_cb on a watcher
unfoldable pub watcher_close_cb :
    {Hdl : Type 0}
    → (Obj → Watcher Hdl → Option Obj × Watcher Hdl)
    → (Watcher Hdl → Watcher Hdl)
    → Obj
    → M (Watcher Hdl) (Unit {0})
watcher_close_cb call hook me w = elim w.on_close_cb [
  | none ↦ (aborted, w)
  | some cb ↦
      let t = run_user call hook cb w in
      let r = finish_close me t.handle in (r.0, record t { handle = r.1 })
]

pub record WatcherWorld (Hdl : Type 0) : Type 0 where
  pub watcher : Watcher Hdl
  pub ext : Refs

abbrev pub there : {Hdl : Type 0} → Watcher Hdl → Refs → WatcherWorld Hdl
there w ext = record { watcher = w; ext = ext }

-- The world, and the references that callbacks took and nothing can give up.
pub record WatcherLife (Hdl : Type 0) : Type 0 where
  pub now : WatcherWorld Hdl
  pub lost : Refs

abbrev pub living : {Hdl : Type 0} → WatcherWorld Hdl → Refs → WatcherLife Hdl
living t lost = record { now = t; lost = lost }

-- Which callback libuv makes: pyuv__signal_cb on a Signal, pyuv__poll_cb on a Poll, and one like
-- pyuv__check_cb on the others.
pub data Kind : Type 0 where
  plain_kind signal_kind poll_kind : Kind

-- The type of a watcher by its exceptions
abbrev pub kind_of : ExcType → Kind
kind_of signal_error = signal_kind
kind_of poll_error = poll_kind
kind_of e = plain_kind

module _ (U : Libuv) (me : Obj) where
  open U use {Hdl, is_closing, pending}

  -- Handle_tp_dealloc on a watcher, whose tp_clear is the one that subtype_clear finds
  unfoldable pub watcher_dealloc : Watcher Hdl → Watcher Hdl
  unfolding watcher_clear
  watcher_dealloc w =
      if w.initialized && not (is_closing w.uv_handle)
      then over_handle (tp_dealloc U me) w
      else over_handle (λ s. record s { freed = true }) (watcher_clear w)

  module _ (exc : ExcType) where
    -- What Python code does: all that it does with a handle, and the methods of a watcher.
    pub data WatcherAct : WatcherWorld Hdl → WatcherWorld Hdl → Type 0 where
      of_handle :
          (w : Watcher Hdl) (ext ext' : Refs) (s : Handle Hdl)
          → Act U me (world w.handle ext) (world s ext')
          → WatcherAct (there w ext) (there (record w { handle = s }) ext')
      start_it :
          (w : Watcher Hdl) (ext : Refs) (callable : Obj → Bool) (c : Call U) (args : Option Obj)
          → 0 < ext me
          → WatcherAct (there w ext) (there (start U exc callable me c args w).1 ext)
      stop_it :
          (w : Watcher Hdl) (ext : Refs) (c : Call U)
          → 0 < ext me
          → WatcherAct (there w ext) (there (stop U exc me c w).1 ext)
      stop_and_clear :
          (w : Watcher Hdl) (ext : Refs) (c : Call U)
          → 0 < ext me
          → WatcherAct (there w ext) (there (stop_clear U exc me c w).1 ext)
      init_it :
          (w : Watcher Hdl) (ext : Refs) (err : ℤ) (h : Hdl) (args : Option Obj)
          → 0 < ext me
          → is_closing h ≡ false
          → WatcherAct (there w ext) (there (tp_init U exc (err, h) args w).1 ext)
      call_it :
          (w : Watcher Hdl) (ext : Refs) (c : Call U)
          → 0 < ext me
          → WatcherAct (there w ext) (there (with_uv (c.run w.uv_handle).1 w) ext)

    pub data WatcherActs (v : WatcherWorld Hdl) : WatcherWorld Hdl → Type 0 where
      none_yet : WatcherActs v v
      then_one : {t u : WatcherWorld Hdl} → WatcherActs v t → WatcherAct t u → WatcherActs v u

    -- libuv calls the function of a watcher only while the handle is open, by the callback of its
    -- type. Callbacks run Python code, which acts as any other.
    pub data WatcherStep : WatcherLife Hdl → WatcherLife Hdl → Type 0 where
      act_it :
          {t u : WatcherWorld Hdl} (lost : Refs)
          → WatcherAct t u
          → WatcherStep (living t lost) (living u lost)
      run_callback :
          (w : Watcher Hdl) (ext ext' lost : Refs)
          (call : Option Obj → Watcher Hdl → Option Obj × Watcher Hdl)
          (hook : Watcher Hdl → Watcher Hdl)
          → kind_of exc ≡ plain_kind
          → w.initialized ≡ true
          → is_closing w.uv_handle ≡ false
          → WatcherActs (there (with_refs (incref me w.refs) w) (incref me ext)) (
              there
                (finish_call hook (call w.callback (with_refs (incref me w.refs) w)))
                (incref me ext'))
          → WatcherStep
              (living (there w ext) lost)
              (living (there (watcher_cb call hook me w) ext') lost)
      run_signal :
          (w : Watcher Hdl) (ext ext' lost : Refs) (of_int : ℤ → Obj)
          (call : Obj → Option Obj → Watcher Hdl → Option Obj × Watcher Hdl)
          (hook : Watcher Hdl → Watcher Hdl) (signum : ℤ)
          → kind_of exc ≡ signal_kind
          → w.initialized ≡ true
          → is_closing w.uv_handle ≡ false
          → (let given = with_refs (incref (of_int signum) (incref me w.refs)) w in
              WatcherActs
                (there given (incref me ext))
                (there (finish_call hook (call (of_int signum) w.callback given)) (incref me ext')))
          → WatcherStep (living (there w ext) lost) (
              living
                (there (signal_cb of_int call hook me signum w) ext')
                (incref (of_int signum) lost))
      run_poll :
          (w : Watcher Hdl) (ext ext' lost : Refs) (of_int : ℤ → Obj)
          (call : Obj → Obj → Option Obj → Watcher Hdl → Option Obj × Watcher Hdl)
          (hook : Watcher Hdl → Watcher Hdl) (status events : ℤ)
          → kind_of exc ≡ poll_kind
          → w.initialized ≡ true
          → is_closing w.uv_handle ≡ false
          → (let a = poll_args of_int status events in
              let given = with_refs (incref a.1 (incref a.0 (incref me w.refs))) w in
              WatcherActs
                (there given (incref me ext))
                (there (finish_call hook (call a.0 a.1 w.callback given)) (incref me ext')))
          → WatcherStep (living (there w ext) lost) (
              living (there (poll_cb of_int call hook me status events w) ext') (
                incref
                  (poll_args of_int status events).1
                  (incref (poll_args of_int status events).0 lost)))
      dealloc_it :
          (w : Watcher Hdl) (ext lost : Refs)
          → w.freed ≡ false
          → w.refs me ≡ 0
          → WatcherStep (living (there w ext) lost) (living (there (watcher_dealloc w) ext) lost)
      uv_dealloc_close_it :
          (w : Watcher Hdl) (ext lost : Refs)
          → pending w.uv_handle ≡ some handle_dealloc_close_cb
          → WatcherStep
              (living (there w ext) lost)
              (living (there (over_handle (λ s. dealloc_close_cb me (fired U me s)) w) ext) lost)
      uv_close_it :
          (w : Watcher Hdl) (ext ext' lost : Refs)
          (call : Obj → Watcher Hdl → Option Obj × Watcher Hdl) (hook : Watcher Hdl → Watcher Hdl)
          → pending w.uv_handle ≡ some handle_close_cb
          → ((cb : Obj)
              → w.on_close_cb ≡ some cb
              → WatcherActs
                  (there (over_handle (fired U me) w) (incref me ext))
                  (there (run_user call hook cb (over_handle (fired U me) w)) (incref me ext')))
          → WatcherStep (living (there w ext) lost) (
              living
                (there (watcher_close_cb call hook me (over_handle (fired U me) w)).1 ext')
                lost)

    pub data WatcherReach (v : WatcherLife Hdl) : WatcherLife Hdl → Type 0 where
      at_start : WatcherReach v v
      and_then : {t u : WatcherLife Hdl} → WatcherReach v t → WatcherStep t u → WatcherReach v u
