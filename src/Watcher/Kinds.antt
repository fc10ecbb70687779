-- ===== src/Watcher/Kinds.antt =====
-- The five kinds of watcher: their exception type, and which stop() they have. Poll and Signal also
-- hand their function numbers, made for the call.
use pyuv.Base.{zero, ◌+◌, ◌≡◌, arith, Bool, true, false, Option, none, some}
use pyuv.Base.Int.{ℤ, pos, is_neg}
use pyuv.Error.{check_error, idle_error, prepare_error, signal_error, poll_error}
use pyuv.Py.{Obj, none_obj, is, incref, decref, M, pure, ◌>>◌, check, check_open}
use pyuv.Uv.{Libuv, Call}
use pyuv.Handle.{has_pyref, handle_incref, handle_decref}
use pyuv.Watcher.{Watcher, with_refs, finish_call, start, stop, stop_clear, tp_init}

module _ (U : Libuv) where
  open U use {Hdl, is_closing}

  unfoldable pub check_start : (Obj → Bool) → Obj → Call U → Option Obj → M (Watcher Hdl) Obj
  unfolding start
  check_start = start U check_error

  unfoldable pub check_stop : Obj → Call U → M (Watcher Hdl) Obj
  unfolding stop_clear
  check_stop = stop_clear U check_error

  unfoldable pub check_init : ℤ × Hdl → Option Obj → M (Watcher Hdl) (Unit {0})
  unfolding tp_init
  check_init = tp_init U check_error

  unfoldable pub idle_start : (Obj → Bool) → Obj → Call U → Option Obj → M (Watcher Hdl) Obj
  unfolding start
  idle_start = start U idle_error

  unfoldable pub idle_stop : Obj → Call U → M (Watcher Hdl) Obj
  unfolding stop_clear
  idle_stop = stop_clear U idle_error

  unfoldable pub idle_init : ℤ × Hdl → Option Obj → M (Watcher Hdl) (Unit {0})
  unfolding tp_init
  idle_init = tp_init U idle_error

  unfoldable pub prepare_start : (Obj → Bool) → Obj → Call U → Option Obj → M (Watcher Hdl) Obj
  unfolding start
  prepare_start = start U prepare_error

  unfoldable pub prepare_stop : Obj → Call U → M (Watcher Hdl) Obj
  unfolding stop_clear
  prepare_stop = stop_clear U prepare_error

  unfoldable pub prepare_init : ℤ × Hdl → Option Obj → M (Watcher Hdl) (Unit {0})
  unfolding tp_init
  prepare_init = tp_init U prepare_error

  -- The signal's number is in `uv_start`.
  unfoldable pub signal_start : (Obj → Bool) → Obj → Call U → Option Obj → M (Watcher Hdl) Obj
  unfolding start
  signal_start = start U signal_error

  unfoldable pub signal_stop : Obj → Call U → M (Watcher Hdl) Obj
  unfolding stop
  signal_stop = stop U signal_error

  unfoldable pub signal_init : ℤ × Hdl → Option Obj → M (Watcher Hdl) (Unit {0})
  unfolding tp_init
  signal_init = tp_init U signal_error

  -- The events are in `uv_start`.
  unfoldable pub poll_start : (Obj → Bool) → Obj → Call U → Option Obj → M (Watcher Hdl) Obj
  unfolding start
  poll_start = start U poll_error

  unfoldable pub poll_stop : Obj → Call U → M (Watcher Hdl) Obj
  unfolding stop_clear
  poll_stop = stop_clear U poll_error

  -- The descriptor is in `uv_init`.
  unfoldable pub poll_init : ℤ × Hdl → Option Obj → M (Watcher Hdl) (Unit {0})
  unfolding tp_init
  poll_init = tp_init U poll_error

  -- Poll_func_fileno: `uv_fileno` gives the code and the descriptor.
  unfoldable pub poll_fileno : (Hdl → ℤ × ℤ) → M (Watcher Hdl) ℤ
  poll_fileno uv_fileno w =
      (do
        check_open w.initialized (is_closing w.uv_handle)
        let called = uv_fileno w.uv_handle
        check called.0 poll_error
        pure called.1)
        w

  -- For a Check, Idle, Prepare or Poll that was idle, and a Signal that was, where libuv accepts
  -- start() and stop(): after both, the first four have given up their function, and every count
  -- is as before; the Signal keeps its function and one reference to it.
  pub stop_kinds :
      (callable : Obj → Bool) (me : Obj) (c d : Call U) (cb : Obj) (w : Watcher Hdl)
      → w.initialized ≡ true
      → is_closing w.uv_handle ≡ false
      → has_pyref w.flags ≡ false
      → w.callback ≡ none
      → callable cb ≡ true
      → is_neg (c.run w.uv_handle).0 ≡ false
      → is_neg (d.run (c.run w.uv_handle).1).0 ≡ false
      → (o : Obj)
      → ((check_stop me d (check_start callable me c (some cb) w).1).1.refs o ≡ w.refs o)
        × ((idle_stop me d (idle_start callable me c (some cb) w).1).1.refs o ≡ w.refs o)
        × ((prepare_stop me d (prepare_start callable me c (some cb) w).1).1.refs o ≡ w.refs o)
        × ((poll_stop me d (poll_start callable me c (some cb) w).1).1.refs o ≡ w.refs o)
        × ((signal_stop me d (signal_start callable me c (some cb) w).1).1.refs o
            ≡ w.refs o + is cb o)
        × ((signal_stop me d (signal_start callable me c (some cb) w).1).1.callback ≡ some cb)
  unfolding check_stop check_start idle_stop idle_start prepare_stop prepare_start poll_stop
      poll_start signal_stop signal_start handle_incref handle_decref
  stop_kinds callable me c d cb w init opened clear idle fit one two o = (
    ground (arith, c.is_closing-run w.uv_handle),
    ground (arith, c.is_closing-run w.uv_handle),
    ground (arith, c.is_closing-run w.uv_handle),
    ground (arith, c.is_closing-run w.uv_handle),
    ground (arith, c.is_closing-run w.uv_handle),
    ground (arith, c.is_closing-run w.uv_handle),
  )

-- The objects that pyuv__poll_cb passes; `of_int` is PyInt_FromLong, which gives a new reference.
abbrev pub poll_args : (ℤ → Obj) → ℤ → ℤ → Obj × Obj
poll_args of_int (pos zero) events = (of_int events, none_obj)
poll_args of_int status events = (none_obj, of_int status)

-- pyuv__poll_cb
unfoldable pub poll_cb :
    {Hdl : Type 0}
    → (ℤ → Obj)
    → (Obj → Obj → Option Obj → Watcher Hdl → Option Obj × Watcher Hdl)
    → (Watcher Hdl → Watcher Hdl)
    → Obj
    → ℤ
    → ℤ
    → Watcher Hdl
    → Watcher Hdl
poll_cb of_int call hook me status events w =
    let a = poll_args of_int status events in
    let given = with_refs (incref a.1 (incref a.0 (incref me w.refs))) w in
    let t = finish_call hook (call a.0 a.1 w.callback given) in with_refs (decref me t.refs) t

-- pyuv__signal_cb
unfoldable pub signal_cb :
    {Hdl : Type 0}
    → (ℤ → Obj)
    → (Obj → Option Obj → Watcher Hdl → Option Obj × Watcher Hdl)
    → (Watcher Hdl → Watcher Hdl)
    → Obj
    → ℤ
    → Watcher Hdl
    → Watcher Hdl
signal_cb of_int call hook me signum w =
    let given = with_refs (incref (of_int signum) (incref me w.refs)) w in
    let t = finish_call hook (call (of_int signum) w.callback given) in
    with_refs (decref me t.refs) t

-- A function that leaves every count as it was, its result aside.
abbrev pub Neutral : {Hdl : Type 0} → Watcher Hdl → Watcher Hdl → Type 0
Neutral w t = (o : Obj) → t.refs o ≡ w.refs o

-- The two numbers that a Poll hands its function, and the one that a Signal does, are never given
-- back: after a call that itself leaves all counts alone, the count of each of these objects is
-- higher by one for each time that it was passed.
pub poll_signal_leak :
    {Hdl : Type 0} (of_int : ℤ → Obj)
    (call : Obj → Obj → Option Obj → Watcher Hdl → Option Obj × Watcher Hdl)
    (hook : Watcher Hdl → Watcher Hdl) (me : Obj) (status events : ℤ) (w : Watcher Hdl)
    → ((e n : Obj) (t : Watcher Hdl) → Neutral t (finish_call hook (call e n w.callback t)))
    → (o : Obj)
    → ((poll_cb of_int call hook me status events w).refs o
        ≡ w.refs o
          + is (poll_args of_int status events).0 o
          + is (poll_args of_int status events).1 o)
      × ((signal_cb of_int (call none_obj) hook me status w).refs o
          ≡ w.refs o + is (of_int status) o)
unfolding poll_cb signal_cb
poll_signal_leak of_int call hook me status events w calm o =
    let a = poll_args of_int status events in
    let p = with_refs (incref a.1 (incref a.0 (incref me w.refs))) w in
    let q = with_refs (incref (of_int status) (incref me w.refs)) w in
    (ground (arith, calm a.0 a.1 p o), ground (arith, calm none_obj (of_int status) q o))
