-- ===== src/Watcher/Files.antt =====
-- FSEvent and FSPoll of src/fs.c: watchers of a path.
use pyuv.Base.{
  Bool-cases, inl, inr, ℕ, ◌+◌, ◌*◌, ◌/◌, ◌%◌, ◌<◌, ◌≡◌, arith, Bool, true, false, not, Option,
  none, some, if◌then◌else◌,
}
use pyuv.Base.Int.{ℤ, is_neg}
use pyuv.Error.{fs_event_error, fs_poll_error, type_error, value_error}
use pyuv.Py.{
  Obj, none_obj, Refs, is, incref, decref, M, pure, ◌>>=◌, ◌>>◌, guard, check, check_open, parse,
  put,
}
use pyuv.Uv.{Libuv, Call}
use pyuv.Handle.{handle_incref}
use pyuv.Watcher.{
  Watcher, with_uv, with_refs, set_callback, over_handle, finish_call, start, stop_clear, tp_init,
}
use pyuv.Watcher.Kinds.{Neutral}
use pyuv.Watcher.Ownership.{WatcherInv, start-Inv}

-- The interval of FSPoll.start, a double, by its sign and its milliseconds, rounded down.
pub record Interval : Type 0 where
  pub negative : Bool
  pub millis : ℕ

-- (unsigned int)interval*1000: the cast comes first, and the product is one of 32 bits.
unfoldable pub poll_interval : Interval → ℕ
poll_interval i = i.millis / 1000 * 1000 % 4294967296

module _ (U : Libuv) where
  open U use {Hdl, is_closing}

  -- The path and the flags are in `uv_start`.
  unfoldable pub fs_event_start : (Obj → Bool) → Obj → Call U → Option Obj → M (Watcher Hdl) Obj
  unfolding start
  fs_event_start = start U fs_event_error

  unfoldable pub fs_event_stop : Obj → Call U → M (Watcher Hdl) Obj
  unfolding stop_clear
  fs_event_stop = stop_clear U fs_event_error

  unfoldable pub fs_event_init : ℤ × Hdl → Option Obj → M (Watcher Hdl) (Unit {0})
  unfolding tp_init
  fs_event_init = tp_init U fs_event_error

  -- FSPoll_func_start
  unfoldable pub fs_poll_start :
      (Obj → Bool) → Obj → (ℕ → Call U) → Option (Interval × Obj) → M (Watcher Hdl) Obj
  fs_poll_start callable me uv_start args w =
      (do
        check_open w.initialized (is_closing w.uv_handle)
        a ← parse args
        guard (callable a.1) type_error
        guard (not a.0.negative) value_error
        let called = Call.run (uv_start (poll_interval a.0)) w.uv_handle
        put (with_uv called.1 w)
        check called.0 fs_poll_error
        put (over_handle (handle_incref me) (set_callback a.1 (with_uv called.1 w)))
        pure none_obj)
        w

  unfoldable pub fs_poll_stop : Obj → Call U → M (Watcher Hdl) Obj
  unfolding stop_clear
  fs_poll_stop = stop_clear U fs_poll_error

  unfoldable pub fs_poll_init : ℤ × Hdl → Option Obj → M (Watcher Hdl) (Unit {0})
  unfolding tp_init
  fs_poll_init = tp_init U fs_poll_error

  unread_start :
      (callable : Obj → Bool) (me : Obj) (c : ℕ → Call U) (w : Watcher Hdl)
      → (fs_poll_start callable me c none w).1 ≡ w
  unfolding fs_poll_start
  unread_start callable me c w = ground arith

  refused_start :
      (callable : Obj → Bool) (me : Obj) (c : ℕ → Call U) (i : Interval) (cb : Obj)
      (w : Watcher Hdl)
      → i.negative ≡ true
      → (fs_poll_start callable me c (some (i, cb)) w).1 ≡ w
  unfolding fs_poll_start
  refused_start callable me c i cb w bad = ground (arith, bad)

  fs_poll_start-start :
      (callable : Obj → Bool) (me : Obj) (c : ℕ → Call U) (i : Interval) (cb : Obj)
      (w : Watcher Hdl)
      → i.negative ≡ false
      → fs_poll_start callable me c (some (i, cb)) w
        ≡ start U fs_poll_error callable me (c (poll_interval i)) (some cb) w
  unfolding fs_poll_start start
  fs_poll_start-start callable me c i cb w good = ground (arith, good)

  -- start() of an FSPoll that was not released keeps the account of references on every branch.
  pub fs_poll_start-Inv :
      (callable : Obj → Bool) (me : Obj) (c : ℕ → Call U) (args : Option (Interval × Obj))
      (ext : Refs) (w : Watcher Hdl)
      → w.freed ≡ false
      → WatcherInv U me ext w
      → WatcherInv U me ext (fs_poll_start callable me c args w).1
  fs_poll_start-Inv callable me c none ext w live v = rw (unread_start callable me c w) v
  fs_poll_start-Inv callable me c (some (i, cb)) ext w live v = elim (Bool-cases i.negative) [
    | inl bad ↦ rw (refused_start callable me c i cb w bad) v
    | inr good ↦
        rw (fs_poll_start-start callable me c i cb w good)
          (start-Inv U me fs_poll_error callable (c (poll_interval i)) (some cb) ext w live v)
  ]

-- What a callback hands the user's function: the file's name or the state of the file before, the
-- events or the state after, and the error; each with a new reference.
pub record Given : Type 0 where
  pub first : Obj
  pub second : Obj
  pub error : Obj

abbrev pub give : Given → Refs → Refs
give g r = incref g.second (incref g.error (incref g.first r))

-- pyuv__fsevent_cb
unfoldable pub fs_event_cb :
    {Hdl : Type 0}
    → (Given → Option Obj → Watcher Hdl → Option Obj × Watcher Hdl)
    → (Watcher Hdl → Watcher Hdl)
    → Obj
    → Given
    → Watcher Hdl
    → Watcher Hdl
fs_event_cb call hook me g w =
    let t = finish_call hook (call g w.callback (with_refs (give g (incref me w.refs)) w)) in
    with_refs (decref me (decref g.error (decref g.first (decref g.second t.refs)))) t

-- The objects of pyuv__fspoll_cb: `number` is the error's, `before` and `after` are what
-- PyStructSequence_New returns, None where it fails.
abbrev pub poll_given : ℤ → (number before after : Obj) → Given
poll_given status number before after =
    if is_neg status
    then record { first = none_obj; second = none_obj; error = number }
    else record { first = before; second = after; error = none_obj }

-- pyuv__fspoll_cb
unfoldable pub fs_poll_cb :
    {Hdl : Type 0}
    → (Given → Option Obj → Watcher Hdl → Option Obj × Watcher Hdl)
    → (Watcher Hdl → Watcher Hdl)
    → (me : Obj) → ℤ
    → (number before after : Obj) → Watcher Hdl
    → Watcher Hdl
fs_poll_cb call hook me status number before after w =
    let g = poll_given status number before after in
    let t = finish_call hook (call g w.callback (with_refs (give g (incref me w.refs)) w)) in
    with_refs (decref me t.refs) t

-- For a user's function that leaves all counts alone: after the callback of an FSEvent every count
-- is as before; after that of an FSPoll the three objects that it passed have one reference more for
-- each time that they were passed.
pub fs_poll_leaks :
    {Hdl : Type 0} (call : Given → Option Obj → Watcher Hdl → Option Obj × Watcher Hdl)
    (hook : Watcher Hdl → Watcher Hdl) (me : Obj) (g : Given) (status : ℤ)
    (number before after : Obj) (w : Watcher Hdl)
    → ((h : Given) (t : Watcher Hdl) → Neutral t (finish_call hook (call h w.callback t)))
    → (o : Obj)
    → let h = poll_given status number before after in
      ((fs_event_cb call hook me g w).refs o ≡ w.refs o)
      × ((fs_poll_cb call hook me status number before after w).refs o
          ≡ w.refs o + is h.first o + is h.second o + is h.error o)
unfolding fs_event_cb fs_poll_cb
fs_poll_leaks call hook me g status number before after w calm o =
    let h = poll_given status number before after in
    (
      omega (arith, calm g (with_refs (give g (incref me w.refs)) w) o),
      omega (arith, calm h (with_refs (give h (incref me w.refs)) w) o),
    )

-- The milliseconds that start() of an FSPoll hands libuv are those of the whole seconds: below 2^32
-- milliseconds the rest of the last second is lost, so an interval under a second comes to 0.
pub poll_interval_rounds :
    (i : Interval)
    → i.millis < 4294967296
    → (poll_interval i + i.millis % 1000 ≡ i.millis) × (i.millis < 1000 → poll_interval i ≡ 0)
unfolding poll_interval
poll_interval_rounds i small = (omega arith, omega arith)
