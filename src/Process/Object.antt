-- ===== src/Process/Object.antt =====
-- The account of references of a Process object of src/process.c.
use pyuv.Base.{
  ℕ, ◌+◌, ◌<◌, ◌≡◌, ◌≢◌, refl, arith, Bool, true, false, Option, some, if◌then◌else◌, ◌==◌,
  Bool-cases, inl, inr,
}
use pyuv.Base.Int.{ℤ, pos, negsuc}
use pyuv.Py.{Obj, none_obj, Refs, is, is_self, held, incref, Result, ok, raised, aborted, is_ok}
use pyuv.Uv.{Libuv, handle_dealloc_close_cb}
use pyuv.Handle.{initialize_handle, tp_dealloc}
use pyuv.Handle.Ownership.{owed}
use pyuv.Process.Options.{Options, no_options, prepare}
use pyuv.Process.Stages.{StreamsReady, prepare-Good}
use pyuv.Process.Spawn.{
  Process, process_new, process_clear, SpawnArgs, process_exit_cb, finish_call, with_refs,
  over_handle, set_initialized, process_dealloc, process_decref, spawned, spawn_call, after_prepare,
  spawn_process,
}

module _ (U : Libuv) (me : Obj) where
  open U use {Hdl, is_closing, pending}

  -- The count of every object, with the one that a pending close callback gives up:
  -- `ext` counts what other code holds, `running` says that the exit callback is still to come.
  abbrev pub Counted : (ext : Refs) (running : Bool) → Process Hdl → Type 0
  Counted ext running p =
      (o : Obj)
      → p.refs o
        ≡ ext o
          + held p.on_close_cb o
          + held p.loop o
          + held p.dict o
          + held p.on_exit_cb o
          + held p.stdio o
          + owed (pending p.uv_handle) me o
          + (if running then is me o else 0)

  -- The object that the label `error` leaves, for other code that holds `ext`.
  pub record GivenUp (ext : Refs) (called : Bool) (p : Process Hdl) : Type 0 where
    pub gone : called ≡ false → (p.freed ≡ true) × ((o : Obj) → p.refs o ≡ ext o)
    pub closing :
        called ≡ true
        → (p.freed ≡ false)
          × (pending p.uv_handle ≡ some handle_dealloc_close_cb)
          × ((o : Obj) → p.refs o ≡ ext o + held p.loop o + is me o)

  -- The object before uv_spawn: other code held `refs`, and has the new object's one reference.
  abbrev pub begun : Hdl → Obj → Refs → Process Hdl
  begun h loop refs =
      set_initialized false (over_handle (initialize_handle loop) (process_new h (incref me refs)))

  other_loop : (loop : Obj) (refs : Refs) → refs me ≡ 0 → 0 < refs loop → is loop me ≡ 0
  unfolding is
  other_loop loop refs fresh live = ground (arith, fresh, live)

  early-GivenUp :
      (h : Hdl) (loop : Obj) (refs : Refs)
      → refs me ≡ 0
      → 0 < refs loop
      → GivenUp refs false (process_decref U me (begun h loop refs))
  unfolding process_decref process_dealloc process_clear process_new initialize_handle
  early-GivenUp h loop refs fresh live = record {
    gone = λ e. (
      ground (arith, is_self me, other_loop loop refs fresh live, fresh),
      λ o. ground (arith, is_self me, other_loop loop refs fresh live, fresh),
    );
    closing = λ e. absurd (cc);
  }

  -- The object behind uv_spawn.
  abbrev pub called_object : Hdl → Process Hdl → Process Hdl
  called_object h p = over_handle (λ s. record s { uv_handle = h; initialized = true }) p

  late-GivenUp :
      (h h' : Hdl) (loop : Obj) (refs : Refs)
      → refs me ≡ 0
      → 0 < refs loop
      → is_closing h' ≡ false
      → GivenUp refs true (process_decref U me (called_object h' (begun h loop refs)))
  unfolding process_decref process_dealloc process_clear process_new initialize_handle tp_dealloc
  late-GivenUp h h' loop refs fresh live opened = record {
    gone = λ e. absurd (cc);
    closing = λ e. (
      ground (arith, is_self me, other_loop loop refs fresh live, fresh),
      ground (
        arith,
        is_self me,
        other_loop loop refs fresh live,
        fresh,
        U.pending-close handle_dealloc_close_cb h',
      ),
      λ o. ground (arith, is_self me, other_loop loop refs fresh live, fresh),
    );
  }

  pub spawned-Counted :
      (h h' : Hdl) (loop callback : Obj) (stdio : Option Obj) (refs : Refs)
      → is_closing h' ≡ false
      → Counted
          (incref me refs)
          true
          (spawned U me callback stdio (called_object h' (begun h loop refs))).1
  unfolding spawned process_new initialize_handle
  spawned-Counted h h' loop callback stdio refs opened o = ground (arith, U.pending_open h')

  -- What spawn leaves when it returns `r`.
  pub record Outcome (refs : Refs) (called : Bool) (cb : Obj) (s : Result (Unit {0}) × Process Hdl)
      : Type 0 where
    pub returns : s.0 ≢ aborted
    pub success :
        s.0 ≡ ok tt
        → (s.1.initialized ≡ true) × (s.1.on_exit_cb ≡ some cb) × Counted (incref me refs) true s.1
    pub failure : is_ok s.0 ≡ false → GivenUp refs called s.1

  call-Outcome :
      (code : ℤ) (h h' : Hdl) (loop callback : Obj) (stdio : Option Obj) (refs : Refs)
      → refs me ≡ 0
      → 0 < refs loop
      → is_closing h' ≡ false
      → Outcome refs true callback (spawn_call U me (code, h') callback stdio (begun h loop refs))
  unfolding spawned spawn_call
  call-Outcome (negsuc n) h h' loop callback stdio refs fresh live opened = record {
    returns = λ e. cc;
    success = λ e. absurd (cc);
    failure = λ e. late-GivenUp h h' loop refs fresh live opened;
  }
  call-Outcome (pos n) h h' loop callback stdio refs fresh live opened = record {
    returns = λ e. cc;
    success = λ e. (refl, refl, spawned-Counted h h' loop callback stdio refs opened);
    failure = λ e. absurd (cc);
  }

  after-Outcome :
      (r : Result (Unit {0})) (code : ℤ) (h h' : Hdl) (loop callback : Obj) (stdio : Option Obj)
      (refs : Refs)
      → r ≢ aborted
      → refs me ≡ 0
      → 0 < refs loop
      → is_closing h' ≡ false
      → Outcome refs
          (is_ok r)
          callback
          (after_prepare U me (code, h') callback stdio r (begun h loop refs))
  unfolding after_prepare
  after-Outcome (ok tt) code h h' loop callback stdio refs fine fresh live opened =
      call-Outcome code h h' loop callback stdio refs fresh live opened
  after-Outcome (raised e) code h h' loop callback stdio refs fine fresh live opened = record {
    returns = λ e. cc;
    success = λ e. absurd (cc);
    failure = λ e. early-GivenUp h loop refs fresh live;
  }
  after-Outcome aborted code h h' loop callback stdio refs fine fresh live opened =
      absurd (fine refl)

  -- For a new object of which nobody knows, a loop that somebody holds, a plan whose StdIO objects
  -- have the streams that their flags call for, and a uv_spawn that leaves the handle open: spawn
  -- does not abort; when it succeeds, the object is initialized and keeps the function, and every
  -- count is what other code held, the reference that is returned, those of the object's fields,
  -- and one for the exit callback; when it fails before uv_spawn, the object is released and every
  -- count is as before; when uv_spawn fails, libuv has the object's close callback to call, and
  -- every count is as before but for that callback's reference and the object's one to its loop.
  pub spawn_process-Outcome :
      (callback : Obj) (uv_spawn : Options → ℤ × Hdl) (n : ℕ) (a : SpawnArgs) (h : Hdl)
      (refs : Refs)
      → refs me ≡ 0
      → 0 < refs a.loop_arg
      → StreamsReady a.plan.streams
      → ((o : Options) → is_closing (uv_spawn o).1 ≡ false)
      → Outcome refs
          (is_ok (prepare a.plan (no_options n)).0)
          callback
          (spawn_process U me callback uv_spawn n a (process_new h (incref me refs))).0
  unfolding spawn_process
  spawn_process-Outcome callback uv_spawn n a h refs fresh live ready opened =
      let r = prepare a.plan (no_options n) in
      after-Outcome r.0 (uv_spawn r.1).0 h (uv_spawn r.1).1 a.loop_arg callback a.stdio_arg refs
        (prepare-Good n a.plan ready).defined fresh live (opened r.1)

  -- The exit callback of a running process, where the user's function keeps the account and the
  -- object keeps its function: it does not abort; the reference of spawn is given up, and so are the
  -- two numbers made for the call, except where the function is None.
  pub exit_cb-Counted :
      (call : Obj → Process Hdl → Option Obj × Process Hdl) (hook : Process Hdl → Process Hdl)
      (status signal cb : Obj) (ext ext' : Refs) (p : Process Hdl)
      → p.on_exit_cb ≡ some cb
      → Counted ext true p
      → ((q : Process Hdl)
          → Counted (incref signal (incref status ext)) true q
          → Counted (incref signal (incref status ext')) true (finish_call hook (call cb q)))
      → ((process_exit_cb call hook status signal me p).0 ≡ ok tt)
        × Counted
            (if cb == none_obj then incref signal (incref status ext) else ext')
            false
            (process_exit_cb call hook status signal me p).1
  unfolding process_exit_cb
  exit_cb-Counted call hook status signal cb ext ext' p has v user =
      let made = with_refs (incref signal (incref status p.refs)) p in
      let begun_c : Counted (incref signal (incref status ext)) true made =
        λ o. ground (arith, v o) in
      rw has (elim (Bool-cases (cb == none_obj)) [
        | inl unset ↦ rw unset (refl, λ o. ground (arith, begun_c o))
        | inr there ↦ rw there (refl, λ o. ground (arith, user made begun_c o))
      ])
