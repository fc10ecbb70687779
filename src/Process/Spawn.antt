-- ===== src/Process/Spawn.antt =====
-- The Process objects of src/process.c: spawn, the exit callback, and the release of an object.
use pyuv.Base.{ℕ, Bool, true, false, not, ◌&&◌, ◌||◌, Option, none, some, ◌==◌, if◌then◌else◌}
use pyuv.Base.Int.{ℤ, is_neg}
use pyuv.Error.{type_error, runtime_error, process_error}
use pyuv.Py.{
  Obj, none_obj, Refs, incref, decref, xincref, xdecref, uv, by_callee, Result, ok, raised, aborted,
  M, pure, ◌>>=◌, ◌>>◌, guard, check, check_open, parse,
}
use pyuv.Uv.{Libuv}
use pyuv.Handle.{Handle, tp_new, tp_clear, tp_dealloc, initialize_handle, func_close}
use pyuv.Process.Options.{Options, no_options, Plan, prepare, cleanup}

-- struct Process: the base class, the function and the argument `stdio`.
pub record Process (Hdl : Type 0) : Type 0 where
  pub handle : Handle Hdl
  pub open handle use *
  pub on_exit_cb : Option Obj
  pub stdio : Option Obj

abbrev pub over_handle : {Hdl : Type 0} → (Handle Hdl → Handle Hdl) → Process Hdl → Process Hdl
over_handle f p = record p { handle = f p.handle }

abbrev pub with_refs : {Hdl : Type 0} → Refs → Process Hdl → Process Hdl
with_refs r p = over_handle (λ h. record h { refs = r }) p

-- HANDLE(self)->initialized = b
abbrev pub set_initialized : {Hdl : Type 0} → Bool → Process Hdl → Process Hdl
set_initialized b p = over_handle (λ h. record h { initialized = b }) p

-- Process_tp_new
unfoldable pub process_new : {Hdl : Type 0} → Hdl → Refs → Process Hdl
unfolding tp_new
process_new h refs = record { handle = tp_new h refs; on_exit_cb = none; stdio = none }

-- Process_tp_clear
unfoldable pub process_clear : {Hdl : Type 0} → Process Hdl → Process Hdl
unfolding tp_clear
process_clear p = record {
  handle = tp_clear (record p.handle { refs = xdecref p.stdio (xdecref p.on_exit_cb p.refs) });
  on_exit_cb = none;
  stdio = none;
}

-- The arguments of spawn as they are stored. `callback` is `none` where exit_callback was left out:
-- the variable is then read without a value. `known_args` and `known_stdio` are the tests of the
-- types of `args` and `stdio`.
pub record SpawnArgs : Type 0 where
  pub loop_arg : Obj
  pub callback : Option Obj
  pub known_args : Bool
  pub stdio_arg : Option Obj
  pub known_stdio : Bool
  pub plan : Plan

-- `callback != Py_None && !PyCallable_Check(callback)`
abbrev pub callback_guard : {S : Type 0} → (Obj → Bool) → Option Obj → M S Obj
callback_guard callable none s = (aborted, s)
callback_guard callable (some cb) s =
    (do guard (cb == none_obj || callable cb) type_error; pure cb) s

-- What a call of a Python function leaves: its result is released, or `hook` has run.
abbrev pub finish_call :
    {Hdl : Type 0} → (Process Hdl → Process Hdl) → Option Obj × Process Hdl → Process Hdl
finish_call hook (some r, p) = with_refs (decref r p.refs) p
finish_call hook (none, p) = hook p

-- pyuv__process_exit_cb; `status` and `signal` are the two numbers, made for the call.
unfoldable pub process_exit_cb :
    {Hdl : Type 0}
    → (Obj → Process Hdl → Option Obj × Process Hdl)
    → (Process Hdl → Process Hdl)
    → (status signal me : Obj) → M (Process Hdl) (Unit {0})
process_exit_cb call hook status signal me p = elim p.on_exit_cb [
  | none ↦ (aborted, p)
  | some cb ↦
      let made = with_refs (incref signal (incref status p.refs)) p in
      let t =
        if cb == none_obj
        then made
        else let u = finish_call hook (call cb made) in
          with_refs (decref signal (decref status u.refs)) u in
      (ok tt, with_refs (decref me t.refs) t)
]

module _ (U : Libuv) where
  open U use {Hdl, is_closing}

  -- Handle_tp_dealloc of a Process
  unfoldable pub process_dealloc : Obj → Process Hdl → Process Hdl
  unfolding process_clear tp_dealloc
  process_dealloc me p =
      if p.initialized && not (is_closing p.uv_handle)
      then over_handle (tp_dealloc U me) p
      else over_handle (λ h. record h { freed = true }) (process_clear p)

  -- Py_DECREF(self)
  unfoldable pub process_decref : Obj → Process Hdl → Process Hdl
  unfolding process_dealloc
  process_decref me p =
      let t = with_refs (decref me p.refs) p in if t.refs me == 0 then process_dealloc me t else t

  -- Behind uv_spawn: the label `error`, or what a running process holds.
  unfoldable pub spawned : Obj → Obj → Option Obj → M (Process Hdl) (Unit {0})
  spawned me callback stdio p = (
    ok tt,
    record p {
      handle = record p.handle {
        refs =
            incref me
              (xdecref p.stdio (xincref stdio (xdecref p.on_exit_cb (incref callback p.refs))));
      };
      on_exit_cb = some callback;
      stdio = stdio;
    },
  )

  -- The call of uv_spawn, and what follows.
  unfoldable pub spawn_call : Obj → ℤ × Hdl → Obj → Option Obj → M (Process Hdl) (Unit {0})
  unfolding spawned process_decref
  spawn_call me called callback stdio p =
      let q = over_handle (λ h. record h { uv_handle = called.1; initialized = true }) p in
      if is_neg called.0
      then (raised (uv process_error called.0), process_decref me q)
      else spawned me callback stdio q

  unfoldable pub after_prepare :
      Obj → ℤ × Hdl → Obj → Option Obj → Result (Unit {0}) → M (Process Hdl) (Unit {0})
  unfolding process_decref spawn_call
  after_prepare me called callback stdio (ok r) p = spawn_call me called callback stdio p
  after_prepare me called callback stdio (raised e) p = (raised e, process_decref me p)
  after_prepare me called callback stdio aborted p = (aborted, p)

  -- Process_func_spawn from Process_tp_new on: the result, the object, and the blocks that are left.
  -- `uv_spawn` gives the code and the handle.
  unfoldable pub spawn_process :
      (me callback : Obj)
      → (uv_spawn : Options → ℤ × Hdl) → (blocks : ℕ) → SpawnArgs
      → Process Hdl
      → (Result (Unit {0}) × Process Hdl) × Option ℕ
  unfolding prepare cleanup initialize_handle spawn_call after_prepare
  spawn_process me callback uv_spawn blocks a p =
      let begun = set_initialized false (over_handle (initialize_handle a.loop_arg) p) in
      let r = prepare a.plan (no_options blocks) in
      (after_prepare me (uv_spawn r.1) callback a.stdio_arg r.0 begun, cleanup r.1)

  -- What spawn has made when it returns: nothing where it stopped at an argument.
  pub record Spawned : Type 0 where
    pub result : Result (Unit {0})
    pub process : Option (Process Hdl)
    pub blocks : Option ℕ

  abbrev pub spawn_args : (Obj → Bool) → Option SpawnArgs → M (Unit {0}) (SpawnArgs × Obj)
  spawn_args callable args = do
    a ← parse args
    cb ← callback_guard callable a.callback
    guard a.known_args type_error
    guard a.known_stdio type_error
    pure (a, cb)

  abbrev pub nothing_made : ℕ → Result (Unit {0}) → Spawned
  nothing_made n r = record { result = r; process = none; blocks = some n }

  unfoldable pub spawn_new :
      (me : Obj)
      → (zeroed : Option (Process Hdl)) → (Options → ℤ × Hdl)
      → ℕ
      → Result (SpawnArgs × Obj)
      → Spawned
  unfolding spawn_process
  spawn_new me zeroed uv_spawn n (raised e) = nothing_made n (raised e)
  spawn_new me zeroed uv_spawn n aborted = nothing_made n aborted
  spawn_new me none uv_spawn n (ok r) = nothing_made n (raised by_callee)
  spawn_new me (some p) uv_spawn n (ok (a, cb)) =
      let s = spawn_process me cb uv_spawn n a p in
      record { result = s.0.0; process = some s.0.1; blocks = s.1 }

  -- Process_func_spawn; `zeroed` is what Process_tp_new returns.
  unfoldable pub func_spawn :
      (Obj → Bool)
      → (me : Obj) → (zeroed : Option (Process Hdl)) → (Options → ℤ × Hdl)
      → ℕ
      → Option SpawnArgs
      → Spawned
  unfolding spawn_process spawn_new
  func_spawn callable me zeroed uv_spawn n args =
      spawn_new me zeroed uv_spawn n (spawn_args callable args tt).0

  -- Process_func_kill: `uv_kill` is uv_process_kill with the signal's number.
  unfoldable pub func_kill : Option (Hdl → ℤ) → M (Process Hdl) Obj
  func_kill args p =
      (do
        check_open p.initialized (is_closing p.uv_handle)
        uv_kill ← parse args
        check (uv_kill p.uv_handle) process_error
        pure none_obj)
        p

  abbrev pub lift_handle :
      {A : Type 0} → Process Hdl → Result A × Handle Hdl → Result A × Process Hdl
  lift_handle p (r, h) = (r, record p { handle = h })

  -- Process_func_close
  unfoldable pub process_close : (Obj → Bool) → Obj → Option (Option Obj) → M (Process Hdl) Obj
  unfolding func_close
  process_close callable me args p =
      (do
        guard p.initialized runtime_error
        λ q. lift_handle q (func_close U callable me args q.handle))
        p

  -- Process_pid_get: None, or libuv's number.
  unfoldable pub pid_get : (Hdl → ℤ) → Process Hdl → Option ℤ
  pid_get pid p = if p.initialized then some (pid p.uv_handle) else none
