-- ===== src/Util/Checker.antt =====
-- SignalChecker of src/util.c: a poll handle on a descriptor that the interpreter writes to when a
-- signal arrives. Its callback drains the descriptor and lets the interpreter look for signals.
use pyuv.Base.{ℕ, zero, suc, Bool, true, false, not, ◌||◌, ◌==◌, Option, none, some, if◌then◌else◌}
use pyuv.Base.Int.{ℤ, is_zero}
use pyuv.Error.{uv_error, runtime_error}
use pyuv.Py.{
  Obj, none_obj, decref, Result, M, ok, aborted, pure, ◌>>=◌, ◌>>◌, guard, check, parse, put,
  check_open,
}
use pyuv.Uv.{Libuv, Call}
use pyuv.Handle.{Handle, handle_incref, handle_decref, initialize_handle}

-- What recv() comes to: a number of bytes, or -1 with errno EINTR, EAGAIN or EWOULDBLOCK, or another.
pub data Received : Type 0 where
  got : ℕ → Received
  interrupted again failed : Received

-- r != -1 || (r == -1 && GOT_EAGAIN)
abbrev pub drained : Received → Bool
drained (got n) = true
drained interrupted = false
drained again = true
drained failed = false

abbrev pub is_interrupted : Received → Bool
is_interrupted (got n) = false
is_interrupted interrupted = true
is_interrupted again = false
is_interrupted failed = false

-- pyuv__drain_poll_fd from its call `i` of recv() on: whether it returns 0, and how often it called
-- recv(). `none` means that the fuel ran out.
unfoldable pub drain_poll_fd : ℕ → (recv : ℕ → Received) → ℕ → Option (Bool × ℕ)
drain_poll_fd zero recv i = none
drain_poll_fd (suc fuel) recv i = elim (is_interrupted (recv i)) [
  | true ↦ drain_poll_fd fuel recv (suc i)
  | false ↦ some (drained (recv i), suc i)
]

-- struct SignalChecker
pub record SignalChecker (Hdl : Type 0) : Type 0 where
  pub handle : Handle Hdl
  pub open handle use *
  pub fd : ℤ

abbrev pub over_handle :
    {Hdl : Type 0} → (Handle Hdl → Handle Hdl) → SignalChecker Hdl → SignalChecker Hdl
over_handle f c = record c { handle = f c.handle }

abbrev pub with_uv : {Hdl : Type 0} → Hdl → SignalChecker Hdl → SignalChecker Hdl
with_uv h = over_handle (λ s. record s { uv_handle = h })

-- UV_READABLE
abbrev pub readable : ℕ
readable = 1

-- What PyErr_CheckSignals leaves: whether an exception is set, and the state.
abbrev pub after_signals :
    {Hdl : Type 0}
    → (SignalChecker Hdl → SignalChecker Hdl)
    → Bool × SignalChecker Hdl
    → SignalChecker Hdl
after_signals hook (true, c) = hook c
after_signals hook (false, c) = c

module _ (U : Libuv) (me : Obj) where
  open U use {Hdl, is_closing, take}

  -- SignalChecker_func_start
  unfoldable pub checker_start : (uv_poll_start : Call U) → M (SignalChecker Hdl) Obj
  checker_start uv_poll_start c =
      (do
        check_open c.initialized (is_closing c.uv_handle)
        let called = uv_poll_start.run c.uv_handle
        put (with_uv called.1 c)
        check called.0 uv_error
        put (over_handle (handle_incref me) (with_uv called.1 c))
        pure none_obj)
        c

  -- SignalChecker_func_stop
  unfoldable pub checker_stop : (uv_poll_stop : Call U) → M (SignalChecker Hdl) Obj
  checker_stop uv_poll_stop c =
      (do
        check_open c.initialized (is_closing c.uv_handle)
        let called = uv_poll_stop.run c.uv_handle
        put (with_uv called.1 c)
        check called.0 uv_error
        put (over_handle (handle_decref me) (with_uv called.1 c))
        pure none_obj)
        c

  -- SignalChecker_tp_init: the arguments are the loop and the descriptor.
  unfoldable pub checker_init :
      (uv_poll_init : ℤ × Hdl) → Option (Obj × ℤ) → M (SignalChecker Hdl) (Unit {0})
  checker_init uv_poll_init args c =
      (do
        guard (not c.initialized) runtime_error
        a ← parse args
        put (with_uv uv_poll_init.1 c)
        check uv_poll_init.0 uv_error
        put (record (over_handle (initialize_handle a.0) (with_uv uv_poll_init.1 c)) { fd = a.1 }))
        c

  -- The rest of pyuv__check_signals, once the descriptor was drained or not.
  unfoldable pub look_for_signals :
      (uv_poll_stop : Call U)
      → (signals : SignalChecker Hdl → Bool × SignalChecker Hdl)
      → (hook : SignalChecker Hdl → SignalChecker Hdl) → Bool
      → SignalChecker Hdl
      → SignalChecker Hdl
  look_for_signals uv_poll_stop signals hook emptied c =
      let d = if emptied then c else with_uv (uv_poll_stop.run c.uv_handle).1 c in
      over_handle (λ s. record s { refs = decref me s.refs }) (after_signals hook (signals d))

  -- pyuv__check_signals; `none` means that the fuel for the descriptor ran out.
  unfoldable pub check_signals :
      ℕ
      → (recv : ℕ → Received) → (uv_poll_stop : Call U)
      → (signals : SignalChecker Hdl → Bool × SignalChecker Hdl)
      → (hook : SignalChecker Hdl → SignalChecker Hdl) → (status : ℤ) → (events : ℕ)
      → SignalChecker Hdl
      → Option (Result (Unit {0}) × SignalChecker Hdl)
  unfolding drain_poll_fd look_for_signals
  check_signals fuel recv uv_poll_stop signals hook status events c =
      if not (is_zero status) || events == readable
      then elim (drain_poll_fd fuel recv 0) [
        | none ↦ none
        | some r ↦ some (ok tt, look_for_signals uv_poll_stop signals hook r.0 c)
      ]
      else some (aborted, c)
