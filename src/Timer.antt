-- ===== src/Timer.antt =====
-- src/timer.c: a watcher whose start takes two times in seconds, as doubles, and hands them to libuv
-- in whole milliseconds.
pub mod Laws
pub mod Life
pub mod Times
mod Examples
use pyuv.Base.{ℕ, ◌<◌, ◌≡◌, Bool, true, false, not, Option, none, some, if◌then◌else◌}
use pyuv.Base.Int.{ℤ}
use pyuv.Error.{type_error, value_error, runtime_error, timer_error}
use pyuv.Py.{
  Obj, none_obj, M, ok, raised, set_string, by_callee, pure, ◌>>=◌, ◌>>◌, guard, check, parse, put,
  check_open,
}
use pyuv.Uv.{Libuv, Call}
use pyuv.Handle.{handle_incref, handle_decref}
use pyuv.Watcher.{Watcher, with_uv, set_callback, over_handle, stop, tp_init, watcher_cb}

-- The machine's doubles, as far as the file uses them: `x < 0.0`, `x > 0.0 && x < 0.001`, the
-- constant 0.001, and `(uint64_t)(x * 1000)`. Times of a millisecond or more come to at least one
-- millisecond, 0.001 to exactly one, and shorter ones to none.
pub record Doubles : Type 1 where
  pub Double : Type 0
  pub negative : Double → Bool
  pub under_ms : Double → Bool
  pub is_zero : Double → Bool
  pub one_ms : Double
  pub millis : Double → ℕ
  pub millis-one_ms : millis one_ms ≡ 1
  pub millis_under : (x : Double) → under_ms x ≡ true → millis x ≡ 0
  pub millis_zero : (x : Double) → is_zero x ≡ true → millis x ≡ 0
  pub zero_exact : (x : Double) → is_zero x ≡ true → under_ms x ≡ false
  pub millis_over :
      (x : Double) → negative x ≡ false → under_ms x ≡ false → is_zero x ≡ false → 0 < millis x

-- What PyArg_ParseTupleAndKeywords stores.
pub record StartArgs (D : Doubles) : Type 0 where
  pub callback_arg : Obj
  pub timeout : D.Double
  pub repeat : D.Double

-- `if (!value) { PyErr_SetString(PyExc_TypeError, ...); return -1; }`
abbrev pub parse_value : {S A : Type 0} → Option A → M S A
parse_value none s = (raised (set_string type_error), s)
parse_value (some a) s = (ok a, s)

module _ (D : Doubles) where
  open D use {Double, negative, under_ms, one_ms, millis}

  -- `if (timeout > 0.0 && timeout < 0.001) { ... timeout = 0.001; }`; the warning is only a message,
  -- since its failure is cleared.
  unfoldable pub clamp : Double → Double
  clamp x = if under_ms x then one_ms else x

  module _ (U : Libuv) where
    open U use {Hdl, is_closing}

    -- Timer_func_start: `uv_timer_start` takes the two times.
    unfoldable pub timer_start :
        (Obj → Bool)
        → Obj
        → (uv_timer_start : ℕ → ℕ → Call U) → Option (StartArgs D)
        → M (Watcher Hdl) Obj
    timer_start callable me uv_timer_start args w =
        (do
          check_open w.initialized (is_closing w.uv_handle)
          a ← parse args
          guard (callable a.callback_arg) type_error
          guard (not (negative a.timeout)) value_error
          guard (not (negative a.repeat)) value_error
          let called =
              Call.run (uv_timer_start (millis (clamp a.timeout)) (millis (clamp a.repeat)))
                w.uv_handle
          put (with_uv called.1 w)
          check called.0 timer_error
          put (over_handle (handle_incref me) (set_callback a.callback_arg (with_uv called.1 w)))
          pure none_obj)
          w

    -- Timer_func_stop, which keeps the function, Timer_tp_init and pyuv__timer_cb
    abbrev pub timer_stop : Obj → Call U → M (Watcher Hdl) Obj
    timer_stop = stop U timer_error

    abbrev pub timer_init : ℤ × Hdl → Option Obj → M (Watcher Hdl) (Unit {0})
    timer_init = tp_init U timer_error

    abbrev pub timer_cb :
        (Option Obj → Watcher Hdl → Option Obj × Watcher Hdl)
        → (Watcher Hdl → Watcher Hdl)
        → Obj
        → Watcher Hdl
        → Watcher Hdl
    timer_cb = watcher_cb

    -- Timer_func_again
    unfoldable pub timer_again : Call U → M (Watcher Hdl) Obj
    timer_again uv_timer_again w =
        (do
          check_open w.initialized (is_closing w.uv_handle)
          let called = uv_timer_again.run w.uv_handle
          put (with_uv called.1 w)
          check called.0 timer_error
          pure none_obj)
          w

    -- Timer_repeat_set: the value is NULL when the attribute is deleted, and `none` inside where
    -- PyFloat_AsDouble raises. A time under a millisecond is not raised to one.
    unfoldable pub repeat_set :
        (uv_timer_set_repeat : ℕ → Hdl → Hdl)
        → (value : Option (Option Double)) → M (Watcher Hdl) (Unit {0})
    repeat_set uv_timer_set_repeat value w =
        (do
          guard w.initialized runtime_error
          given ← parse_value value
          repeat ← parse given
          guard (not (negative repeat)) value_error
          put (with_uv (uv_timer_set_repeat (millis repeat) w.uv_handle) w))
          w
