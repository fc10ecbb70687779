-- ===== src/Timer/Times.antt =====
-- The milliseconds that src/timer.c gives libuv.
use pyuv.Base.{ℕ, ◌<◌, ◌≡◌, Bool, true, false, not, ◌&&◌, some, arith, inl, inr, Bool-cases}
use pyuv.Base.Int.{is_neg}
use pyuv.Py.{Obj, ok, is_ok}
use pyuv.Uv.{Libuv, Call}
use pyuv.Handle.{handle_incref}
use pyuv.Watcher.{Watcher, with_uv}
use pyuv.Timer.{Doubles, StartArgs, clamp, timer_start, repeat_set}

module _ (D : Doubles) where
  open D use {Double, negative, under_ms, is_zero, one_ms, millis}

  -- For a time that is not negative, start() gives libuv no milliseconds for 0 and at least one for
  -- any other.
  pub millis-clamp :
      (x : Double)
      → negative x ≡ false
      → (is_zero x ≡ true → millis (clamp D x) ≡ 0) × (is_zero x ≡ false → 0 < millis (clamp D x))
  unfolding clamp
  millis-clamp x pos_x = elim (Bool-cases (under_ms x)) [
    | inl short ↦
        rw short
          (λ z. ground (arith, D.zero_exact x z, short), λ z. ground (arith, D.millis-one_ms))
    | inr long ↦ rw long (D.millis_zero x, D.millis_over x pos_x long)
  ]

  module _ (U : Libuv) where
    open U use {Hdl, is_closing}

    -- With arguments that parse, start() returns normally exactly when the timer is initialized and
    -- not closing, the function is callable, neither time is negative, and libuv accepts the two
    -- times, each raised to a millisecond where it is positive and shorter; then the libuv handle is
    -- the one that libuv left, and the function is kept.
    pub timer_start_outcome :
        (callable : Obj → Bool) (me : Obj) (c : ℕ → ℕ → Call U) (a : StartArgs D) (w : Watcher Hdl)
        → let r = timer_start D U callable me c (some a) w in
          let called =
            (c (millis (clamp D a.timeout)) (millis (clamp D a.repeat))).run w.uv_handle in
          (is_ok r.0 ≡ (
            w.initialized
            && not (is_closing w.uv_handle)
            && callable a.callback_arg
            && not (negative a.timeout)
            && not (negative a.repeat)
            && not (is_neg called.0)))
          × (is_ok r.0 ≡ true → (r.1.uv_handle ≡ called.1) × (r.1.callback ≡ some a.callback_arg))
    unfolding timer_start handle_incref
    timer_start_outcome callable me c a w = (ground arith, ground arith)

    -- For an initialized timer and a positive time under a millisecond: start() hands libuv one
    -- millisecond for it, but setting it as the repeat value hands libuv 0, which stops the repeating.
    pub repeat_truncated :
        (x : Double) (set_repeat : ℕ → Hdl → Hdl) (w : Watcher Hdl)
        → w.initialized ≡ true
        → negative x ≡ false
        → under_ms x ≡ true
        → (millis (clamp D x) ≡ 1)
          × (repeat_set D U set_repeat (some (some x)) w
              ≡ (ok tt, with_uv (set_repeat 0 w.uv_handle) w))
    unfolding clamp repeat_set
    repeat_truncated x set_repeat w ready pos_x short =
        (rw short D.millis-one_ms, rw (ready, pos_x, D.millis_under x short))
