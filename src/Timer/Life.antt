-- ===== src/Timer/Life.antt =====
-- A timer (src/timer.c) as a watcher: its methods are steps of a watcher's life.
use pyuv.Base.{
  ℕ, ◌<◌, ◌≡◌, refl, Bool, false, ◌||◌, ◌⊎◌, inl, inr, Bool-cases, Option, none, some, arith,
}
use pyuv.Base.Int.{ℤ}
use pyuv.Error.{timer_error}
use pyuv.Py.{Obj, Refs}
use pyuv.Uv.{Libuv, Call}
use pyuv.Watcher.{Watcher, with_uv}
use pyuv.Watcher.Lifecycle.{
  there, WatcherActs, none_yet, then_one, start_it, stop_it, init_it, call_it,
}
use pyuv.Timer.{
  Doubles, StartArgs, clamp, timer_start, timer_stop, timer_init, timer_again, repeat_set,
}
use pyuv.Timer.Laws.{refused_start, timer_start-start}

module _ (D : Doubles) (U : Libuv) (me : Obj) (ext : Refs) (w : Watcher U.Hdl) where
  open U use {Hdl, is_closing}

  -- What Python code can bring a watcher to.
  abbrev pub Leads : Watcher Hdl → Type 0
  Leads v = WatcherActs U me timer_error (there w ext) (there v ext)

  stays : (v : Watcher Hdl) → v ≡ w → Leads v
  stays v e = rw e none_yet

  called :
      (c : Call U) (v : Watcher Hdl) → 0 < ext me → v ≡ with_uv (c.run w.uv_handle).1 w → Leads v
  called c v h e = rw e (then_one none_yet (call_it w ext c h))

  timer_start-Leads :
      (callable : Obj → Bool) (c : ℕ → ℕ → Call U) (args : Option (StartArgs D))
      → 0 < ext me
      → Leads (timer_start D U callable me c args w).1
  timer_start-Leads callable c none h = stays _ (refused_start D U me callable c none w refl)
  timer_start-Leads callable c (some a) h =
      elim (Bool-cases (D.negative a.timeout || D.negative a.repeat)) [
        | inl bad ↦ stays _ (refused_start D U me callable c (some a) w bad)
        | inr good ↦ rw (timer_start-start D U me callable c a w good) (
            then_one none_yet (
              start_it w ext callable
                (c (D.millis (clamp D a.timeout)) (D.millis (clamp D a.repeat)))
                (some a.callback_arg) h))
      ]

  timer_again-cases :
      (c : Call U)
      → ((timer_again D U c w).1 ≡ w) ⊎ ((timer_again D U c w).1 ≡ with_uv (c.run w.uv_handle).1 w)
  unfolding timer_again
  timer_again-cases c = ground arith

  repeat_set-cases :
      (c : ℕ → Call U) (x : D.Double)
      → let v = (repeat_set D U (λ n h. (Call.run (c n) h).1) (some (some x)) w).1 in
        (v ≡ w) ⊎ (v ≡ with_uv (Call.run (c (D.millis x)) w.uv_handle).1 w)
  unfolding repeat_set
  repeat_set-cases c x = ground arith

  repeat_set-Leads :
      (c : ℕ → Call U) (value : Option (Option D.Double))
      → 0 < ext me
      → Leads (repeat_set D U (λ n h. (Call.run (c n) h).1) value w).1
  unfolding repeat_set
  repeat_set-Leads c none h = stays _ (ground arith)
  repeat_set-Leads c (some none) h = stays _ (ground arith)
  repeat_set-Leads c (some (some x)) h = elim (repeat_set-cases c x) [
    | inl e ↦ stays _ e
    | inr e ↦ called (c (D.millis x)) _ h e
  ]

  -- Each method of a timer that somebody holds, on every branch and whatever libuv answers, leaves
  -- it as it is or is one of the acts of a watcher.
  pub timer_methods-Leads :
      (callable : Obj → Bool) (c : ℕ → ℕ → Call U) (args : Option (StartArgs D)) (d : Call U)
      (err : ℤ) (hdl : Hdl) (loop : Option Obj) (set_repeat : ℕ → Call U)
      (value : Option (Option D.Double))
      → 0 < ext me
      → is_closing hdl ≡ false
      → Leads (timer_start D U callable me c args w).1
        × Leads (timer_stop D U me d w).1
        × Leads (timer_again D U d w).1
        × Leads (timer_init D U (err, hdl) loop w).1
        × Leads (repeat_set D U (λ n h. (Call.run (set_repeat n) h).1) value w).1
  timer_methods-Leads callable c args d err hdl loop set_repeat value h opened = (
    timer_start-Leads callable c args h,
    then_one none_yet (stop_it w ext d h),
    elim (timer_again-cases d) [ inl e ↦ stays _ e | inr e ↦ called d _ h e ],
    then_one none_yet (init_it w ext err hdl loop h opened),
    repeat_set-Leads set_repeat value h,
  )
