-- ===== src/Timer/Laws.antt =====
-- The references of a timer (src/timer.c), with the account of Watcher/Ownership.antt.
use pyuv.Base.{
  ℕ, ◌≡◌, refl, Bool, true, false, ◌||◌, inl, inr, Bool-cases, Option, none, some, arith,
}
use pyuv.Base.Int.{ℤ}
use pyuv.Error.{timer_error}
use pyuv.Py.{Obj, Refs}
use pyuv.Uv.{Libuv, Call}
use pyuv.Watcher.{Watcher, start}
use pyuv.Watcher.Ownership.{WatcherInv, start-Inv, stop-Inv, tp_init-Inv}
use pyuv.Timer.{
  Doubles, StartArgs, clamp, timer_start, timer_stop, timer_init, timer_again, repeat_set,
}

module _ (D : Doubles) (U : Libuv) (me : Obj) where
  open U use {Hdl, is_closing, pending}

  -- The arguments are missing, or a time is negative.
  abbrev pub unfit : Option (StartArgs D) → Bool
  unfit none = true
  unfit (some a) = D.negative a.timeout || D.negative a.repeat

  pub refused_start :
      (callable : Obj → Bool) (c : ℕ → ℕ → Call U) (args : Option (StartArgs D)) (w : Watcher Hdl)
      → unfit args ≡ true
      → (timer_start D U callable me c args w).1 ≡ w
  unfolding timer_start
  refused_start callable c none w h = ground arith
  refused_start callable c (some a) w h = ground (arith, h)

  pub timer_start-start :
      (callable : Obj → Bool) (c : ℕ → ℕ → Call U) (a : StartArgs D) (w : Watcher Hdl)
      → (D.negative a.timeout || D.negative a.repeat) ≡ false
      → timer_start D U callable me c (some a) w
        ≡ start U timer_error callable me
            (c (D.millis (clamp D a.timeout)) (D.millis (clamp D a.repeat)))
            (some a.callback_arg)
            w
  unfolding timer_start start
  timer_start-start callable c a w h = ground (arith, h)

  timer_start-Inv :
      (callable : Obj → Bool) (c : ℕ → ℕ → Call U) (args : Option (StartArgs D)) (ext : Refs)
      (w : Watcher Hdl)
      → w.freed ≡ false
      → WatcherInv U me ext w
      → WatcherInv U me ext (timer_start D U callable me c args w).1
  timer_start-Inv callable c none ext w live v = rw (refused_start callable c none w refl) v
  timer_start-Inv callable c (some a) ext w live v =
      elim (Bool-cases (D.negative a.timeout || D.negative a.repeat)) [
        | inl bad ↦ rw (refused_start callable c (some a) w bad) v
        | inr good ↦ rw (timer_start-start callable c a w good) (
            start-Inv U me timer_error callable
              (c (D.millis (clamp D a.timeout)) (D.millis (clamp D a.repeat))) (some a.callback_arg)
              ext w live v)
      ]

  timer_again-Inv :
      (c : Call U) (ext : Refs) (w : Watcher Hdl)
      → w.freed ≡ false
      → WatcherInv U me ext w
      → WatcherInv U me ext (timer_again D U c w).1
  unfolding timer_again
  timer_again-Inv c ext w live v = record {
    counted = λ o. ground (arith, v.counted o, c.pending-run w.uv_handle);
    blank = ground (arith, v.blank, c.is_closing-run w.uv_handle);
    unclosed = ground (arith, v.unclosed, c.is_closing-run w.uv_handle);
    closable = ground (arith, v.closable, c.pending-run w.uv_handle);
    looped = ground (arith, v.looped);
    released = ground (arith, v.released);
  }

  repeat_set-Inv :
      (set_repeat : ℕ → Hdl → Hdl) (value : Option (Option D.Double)) (ext : Refs) (w : Watcher Hdl)
      → ((n : ℕ) (h : Hdl)
          → (is_closing (set_repeat n h) ≡ is_closing h) × (pending (set_repeat n h) ≡ pending h))
      → w.freed ≡ false
      → WatcherInv U me ext w
      → WatcherInv U me ext (repeat_set D U set_repeat value w).1
  unfolding repeat_set
  repeat_set-Inv set_repeat none ext w open_kept live v = record {
    counted = λ o. ground (arith, v.counted o);
    blank = ground (arith, v.blank);
    unclosed = ground (arith, v.unclosed);
    closable = ground (arith, v.closable);
    looped = ground (arith, v.looped);
    released = ground (arith, v.released);
  }
  repeat_set-Inv set_repeat (some none) ext w open_kept live v = record {
    counted = λ o. ground (arith, v.counted o);
    blank = ground (arith, v.blank);
    unclosed = ground (arith, v.unclosed);
    closable = ground (arith, v.closable);
    looped = ground (arith, v.looped);
    released = ground (arith, v.released);
  }
  repeat_set-Inv set_repeat (some (some x)) ext w open_kept live v =
      let kept = open_kept (D.millis x) w.uv_handle in
      record {
        counted = λ o. ground (arith, v.counted o, kept.1);
        blank = ground (arith, v.blank, kept.0);
        unclosed = ground (arith, v.unclosed, kept.0);
        closable = ground (arith, v.closable, kept.1);
        looped = ground (arith, v.looped);
        released = ground (arith, v.released, kept.0, kept.1);
      }

  -- For every timer whose references are accounted for and that was not released, whatever libuv
  -- answers: start(), stop(), again(), __init__ and setting the repeat value keep the account, on
  -- every branch.
  pub timers-WatcherInv :
      (callable : Obj → Bool) (c : ℕ → ℕ → Call U) (args : Option (StartArgs D)) (d : Call U)
      (err : ℤ) (h : Hdl) (loop : Option Obj) (set_repeat : ℕ → Hdl → Hdl)
      (value : Option (Option D.Double)) (ext : Refs) (w : Watcher Hdl)
      → w.freed ≡ false
      → is_closing h ≡ false
      → ((n : ℕ) (g : Hdl)
          → (is_closing (set_repeat n g) ≡ is_closing g) × (pending (set_repeat n g) ≡ pending g))
      → WatcherInv U me ext w
      → WatcherInv U me ext (timer_start D U callable me c args w).1
        × WatcherInv U me ext (timer_stop D U me d w).1
        × WatcherInv U me ext (timer_again D U d w).1
        × WatcherInv U me ext (timer_init D U (err, h) loop w).1
        × WatcherInv U me ext (repeat_set D U set_repeat value w).1
  timers-WatcherInv callable c args d err h loop set_repeat value ext w live opened open_kept v = (
    timer_start-Inv callable c args ext w live v,
    stop-Inv U me timer_error d ext w live v,
    timer_again-Inv d ext w live v,
    tp_init-Inv U me timer_error err h loop ext w live opened v,
    repeat_set-Inv set_repeat value ext w open_kept live v,
  )
