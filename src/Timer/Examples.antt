-- ===== src/Timer/Examples.antt =====
-- A timer at address 7 of the loop at address 5, over five times.
use pyuv.Base.{ℕ, ◌<◌, ◌≡◌, refl, Bool, true, false, none, arith, ltb, if◌then◌else◌}
use pyuv.Py.{Refs}
use pyuv.Uv.{phases, Phase, opened}
use pyuv.Handle.{tp_new, initialize_handle}
use pyuv.Watcher.{Watcher}
use pyuv.Watcher.Ownership.{WatcherInv}
use pyuv.Timer.{Doubles, StartArgs}

data Time : Type 0 where
  minus_one zero_seconds half_a_ms one_ms_time ten_seconds : Time

abbrev is_minus : Time → Bool
is_minus minus_one = true
is_minus t = false

abbrev is_short : Time → Bool
is_short half_a_ms = true
is_short t = false

abbrev is_nothing : Time → Bool
is_nothing zero_seconds = true
is_nothing t = false

-- The conversion of a negative double to uint64_t is not defined; no call reaches it.
abbrev to_millis : Time → ℕ
to_millis minus_one = 0
to_millis zero_seconds = 0
to_millis half_a_ms = 0
to_millis one_ms_time = 1
to_millis ten_seconds = 10000

law_under : (x : Time) → is_short x ≡ true → to_millis x ≡ 0
law_under x h = ground (arith, h)

law_zero : (x : Time) → is_nothing x ≡ true → to_millis x ≡ 0
law_zero x h = ground (arith, h)

law_exact : (x : Time) → is_nothing x ≡ true → is_short x ≡ false
law_exact x h = ground (arith, h)

law_over :
    (x : Time) → is_minus x ≡ false → is_short x ≡ false → is_nothing x ≡ false → 0 < to_millis x
law_over x m s z = ground (arith, m, s, z)

abbrev times : Doubles
times = record {
  Double = Time;
  negative = is_minus;
  under_ms = is_short;
  is_zero = is_nothing;
  one_ms = one_ms_time;
  millis = to_millis;
  millis-one_ms = refl;
  millis_under = law_under;
  millis_zero = law_zero;
  zero_exact = law_exact;
  millis_over = law_over;
}

abbrev start_refs : Refs
start_refs o = if ltb o 10 then 1 else 0

abbrev idle_timer : Watcher Phase
idle_timer = record { handle = initialize_handle 5 (tp_new opened start_refs); callback = none }

idle_accounted : WatcherInv phases 7 start_refs idle_timer
unfolding initialize_handle tp_new
idle_accounted = record {
  counted = λ o. ground arith;
  blank = ground arith;
  unclosed = ground arith;
  closable = ground arith;
  looped = ground arith;
  released = ground arith;
}

live : idle_timer.freed ≡ false
unfolding initialize_handle tp_new
live = refl

ready : idle_timer.initialized ≡ true
unfolding initialize_handle tp_new
ready = refl

abbrev args : StartArgs times
args = record { callback_arg = 9; timeout = half_a_ms; repeat = ten_seconds }
