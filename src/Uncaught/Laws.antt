-- ===== src/Uncaught/Laws.antt =====
-- The references and the output of handle_uncaught_exception (src/common.c).
use pyuv.Base.{
  ℕ, ◌+◌, ◌-◌, ◌≡◌, refl, Bool, false, Option, none, some, List, arith, true, ◌||◌, if◌then◌else◌,
  ◌==◌, inl, inr, Bool-cases,
}
use mathlib.Core.Path.{}
use pyuv.Py.{Obj, none_obj, Refs, is, held, incref, decref}
use pyuv.Uncaught.{
  Info, info, info_opt, Line, Interp, Lookup, missing, failing, found, filled, normalize,
  after_hook, run_hook, print_pending, handle_uncaught_exception, Run, going, exited, chain, Hook,
  exits, Handled, returned, exits_process, asserts, ended,
}

-- What the interpreter keeps to of a call that begins with no exception, where it comes back: its
-- result or its exception is new, and nothing else changes. What it prints is left open.
abbrev pub SoundAt : Interp → Run (Option Obj × Interp) → Type 0
SoundAt t (exited u) = Unit {0}
SoundAt t (going (p, u)) =
    ((o : Obj) → u.refs o ≡ t.refs o + held p o + info_opt u.err o)
    × ((r : Obj) → p ≡ some r → u.err ≡ none)

abbrev pub Sound : Hook → Type 0
Sound call = (h : Obj) (n : Info) (t : Interp) → t.err ≡ none → SoundAt t (call h n t)

-- The counts are those of the others and of the pending exception.
abbrev pub Account : Refs → Interp → Type 0
Account ext s = (o : Obj) → s.refs o ≡ ext o + info_opt s.err o

-- An exception that the hook's call ends with is a SystemExit, or the call has ended the process.
abbrev pub call_exits : (Obj → Bool) → Info → Run (Option Obj × Interp) → Bool
call_exits is_exit n (exited u) = true
call_exits is_exit n (going (none, u)) = exits is_exit u.err || is_exit n.exc
call_exits is_exit n (going (some r, u)) = false

-- A SystemExit is printed, or the hook ends the process.
abbrev pub ends : (Obj → Bool) → (Info → Info) → Hook → Lookup → Info → Interp → Bool
ends is_exit normal call (missing a) e s = is_exit e.exc
ends is_exit normal call (failing a) e s = is_exit a.exc || is_exit e.exc
ends is_exit normal call (found h) e s =
    let n = filled (normal e) in
    if h == none_obj
    then is_exit e.exc
    else call_exits is_exit n
        (call h n (normalize e (normal e) (record s { refs = incref h s.refs; err = none })))

-- The end of handle_uncaught_exception, given whether the process is to end.
abbrev pub Accounted : Refs → Bool → Handled → Type 0
Accounted ext b (returned s) = (b ≡ false) × (s.err ≡ none) × ((o : Obj) → s.refs o ≡ ext o)
Accounted ext b (exits_process s) = b ≡ true
Accounted ext b asserts = ⊥

no_pending : (x ext i j : ℕ) → x ≡ ext + i + j + 0 → x - i - j ≡ ext + 0
no_pending x ext i j h = omega arith

balanced :
    (r ext e h n p i u : ℕ) → r ≡ ext + e → u ≡ r + h - e + n + p + i → u ≡ ext + h + n + p + i
balanced r ext e h n p i u a b = omega (arith, a, b)

hook_dropped : (x ext h i : ℕ) → x ≡ ext + h + i → x - h ≡ ext + i
hook_dropped x ext h i a = omega (arith, a)

module _ (is_exit : Obj → Bool) where
  print_pending-Accounted :
      (b : Bool) (ext refs : Refs) (err : Option Info) (out : List Line)
      → ((o : Obj) → refs o ≡ ext o + info_opt err o)
      → Accounted ext
          (exits is_exit err)
          (ended (print_pending is_exit (b, record { refs = refs; err = err; out = out })))
  unfolding print_pending
  print_pending-Accounted b ext refs none out v = (refl, refl, λ o. ground (arith, v o))
  print_pending-Accounted true ext refs (some e) out v = elim (Bool-cases (is_exit e.exc)) [
    | inl ending ↦ rw ending refl
    | inr usual ↦ rw usual (refl, refl, λ o. ground (arith, v o))
  ]
  print_pending-Accounted false ext refs (some e) out v = elim (Bool-cases (is_exit e.exc)) [
    | inl ending ↦ rw ending refl
    | inr usual ↦ rw usual (refl, refl, λ o. ground (arith, v o))
  ]

  -- The rest of the function once the hook `h` was called with `n`.
  abbrev rest : Obj → Info → Run (Option Obj × Interp) → Handled
  rest h n r = ended (
      chain
        (chain (chain r (after_hook is_exit n))
          (λ x. going (x.0, record x.1 { refs = decref h x.1.refs })))
        (print_pending is_exit))

  hook_called :
      (h : Obj) (n : Info) (t : Interp) (ext : Refs) (r : Run (Option Obj × Interp))
      → SoundAt t r
      → ((o : Obj) → t.refs o ≡ ext o + is h o + info n o)
      → Accounted ext (call_exits is_exit n r) (rest h n r)
  unfolding after_hook print_pending
  hook_called h n t ext (exited u) sound v = refl
  hook_called h n t ext (going (some r, u)) (a, quiet) v =
      rw (quiet r refl) (refl, quiet r refl, λ o. ground (arith, v o, a o, quiet r refl))
  hook_called h n t ext (going (none, u)) (a, quiet) v = elim (Bool-cases (exits is_exit u.err)) [
    | inl ending ↦ rw ending refl
    | inr usual ↦ rw usual (
        print_pending-Accounted true ext (λ o. u.refs o - info_opt u.err o - 0 - is h o) (some n) _
          (λ o. omega (arith, v o, a o)))
  ]

  by_lookup :
      (normal : Info → Info) (call : Hook) (lookup : Lookup) (e : Info) (ext refs : Refs)
      (out : List Line)
      → Sound call
      → ((o : Obj) → refs o ≡ ext o + info e o)
      → let s : Interp = record { refs = refs; err = some e; out = out } in
        Accounted ext
          (ends is_exit normal call lookup e s)
          (handle_uncaught_exception is_exit normal call lookup s)
  unfolding handle_uncaught_exception run_hook
  by_lookup normal call (missing a) e ext refs out sound v =
      print_pending-Accounted false ext _ (some e) _ (λ o. omega (arith, v o))
  by_lookup normal call (failing a) e ext refs out sound v = elim (Bool-cases (is_exit a.exc)) [
    | inl ending ↦ rw ending refl
    | inr usual ↦ rw usual (print_pending-Accounted true ext _ (some e) _ (λ o. omega (arith, v o)))
  ]
  by_lookup normal call (found h) e ext refs out sound v = elim (Bool-cases (h == none_obj)) [
    | inl is_none ↦
        rw is_none (print_pending-Accounted false ext _ (some e) _ (λ o. omega (arith, v o)))
    | inr hook ↦
        let n = filled (normal e) in
        let t : Interp =
          normalize e (normal e) (record { refs = incref h refs; err = none; out = out }) in
        rw hook (hook_called h n t ext (call h n t) (sound h n t refl) (λ o. omega (arith, v o)))
  ]

  -- If an exception is pending and every other reference is accounted for, then, whatever the lookup
  -- of the hook finds and whatever the hook does as a call can: no ASSERT fails; the process exits
  -- exactly where the hook has ended it or an exception to be printed is a SystemExit; and in every
  -- other case the function returns, no exception is pending, and the references to the exception's
  -- objects are given up.
  pub handled-Account :
      (normal : Info → Info) (call : Hook) (lookup : Lookup) (e : Info) (ext : Refs) (s : Interp)
      → Sound call
      → s.err ≡ some e
      → Account ext s
      → Accounted ext
          (ends is_exit normal call lookup e s)
          (handle_uncaught_exception is_exit normal call lookup s)
  unfolding handle_uncaught_exception run_hook
  handled-Account normal call lookup e ext s sound raised v =
      rw raised
        (by_lookup normal call lookup e ext s.refs s.out sound (λ o. ground (arith, v o, raised)))
