-- ===== src/Uncaught/Examples.antt =====
-- An exception of the type at address 3 with the value at address 4 and no traceback, and a hook at
-- address 9 that returns None.
use pyuv.Base.{
  Bool, ◌-◌, ◌==◌, false, ◌∷◌, ◌+◌, ◌≡◌, refl, none, some, [], arith, ltb, if◌then◌else◌,
}
use pyuv.Py.{Obj, Refs, is, incref}
use pyuv.Uncaught.{
  Info, info, Interp, in_callback, found, Hook, going, exits_process, handle_uncaught_exception,
  run_hook, print_pending,
}
use pyuv.Uncaught.Laws.{Sound, Accounted, handled-Account}

abbrev start_refs : Refs
start_refs o = if ltb o 10 then 1 else 0

abbrev thrown : Info
thrown = record { exc = 3; value = some 4; tb = none }

abbrev begin : Interp
begin = record { refs = λ o. start_refs o + info thrown o; err = some thrown; out = [] }

abbrev hook : Hook
hook h n t = going (some 0, record t { refs = incref 0 t.refs })

hook-Sound : Sound hook
hook-Sound h n t quiet = (λ o. ground (arith, quiet), λ r e. quiet)

-- The type at address 4 is SystemExit; the exception is another one.
abbrev system_exit : Obj → Bool
system_exit o = o == 4

handled-Account_example :
    Accounted start_refs false (handle_uncaught_exception system_exit (λ e. e) hook (found 9) begin)
handled-Account_example =
    handled-Account system_exit (λ e. e) hook (found 9) thrown start_refs begin hook-Sound refl
      (λ o. refl)

-- A SystemExit where there is no hook: the process exits, and no traceback is printed.
abbrev leaving : Interp
leaving = record begin { err = some (record { exc = 4; value = none; tb = none }) }

system_exit_leaves :
    handle_uncaught_exception system_exit (λ e. e) hook (found 0) leaving
    ≡ exits_process (record leaving {
      refs = λ o. leaving.refs o + is 0 o - 0 - is 0 o;
      out = in_callback ∷ [];
    })
unfolding handle_uncaught_exception run_hook print_pending
system_exit_leaves = refl
