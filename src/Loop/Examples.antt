-- ===== src/Loop/Examples.antt =====
-- The default loop at address 20, in a process that has none yet.
use pyuv.Base.{
  Bool, ◌==◌, ◌+◌, List, ◌∷◌, ◌≡◌, refl, true, false, none, some, [], ltb, if◌then◌else◌,
}
use pyuv.Base.Int.{pos, negsuc}
use pyuv.Py.{Obj, Refs, is, is_ok, incref, ok}
use pyuv.Uncaught.{Info, info, filled, Interp, found, handle_uncaught_exception}
use pyuv.Loop.Methods.{UvData, null, pointer, handles_get}
use pyuv.Loop.Laws.{handles_get_lists, own_hook, Reported, own_hook_reports}
use pyuv.Loop.{Loop, Loops, new_loop, init_default, default_loop}
use pyuv.Loop.Default.{default_loop_once}

abbrev start_refs : Refs
start_refs o = if ltb o 10 then 1 else 0

abbrev start : Loops
start = record { default_loop = none; refs = start_refs; closed = [] }

abbrev made : Loop
made = record { addr = 20; uv_loop = true; is_default = true; buffer = record { in_use = false } }

first_works : (default_loop (some 20) (pos 0) none start).0 ≡ ok made
unfolding default_loop new_loop init_default
first_works = refl

default_loop_once_example :
    default_loop none (negsuc 0) (some (6, false)) (default_loop (some 20) (pos 0) none start).1 ≡ (
      ok made,
      record (default_loop (some 20) (pos 0) none start).1 {
        refs = incref 20 (default_loop (some 20) (pos 0) none start).1.refs;
      },
    )
default_loop_once_example =
    default_loop_once (some 20) none (pos 0) (negsuc 0) none (some (6, false)) made start
      first_works

abbrev three_handles : List UvData
three_handles = pointer 7 true ∷ pointer 8 false ∷ null ∷ pointer 9 true ∷ []

-- Two handles of this module, with a foreign one between them.
handles_get_lists_example :
    let t = handles_get true (λ i. true) three_handles start_refs in
    ((l : List Obj)
      → t.0 ≡ ok l
      → (l ≡ 7 ∷ 9 ∷ []) × ((o : Obj) → t.1 o ≡ start_refs o + (is 7 o + (is 9 o + 0))))
    × (is_ok t.0 ≡ false → (o : Obj) → t.1 o ≡ start_refs o)
handles_get_lists_example = handles_get_lists true (λ i. true) three_handles start_refs

abbrev thrown : Info
thrown = record { exc = 3; value = some 4; tb = none }

abbrev begin : Interp
begin = record { refs = λ o. start_refs o + info thrown o; err = some thrown; out = [] }

-- The type at address 4 is SystemExit; the exception is another one.
abbrev system_exit : Obj → Bool
system_exit o = o == 4

own_hook_reports_example :
    Reported start_refs []
      (filled thrown)
      false
      (handle_uncaught_exception system_exit (λ e. e) (own_hook system_exit) (found 9) begin)
own_hook_reports_example =
    own_hook_reports system_exit (λ e. e) 9 thrown start_refs begin refl refl (λ o. refl)
