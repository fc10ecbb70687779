-- ===== src/Loop/Methods.antt =====
-- The methods of src/loop.c that call libuv once, its list of handles, its __dict__, and excepthook.
use pyuv.Base.{
  ℕ, suc, ◌+◌, ◌-◌, Bool, true, false, not, ◌&&◌, ◌||◌, Option, none, some, List, [], ◌∷◌, ◌++◌,
  ◌==◌, if◌then◌else◌,
}
use pyuv.Base.Int.{ℤ, pos, negsuc, is_zero}
use pyuv.Error.{value_error, type_error}
use pyuv.Py.{
  Obj, none_obj, Refs, incref, xdecref, Result, M, ok, raised, by_callee, set_string, guard, parse,
  put, ◌>>=◌, ◌>>◌,
}
use pyuv.Stream.Writes.{counts}
use pyuv.Uncaught.{Info, info, Interp, in_callback, restore, Run, going, chain, print_ex, write}

-- UV_RUN_DEFAULT, UV_RUN_ONCE and UV_RUN_NOWAIT
abbrev pub run_mode : ℤ → Bool
run_mode (pos n) = n == 0 || n == 1 || n == 2
run_mode (negsuc n) = false

-- Loop_func_run: the mode, where it is given, is an int, or none where the arguments do not parse;
-- `uv_run` is libuv's part, with all the callbacks that it makes.
unfoldable pub loop_run : {S : Type 0} → (uv_run : ℤ → S → ℤ × S) → Option (Option ℤ) → M S Bool
loop_run uv_run args s =
    (do
      a ← parse args
      let mode : ℤ = elim a [ none ↦ pos 0 | some m ↦ m ]
      guard (run_mode mode) value_error
      λ t. (ok (not (is_zero (uv_run mode t).0)), (uv_run mode t).1))
      s

-- What a uv_handle_t of the loop has in `data`: NULL, or a pointer, and whether what it points to
-- has the magic number of a Handle.
pub data UvData : Type 0 where
  null : UvData
  pointer : Obj → (magic : Bool) → UvData

-- The list, the counts, and whether an exception is set.
pub record Walk : Type 0 where
  pub handles : List Obj
  pub refs : Refs
  pub err : Bool

-- handles_walk_cb: `appended` says whether PyList_Append succeeds.
unfoldable pub handles_walk_cb : (appended : Bool) → UvData → Walk → Walk
handles_walk_cb appended null w = w
handles_walk_cb appended (pointer obj magic) w =
    if magic && not w.err
    then (if appended
        then record w { handles = w.handles ++ obj ∷ []; refs = incref obj w.refs }
        else record w { err = true })
    else w

-- uv_walk, from the handle `i` of the loop on
unfoldable pub uv_walk : (appended : ℕ → Bool) → ℕ → List UvData → Walk → Walk
unfolding handles_walk_cb
uv_walk appended i [] w = w
uv_walk appended i (h ∷ hs) w = uv_walk appended (suc i) hs (handles_walk_cb (appended i) h w)

-- Loop_handles_get: the list where there is one; destroying it gives up what it holds.
unfoldable pub handles_get :
    (list_made : Bool) → (appended : ℕ → Bool) → List UvData → M Refs (List Obj)
unfolding uv_walk
handles_get list_made appended hs r =
    if list_made
    then (let w = uv_walk appended 0 hs (record { handles = []; refs = r; err = false }) in
        if w.err
        then (raised by_callee, λ o. w.refs o - counts w.handles o)
        else (ok w.handles, w.refs))
    else (raised by_callee, r)

-- The dictionary of a loop, and the counts.
pub record LoopDict : Type 0 where
  pub dict : Option Obj
  pub refs : Refs

-- Loop_dict_get: `new` is what PyDict_New returns.
unfoldable pub loop_dict_get : (new : Option Obj) → M LoopDict Obj
loop_dict_get new s = elim s.dict [
  | some d ↦ (ok d, record s { refs = incref d s.refs })
  | none ↦ elim new [
    | some d ↦ (ok d, record { dict = some d; refs = incref d (incref d s.refs) })
    | none ↦ (raised by_callee, s)
  ]
]

-- Loop_dict_set: the value is NULL where the attribute is deleted.
unfoldable pub loop_dict_set : (is_dict : Obj → Bool) → Option Obj → M LoopDict (Unit {0})
loop_dict_set is_dict none s = (raised (set_string type_error), s)
loop_dict_set is_dict (some d) s =
    (do
      guard (is_dict d) type_error
      put (record { dict = some d; refs = xdecref s.dict (incref d s.refs) }))
      s

-- Loop_tp_clear
unfoldable pub loop_clear : LoopDict → LoopDict
loop_clear s = record { dict = none; refs = xdecref s.dict s.refs }

-- Loop_func_excepthook: the three objects, where the arguments parse.
unfoldable pub excepthook :
    (is_exit : Obj → Bool) → Option Info → Interp → Run (Result Obj × Interp)
excepthook is_exit none s = going (raised by_callee, s)
excepthook is_exit (some e) s =
    let t = restore e (record s { refs = λ o. s.refs o + info e o }) in
    chain (print_ex is_exit (write in_callback t))
      (λ u. going (ok none_obj, record u { refs = incref none_obj u.refs }))
