-- ===== src/Loop.antt =====
-- src/loop.c: how loops are made and destroyed, and the one default loop of the process.
pub mod Default
pub mod Methods
pub mod Laws
mod Examples
use pyuv.Base.{
  ℕ, ◌+◌, ◌-◌, Bool, true, false, not, Option, none, some, List, [], ◌∷◌, ◌==◌, if◌then◌else◌,
}
use pyuv.Base.Int.{ℤ, is_neg, gtb}
use pyuv.Error.{type_error, runtime_error, value_error}
use pyuv.Py.{
  Obj, Refs, incref, decref, Result, M, ok, raised, aborted, set_string, by_callee, guard, parse,
  ◌>>=◌, ◌>>◌, pure,
}
use pyuv.Buffer.{Buffer}

-- struct Loop: `uv_loop` says that the pointer is set, and `addr` is the object itself.
pub record Loop : Type 0 where
  pub addr : Obj
  pub uv_loop : Bool
  pub is_default : Bool
  pub buffer : Buffer

-- The file's static default_loop, the counts, and the loops that uv_loop_close was called on.
pub record Loops : Type 0 where
  pub default_loop : Option Loop
  pub refs : Refs
  pub closed : List Obj

-- new_loop: `args_given` says that there are arguments; without memory for the object, or when libuv
-- refuses, there is none. The object that was made for nothing has no uv_loop to close.
unfoldable pub new_loop :
    (args_given : Bool)
    → (alloc : Option Obj) → (uv_loop_init : ℤ) → (is_default : Bool) → M Loops Loop
new_loop args_given alloc uv_loop_init is_default s =
    (do
      guard (not args_given) type_error
      obj ← parse alloc
      guard (not (is_neg uv_loop_init)) runtime_error
      λ t. (
        ok (record {
          addr = obj;
          uv_loop = true;
          is_default = is_default;
          buffer = record { in_use = false };
        }),
        record t { refs = incref obj t.refs },
      ))
      s

-- Py_DECREF(loop) and Loop_tp_dealloc: the last reference closes libuv's loop.
unfoldable pub drop_loop : Loop → Loops → Loops
drop_loop l s =
    let t = record s { refs = decref l.addr s.refs } in
    if t.refs l.addr == 0
    then if l.uv_loop then record t { closed = l.addr ∷ t.closed } else t
    else t

-- The __init__ of a subclass, where there is one: the tuple PyTuple_New(0) that is passed, with a
-- reference that is not given up, and whether it succeeds. A failure destroys the loop.
unfoldable pub init_default : (tp_init : Option (Obj × Bool)) → Loop → M Loops Loop
unfolding drop_loop
init_default none l s = (ok l, record s { refs = incref l.addr s.refs })
init_default (some (args, true)) l s =
    (ok l, record s { refs = incref l.addr (incref args s.refs) })
init_default (some (args, false)) l s = (
  raised by_callee,
  record (drop_loop l (record s { refs = incref args s.refs })) { default_loop = none },
)

abbrev pub made_default :
    (tp_init : Option (Obj × Bool)) → Result Loop × Loops → Result Loop × Loops
made_default tp_init (ok l, s) = init_default tp_init l (record s { default_loop = some l })
made_default tp_init (raised e, s) = (raised e, s)
made_default tp_init (aborted, s) = (aborted, s)

-- Loop_func_default_loop
unfoldable pub default_loop :
    (alloc : Option Obj) → (uv_loop_init : ℤ) → (tp_init : Option (Obj × Bool)) → M Loops Loop
unfolding new_loop init_default
default_loop alloc uv_loop_init tp_init s = elim s.default_loop [
  | some l ↦ (ok l, record s { refs = incref l.addr s.refs })
  | none ↦ made_default tp_init (new_loop false alloc uv_loop_init true s)
]
