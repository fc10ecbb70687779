-- ===== src/Uncaught.antt =====
-- handle_uncaught_exception of src/common.c: what becomes of an exception that a user's function
-- left to the event loop.
pub mod Laws
mod Examples
use pyuv.Base.{
  ℕ, ◌+◌, ◌-◌, Bool, true, false, Option, none, some, List, [], ◌∷◌, ◌++◌, ◌==◌, if◌then◌else◌,
  get_or,
}
use pyuv.Py.{Obj, none_obj, Refs, is, held, incref, decref, xincref}

-- The three objects of an exception; value and traceback may be NULL.
pub record Info : Type 0 where
  pub exc : Obj
  pub value : Option Obj
  pub tb : Option Obj

abbrev pub info : Info → Obj → ℕ
info e o = is e.exc o + held e.value o + held e.tb o

abbrev pub info_opt : Option Info → Obj → ℕ
info_opt none o = 0
info_opt (some e) o = info e o

-- What goes to stderr: the fixed lines, and the traceback of an exception.
pub data Line : Type 0 where
  getting_excepthook in_excepthook blank_line in_callback : Line
  traceback : Option Info → Line

-- The counts, the error indicator, and stderr.
pub record Interp : Type 0 where
  pub refs : Refs
  pub err : Option Info
  pub out : List Line

abbrev pub write : Line → Interp → Interp
write l s = record s { out = s.out ++ l ∷ [] }

-- What a piece of code comes to: it goes on, or the process exits.
pub data Run (A : Type 0) : Type 0 where
  going : A → Run A
  exited : Interp → Run A

abbrev pub chain : {A B : Type 0} → Run A → (A → Run B) → Run B
chain (going a) k = k a
chain (exited s) k = exited s

-- An exception is a SystemExit: `is_exit` says so of its type.
abbrev pub exits : (is_exit : Obj → Bool) → Option Info → Bool
exits is_exit none = false
exits is_exit (some e) = is_exit e.exc

-- PyErr_PrintEx(0): a SystemExit ends the process, without a traceback; any other exception is
-- printed, and the indicator cleared. What the interpreter prints of an exit code is left out.
abbrev pub print_ex : (is_exit : Obj → Bool) → Interp → Run Interp
print_ex is_exit s =
    if exits is_exit s.err
    then exited s
    else going (record s {
      refs = λ o. s.refs o - info_opt s.err o;
      err = none;
      out = s.out ++ traceback s.err ∷ [];
    })

-- PyErr_Restore, which gives up what was there
abbrev pub restore : Info → Interp → Interp
restore e s = record s { refs = λ o. s.refs o - info_opt s.err o; err = some e }

-- PyErr_SetObject and the like inside the interpreter
abbrev pub raise : Info → Interp → Interp
raise e s = record s { refs = λ o. s.refs o + info e o; err = some e }

-- What PyObject_GetAttrString finds for "excepthook": no such attribute, another exception, or an
-- object.
pub data Lookup : Type 0 where
  missing : Info → Lookup
  failing : Info → Lookup
  found : Obj → Lookup

-- PyErr_NormalizeException, and None for what is NULL: `n` takes the place of `e`.
abbrev pub filled : Info → Info
filled n = record n { value = some (get_or n.value none_obj); tb = some (get_or n.tb none_obj) }

abbrev pub normalize : Info → Info → Interp → Interp
normalize e n s = record s { refs = λ o. s.refs o - info e o + info (filled n) o }

-- A hook, as the interpreter calls it
abbrev pub Hook : Type 0
Hook = Obj → Info → Interp → Run (Option Obj × Interp)

-- What a call comes to: a return, the end of the process, or a failed ASSERT.
pub data Handled : Type 0 where
  returned exits_process : Interp → Handled
  asserts : Handled

abbrev pub ended : Run Interp → Handled
ended (going s) = returned s
ended (exited s) = exits_process s

module _ (is_exit : Obj → Bool) where
  -- After the call of the hook with `n`: the flag exc_in_hook, and the state. Its result is given up,
  -- or its exception is printed and the first one restored.
  unfoldable pub after_hook : Info → Option Obj × Interp → Run (Bool × Interp)
  after_hook n (none, u) =
      chain (print_ex is_exit (write in_excepthook u)) (λ v. going (true, restore n v))
  after_hook n (some r, u) = going (false, record u { refs = decref r (λ o. u.refs o - info n o) })

  -- The three branches on the hook; the reference to it is given up.
  unfoldable pub run_hook :
      (Info → Info) → (call : Hook) → Lookup → Info → Interp → Run (Bool × Interp)
  unfolding after_hook
  run_hook normal call (missing a) e s = going (false, restore e (raise a s))
  run_hook normal call (failing a) e s =
      chain (print_ex is_exit (write getting_excepthook (raise a s)))
        (λ t. going (true, restore e t))
  run_hook normal call (found h) e s =
      let t = record s { refs = incref h s.refs } in
      let n = filled (normal e) in
      let called = chain (call h n (normalize e (normal e) t)) (after_hook n) in
      chain (if h == none_obj then going (false, restore e t) else called)
        (λ r. going (r.0, record r.1 { refs = decref h r.1.refs }))

  -- `if (PyErr_Occurred()) { ... }` at the end
  unfoldable pub print_pending : Bool × Interp → Run Interp
  print_pending (in_hook, s) = elim s.err [
    | none ↦ going s
    | some e ↦ print_ex is_exit (write in_callback (if in_hook then write blank_line s else s))
  ]

  -- handle_uncaught_exception
  unfoldable pub handle_uncaught_exception :
      (Info → Info) → (call : Hook) → Lookup → Interp → Handled
  unfolding run_hook print_pending
  handle_uncaught_exception normal call lookup s = elim s.err [
    | none ↦ asserts
    | some e ↦ ended (chain (run_hook normal call lookup e (record s { err = none })) print_pending)
  ]
