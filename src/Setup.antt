-- ===== src/Setup.antt =====
-- src/pyuv.c: init_pyuv under Python 3, which makes the main module, its submodules and types, with
-- PyUVModule_AddObject and PyUVModule_AddType of src/common.c.
pub mod Steps
pub mod Laws
mod Examples
use pyuv.Base.{Bool, true, false, not, ◌||◌, Option, none, some, List, [], ◌∷◌, ◌==◌, if◌then◌else◌}
use pyuv.Py.{Obj, Refs, incref, decref}

-- The counts, the objects in the main module's dictionary and in that of sys.modules, and whether
-- an exception is left.
pub record Setup : Type 0 where
  pub refs : Refs
  pub attrs : List Obj
  pub modules : List Obj
  pub err : Bool

-- A submodule: what its init function returns, and whether it can be put into the main module and
-- into sys.modules.
pub record Submodule : Type 0 where
  pub made : Option Obj
  pub added : Bool
  pub listed : Bool

-- A type, and whether PyType_Ready succeeds and the main module takes it.
pub record TypeEntry : Type 0 where
  pub type_object : Obj
  pub ready : Bool
  pub added : Bool

-- PyUVModule_AddObject, whose result the callers ignore; PyModule_AddObject takes the reference
-- where it succeeds.
unfoldable pub add_object : (added : Bool) → Obj → Setup → Setup
add_object true m s = record s { refs = incref m s.refs; attrs = m ∷ s.attrs }
add_object false m s = record s { refs = decref m (incref m s.refs); err = true }

-- PyUVModule_AddType, whose result the callers ignore too
unfoldable pub add_type : TypeEntry → Setup → Setup
unfolding add_object
add_type t s = if t.ready then add_object t.added t.type_object s else record s { err = true }

-- PyDict_SetItemString(PyImport_GetModuleDict(), name, m)
unfoldable pub set_module : (listed : Bool) → Obj → Setup → Setup
set_module true m s = record s { refs = incref m s.refs; modules = m ∷ s.modules }
set_module false m s = record s { err = true }

-- A submodule's part of init_pyuv, for the object that its init function has made with a reference.
unfoldable pub add_submodule : Submodule → Obj → Setup → Setup
unfolding add_object set_module
add_submodule b m s =
    let t = set_module b.listed m (add_object b.added m (record s { refs = incref m s.refs })) in
    record t { refs = decref m t.refs }

-- What a step comes to: on with the next, `goto fail`, or `return NULL`.
pub data Step : Type 0 where
  next fails leaves : Setup → Step

unfoldable pub add_submodules : List Submodule → Setup → Step
unfolding add_submodule
add_submodules [] s = next s
add_submodules (b ∷ bs) s = elim b.made [
  | none ↦ fails s
  | some m ↦ add_submodules bs (add_submodule b m s)
]

-- PyType_Ready of the four types of requests
unfoldable pub ready_requests : List Bool → Setup → Step
ready_requests [] s = next s
ready_requests (r ∷ rs) s = if r then ready_requests rs s else leaves s

unfoldable pub add_types : List TypeEntry → Setup → Setup
unfolding add_type
add_types [] s = s
add_types (t ∷ ts) s = add_types ts (add_type t s)

-- PyModule_AddIntMacro for each constant and PyModule_AddStringConstant; their objects are left out.
unfoldable pub add_constants : List Bool → Setup → Setup
add_constants [] s = s
add_constants (c ∷ cs) s = add_constants cs (record s { err = s.err || not c })

abbrev pub drop_all : List Obj → Refs → Refs
drop_all [] f = f
drop_all (o ∷ os) f = drop_all os (decref o f)

-- Py_DECREF(pyuv), with what the module holds where that was its last reference.
unfoldable pub drop_main : Obj → Setup → Setup
drop_main pyuv s =
    let f = decref pyuv s.refs in
    if f pyuv == 0
    then record s { refs = drop_all s.attrs f; attrs = [] }
    else record s { refs = f }

-- What the import comes to: the module, NULL, or a crash.
pub data Imported : Type 0 where
  imported refused : Setup → Imported
  crashed : Imported

unfoldable pub finish : Obj → List TypeEntry → List Bool → Step → Imported
unfolding add_types add_constants drop_main
finish pyuv types constants (next s) = imported (add_constants constants (add_types types s))
finish pyuv types constants (fails s) = refused (drop_main pyuv s)
finish pyuv types constants (leaves s) = refused s

abbrev pub then_ready : List Bool → Step → Step
then_ready ready (next s) = ready_requests ready s
then_ready ready (fails s) = fails s
then_ready ready (leaves s) = leaves s

-- init_pyuv: `main` is what PyModule_Create returns, which is not tested. Both PyModule_AddObject
-- and Py_DECREF read through it.
unfoldable pub init_pyuv :
    (main : Option Obj)
    → List Submodule
    → (ready : List Bool) → List TypeEntry
    → (constants : List Bool) → Refs
    → Imported
unfolding finish add_submodules ready_requests
init_pyuv none subs ready types constants refs = crashed
init_pyuv (some pyuv) subs ready types constants refs = finish pyuv types constants (
    then_ready ready (
      add_submodules subs
        (record { refs = incref pyuv refs; attrs = []; modules = []; err = false })))
