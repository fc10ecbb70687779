-- ===== src/Setup/Laws.antt =====
-- Who holds which references after init_pyuv of src/pyuv.c, whichever of its calls fail.
use pyuv.Base.{
  ◌+◌, ◌≡◌, ◌⊎◌, refl, arith, Bool, true, false, not, ◌&&◌, none, some, List, [], ◌==◌, length,
  Bool-cases, inl, inr,
}
use pyuv.Py.{Obj, Refs, is_self, incref, decref}
use pyuv.Setup.{
  Setup, Submodule, TypeEntry, Step, next, fails, leaves, add_submodules, add_types, drop_main,
  Imported, imported, refused, crashed, finish, then_ready, init_pyuv,
}
use pyuv.Setup.Steps.{
  held_in, Accounted, Apart, all_made, all_true, subs_whole, types_whole, subs_added, types_added,
  SubsDone, Free, FreeAfter, add_submodules_lem, ready_requests_lem, add_types_lem,
  add_constants_lem, drop_all_lem, add_submodules-Free,
}

-- The main module's last reference is given up, and with it what its dictionary holds.
drop_main_lem :
    (pyuv : Obj) (refs : Refs) (s : Setup)
    → refs pyuv ≡ 0
    → Free pyuv s
    → Accounted (incref pyuv refs) s
    → let t = drop_main pyuv s in
      (t.attrs ≡ []) × ((o : Obj) → t.refs o ≡ refs o + held_in t.modules o)
unfolding drop_main
drop_main_lem pyuv refs s fresh f v =
    let last : (decref pyuv s.refs pyuv == 0) ≡ true =
      ground (arith, v pyuv, f, fresh, is_self pyuv) in
    rw last (refl, λ o. omega (arith, v o, drop_all_lem s.attrs (decref pyuv s.refs) o))

-- What an import leaves of the references that there were.
abbrev pub Settled :
    Obj → Refs → List Submodule → List Bool → List TypeEntry → List Bool → Imported → Type 0
Settled pyuv refs bs rs ts cs (imported s) =
    (all_made bs ≡ true)
    × (all_true rs ≡ true)
    × Accounted (incref pyuv refs) s
    × (length s.attrs ≡ subs_added bs + types_added ts)
    × (s.err ≡ not (subs_whole bs && types_whole ts && all_true cs))
Settled pyuv refs bs rs ts cs (refused s) =
    ((all_made bs ≡ false) × (s.attrs ≡ []) × ((o : Obj) → s.refs o ≡ refs o + held_in s.modules o))
    ⊎ ((all_made bs ≡ true)
        × (all_true rs ≡ false)
        × (length s.attrs ≡ subs_added bs)
        × Accounted (incref pyuv refs) s)
Settled pyuv refs bs rs ts cs crashed = ⊥

module _ (pyuv : Obj) (refs : Refs) (bs : List Submodule) (rs : List Bool) (ts : List TypeEntry)
    (cs : List Bool) where
  finish-Settled :
      (s : Setup) (r : Step)
      → refs pyuv ≡ 0
      → s.err ≡ false
      → length s.attrs ≡ 0
      → FreeAfter pyuv r
      → SubsDone (incref pyuv refs) bs s r
      → Settled pyuv refs bs rs ts cs (finish pyuv ts cs (then_ready rs r))
  unfolding finish
  finish-Settled s (next t) fresh e l f (a, v, g, k) = elim (Bool-cases (all_true rs)) [
    | inl r ↦
        let h = add_types_lem (incref pyuv refs) ts t v in
        rw (ready_requests_lem rs t, r, add_constants_lem cs (add_types ts t))
          (a, r, h.0, omega (arith, h.2, k, l), ground (arith, h.1, g, e))
    | inr r ↦ rw (ready_requests_lem rs t, r) (inr (a, r, omega (arith, k, l), v))
  ]
  finish-Settled s (fails t) fresh e l f (a, v) =
      let d = drop_main_lem pyuv refs t fresh f v in inl (a, d.0, d.1)
  finish-Settled s (leaves t) fresh e l f d = absurd d

-- The import of the module, whose memory nobody refers to, where the submodules are other objects,
-- whichever calls fail: it crashes only where the main module itself cannot be made. It succeeds
-- where every submodule was made and the four types of requests are ready: then the module has the
-- reference of the result, each other count is what was held before and what the module and
-- sys.modules hold, the module holds as many objects as could be added, and an exception is left
-- pending exactly where something else failed. Where a submodule was not made, the module is
-- released, and sys.modules alone holds what was made before. Where a type of requests is not ready,
-- the module and all that it holds are never given up.
pub init_pyuv-Settled :
    (pyuv : Obj) (refs : Refs) (bs : List Submodule) (rs : List Bool) (ts : List TypeEntry)
    (cs : List Bool)
    → refs pyuv ≡ 0
    → Apart pyuv bs
    → Settled pyuv refs bs rs ts cs (init_pyuv (some pyuv) bs rs ts cs refs)
      × (init_pyuv none bs rs ts cs refs ≡ crashed)
unfolding init_pyuv
init_pyuv-Settled pyuv refs bs rs ts cs fresh apart =
    let start : Setup = record { refs = incref pyuv refs; attrs = []; modules = []; err = false } in
    (
      finish-Settled pyuv refs bs rs ts cs start (add_submodules bs start) fresh refl refl
          (add_submodules-Free pyuv bs start apart refl)
          (add_submodules_lem (incref pyuv refs) bs start (λ o. omega arith)),
      refl,
    )
