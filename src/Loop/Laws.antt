-- ===== src/Loop/Laws.antt =====
-- What loop.handles lists, and what becomes of an exception where the hook is the loop's own.
use pyuv.Base.{
  ℕ, suc, ◌+◌, ◌≡◌, refl, sym, ap, ◌∙◌, arith, Bool, true, false, Option, none, some, List, [], ◌∷◌,
  ◌++◌, ◌==◌, Bool-cases, inl, inr,
}
use mathlib.Core.List.{append_assoc, append-nil}
use pyuv.Py.{Obj, none_obj, Refs, Result, is_ok, ok, raised, aborted}
use pyuv.Stream.Writes.{counts}
use pyuv.Uncaught.{
  Info, info, filled, Line, Interp, in_callback, traceback, found, handle_uncaught_exception,
  run_hook, after_hook, print_pending, Run, going, exited, Hook, Handled, returned, exits_process,
}
use pyuv.Uncaught.Laws.{Account}
use pyuv.Loop.Methods.{
  UvData, null, pointer, Walk, handles_walk_cb, uv_walk, handles_get, excepthook,
}

-- The handles of this module among a loop's.
abbrev pub ours : List UvData → List Obj
ours [] = []
ours (null ∷ hs) = ours hs
ours (pointer obj true ∷ hs) = obj ∷ ours hs
ours (pointer obj false ∷ hs) = ours hs

counts-append : (xs ys : List Obj) (o : Obj) → counts (xs ++ ys) o ≡ counts xs o + counts ys o
counts-append [] ys o = omega arith
counts-append (x ∷ xs) ys o = omega (arith, counts-append xs ys o)

-- The counts, and the list while no exception is set.
record Walked (base : Refs) (seen : List Obj) (w : Walk) : Type 0 where
  counted : (o : Obj) → w.refs o ≡ base o + counts w.handles o
  complete : w.err ≡ false → w.handles ≡ seen

walk_cb-Walked :
    (base : Refs) (seen : List Obj) (appended : Bool) (h : UvData) (w : Walk)
    → Walked base seen w
    → Walked base (seen ++ ours (h ∷ [])) (handles_walk_cb appended h w)
unfolding handles_walk_cb
walk_cb-Walked base seen appended null w v = rw (append-nil seen) v
walk_cb-Walked base seen appended (pointer obj false) w v = rw (append-nil seen) v
walk_cb-Walked base seen true (pointer obj true) w v = elim (Bool-cases w.err) [
  | inl e ↦ record { counted = λ o. ground (arith, v.counted o, e); complete = λ f. cc }
  | inr e ↦ record {
    counted = λ o. ground (arith, v.counted o, e, counts-append w.handles (obj ∷ []) o);
    complete = λ f. ground (arith, v.complete e, e);
  }
]
walk_cb-Walked base seen false (pointer obj true) w v = elim (Bool-cases w.err) [
  | inl e ↦ record {
    counted = λ o. ground (arith, v.counted o, e);
    complete = λ f. ground (arith, e);
  }
  | inr e ↦ record {
    counted = λ o. ground (arith, v.counted o, e);
    complete = λ f. ground (arith, e);
  }
]

ours-append : (xs ys : List UvData) → ours (xs ++ ys) ≡ ours xs ++ ours ys
ours-append [] ys = refl
ours-append (null ∷ xs) ys = ours-append xs ys
ours-append (pointer obj true ∷ xs) ys = ap (λ l. obj ∷ l) (ours-append xs ys)
ours-append (pointer obj false ∷ xs) ys = ours-append xs ys

uv_walk-Walked :
    (base : Refs) (seen : List Obj) (appended : ℕ → Bool) (i : ℕ) (hs : List UvData) (w : Walk)
    → Walked base seen w
    → Walked base (seen ++ ours hs) (uv_walk appended i hs w)
unfolding uv_walk
uv_walk-Walked base seen appended i [] w v = rw (append-nil seen) v
uv_walk-Walked base seen appended i (h ∷ hs) w v =
    let step = walk_cb-Walked base seen (appended i) h w v in
    let rest =
      uv_walk-Walked base (seen ++ ours (h ∷ [])) appended (suc i) hs
        (handles_walk_cb (appended i) h w) step in
    rw (ours-append (h ∷ []) hs, ← append_assoc seen (ours (h ∷ [])) (ours hs)) rest

ok-inj : {A : Type 0} (a b : A) → ok a ≡ ok b → a ≡ b
ok-inj a b h = cc

-- loop.handles, for a loop's handles in libuv's order, whichever allocation fails: a call that
-- raises leaves every count as it was; one that returns a list lists those handles that are this
-- module's, all of them and in libuv's order, and each has one more reference for each time that it
-- is listed.
pub handles_get_lists :
    (list_made : Bool) (appended : ℕ → Bool) (hs : List UvData) (r : Refs)
    → let t = handles_get list_made appended hs r in
      ((l : List Obj) → t.0 ≡ ok l → (l ≡ ours hs) × ((o : Obj) → t.1 o ≡ r o + counts (ours hs) o))
      × (is_ok t.0 ≡ false → (o : Obj) → t.1 o ≡ r o)
unfolding handles_get
handles_get_lists list_made appended hs r = elim (Bool-cases list_made) [
  | inr e ↦ rw e (λ l h. absurd (cc), λ f o. refl)
  | inl e ↦
      let w = uv_walk appended 0 hs (record { handles = []; refs = r; err = false }) in
      let v =
        uv_walk-Walked r [] appended 0 hs (record { handles = []; refs = r; err = false })
          (record { counted = λ o. omega arith; complete = λ f. refl }) in
      elim (Bool-cases w.err) [
        | inl bad ↦ rw (e, bad) (λ l h. absurd (cc), λ f o. omega (arith, v.counted o))
        | inr good ↦
            rw (e, good)
              (
                λ l h. (
                  sym (ok-inj w.handles l h) ∙ v.complete good,
                  λ o. rw (← v.complete good) (v.counted o),
                ),
                λ f. absurd (cc),
              )
      ]
]

-- loop.excepthook is a function as the interpreter calls them.
abbrev pub as_hook : Run (Result Obj × Interp) → Run (Option Obj × Interp)
as_hook (exited u) = exited u
as_hook (going (ok r, u)) = going (some r, u)
as_hook (going (raised e, u)) = going (none, u)
as_hook (going (aborted, u)) = going (none, u)

abbrev pub own_hook : (Obj → Bool) → Hook
own_hook is_exit h n t = as_hook (excepthook is_exit (some n) t)

-- What is left of an exception with its own objects `n`, by whether it is a SystemExit.
abbrev pub Reported : Refs → List Line → Info → Bool → Handled → Type 0
Reported ext out n false (returned t) =
    (t.err ≡ none)
    × ((o : Obj) → t.refs o ≡ ext o)
    × (t.out ≡ (out ++ in_callback ∷ []) ++ traceback (some n) ∷ [])
Reported ext out n true (exits_process t) = t.out ≡ out ++ in_callback ∷ []
Reported ext out n b r = ⊥

own_hook_lem :
    (is_exit : Obj → Bool) (normal : Info → Info) (h : Obj) (e : Info) (ext refs : Refs)
    (out : List Line)
    → (h == none_obj) ≡ false
    → ((o : Obj) → refs o ≡ ext o + info e o)
    → Reported ext out (filled (normal e)) (is_exit (normal e).exc) (
        handle_uncaught_exception is_exit normal
          (own_hook is_exit)
          (found h)
          (record { refs = refs; err = some e; out = out }))
unfolding excepthook handle_uncaught_exception run_hook after_hook print_pending
own_hook_lem is_exit normal h e ext refs out hook v = elim (Bool-cases (is_exit (normal e).exc)) [
  | inl ending ↦ rw (hook, ending) refl
  | inr usual ↦ rw (hook, usual) (refl, λ o. omega (arith, v o), refl)
]

-- An exception that a user's function leaves to a loop whose excepthook is its own method: whoever
-- else holds references, stderr gets one line; for a SystemExit the process then exits, with no
-- traceback; for any other exception handle_uncaught_exception returns, stderr has got the traceback
-- of this exception, normalized, and nothing more, no exception is pending, and the references to
-- its objects are given up.
pub own_hook_reports :
    (is_exit : Obj → Bool) (normal : Info → Info) (h : Obj) (e : Info) (ext : Refs) (s : Interp)
    → (h == none_obj) ≡ false
    → s.err ≡ some e
    → Account ext s
    → Reported ext s.out
        (filled (normal e))
        (is_exit (normal e).exc)
        (handle_uncaught_exception is_exit normal (own_hook is_exit) (found h) s)
own_hook_reports is_exit normal h e ext s hook pending v =
    rw pending
      (own_hook_lem is_exit normal h e ext s.refs s.out hook (λ o. ground (arith, v o, pending)))
