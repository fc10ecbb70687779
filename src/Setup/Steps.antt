-- ===== src/Setup/Steps.antt =====
-- The steps of init_pyuv of src/pyuv.c: what each keeps of the account of references, and counts.
use pyuv.Base.{
  ℕ, ◌+◌, ◌-◌, ◌≡◌, ◌∙◌, refl, arith, Bool, true, false, not, ◌&&◌, ◌||◌, is_some, some, List, [],
  ◌∷◌, if◌then◌else◌, length, Bool-cases, Option-cases, inl, inr,
}
use pyuv.Py.{Obj, Refs, is, held, decref}
use pyuv.Setup.{
  Setup, Submodule, TypeEntry, add_type, add_submodule, Step, next, fails, leaves, add_submodules,
  ready_requests, add_types, add_constants, drop_all,
}

-- The references that a list of objects holds.
abbrev pub held_in : List Obj → Obj → ℕ
held_in [] o = 0
held_in (x ∷ xs) o = is x o + held_in xs o

-- Every count is what other code held, and what the two dictionaries hold.
abbrev pub Accounted : Refs → Setup → Type 0
Accounted base s = (o : Obj) → s.refs o ≡ base o + held_in s.attrs o + held_in s.modules o

-- The objects of the submodules are not the main module.
abbrev pub Apart : Obj → List Submodule → Type 0
Apart pyuv [] = Unit {0}
Apart pyuv (b ∷ bs) = (held b.made pyuv ≡ 0) × Apart pyuv bs

abbrev pub all_made : List Submodule → Bool
all_made [] = true
all_made (b ∷ bs) = is_some b.made && all_made bs

abbrev pub all_true : List Bool → Bool
all_true [] = true
all_true (b ∷ bs) = b && all_true bs

-- Every submodule is put into both dictionaries, and every type into the module.
abbrev pub subs_whole : List Submodule → Bool
subs_whole [] = true
subs_whole (b ∷ bs) = b.added && b.listed && subs_whole bs

abbrev pub types_whole : List TypeEntry → Bool
types_whole [] = true
types_whole (t ∷ ts) = t.ready && t.added && types_whole ts

-- How many there are of those that can be put into the main module.
abbrev pub subs_added : List Submodule → ℕ
subs_added [] = 0
subs_added (b ∷ bs) = (if b.added then 1 else 0) + subs_added bs

abbrev pub types_added : List TypeEntry → ℕ
types_added [] = 0
types_added (t ∷ ts) = (if t.ready && t.added then 1 else 0) + types_added ts

add_submodule_lem :
    (base : Refs) (b : Submodule) (m : Obj) (s : Setup)
    → Accounted base s
    → let t = add_submodule b m s in
      Accounted base t
      × (t.err ≡ s.err || not (b.added && b.listed))
      × (length t.attrs ≡ length s.attrs + (if b.added then 1 else 0))
unfolding add_submodule
add_submodule_lem base b m s v = elim (Bool-cases b.added) [
  | inl a ↦ elim (Bool-cases b.listed) [
    | inl l ↦ rw (a, l) (λ o. omega (arith, v o), ground arith, omega arith)
    | inr l ↦ rw (a, l) (λ o. omega (arith, v o), ground arith, omega arith)
  ]
  | inr a ↦ elim (Bool-cases b.listed) [
    | inl l ↦ rw (a, l) (λ o. omega (arith, v o), ground arith, omega arith)
    | inr l ↦ rw (a, l) (λ o. omega (arith, v o), ground arith, omega arith)
  ]
]

-- What the submodules leave: all of them are there, or the import fails.
abbrev pub SubsDone : Refs → List Submodule → Setup → Step → Type 0
SubsDone base bs s (next t) =
    (all_made bs ≡ true)
    × Accounted base t
    × (t.err ≡ s.err || not (subs_whole bs))
    × (length t.attrs ≡ length s.attrs + subs_added bs)
SubsDone base bs s (fails t) = (all_made bs ≡ false) × Accounted base t
SubsDone base bs s (leaves t) = ⊥

SubsDone-cons :
    (base : Refs) (b : Submodule) (bs : List Submodule) (s t : Setup) (r : Step)
    → is_some b.made ≡ true
    → t.err ≡ s.err || not (b.added && b.listed)
    → length t.attrs ≡ length s.attrs + (if b.added then 1 else 0)
    → SubsDone base bs t r
    → SubsDone base (b ∷ bs) s r
SubsDone-cons base b bs s t (next u) m e l (a, v, f, k) =
    (ground (arith, m, a), v, f ∙ ground (arith, e), omega (arith, k, l))
SubsDone-cons base b bs s t (fails u) m e l (a, v) = (ground (arith, m, a), v)
SubsDone-cons base b bs s t (leaves u) m e l d = d

pub add_submodules_lem :
    (base : Refs) (bs : List Submodule) (s : Setup)
    → Accounted base s
    → SubsDone base bs s (add_submodules bs s)
unfolding add_submodules
add_submodules_lem base [] s v = (refl, v, ground arith, omega arith)
add_submodules_lem base (b ∷ bs) s v = elim (Option-cases b.made) [
  | inl n ↦ rw n (refl, v)
  | inr (m, n) ↦
      let h = add_submodule_lem base b m s v in
      let t = add_submodule b m s in
      rw n (
        SubsDone-cons base (record b { made = some m }) bs s t (add_submodules bs t) refl h.1 h.2
          (add_submodules_lem base bs t h.0))
]

pub ready_requests_lem :
    (rs : List Bool) (s : Setup) → ready_requests rs s ≡ (if all_true rs then next s else leaves s)
unfolding ready_requests
ready_requests_lem [] s = refl
ready_requests_lem (true ∷ rs) s = ready_requests_lem rs s
ready_requests_lem (false ∷ rs) s = refl

add_type_lem :
    (base : Refs) (t : TypeEntry) (s : Setup)
    → Accounted base s
    → let u = add_type t s in
      Accounted base u
      × (u.err ≡ s.err || not (t.ready && t.added))
      × (length u.attrs ≡ length s.attrs + (if t.ready && t.added then 1 else 0))
unfolding add_type
add_type_lem base t s v = elim (Bool-cases t.ready) [
  | inl r ↦ elim (Bool-cases t.added) [
    | inl a ↦ rw (r, a) (λ o. omega (arith, v o), ground arith, omega arith)
    | inr a ↦ rw (r, a) (λ o. omega (arith, v o), ground arith, omega arith)
  ]
  | inr r ↦ rw r (v, ground arith, omega arith)
]

pub add_types_lem :
    (base : Refs) (ts : List TypeEntry) (s : Setup)
    → Accounted base s
    → let u = add_types ts s in
      Accounted base u
      × (u.err ≡ s.err || not (types_whole ts))
      × (length u.attrs ≡ length s.attrs + types_added ts)
unfolding add_types
add_types_lem base [] s v = (v, ground arith, omega arith)
add_types_lem base (t ∷ ts) s v =
    let h = add_type_lem base t s v in
    let ih = add_types_lem base ts (add_type t s) h.0 in
    (ih.0, ih.1 ∙ ground (arith, h.1), omega (arith, ih.2, h.2))

pub add_constants_lem :
    (cs : List Bool) (s : Setup)
    → add_constants cs s ≡ record s { err = s.err || not (all_true cs) }
unfolding add_constants
add_constants_lem [] s = ground arith
add_constants_lem (c ∷ cs) s =
    add_constants_lem cs (record s { err = s.err || not c }) ∙ ground arith

pub drop_all_lem : (os : List Obj) (f : Refs) (o : Obj) → drop_all os f o ≡ f o - held_in os o
drop_all_lem [] f o = omega arith
drop_all_lem (x ∷ xs) f o = omega (arith, drop_all_lem xs (decref x f) o)

-- Neither dictionary holds the main module.
abbrev pub Free : Obj → Setup → Type 0
Free pyuv s = held_in s.attrs pyuv + held_in s.modules pyuv ≡ 0

abbrev pub FreeAfter : Obj → Step → Type 0
FreeAfter pyuv (next t) = Free pyuv t
FreeAfter pyuv (fails t) = Free pyuv t
FreeAfter pyuv (leaves t) = Free pyuv t

add_submodule-Free :
    (pyuv : Obj) (b : Submodule) (m : Obj) (s : Setup)
    → is m pyuv ≡ 0
    → Free pyuv s
    → Free pyuv (add_submodule b m s)
unfolding add_submodule
add_submodule-Free pyuv b m s h f = elim (Bool-cases b.added) [
  | inl a ↦ elim (Bool-cases b.listed) [
    | inl l ↦ rw (a, l) (omega (arith, h, f))
    | inr l ↦ rw (a, l) (omega (arith, h, f))
  ]
  | inr a ↦ elim (Bool-cases b.listed) [
    | inl l ↦ rw (a, l) (omega (arith, h, f))
    | inr l ↦ rw (a, l) (omega (arith, h, f))
  ]
]

pub add_submodules-Free :
    (pyuv : Obj) (bs : List Submodule) (s : Setup)
    → Apart pyuv bs
    → Free pyuv s
    → FreeAfter pyuv (add_submodules bs s)
unfolding add_submodules
add_submodules-Free pyuv [] s apart f = f
add_submodules-Free pyuv (b ∷ bs) s (h, apart) f = elim (Option-cases b.made) [
  | inl n ↦ rw n f
  | inr (m, n) ↦ rw n (
      add_submodules-Free pyuv bs (add_submodule b m s) apart
        (add_submodule-Free pyuv b m s (ground (arith, h, n)) f))
]
