-- ===== src/Error/Errno.antt =====
-- src/errno.c: the constants of the module errno, and its dictionary errorcode, which goes back from
-- a code to its name.
use Prim.Native.String.{String}
use text.Mathlib.Text.{◌==◌ as str_eq}
use text.Mathlib.TextEquality.{eq_iff}
use pyuv.Base.{
  ℕ, suc, ◌≡◌, ◌∙◌, refl, arith, Bool, true, false, ◌&&◌, ◌==◌, Option, none, some, List, [], ◌∷◌,
  if◌then◌else◌,
}
use pyuv.Base.Int.{ℤ, pos, negsuc}
use pyuv.Py.{Result, ok, raised, by_callee}

-- x == y
abbrev pub int_eq : ℤ → ℤ → Bool
int_eq (pos m) (pos n) = m == n
int_eq (negsuc m) (negsuc n) = m == n
int_eq x y = false

-- A value of the module's dictionary: a code, the dictionary errorcode, or what else a module has.
pub data Attr : Type 0 where
  code : ℤ → Attr
  errorcode other : Attr

-- The module's dictionary, and errorcode.
pub record Dicts : Type 0 where
  pub names : String → Option Attr
  pub codes : ℤ → Option String

-- A line of UV_ERRNO_MAP: a name and its code.
pub record Errno : Type 0 where
  pub name : String
  pub number : ℤ

-- What inscode's calls of the interpreter come to, each of which may fail for want of memory.
pub record Room : Type 0 where
  pub error_name : Bool
  pub error_code : Bool
  pub in_module : Bool
  pub in_codes : Bool

abbrev pub set_name : Bool → String → Attr → Dicts → Dicts
set_name done k v d =
    if done then record d { names = λ j. if str_eq k j then some v else d.names j } else d

abbrev pub set_code : Bool → ℤ → String → Dicts → Dicts
set_code done k v d =
    if done then record d { codes = λ j. if int_eq k j then some v else d.codes j } else d

-- inscode; the references to the two objects are left out.
unfoldable pub inscode : Room → Errno → Dicts → Dicts
inscode m e d =
    if m.error_name && m.error_code
    then set_code m.in_codes e.number e.name (set_name m.in_module e.name (code e.number) d)
    else d

-- UV_ERRNO_MAP(XX), from line `i` on.
unfoldable pub insert_all : (room : ℕ → Room) → ℕ → List Errno → Dicts → Dicts
unfolding inscode
insert_all room i [] d = d
insert_all room i (e ∷ es) d = insert_all room (suc i) es (inscode (room i) e d)

-- init_errno: whether there is memory for the module and for errorcode, and whether errorcode can be
-- set in the module, whose dictionary holds `names` at first.
unfoldable pub init_errno :
    (module_made dict_made dict_set : Bool)
    → (room : ℕ → Room) → (errno_map : List Errno) → (names : String → Option Attr) → Result Dicts
unfolding insert_all
init_errno module_made dict_made dict_set room errno_map names =
    if module_made && dict_made && dict_set
    then ok (
        insert_all room 0 errno_map
          (set_name true "errorcode" errorcode (record { names = names; codes = λ c. none })))
    else raised by_callee

-- Nothing fails.
abbrev pub enough : Room → Bool
enough m = m.error_name && m.error_code && m.in_module && m.in_codes

-- No line has this name, and none has this code.
abbrev pub FreshName : String → List Errno → Type 0
FreshName n [] = Unit
FreshName n (e ∷ es) = (str_eq e.name n ≡ false) × FreshName n es

abbrev pub FreshCode : ℤ → List Errno → Type 0
FreshCode c [] = Unit
FreshCode c (e ∷ es) = (int_eq e.number c ≡ false) × FreshCode c es

-- No name and no code occurs twice.
abbrev pub Distinct : List Errno → Type 0
Distinct [] = Unit
Distinct (e ∷ es) = FreshName e.name es × FreshCode e.number es × Distinct es

int_eq_refl : (c : ℤ) → int_eq c c ≡ true
int_eq_refl (pos n) = ground arith
int_eq_refl (negsuc n) = ground arith

str_eq_refl : (s : String) → str_eq s s ≡ true
str_eq_refl s = ground (arith, eq_iff s s)

names-insert_all :
    (room : ℕ → Room) (i : ℕ) (es : List Errno) (d : Dicts) (n : String)
    → FreshName n es
    → (insert_all room i es d).names n ≡ d.names n
unfolding insert_all inscode
names-insert_all room i [] d n f = refl
names-insert_all room i (e ∷ es) d n f =
    names-insert_all room (suc i) es (inscode (room i) e d) n f.1 ∙ ground (arith, f.0)

codes-insert_all :
    (room : ℕ → Room) (i : ℕ) (es : List Errno) (d : Dicts) (c : ℤ)
    → FreshCode c es
    → (insert_all room i es d).codes c ≡ d.codes c
unfolding insert_all inscode
codes-insert_all room i [] d c f = refl
codes-insert_all room i (e ∷ es) d c f =
    codes-insert_all room (suc i) es (inscode (room i) e d) c f.1 ∙ ground (arith, f.0)

-- A line that found room is there in both directions.
abbrev pub BothWays : (room : ℕ → Room) → ℕ → List Errno → Dicts → Type 0
BothWays room i [] d = Unit
BothWays room i (e ∷ es) d =
    (enough (room i) ≡ true
      → (d.names e.name ≡ some (code e.number)) × (d.codes e.number ≡ some e.name))
    × BothWays room (suc i) es d

insert_all-BothWays :
    (room : ℕ → Room) (i : ℕ) (es : List Errno) (d : Dicts)
    → Distinct es
    → BothWays room i es (insert_all room i es d)
unfolding insert_all inscode
insert_all-BothWays room i [] d u = tt
insert_all-BothWays room i (e ∷ es) d u = (
  λ h. (
    names-insert_all room (suc i) es (inscode (room i) e d) e.name u.0
        ∙ ground (arith, h, str_eq_refl e.name),
    codes-insert_all room (suc i) es (inscode (room i) e d) e.number u.1
        ∙ ground (arith, h, int_eq_refl e.number),
  ),
  insert_all-BothWays room (suc i) es (inscode (room i) e d) u.2,
)

-- For a map in which no name and no code occurs twice, and errorcode is no name: where the module and
-- errorcode could be made and set, init_errno returns; each line whose objects could be made and set
-- is there in both directions, as the constant with its code and in errorcode as the code with its
-- name, also where other lines could not; and errorcode is still the dictionary.
pub init_errno-BothWays :
    (room : ℕ → Room) (errno_map : List Errno) (names : String → Option Attr)
    → Distinct errno_map
    → FreshName "errorcode" errno_map
    → (d : Dicts) × (init_errno true true true room errno_map names ≡ ok d)
      × BothWays room 0 errno_map d
      × (d.names "errorcode" ≡ some errorcode)
unfolding init_errno
init_errno-BothWays room errno_map names u f =
    let start : Dicts =
      set_name true "errorcode" errorcode (record { names = names; codes = λ c. none }) in
    (
      insert_all room 0 errno_map start,
      refl,
      insert_all-BothWays room 0 errno_map start u,
      names-insert_all room 0 errno_map start "errorcode" f
          ∙ ground (arith, str_eq_refl "errorcode"),
    )
