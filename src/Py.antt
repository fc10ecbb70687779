-- ===== src/Py.antt =====
-- What the code uses of the interpreter: objects with reference counts, exceptions, and calls that
-- fail by raising one (src/pyuv.h has the macros). An object is its address; the count of every
-- object is kept, so that a theorem can say who holds which references.
use pyuv.Base.{
  refl, ℕ, ◌+◌, ◌-◌, ◌≤◌, ◌<◌, ◌≡◌, Bool, true, false, Option, none, some, arith, not, ◌==◌,
  if◌then◌else◌,
}
use pyuv.Base.Int.{ℤ, is_neg}
use pyuv.Error.{ExcType, runtime_error, handle_closed_error}

abbrev pub Obj : Type 0
Obj = ℕ

-- Py_None
abbrev pub none_obj : Obj
none_obj = 0

-- Py_REFCNT of every object
abbrev pub Refs : Type 0
Refs = Obj → ℕ

-- One reference to `x`, seen at `o`.
unfoldable pub is : Obj → Obj → ℕ
is x o = if x == o then 1 else 0

pub is_self : (x : Obj) → is x x ≡ 1
unfolding is
is_self x = ground arith

pub is_other : (x o : Obj) → (x == o) ≡ false → is x o ≡ 0
unfolding is
is_other x o h = ground arith

-- Who holds a reference to `x` counts in `f`.
pub is-le : (x o : Obj) (f : Refs) → 0 < f x → is x o ≤ f o
unfolding is
is-le x o f h = ground arith

-- What a pointer that may be NULL holds.
abbrev pub held : Option Obj → Obj → ℕ
held none o = 0
held (some x) o = is x o

-- Py_INCREF, Py_DECREF, Py_XINCREF and Py_XDECREF
abbrev pub incref : Obj → Refs → Refs
incref x r o = r o + is x o

abbrev pub decref : Obj → Refs → Refs
decref x r o = r o - is x o

abbrev pub xincref : Option Obj → Refs → Refs
xincref x r o = r o + held x o

abbrev pub xdecref : Option Obj → Refs → Refs
xdecref x r o = r o - held x o

-- An exception that is set: by PyErr_SetString, by RAISE_UV_EXCEPTION with libuv's code, or by the
-- function of the interpreter that failed.
pub data Exc : Type 0 where
  set_string : ExcType → Exc
  uv : ExcType → ℤ → Exc
  by_callee : Exc

-- `aborted` is a failed ASSERT or a use of NULL.
pub data Result {ℓ} (A : Type ℓ) : Type ℓ where
  ok : A → Result A
  raised : Exc → Result A
  aborted : Result A

-- A function of the module: it changes the state and returns, raises or aborts.
abbrev pub M : Type 0 → Type 0 → Type 0
M S A = S → Result A × S

abbrev pub pure : {S A : Type 0} → A → M S A
pure a s = (ok a, s)

abbrev pub bind : {S A B : Type 0} → Result A → S → (A → M S B) → Result B × S
bind (ok a) s f = f a s
bind (raised e) s f = (raised e, s)
bind aborted s f = (aborted, s)

infixl 5 ◌>>=◌ ◌>>◌
abbrev pub ◌>>=◌ : {S A B : Type 0} → M S A → (A → M S B) → M S B
◌>>=◌ m f s = let r = m s in bind r.0 r.1 f

abbrev pub ◌>>◌ : {S B : Type 0} → M S (Unit {0}) → M S B → M S B
m >> k = m >>= λ _. k

-- `if (!b) { PyErr_SetString(e, ...); return ...; }`
abbrev pub guard : {S : Type 0} → Bool → ExcType → M S (Unit {0})
guard true e s = (ok tt, s)
guard false e s = (raised (set_string e), s)

-- `if (err < 0) { RAISE_UV_EXCEPTION(err, e); return ...; }`
abbrev pub check : {S : Type 0} → ℤ → ExcType → M S (Unit {0})
check err e s = if is_neg err then (raised (uv e err), s) else (ok tt, s)

-- PyArg_ParseTuple: the arguments that it stores, or `none` when it has set an exception.
abbrev pub parse : {S A : Type 0} → Option A → M S A
parse none s = (raised by_callee, s)
parse (some a) s = (ok a, s)

-- ASSERT(b)
abbrev pub assert : {S : Type 0} → Bool → M S (Unit {0})
assert true s = (ok tt, s)
assert false s = (aborted, s)

abbrev pub put : {S : Type 0} → S → M S (Unit {0})
put t s = (ok tt, t)

-- RAISE_IF_HANDLE_NOT_INITIALIZED and RAISE_IF_HANDLE_CLOSED, with uv_is_closing's answer
abbrev pub check_open : {S : Type 0} → Bool → Bool → M S (Unit {0})
check_open initialized closing = do
  guard initialized runtime_error
  guard (not closing) handle_closed_error

-- What the caller sees of an exception that is raised: whether there is one.
abbrev pub is_ok : {A : Type 0} → Result A → Bool
is_ok (ok a) = true
is_ok (raised e) = false
is_ok aborted = false

-- What a function keeps whichever of its tests fails.
module _ {S A : Type 0} (P : S → Type 0) where
  pub guard_keeps :
      (b : Bool) (e : ExcType) (k : M S A) (s : S) → P s → P (k s).1 → P ((guard b e >> k) s).1
  guard_keeps true e k s v w = w
  guard_keeps false e k s v w = v

  pub guard_gives :
      (b : Bool) (e : ExcType) (k : M S A) (s : S)
      → P s
      → (b ≡ true → P (k s).1)
      → P ((guard b e >> k) s).1
  guard_gives true e k s v w = w refl
  guard_gives false e k s v w = v

  pub open_keeps :
      (i c : Bool) (k : M S A) (s : S) → P s → P (k s).1 → P ((check_open i c >> k) s).1
  open_keeps true false k s v w = w
  open_keeps true true k s v w = v
  open_keeps false c k s v w = v

  pub parse_keeps :
      {B : Type 0} (a : Option B) (k : B → M S A) (s : S)
      → P s
      → ((b : B) → P (k b s).1)
      → P ((parse a >>= k) s).1
  parse_keeps none k s v w = v
  parse_keeps (some b) k s v w = w b

  pub if_keeps : (b : Bool) (x y : Result A × S) → P x.1 → P y.1 → P (if b then x else y).1
  if_keeps true x y v w = v
  if_keeps false x y v w = w

  pub else_keeps : (b : Bool) (x y : Result A × S) → b ≡ false → P y.1 → P (if b then x else y).1
  else_keeps true x y h w = absurd (cc)
  else_keeps false x y h w = w

  pub bind_keeps :
      {B : Type 0} (r : Result B × S) (f : B → M S A)
      → P r.1
      → ((b : B) (t : S) → P t → P (f b t).1)
      → P (bind r.0 r.1 f).1
  bind_keeps (ok b, t) f v w = w b t v
  bind_keeps (raised e, t) f v w = v
  bind_keeps (aborted, t) f v w = v
