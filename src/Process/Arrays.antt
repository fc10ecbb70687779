-- ===== src/Process/Arrays.antt =====
-- The arrays of C strings that Process_func_spawn builds for uv_spawn, and the loops that fill them
-- and release them (src/process.c).
use pyuv.Base.{
  ℕ, zero, suc, ◌+◌, ◌-◌, Bool, true, false, Option, none, some, List, [], ◌∷◌, ◌++◌, length,
}

-- A C string by its bytes, without the final NUL.
abbrev pub Str : Type 0
Str = List ℕ

-- An element of a `char **` in memory: PyMem_Malloc leaves it unset.
pub data Slot : Type 0 where
  unset null : Slot
  str : Str → Slot

-- What follows a step that may be out of bounds.
abbrev pub and_then : {A B : Type 0} → Option A → (A → Option B) → Option B
and_then none k = none
and_then (some a) k = k a

-- `a[i] = x`, which is out of bounds where there is no such element.
abbrev pub store : List Slot → ℕ → Slot → Option (List Slot)
store [] i x = none
store (s ∷ a) zero x = some (x ∷ a)
store (s ∷ a) (suc i) x = and_then (store a i x) (λ b. some (s ∷ b))

-- PyMem_Malloc(sizeof *a * n)
abbrev pub malloc_slots : ℕ → List Slot
malloc_slots zero = []
malloc_slots (suc n) = unset ∷ malloc_slots n

-- What a round of a loop comes to: no string, or one that PyMem_Malloc has the memory for.
pub data Item : Type 0 where
  no_string : Item
  text : Str → Item

-- The loop over the items from `i` on; the element of a round that fails, and the one behind the
-- last, are set to NULL. Whether all rounds succeeded, and the array; `none` is a write out of
-- bounds.
unfoldable pub fill_slots : List Item → ℕ → List Slot → Option (Bool × List Slot)
fill_slots [] i a = and_then (store a i null) (λ b. some (true, b))
fill_slots (no_string ∷ r) i a = and_then (store a i null) (λ b. some (false, b))
fill_slots (text s ∷ r) i a = and_then (store a i (str s)) (λ b. fill_slots r (suc i) b)

-- `for (i = 0; a[i] != NULL; ++i) PyMem_Free(a[i]);`: how many strings it releases. `none` is a read
-- behind the end or of an element that was not set.
unfoldable pub free_slots : List Slot → Option ℕ
free_slots [] = none
free_slots (unset ∷ a) = none
free_slots (null ∷ a) = some 0
free_slots (str s ∷ a) = and_then (free_slots a) (λ n. some (suc n))

-- snprintf into a block of `size` bytes, the NUL included
abbrev pub take : ℕ → Str → Str
take zero s = []
take (suc n) [] = []
take (suc n) (c ∷ s) = c ∷ take n s

abbrev pub snprintf : ℕ → Str → Str
snprintf size s = take (size - 1) s

-- An entry of the dictionary `env`: pyuv_PyUnicode_FSConverter refuses its key or its value,
-- there is no memory for the string, or all is well.
pub data Entry : Type 0 where
  bad_key bad_value no_memory : Entry
  entry : (key value : Str) → Entry

-- '='
abbrev pub equals_sign : ℕ
equals_sign = 61

-- A round of the loop over `env`.
unfoldable pub env_item : Entry → Item
env_item (entry key value) =
    text (snprintf (length key + length value + 2) (key ++ equals_sign ∷ value))
env_item e = no_string

-- What the arrays are meant to be: the strings in order, then NULL.
abbrev pub strings : List Str → List Slot
strings [] = null ∷ []
strings (s ∷ r) = str s ∷ strings r
