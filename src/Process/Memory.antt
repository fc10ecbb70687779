-- ===== src/Process/Memory.antt =====
-- The arrays of Process_func_spawn against what they are meant to be (src/process.c).
use pyuv.Base.{
  ℕ, zero, suc, ◌+◌, ◌-◌, ◌≤◌, ◌≡◌, ◌∙◌, ap, refl, Bool, true, false, Option, none, some, List, [],
  ◌∷◌, ◌++◌, map, length, arith, Option-cases, length-append, inl, inr,
}
use pyuv.Process.Arrays.{
  Str, Slot, null, str, store, malloc_slots, Item, text, no_string, fill_slots, free_slots, take,
  Entry, entry, equals_sign, env_item, strings,
}
use pyuv.Process.Options.{made}

-- What a loop over the items is meant to leave: whether all rounds succeed; the strings up to the
-- first that fails, and NULL.
abbrev pub built : List Item → Bool × List Slot
built [] = (true, null ∷ [])
built (no_string ∷ r) = (false, null ∷ malloc_slots (suc (length r)))
built (text s ∷ r) = ((built r).0, str s ∷ (built r).1)

abbrev shifted : Slot → Option (Bool × List Slot) → Option (Bool × List Slot)
shifted x none = none
shifted x (some (b, a)) = some (b, x ∷ a)

fill_slots-suc :
    (items : List Item) (i : ℕ) (x : Slot) (a : List Slot)
    → fill_slots items (suc i) (x ∷ a) ≡ shifted x (fill_slots items i a)
unfolding fill_slots
fill_slots-suc [] i x a = ground arith
fill_slots-suc (no_string ∷ r) i x a = ground arith
fill_slots-suc (text s ∷ r) i x a = elim (Option-cases (store a i (str s))) [
  | inl out ↦ rw out
  | inr (b, kept) ↦ rw kept (fill_slots-suc r (suc i) x b)
]

-- For every sequence of items, the loop over an array that has one element more writes in bounds, and
-- leaves exactly the strings up to the first round that fails, and NULL behind them.
pub fill_slots-built :
    (items : List Item)
    → fill_slots items 0 (malloc_slots (suc (length items))) ≡ some (built items)
unfolding fill_slots
fill_slots-built [] = refl
fill_slots-built (no_string ∷ r) = refl
fill_slots-built (text s ∷ r) =
    fill_slots-suc r 0 (str s) (malloc_slots (suc (length r)))
    ∙ ap (shifted (str s)) (fill_slots-built r)

-- The loop that releases ends at the NULL, and has released every string that was made.
pub free_slots-built : (items : List Item) → free_slots (built items).1 ≡ some (made items)
unfolding free_slots
free_slots-built [] = refl
free_slots-built (no_string ∷ r) = refl
free_slots-built (text s ∷ r) = rw (free_slots-built r)

built-strings : (r : List Str) → built (map text r) ≡ (true, strings r)
built-strings [] = refl
built-strings (s ∷ r) = ap (λ (p : Bool × List Slot). (p.0, str s ∷ p.1)) (built-strings r)

take_all : (s : Str) (n : ℕ) → length s ≤ n → take n s ≡ s
take_all [] zero h = refl
take_all [] (suc n) h = refl
take_all (c ∷ s) zero h = absurd (omega arith)
take_all (c ∷ s) (suc n) h = ap (λ r. c ∷ r) (take_all s n (omega arith))

env_item-entry : (key value : Str) → env_item (entry key value) ≡ text (key ++ equals_sign ∷ value)
unfolding env_item
env_item-entry key value = ap text (
    take_all (key ++ equals_sign ∷ value) (length key + length value + 2 - 1)
      (omega (arith, length-append key (equals_sign ∷ value))))

-- The bytes of an entry.
abbrev pub assignment : Str × Str → Str
assignment (key, value) = key ++ equals_sign ∷ value

abbrev pub entry_of : Str × Str → Entry
entry_of (key, value) = entry key value

env_items :
    (env : List (Str × Str)) → map env_item (map entry_of env) ≡ map text (map assignment env)
env_items [] = refl
env_items ((key, value) ∷ r) =
    rw (env_item-entry key value) (ap (λ is. text (assignment (key, value)) ∷ is) (env_items r))

-- Where every round succeeds, the array for `args` is the strings in order and NULL, and the array
-- for `env` is the strings "key=value" in order and NULL, none of them cut off.
pub fill_slots-strings :
    (args : List Str) (env : List (Str × Str))
    → (fill_slots (map text args) 0 (malloc_slots (suc (length (map text args))))
        ≡ some (true, strings args))
      × (fill_slots
            (map env_item (map entry_of env))
            0
            (malloc_slots (suc (length (map env_item (map entry_of env)))))
          ≡ some (true, strings (map assignment env)))
fill_slots-strings args env = (
  fill_slots-built (map text args) ∙ ap some (built-strings args),
  rw (env_items env) (
      fill_slots-built (map text (map assignment env))
      ∙ ap some (built-strings (map assignment env))),
)
