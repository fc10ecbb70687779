-- ===== src/Process/Release.antt =====
-- The memory of Process_func_spawn's options from the first allocation to the label `cleanup`
-- (src/process.c).
use pyuv.Base.{
  ℕ, suc, ◌+◌, ◌≡◌, ◌≢◌, refl, Bool, true, false, Option, none, some, List, [], ◌∷◌, length, arith,
  ◌==◌, ◌⊎◌, inr,
}
use mathlib.Core.Path.{subst, sym, ap}
use pyuv.Error.{memory_error, value_error}
use pyuv.Py.{Exc, set_string, by_callee, Result, ok, raised, aborted, bind}
use pyuv.Process.Arrays.{Str, Slot, malloc_slots, Item, text, no_string}
use pyuv.Process.Options.{
  Options, made, end_fill, build_array, set_args, Arguments, single, sequence, args_stage,
  first_arg, free_array, free_ptr,
}
use pyuv.Process.Memory.{built, fill_slots-built, free_slots-built}

-- The blocks of an array that can be released.
abbrev pub array_blocks : Option ℕ → ℕ
array_blocks none = 0
array_blocks (some n) = n

-- Both arrays can be released, and `base` blocks belong to others.
pub record Tidy (base : ℕ) (o : Options) : Type 0 where
  pub args_end : free_array o.args ≡ some (array_blocks (free_array o.args))
  pub env_end : free_array o.env ≡ some (array_blocks (free_array o.env))
  pub counted :
      o.blocks
      ≡ base
        + array_blocks (free_array o.args)
        + array_blocks (free_array o.env)
        + free_ptr o.cwd
        + free_ptr o.file
        + free_ptr o.stdio_container

-- What a part of the preparation may leave: no undefined behaviour, and memory that is in order.
pub record Good (base : ℕ) (r : Result (Unit {0}) × Options) : Type 0 where
  pub defined : r.0 ≢ aborted
  pub tidy : Tidy base r.1
  pub finished : r.1.stdio ≡ r.1.stdio_container ⊎ (r.1.stdio ≡ none)
  pub complete : r.0 ≡ ok tt → r.1.stdio ≡ r.1.stdio_container

-- An exception is no undefined behaviour.
pub raised_defined : (e : Exc) → ◌≡◌ {A = Result (Unit {0})} (raised e) aborted → ⊥
raised_defined e h = cc

-- What is left where the preparation stops with an exception.
pub stopped :
    (base : ℕ) (e : Exc) (o : Options) → Tidy base o → o.stdio ≡ none → Good base (raised e, o)
stopped base e o v rest = record {
  defined = raised_defined e;
  tidy = v;
  finished = inr rest;
  complete = λ h. cc;
}

-- The array of the arguments is accounted for, whether its loop succeeded or not.
args-Tidy :
    (base : ℕ) (items : List Item) (o : Options)
    → Tidy base o
    → o.args ≡ none
    → Tidy base (record o { args = some (built items).1; blocks = o.blocks + 1 + made items })
-- The array of the arguments is accounted for, whether its loop succeeded or not.
args-Tidy base items o v first = record {
  args_end = rw (free_slots-built items);
  env_end = v.env_end;
  counted = rw (free_slots-built items) (ground (arith, v.counted, first));
}

-- So is the array of the environment.
pub env-Tidy :
    (base : ℕ) (items : List Item) (o : Options)
    → Tidy base o
    → o.env ≡ none
    → Tidy base (record o { env = some (built items).1; blocks = o.blocks + 1 + made items })
env-Tidy base items o v first = record {
  args_end = v.args_end;
  env_end = rw (free_slots-built items);
  counted = rw (free_slots-built items) (ground (arith, v.counted, first));
}

-- `done` is the state that the loop leaves, whether it failed or not.
pub end_fill_then :
    (base : ℕ) (set : List Slot → Options → Options) (items : List Item) (p : Bool × List Slot)
    (o : Options) (k : Options → Result (Unit {0}) × Options)
    → p ≡ built items
    → let done = set (built items).1 (record o { blocks = o.blocks + made items }) in
      Tidy base done
      → done.stdio ≡ none
      → ((built items).0 ≡ true → Good base (k done))
      → let r = end_fill set (made items) (some p) o in Good base (bind r.0 r.1 (λ u. k))
end_fill_then base set items (false, a) o k same v rest next =
    subst
      (λ (q : Bool × List Slot).
        Good base (raised by_callee, set q.1 (record o { blocks = o.blocks + made items })))
      (sym same) (stopped base by_callee _ v rest)
end_fill_then base set items (true, a) o k same v rest next =
    subst
      (λ (q : Bool × List Slot).
        Good base (k (set q.1 (record o { blocks = o.blocks + made items }))))
      (sym same) (next (ap (λ (q : Bool × List Slot). q.0) (sym same)))

first_built :
    (x : Item) (r : List Item)
    → (built (x ∷ r)).0 ≡ true
    → (s : Str) × (first_arg (some (built (x ∷ r)).1) ≡ ok s)
first_built no_string r h = (cc)
first_built (text s) r h = (s, refl)

-- A length that is not 0.
pub suc_nonzero : (n : ℕ) → (suc n == 0) ≡ false
suc_nonzero n = ground arith

args_array_then :
    (base : ℕ) (malloc : Bool) (x : Item) (r : List Item) (o : Options)
    (k : Options → Result (Unit {0}) × Options)
    → Tidy base o
    → o.args ≡ none
    → o.stdio ≡ none
    → ((a : List Slot) (n : ℕ) (s : Str)
        → let t = record o { args = some a; blocks = n } in
          Tidy base t → first_arg (some a) ≡ ok s → Good base (k t))
    → let q = build_array set_args malloc (x ∷ r) o in Good base (bind q.0 q.1 (λ u. k))
args_array_then base false x r o k v first rest next =
    stopped base (set_string memory_error) o v rest
args_array_then base true x r o k v first rest next = rw (fill_slots-built (x ∷ r)) (
    end_fill_then base set_args (x ∷ r) (built (x ∷ r))
      (set_args (malloc_slots (suc (length (x ∷ r)))) (record o { blocks = o.blocks + 1 })) k refl
      (args-Tidy base (x ∷ r) o v first) rest
      (λ all.
        let f = first_built x r all in
        next (built (x ∷ r)).1 (o.blocks + 1 + made (x ∷ r)) f.0 (args-Tidy base (x ∷ r) o v first)
          f.1))

-- What follows the stage of the arguments starts in order, with a first argument.
pub args_stage_then :
    (base : ℕ) (malloc : Bool) (a : Arguments) (o : Options)
    (k : Options → Result (Unit {0}) × Options)
    → Tidy base o
    → o.args ≡ none
    → o.stdio ≡ none
    → ((a : List Slot) (n : ℕ) (s : Str)
        → let t = record o { args = some a; blocks = n } in
          Tidy base t → first_arg (some a) ≡ ok s → Good base (k t))
    → let q = args_stage malloc a o in Good base (bind q.0 q.1 (λ u. k))
unfolding args_stage
args_stage_then base malloc (single x) o k v first rest next =
    args_array_then base malloc x [] o k v first rest next
args_stage_then base malloc (sequence []) o k v first rest next =
    stopped base (set_string value_error) o v rest
args_stage_then base malloc (sequence (x ∷ r)) o k v first rest next =
    rw (suc_nonzero (length r)) (args_array_then base malloc x r o k v first rest next)
