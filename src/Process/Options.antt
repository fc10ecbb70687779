-- ===== src/Process/Options.antt =====
-- The options that Process_func_spawn prepares for uv_spawn, and their release (src/process.c).
use pyuv.Base.{
  ℕ, suc, ◌+◌, ◌-◌, Bool, true, false, not, Option, none, some, List, [], ◌∷◌, map, length, ◌==◌,
  if◌then◌else◌,
}
use pyuv.Error.{type_error, value_error, memory_error}
use pyuv.Py.{Result, M, ok, raised, aborted, by_callee, set_string, ◌>>◌, guard, put}
use pyuv.Process.Arrays.{
  and_then, Str, Slot, str, malloc_slots, Item, text, no_string, fill_slots, free_slots, Entry,
  env_item,
}
use pyuv.Process.StdIo.{StdIo, Container, container_of}

-- uv_process_options_t and the local stdio_container, as far as memory goes. `blocks` is the number
-- of blocks that PyMem_Malloc has given out.
pub record Options : Type 0 where
  pub args : Option (List Slot)
  pub env : Option (List Slot)
  pub file : Option Str
  pub cwd : Option Str
  pub stdio : Option (List Container)
  pub stdio_container : Option (List Container)
  pub blocks : ℕ

-- memset(&options, 0, sizeof(uv_process_options_t))
abbrev pub no_options : ℕ → Options
no_options blocks = record {
  args = none;
  env = none;
  file = none;
  cwd = none;
  stdio = none;
  stdio_container = none;
  blocks = blocks;
}

-- The strings that the loop over `items` has made when it ends.
abbrev pub made : List Item → ℕ
made [] = 0
made (no_string ∷ r) = 0
made (text s ∷ r) = suc (made r)

-- What the loops leave in `options`; `set` stores the array.
abbrev pub end_fill :
    (set : List Slot → Options → Options) → ℕ → Option (Bool × List Slot) → M Options (Unit {0})
end_fill set n none o = (aborted, o)
end_fill set n (some (true, a)) o = (ok tt, set a (record o { blocks = o.blocks + n }))
end_fill set n (some (false, a)) o = (raised by_callee, set a (record o { blocks = o.blocks + n }))

-- An array of n + 1 elements, and the loop that fills it.
abbrev pub build_array :
    (set : List Slot → Options → Options) → (malloc : Bool) → List Item → M Options (Unit {0})
build_array set malloc items o =
    (do
      guard malloc memory_error
      put (set (malloc_slots (suc (length items))) (record o { blocks = o.blocks + 1 }))
      end_fill set (made items) (fill_slots items 0 (malloc_slots (suc (length items)))))
      o

abbrev pub set_args : List Slot → Options → Options
set_args a o = record o { args = some a }

abbrev pub set_env : List Slot → Options → Options
set_env a o = record o { env = some a }

-- The argument `args`: a text, which pyuv_dup_strobj copies or not, or a sequence by its items.
pub data Arguments : Type 0 where
  single : Item → Arguments
  sequence : List Item → Arguments

unfoldable pub args_stage : (malloc : Bool) → Arguments → M Options (Unit {0})
unfolding fill_slots
args_stage malloc (single item) = build_array set_args malloc (item ∷ [])
args_stage malloc (sequence items) = do
  guard (not (length items == 0)) value_error
  build_array set_args malloc items

-- A copy of a string: pyuv_dup_strobj, or the one of args[0].
abbrev pub first_arg : Option (List Slot) → Result Str
first_arg (some (str s ∷ a)) = ok s
first_arg a = aborted

abbrev pub copy_file : Option Str → M Options (Unit {0})
copy_file none o = (raised by_callee, o)
copy_file (some s) o = (ok tt, record o { file = some s; blocks = o.blocks + 1 })

-- strlen(options.args[0]), and the copy if there is memory
abbrev pub copy_first : (malloc : Bool) → Result Str → M Options (Unit {0})
copy_first malloc (ok s) o = (do guard malloc memory_error; copy_file (some s)) o
copy_first malloc (raised e) o = (aborted, o)
copy_first malloc aborted o = (aborted, o)

-- `executable` is None, or a text that pyuv_dup_strobj copies or not.
unfoldable pub file_stage :
    (malloc : Bool) → (executable : Option (Option Str)) → M Options (Unit {0})
file_stage malloc (some copy) o = copy_file copy o
file_stage malloc none o = copy_first malloc (first_arg o.args) o

unfoldable pub cwd_stage : (cwd : Option (Option Str)) → M Options (Unit {0})
cwd_stage none o = (ok tt, o)
cwd_stage (some none) o = (raised by_callee, o)
cwd_stage (some (some s)) o = (ok tt, record o { cwd = some s; blocks = o.blocks + 1 })

-- `env` is NULL, or a dictionary by its entries.
unfoldable pub env_stage : (malloc : Bool) → Option (List Entry) → M Options (Unit {0})
unfolding fill_slots env_item
env_stage malloc none o = (ok tt, o)
env_stage malloc (some entries) o =
    if length entries == 0 then (ok tt, o) else build_array set_env malloc (map env_item entries) o

abbrev pub add_container : Result Container → Result (List Container) → Result (List Container)
add_container (ok c) (ok cs) = ok (c ∷ cs)
add_container (ok c) r = r
add_container (raised e) r = raised e
add_container aborted r = aborted

-- An element of `stdio`: a StdIO, or something else.
abbrev pub containers : List (Option StdIo) → Result (List Container)
containers [] = ok []
containers (none ∷ r) = raised (set_string type_error)
containers (some s ∷ r) = add_container (container_of s) (containers r)

abbrev pub end_stdio : Result (List Container) → M Options (Unit {0})
end_stdio (ok cs) o = (ok tt, record o { stdio_container = some cs; stdio = some cs })
end_stdio (raised e) o = (raised e, o)
end_stdio aborted o = (aborted, o)

-- options.stdio is set behind the loop only.
unfoldable pub stdio_stage : (malloc : Bool) → Option (List (Option StdIo)) → M Options (Unit {0})
stdio_stage malloc none o = (ok tt, o)
stdio_stage malloc (some items) o =
    (do
      guard malloc memory_error
      put (record o { stdio_container = some []; blocks = o.blocks + 1 })
      end_stdio (containers items))
      o

-- All that the caller and the interpreter give.
pub record Plan : Type 0 where
  pub arguments : Arguments
  pub executable : Option (Option Str)
  pub directory : Option (Option Str)
  pub environment : Option (List Entry)
  pub streams : Option (List (Option StdIo))
  pub args_malloc : Bool
  pub file_malloc : Bool
  pub env_malloc : Bool
  pub stdio_malloc : Bool

-- Process_func_spawn from "process args" to uv_spawn
unfoldable pub prepare : Plan → M Options (Unit {0})
unfolding args_stage file_stage cwd_stage env_stage stdio_stage
prepare p = do
  args_stage p.args_malloc p.arguments
  file_stage p.file_malloc p.executable
  cwd_stage p.directory
  env_stage p.env_malloc p.environment
  stdio_stage p.stdio_malloc p.streams

-- The blocks of an array that is released: its strings and itself.
abbrev pub free_array : Option (List Slot) → Option ℕ
free_array none = some 0
free_array (some a) = and_then (free_slots a) (λ n. some (n + 1))

abbrev pub free_ptr {ℓ} : {A : Type ℓ} → Option A → ℕ
free_ptr none = 0
free_ptr (some a) = 1

-- The label `cleanup`: the blocks that are left; PyMem_Free(NULL) does nothing.
unfoldable pub cleanup : Options → Option ℕ
unfolding free_slots
cleanup o = and_then (free_array o.args) (λ a.
    and_then (free_array o.env)
      (λ e. some (o.blocks - a - e - free_ptr o.cwd - free_ptr o.file - free_ptr o.stdio)))
