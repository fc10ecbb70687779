-- ===== src/Process/Stages.antt =====
-- The stages of Process_func_spawn behind the one of its arguments, and all of them together
-- (src/process.c).
use pyuv.Base.{
  is_some, ◌||◌, ℕ, suc, ◌+◌, ◌≡◌, ◌∙◌, ◌≢◌, refl, Bool, true, false, Option, none, some, List, [],
  ◌∷◌, map, length, arith, inl, inr, Option-cases, Bool-cases,
}
use mathlib.Core.Path.{sym}
use pyuv.Error.{memory_error}
use pyuv.Py.{set_string, by_callee, Result, ok, raised, aborted, bind}
use pyuv.Process.Arrays.{Str, Slot, malloc_slots, Entry, env_item}
use pyuv.Process.StdIo.{StdIo, Container, with_stream, with_fd, ignored, container_of}
use pyuv.Process.Options.{
  Options, no_options, made, set_env, first_arg, file_stage, cwd_stage, env_stage, add_container,
  containers, end_stdio, stdio_stage, Plan, prepare,
}
use pyuv.Process.Memory.{built, fill_slots-built}
use pyuv.Process.Release.{
  raised_defined, Tidy, Good, stopped, env-Tidy, end_fill_then, suc_nonzero, args_stage_then,
}
use pyuv.Process.StdIo.{int_bit, create_pipe, inherit_stream, inherit_fd}

module _ (base : ℕ) (o : Options) (v : Tidy base o) (rest : o.stdio ≡ none) where
  file-Tidy :
      (f : Str) → o.file ≡ none → Tidy base (record o { file = some f; blocks = o.blocks + 1 })
  file-Tidy f first = record {
    args_end = v.args_end;
    env_end = v.env_end;
    counted = ground (arith, v.counted, first);
  }

  file_stage_then :
      (malloc : Bool) (executable : Option (Option Str)) (s : Str)
      (k : Options → Result (Unit {0}) × Options)
      → o.file ≡ none
      → first_arg o.args ≡ ok s
      → ((f : Str) (n : ℕ)
          → let t = record o { file = some f; blocks = n } in Tidy base t → Good base (k t))
      → let q = file_stage malloc executable o in Good base (bind q.0 q.1 (λ u. k))
  unfolding file_stage
  file_stage_then malloc (some none) s k first arg next = stopped base by_callee o v rest
  file_stage_then malloc (some (some f)) s k first arg next =
      next f (o.blocks + 1) (file-Tidy f first)
  file_stage_then false none s k first arg next =
      rw arg (stopped base (set_string memory_error) o v rest)
  file_stage_then true none s k first arg next = rw arg (next s (o.blocks + 1) (file-Tidy s first))

  cwd_stage_then :
      (cwd : Option (Option Str)) (k : Options → Result (Unit {0}) × Options)
      → o.cwd ≡ none
      → ((c : Option Str) (n : ℕ)
          → let t = record o { cwd = c; blocks = n } in Tidy base t → Good base (k t))
      → let q = cwd_stage cwd o in Good base (bind q.0 q.1 (λ u. k))
  unfolding cwd_stage
  cwd_stage_then none k first next = next o.cwd o.blocks v
  cwd_stage_then (some none) k first next = stopped base by_callee o v rest
  cwd_stage_then (some (some c)) k first next = next (some c) (o.blocks + 1) (record {
    args_end = v.args_end;
    env_end = v.env_end;
    counted = ground (arith, v.counted, first);
  })

  env_stage_then :
      (malloc : Bool) (env : Option (List Entry)) (k : Options → Result (Unit {0}) × Options)
      → o.env ≡ none
      → ((e : Option (List Slot)) (n : ℕ)
          → let t = record o { env = e; blocks = n } in Tidy base t → Good base (k t))
      → let q = env_stage malloc env o in Good base (bind q.0 q.1 (λ u. k))
  unfolding env_stage
  env_stage_then malloc none k first next = next o.env o.blocks v
  env_stage_then malloc (some []) k first next = next o.env o.blocks v
  env_stage_then false (some (x ∷ r)) k first next =
      rw (suc_nonzero (length r)) (stopped base (set_string memory_error) o v rest)
  env_stage_then true (some (x ∷ r)) k first next =
      let items = map env_item (x ∷ r) in
      rw (suc_nonzero (length r), fill_slots-built items)
        (end_fill_then base set_env items (built items)
          (set_env (malloc_slots (suc (length items))) (record o { blocks = o.blocks + 1 })) k refl
          (env-Tidy base items o v first) rest
          (λ all.
            next (some (built items).1) (o.blocks + 1 + made items)
              (env-Tidy base items o v first)))

-- Where the flags of a StdIO say that it has a stream, it has one.
abbrev pub HasStream : StdIo → Type 0
HasStream s =
    (int_bit create_pipe s.flags || int_bit inherit_stream s.flags) ≡ true → is_some s.stream ≡ true

abbrev pub AllHaveStream : List (Option StdIo) → Type 0
AllHaveStream [] = Unit {0}
AllHaveStream (none ∷ r) = AllHaveStream r
AllHaveStream (some s ∷ r) = HasStream s × AllHaveStream r

abbrev pub StreamsReady : Option (List (Option StdIo)) → Type 0
StreamsReady none = Unit {0}
StreamsReady (some items) = AllHaveStream items

-- Then no NULL is used.
pub container_of_defined : (s : StdIo) → HasStream s → (c : Container) × (container_of s ≡ ok c)
unfolding container_of
container_of_defined s h =
    elim (Bool-cases (int_bit create_pipe s.flags || int_bit inherit_stream s.flags)) [
      | inl piped ↦ elim (Option-cases s.stream) [
        | inl missing ↦ absurd (ground (arith, h piped, missing))
        | inr (o, there) ↦ (with_stream o, rw (piped, there))
      ]
      | inr plain ↦ elim (Bool-cases (int_bit inherit_fd s.flags)) [
        | inl by_fd ↦ (with_fd s.fd, rw (plain, by_fd))
        | inr ignore ↦ (ignored, rw (plain, ignore))
      ]
    ]

add_container_defined :
    (c : Container) (r : Result (List Container)) → r ≢ aborted → add_container (ok c) r ≢ aborted
add_container_defined c (ok cs) h e = cc
add_container_defined c (raised x) h e = cc
add_container_defined c aborted h e = h e

containers_defined :
    (items : List (Option StdIo)) → AllHaveStream items → containers items ≢ aborted
containers_defined [] h e = cc
containers_defined (none ∷ r) h e = cc
containers_defined (some s ∷ r) h e =
    let c = container_of_defined s h.0 in
    let kept : add_container (container_of s) (containers r) ≢ aborted =
      rw c.1 (add_container_defined c.0 (containers r) (containers_defined r h.1)) in
    kept e

-- After the loop over `stdio`.
pub end_stdio-Good :
    (base : ℕ) (o : Options) (r : Result (List Container))
    → r ≢ aborted
    → Tidy base o
    → o.stdio ≡ none
    → o.stdio_container ≡ none
    → Good base (end_stdio r (record o { stdio_container = some []; blocks = o.blocks + 1 }))
end_stdio-Good base o (ok cs) h v rest first = record {
  defined = λ e. cc;
  tidy = record {
    args_end = v.args_end;
    env_end = v.env_end;
    counted = ground (arith, v.counted, first);
  };
  finished = inl refl;
  complete = λ h. refl;
}
end_stdio-Good base o (raised e) h v rest first = record {
  defined = raised_defined e;
  tidy = record {
    args_end = v.args_end;
    env_end = v.env_end;
    counted = ground (arith, v.counted, first);
  };
  finished = inr rest;
  complete = λ h. cc;
}
end_stdio-Good base o aborted h v rest first = absurd (h refl)

stdio_stage-Good :
    (base : ℕ) (malloc : Bool) (streams : Option (List (Option StdIo))) (o : Options)
    → StreamsReady streams
    → Tidy base o
    → o.stdio ≡ none
    → o.stdio_container ≡ none
    → Good base (stdio_stage malloc streams o)
unfolding stdio_stage
stdio_stage-Good base malloc none o h v rest first = record {
  defined = λ e. cc;
  tidy = v;
  finished = inr rest;
  complete = λ h. rest ∙ sym first;
}
stdio_stage-Good base false (some items) o h v rest first =
    stopped base (set_string memory_error) o v rest
stdio_stage-Good base true (some items) o h v rest first =
    end_stdio-Good base o (containers items) (containers_defined items h) v rest first

no_options-Tidy : (base : ℕ) → Tidy base (no_options base)
no_options-Tidy base = record { args_end = refl; env_end = refl; counted = omega arith }

-- The preparation as a whole.
pub prepare-Good :
    (base : ℕ) (p : Plan) → StreamsReady p.streams → Good base (prepare p (no_options base))
unfolding prepare
prepare-Good base p ready =
    args_stage_then base p.args_malloc p.arguments (no_options base) _ (no_options-Tidy base) refl
      refl
      (λ a n s v arg.
        file_stage_then base _ v refl p.file_malloc p.executable s _ refl arg (λ f m w.
          cwd_stage_then base _ w refl p.directory _ refl (λ c i x.
            env_stage_then base _ x refl p.env_malloc p.environment _ refl
              (λ e l y. stdio_stage-Good base p.stdio_malloc p.streams _ ready y refl refl))))
