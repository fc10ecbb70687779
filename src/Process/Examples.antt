-- ===== src/Process/Examples.antt =====
-- A process at address 7 of the loop at address 5, with a function at address 9, for "ls".
use pyuv.Base.{
  ◌+◌, ◌≡◌, ◌≢◌, refl, arith, true, false, Option, none, some, [], ◌∷◌, map, length, suc, ◌==◌,
  if◌then◌else◌,
}
use pyuv.Base.Int.{pos}
use pyuv.Py.{Obj, Refs, incref, ok, aborted, is_ok, Refs}
use pyuv.Uv.{phases, Phase, opened}
use pyuv.Process.StdIo.{StdIo}
use pyuv.Process.Arrays.{Str, text, fill_slots, malloc_slots, strings, entry, env_item}
use pyuv.Process.Options.{no_options, single, Plan, prepare, cleanup}
use pyuv.Process.Memory.{assignment, entry_of, fill_slots-strings}
use pyuv.Process.Release.{Tidy}
use pyuv.Process.Stages.{HasStream}
use pyuv.Process.Cleanup.{leaked, spawn_memory}
use pyuv.Process.Spawn.{
  Process, process_new, with_refs, SpawnArgs, spawn_process, spawned, process_exit_cb,
}
use pyuv.Process.Object.{
  Outcome, Counted, called_object, begun, spawned-Counted, spawn_process-Outcome, exit_cb-Counted,
}

abbrev ls : Str
ls = 108 ∷ 115 ∷ []

fill_slots-strings_example :
    (fill_slots (map text (ls ∷ [])) 0 (malloc_slots (suc (length (map text (ls ∷ [])))))
      ≡ some (true, strings (ls ∷ [])))
    × (fill_slots
          (map env_item (map entry_of ((ls, ls) ∷ [])))
          0
          (malloc_slots (suc (length (map env_item (map entry_of ((ls, ls) ∷ []))))))
        ≡ some (true, strings (map assignment ((ls, ls) ∷ []))))
fill_slots-strings_example = fill_slots-strings (ls ∷ []) ((ls, ls) ∷ [])

-- Standard input is inherited by its descriptor.
abbrev inherits : StdIo
inherits = record { stream = none; fd = pos 0; flags = pos 2; refs = λ o. 1 }

inherits_ready : HasStream inherits
inherits_ready b = ground (arith, b)

abbrev plan : Plan
plan = record {
  arguments = single (text ls);
  executable = none;
  directory = none;
  environment = some (entry ls ls ∷ []);
  streams = some (some inherits ∷ []);
  args_malloc = true;
  file_malloc = true;
  env_malloc = true;
  stdio_malloc = true;
}

spawn_memory_example :
    ((prepare plan (no_options 3)).0 ≢ aborted)
    × (cleanup (prepare plan (no_options 3)).1 ≡ some (3 + leaked (prepare plan (no_options 3)).1))
    × ((prepare plan (no_options 3)).0 ≡ ok tt → cleanup (prepare plan (no_options 3)).1 ≡ some 3)
spawn_memory_example = spawn_memory 3 plan (inherits_ready, tt)

nothing_yet : Tidy 0 (no_options 0)
nothing_yet = record { args_end = refl; env_end = refl; counted = omega arith }

abbrev refs0 : Refs
refs0 o = if o == 7 then 0 else 1

abbrev spawn_arguments : SpawnArgs
spawn_arguments = record {
  loop_arg = 5;
  callback = some 9;
  known_args = true;
  stdio_arg = some 11;
  known_stdio = true;
  plan = plan;
}

spawn_process-Outcome_example :
    Outcome phases 7 refs0
      (is_ok (prepare plan (no_options 0)).0)
      9
      (spawn_process phases 7 9
        (λ o. (pos 0, opened))
        0
        spawn_arguments
        (process_new opened (incref 7 refs0))).0
spawn_process-Outcome_example =
    spawn_process-Outcome phases 7 9 (λ o. (pos 0, opened)) 0 spawn_arguments opened refs0 refl
      (omega arith) (inherits_ready, tt) (λ o. refl)

abbrev running : Process Phase
running =
    (spawned phases 7 9 none (called_object phases 7 opened (begun phases 7 opened 5 refs0))).1

-- A function that returns None, with a reference to it.
abbrev returns_none : Obj → Process Phase → Option Obj × Process Phase
returns_none cb p = (some 0, with_refs (incref 0 p.refs) p)

exit_cb-Counted_example :
    ((process_exit_cb returns_none (λ p. p) 20 21 7 running).0 ≡ ok tt)
    × Counted phases 7
        (incref 7 refs0)
        false
        (process_exit_cb returns_none (λ p. p) 20 21 7 running).1
unfolding spawned
exit_cb-Counted_example =
    exit_cb-Counted phases 7 returns_none (λ p. p) 20 21 9 (incref 7 refs0) (incref 7 refs0) running
      refl (spawned-Counted phases 7 opened opened 5 9 none refs0 refl)
      (λ q c o. ground (arith, c o))
