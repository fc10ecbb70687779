-- ===== src/Process/Cleanup.antt =====
-- The label `cleanup` of Process_func_spawn (src/process.c), after the preparation.
use pyuv.Base.{ℕ, ◌+◌, ◌-◌, ◌≤◌, ◌≡◌, ◌∙◌, ◌≢◌, true, Option, none, some, List, [], arith, inl, inr}
use mathlib.Core.Path.{ap}
use pyuv.Py.{Exc, Result, ok, raised, aborted}
use pyuv.Process.Arrays.{and_then}
use pyuv.Process.StdIo.{StdIo, Container}
use pyuv.Process.Options.{
  Options, no_options, containers, stdio_stage, Plan, prepare, free_array, free_ptr, cleanup,
}
use pyuv.Process.Release.{Tidy, Good, array_blocks}
use pyuv.Process.Stages.{StreamsReady, end_stdio-Good, prepare-Good}

-- How many blocks `cleanup` leaves: the array of containers, where the loop over `stdio` stopped.
abbrev pub leaked : Options → ℕ
leaked o = free_ptr o.stdio_container - free_ptr o.stdio

none_left :
    (base : ℕ) (s t : Option (List Container)) → s ≡ t → base + (free_ptr t - free_ptr s) ≡ base
none_left base s t h = rw h (omega arith)

released :
    (x y : Option ℕ) (blocks base c f s t : ℕ)
    → x ≡ some (array_blocks x)
    → y ≡ some (array_blocks y)
    → blocks ≡ base + array_blocks x + array_blocks y + c + f + t
    → s ≤ t
    → and_then x (λ a. and_then y (λ e. some (blocks - a - e - c - f - s))) ≡ some (base + (t - s))
released none y blocks base c f s t hx hy h le = cc
released (some a) none blocks base c f s t hx hy h le = cc
released (some a) (some e) blocks base c f s t hx hy h le = ap some (omega arith)

pub cleanup-Good :
    (base : ℕ) (r : Result (Unit {0}) × Options)
    → Good base r
    → cleanup r.1 ≡ some (base + leaked r.1)
unfolding cleanup
cleanup-Good base r g =
    released (free_array r.1.args) (free_array r.1.env) r.1.blocks base (free_ptr r.1.cwd)
      (free_ptr r.1.file) (free_ptr r.1.stdio) (free_ptr r.1.stdio_container) g.tidy.args_end
      g.tidy.env_end g.tidy.counted
      (elim g.finished [
        | inl same ↦ rw same (omega arith)
        | inr without ↦ rw without (omega arith)
      ])

-- For a plan whose StdIO objects have the streams that their flags call for: wherever the
-- preparation stops, no NULL is used, no access is out of bounds and no element is read that was not
-- set, in the loops of `cleanup` too; when it succeeds, `cleanup` leaves no block behind, and when it
-- fails, none but the array of containers.
pub spawn_memory :
    (base : ℕ) (p : Plan)
    → StreamsReady p.streams
    → let r = prepare p (no_options base) in
      (r.0 ≢ aborted)
      × (cleanup r.1 ≡ some (base + leaked r.1))
      × (r.0 ≡ ok tt → cleanup r.1 ≡ some base)
spawn_memory base p ready =
    let g = prepare-Good base p ready in
    (
      g.defined,
      cleanup-Good base (prepare p (no_options base)) g,
      λ done.
          cleanup-Good base (prepare p (no_options base)) g
          ∙ ap some (none_left base _ _ (g.complete done)),
    )

-- Where the loop over `stdio` meets something that is no StdIO, the array of containers is never
-- released: one block is left of a preparation that was in order before.
pub stdio_leaks :
    (base : ℕ) (items : List (Option StdIo)) (e : Exc) (o : Options)
    → Tidy base o
    → o.stdio ≡ none
    → o.stdio_container ≡ none
    → containers items ≡ raised e
    → cleanup (stdio_stage true (some items) o).1 ≡ some (base + 1)
unfolding stdio_stage
stdio_leaks base items e o v rest first fails = rw fails (
    cleanup-Good base (raised e, record o { stdio_container = some []; blocks = o.blocks + 1 })
      (end_stdio-Good base o (raised e) (λ h. cc) v rest first)
    ∙ ap some (rw rest (omega arith)))
