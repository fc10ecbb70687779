-- ===== src/Setup/Examples.antt =====
-- The main module at address 20 and two submodules at 21 and 22.
use pyuv.Base.{ℕ, ◌≡◌, refl, true, false, Option, none, some, [], ◌∷◌}
use pyuv.Py.{Obj, Refs, is}
use pyuv.Setup.{Submodule, imported, refused, crashed, Imported, init_pyuv}

abbrev sub : Option Obj → Submodule
sub m = record { made = m; added = true; listed = true }

-- The counts of the three objects afterwards.
abbrev counts : Imported → Option (ℕ × ℕ × ℕ)
counts (imported s) = some (s.refs 20, s.refs 21, s.refs 22)
counts (refused s) = some (s.refs 20, s.refs 21, s.refs 22)
counts crashed = none

abbrev nobody : Refs
nobody o = 0

import_works :
    counts
      (init_pyuv (some 20) (sub (some 21) ∷ sub (some 22) ∷ []) (true ∷ []) [] (true ∷ []) nobody)
    ≡ some (1, 2, 2)
unfolding init_pyuv is
import_works = refl

import_fails :
    counts (init_pyuv (some 20) (sub (some 21) ∷ sub none ∷ []) (true ∷ []) [] [] nobody)
    ≡ some (0, 1, 0)
unfolding init_pyuv is
import_fails = refl

import_leaks :
    counts (init_pyuv (some 20) (sub (some 21) ∷ sub (some 22) ∷ []) (false ∷ []) [] [] nobody)
    ≡ some (1, 2, 2)
unfolding init_pyuv is
import_leaks = refl
