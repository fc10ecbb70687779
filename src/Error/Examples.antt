-- ===== src/Error/Examples.antt =====
-- A module errno of two codes, and the exceptions where all calls succeed.
use pyuv.Base.{ℕ, ◌<◌, length, ◌≡◌, refl, true, false, none, some, List, [], ◌∷◌}
use pyuv.Base.Int.{negsuc}
use pyuv.Py.{ok, raised, aborted, by_callee}
use pyuv.Error.{ExcType}
use pyuv.Error.Classes.{Classes, Hierarchy, definitions, init_error, init_error_classes}
use pyuv.Error.Errno.{errorcode, Dicts, Errno, Room, BothWays, init_errno, init_errno-BothWays}

abbrev two_codes : List Errno
two_codes =
    record { name = "UV_EAGAIN"; number = negsuc 10 }
    ∷ record { name = "UV_EOF"; number = negsuc 4094 }
    ∷ []

abbrev room : ℕ → Room
room i = record { error_name = true; error_code = true; in_module = true; in_codes = true }

init_errno-BothWays_example :
    (d : Dicts) × (init_errno true true true room two_codes (λ j. none) ≡ ok d)
    × BothWays room 0 two_codes d
    × (d.names "errorcode" ≡ some errorcode)
init_errno-BothWays_example =
    init_errno-BothWays room two_codes (λ j. none) ((refl, tt), (refl, tt), (tt, tt, tt))
      (refl, (refl, tt))

init_error_classes_example :
    (init_error false (λ i. true) ≡ raised by_callee)
    × ((i : ℕ) → i < length definitions → true ≡ false → init_error true (λ i. true) ≡ aborted)
    × (((i : ℕ) → i < length definitions → true ≡ true)
        → (cs : Classes) × (init_error true (λ i. true) ≡ ok cs) × ((e : ExcType) → Hierarchy cs e))
init_error_classes_example = init_error_classes (λ i. true)
