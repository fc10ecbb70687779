-- ===== src/Dns/Examples.antt =====
-- A lookup by the request at address 7, on the loop at address 5 with the function at address 9.
use pyuv.Base.{ℕ, ◌≤◌, List, [], ◌∷◌, ◌≡◌, true, false, none, some, ◌==◌, if◌then◌else◌}
use pyuv.Base.Int.{pos, negsuc, is_zero}
use pyuv.Py.{none_obj, Refs}
use pyuv.Dns.{no_name, of_text, of_int, Query, Answer}
use pyuv.Dns.Results.{AddrInfo, Built, Space, Ample, usable, process_result, process_result_lists}

abbrev refs0 : Refs
refs0 o = if o == 7 then 0 else 1

abbrev query : Query
query = record { loop = 5; host = of_text (some 12); service = of_int (pos 80); callback = 9 }

abbrev by_name : Query
by_name = record { loop = 5; host = of_text (some 12); service = no_name; callback = none_obj }

abbrev answer : Answer
answer = record { alloc = some 7; sliced = true; code = pos 0; value = some 20 }

-- Two entries, the first with no address.
abbrev entries : List (AddrInfo ℕ)
entries =
    record {
      family = pos 2;
      socktype = pos 1;
      protocol = pos 6;
      addrlen = 0;
      canonname = none;
      addr = some 20;
    }
    ∷ record {
      family = pos 2;
      socktype = pos 1;
      protocol = pos 6;
      addrlen = 16;
      canonname = none;
      addr = some 21;
    }
    ∷ []

abbrev ample : ℕ → Space
ample i = record { item_made = true; appended = true }

process_result_lists_example :
    let r = process_result some (pos 0) true ample entries in
    (is_zero (pos 0) ≡ false → (r.0 ≡ pos 0) × (r.1 ≡ none))
    × (is_zero (pos 0) ≡ true → true ≡ false → (r.0 ≡ negsuc 11) × (r.1 ≡ none))
    × (is_zero (pos 0) ≡ true
        → true ≡ true
        → (b : Built ℕ) × (r ≡ (pos 0, some b))
          × (Ample ample → (b.items ≡ usable some entries) × (b.lost ≡ 0))
          × (b.lost ≤ 1))
process_result_lists_example = process_result_lists some (pos 0) true ample entries
