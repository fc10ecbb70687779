-- ===== src/Buffer/Sharing.antt =====
-- Who has the slab. A request for a buffer that libuv has made and not yet delivered is a number;
-- `owners` are those that were given the slab.
use pyuv.Base.{ℕ, ◌≡◌, refl, true, false, List, [], ◌∷◌, ◌++◌, arith, ap, ◌∙◌, ◌==◌, if◌then◌else◌}
use pyuv.Buffer.{Buffer, alloc_cb, unlock}

pub record Reads : Type 0 where
  pub buffer : Buffer
  pub owners : List ℕ

-- libuv asks for a buffer for a read, or delivers the read.
pub data Event : Type 0 where
  alloc deliver : ℕ → Event

abbrev pub without : ℕ → List ℕ → List ℕ
without r [] = []
without r (x ∷ xs) = let rest = without r xs in if x == r then rest else x ∷ rest

-- One call of alloc_cb, or of a read callback, which unlocks the buffer whoever has it.
unfoldable pub step : Reads → Event → Reads
step s (alloc r) =
    let (g, b) = alloc_cb s.buffer in
    record { buffer = b; owners = if g.is_slab then r ∷ s.owners else s.owners }
step s (deliver r) = record { buffer = unlock s.buffer; owners = without r s.owners }

unfoldable pub run : Reads → List Event → Reads
run s [] = s
run s (e ∷ es) = run (step s e) es

abbrev pub start : Reads
start = record { buffer = record { in_use = false }; owners = [] }

-- Every request is delivered before the next is made, as a loop does that reads when the
-- descriptor is ready.
abbrev pub in_turn : List ℕ → List Event
in_turn [] = []
in_turn (r ∷ rs) = alloc r ∷ deliver r ∷ in_turn rs

run-append : (s : Reads) (xs ys : List Event) → run s (xs ++ ys) ≡ run (run s xs) ys
unfolding run
run-append s [] ys = refl
run-append s (x ∷ xs) ys = run-append (step s x) xs ys

in_turn_free : (rs : List ℕ) → run start (in_turn rs) ≡ start
unfolding run step alloc_cb unlock
in_turn_free [] = refl
in_turn_free (r ∷ rs) = ground (arith, in_turn_free rs)

last_alloc :
    (rs : List ℕ) (r : ℕ)
    → run start (in_turn rs ++ alloc r ∷ [])
      ≡ record { buffer = record { in_use = true }; owners = r ∷ [] }
unfolding run step alloc_cb
last_alloc rs r =
    run-append start (in_turn rs) (alloc r ∷ []) ∙ ap (λ s. run s (alloc r ∷ [])) (in_turn_free rs)

-- When every request is delivered before the next is made, whatever their number: the next request
-- gets the whole slab and is its only owner, and when the last is delivered the slab is free.
pub slab_exclusive :
    (rs : List ℕ) (r : ℕ)
    → ((run start (in_turn rs ++ alloc r ∷ [])).owners ≡ r ∷ [])
      × ((run start (in_turn rs ++ alloc r ∷ [])).buffer.in_use ≡ true)
      × (run start (in_turn rs) ≡ start)
slab_exclusive rs r = (
  ap (λ (s : Reads). s.owners) (last_alloc rs r),
  ap (λ (s : Reads). s.buffer.in_use) (last_alloc rs r),
  in_turn_free rs,
)

-- A request has no grant of the slab.
abbrev pub Absent : ℕ → List ℕ → Type 0
Absent r [] = Unit {0}
Absent r (x ∷ xs) = ((x == r) ≡ false) × Absent r xs
