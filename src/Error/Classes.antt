-- ===== src/Error/Classes.antt =====
-- The classes of src/error.c: init_error makes each exception by PyErr_NewException with a base, and
-- an `except` clause catches the class that it names and all that derive from it.
use pyuv.Base.{
  ℕ, zero, suc, ◌+◌, ◌≤◌, ◌<◌, length, ◌≡◌, refl, arith, Bool, true, false, not, ◌&&◌, ◌||◌, ◌==◌,
  ltb, Option, none, some, List, [], ◌∷◌, if◌then◌else◌, Bool-cases, inl, inr,
}
use pyuv.Py.{Result, ok, raised, aborted, by_callee}
use pyuv.Error.{
  ExcType, exception, type_error, value_error, overflow_error, runtime_error, memory_error,
  uv_error, thread_error, handle_error, handle_closed_error, async_error, timer_error,
  prepare_error, idle_error, check_error, signal_error, stream_error, tcp_error, pipe_error,
  tty_error, udp_error, poll_error, fs_error, fs_event_error, fs_poll_error, process_error,
}

-- Names are told apart by their place in the declaration.
abbrev pub place : ExcType → ℕ
place exception = 0
place type_error = 1
place value_error = 2
place overflow_error = 3
place runtime_error = 4
place memory_error = 5
place uv_error = 6
place thread_error = 7
place handle_error = 8
place handle_closed_error = 9
place async_error = 10
place timer_error = 11
place prepare_error = 12
place idle_error = 13
place check_error = 14
place signal_error = 15
place stream_error = 16
place tcp_error = 17
place pipe_error = 18
place tty_error = 19
place udp_error = 20
place poll_error = 21
place fs_error = 22
place fs_event_error = 23
place fs_poll_error = 24
place process_error = 25

-- What a global PyExc_... points to: NULL, or a class with its base.
pub data Class : Type 0 where
  missing : Class
  derived : ExcType → Class

abbrev pub Classes : Type 0
Classes = ExcType → Class

-- The built-in exceptions, below Exception, and Exception itself.
abbrev pub built_in : Classes
built_in e = if ltb (place e) 6 then derived exception else missing

-- PyErr_NewException takes Exception for a base that is NULL.
abbrev pub base_of : Option ExcType → Classes → ExcType
base_of none cs = exception
base_of (some b) cs = elim (cs b) [ missing ↦ exception | derived c ↦ b ]

-- `PyExc_... = PyErr_NewException(name, base, NULL);`
abbrev pub new_exception : Bool → ExcType → Option ExcType → Classes → Classes
new_exception done e base cs x =
    if place e == place x then if done then derived (base_of base cs) else missing else cs x

-- The calls in their order, each with its base.
abbrev pub definitions : List (ExcType × Option ExcType)
definitions =
    (uv_error, none)
    ∷ (thread_error, some uv_error)
    ∷ (handle_error, some uv_error)
    ∷ (handle_closed_error, some handle_error)
    ∷ (async_error, some handle_error)
    ∷ (timer_error, some handle_error)
    ∷ (prepare_error, some handle_error)
    ∷ (idle_error, some handle_error)
    ∷ (check_error, some handle_error)
    ∷ (signal_error, some handle_error)
    ∷ (stream_error, some handle_error)
    ∷ (tcp_error, some stream_error)
    ∷ (pipe_error, some stream_error)
    ∷ (tty_error, some stream_error)
    ∷ (udp_error, some handle_error)
    ∷ (poll_error, some handle_error)
    ∷ (fs_error, some uv_error)
    ∷ (fs_event_error, some handle_error)
    ∷ (fs_poll_error, some handle_error)
    ∷ (process_error, some handle_error)
    ∷ []

-- The sequence of calls from call `i` on, and whether every one made its class.
unfoldable pub new_all : (made : ℕ → Bool) → ℕ → List (ExcType × Option ExcType) → Classes → Classes
new_all made i [] cs = cs
new_all made i ((e, b) ∷ r) cs = new_all made (suc i) r (new_exception (made i) e b cs)

unfoldable pub all_made : (made : ℕ → Bool) → ℕ → List (ExcType × Option ExcType) → Bool
all_made made i [] = true
all_made made i ((e, b) ∷ r) = made i && all_made made (suc i) r

-- init_error: what it returns beside the module is what the globals point to. PyUVModule_AddType
-- hands a class that is NULL to PyType_Ready, which uses it.
unfoldable pub init_error : (module_made : Bool) → (made : ℕ → Bool) → Result Classes
unfolding new_all all_made
init_error module_made made =
    if module_made
    then (if all_made made 0 definitions then ok (new_all made 0 definitions built_in) else aborted)
    else raised by_callee

-- Whether `except catcher` catches an exception of the class `e`; a chain has at most five classes.
abbrev pub caught_in : ℕ → Classes → (catcher e : ExcType) → Bool
caught_in zero cs catcher e = false
caught_in (suc n) cs catcher e =
    place catcher == place e
    || elim (cs e) [ missing ↦ false | derived b ↦ caught_in n cs catcher b ]

abbrev pub caught_by : Classes → (catcher e : ExcType) → Bool
caught_by = caught_in 5

new_all-made :
    (made : ℕ → Bool) (i : ℕ) (r : List (ExcType × Option ExcType)) (cs : Classes)
    → all_made made i r ≡ true
    → new_all made i r cs ≡ new_all (λ k. true) i r cs
unfolding new_all all_made
new_all-made made i [] cs h = refl
new_all-made made i ((e, b) ∷ r) cs h = elim (Bool-cases (made i)) [
  | inl p ↦ rw p (new_all-made made (suc i) r (new_exception true e b cs) (ground (arith, h, p)))
  | inr p ↦ ground (arith, h, p)
]

all_made-true :
    (made : ℕ → Bool) (i : ℕ) (r : List (ExcType × Option ExcType))
    → ((j : ℕ) → i ≤ j → j < i + length r → made j ≡ true)
    → all_made made i r ≡ true
unfolding all_made
all_made-true made i [] h = refl
all_made-true made i ((e, b) ∷ r) h =
    rw (h i (omega arith) (omega arith))
      (all_made-true made (suc i) r (λ j p q. h j (omega (arith, p)) (omega (arith, q))))

all_made-false :
    (made : ℕ → Bool) (i j : ℕ) (r : List (ExcType × Option ExcType))
    → i ≤ j
    → j < i + length r
    → made j ≡ false
    → all_made made i r ≡ false
unfolding all_made
all_made-false made i j [] p q h = absurd (omega (arith, p, q))
all_made-false made i j ((e, b) ∷ r) p q h = elim (Bool-cases (i == j)) [
  | inl t ↦ ground (arith, t, h)
  | inr f ↦
      rw (all_made-false made (suc i) j r (ground (arith, p, f)) (omega (arith, q)) h)
        (ground arith)
]

-- The exceptions of the interpreter, those of the module that no handle raises, and those of streams.
abbrev pub interpreter : ExcType → Bool
interpreter exception = true
interpreter type_error = true
interpreter value_error = true
interpreter overflow_error = true
interpreter runtime_error = true
interpreter memory_error = true
interpreter e = false

abbrev pub apart : ExcType → Bool
apart uv_error = true
apart thread_error = true
apart fs_error = true
apart e = false

abbrev pub of_stream : ExcType → Bool
of_stream stream_error = true
of_stream tcp_error = true
of_stream pipe_error = true
of_stream tty_error = true
of_stream e = false

abbrev pub Hierarchy : Classes → ExcType → Type 0
Hierarchy cs e =
    (caught_by cs exception e ≡ true)
    × (caught_by cs uv_error e ≡ not (interpreter e))
    × (caught_by cs handle_error e ≡ not (interpreter e || apart e))
    × (caught_by cs stream_error e ≡ of_stream e)

all_classes : (e : ExcType) → Hierarchy (new_all (λ k. true) 0 definitions built_in) e
unfolding new_all
all_classes exception = (refl, refl, refl, refl)
all_classes e = (refl, refl, refl, refl)

-- Whichever of its calls fail: init_error returns a module exactly where the module and all of its
-- classes could be made, and aborts where a class could not. Where it returns, Exception catches
-- every exception; UVError catches those of the module and no other; HandleError those except
-- UVError, ThreadError and FSError; and StreamError itself and those of TCP, Pipe and TTY.
pub init_error_classes :
    (made : ℕ → Bool)
    → (init_error false made ≡ raised by_callee)
      × ((i : ℕ) → i < length definitions → made i ≡ false → init_error true made ≡ aborted)
      × (((i : ℕ) → i < length definitions → made i ≡ true)
          → (cs : Classes) × (init_error true made ≡ ok cs) × ((e : ExcType) → Hierarchy cs e))
unfolding init_error
init_error_classes made = (
  refl,
  λ i p h. rw (all_made-false made 0 i definitions (omega arith) p h) refl,
  λ h.
      let whole = all_made-true made 0 definitions (λ j p q. h j q) in
      (
        new_all (λ k. true) 0 definitions built_in,
        rw (whole, new_all-made made 0 definitions built_in whole) refl,
        all_classes,
      ),
)
