-- ===== src/Stream/Reads.antt =====
-- Reading: start_read and stop_read of src/stream.c, start_recv and stop_recv of src/udp.c, and the
-- callbacks that hand data over. A reader is a watcher whose function is `on_read_cb`, with the read
-- buffer of its loop.
use pyuv.Base.{ℕ, zero, suc, ◌+◌, ◌≡◌, Bool, false, Option, none, some, if◌then◌else◌, get_or}
use pyuv.Base.Int.{ℤ, pos, negsuc, is_neg}
use mathlib.Core.Option.{map}
use pyuv.Error.{ExcType, stream_error, udp_error}
use pyuv.Py.{Obj, none_obj, Refs, incref, decref, M, Result, ok, raised, aborted, uv}
use pyuv.Uv.{Libuv, Call}
use pyuv.Watcher.{Watcher, with_uv, with_refs, finish_call, start, stop_clear}
use pyuv.Buffer.{Buffer, unlock}
use pyuv.Stream.{StreamType, stream_exc}

-- RAISE_STREAM_EXCEPTION aborts on a handle that is no stream.
abbrev pub or_abort : {A S : Type 0} → Option ExcType → Result A × S → Result A × S
or_abort (some exc) r = r
or_abort none (raised (uv exc err), s) = (aborted, s)
or_abort none r = r

module _ (U : Libuv) where
  open U use {Hdl}

  -- Stream_func_start_read
  unfoldable pub start_read :
      StreamType → (Obj → Bool) → Obj → Call U → Option Obj → M (Watcher Hdl) Obj
  unfolding start
  start_read kind callable me uv_read_start args w =
      or_abort (stream_exc kind)
        (start U (get_or (stream_exc kind) stream_error) callable me uv_read_start args w)

  -- Stream_func_stop_read
  unfoldable pub stop_read : StreamType → Obj → Call U → M (Watcher Hdl) Obj
  unfolding stop_clear
  stop_read kind me uv_read_stop w =
      or_abort (stream_exc kind)
        (stop_clear U (get_or (stream_exc kind) stream_error) me uv_read_stop w)

  -- UDP_func_start_recv
  unfoldable pub start_recv : (Obj → Bool) → Obj → Call U → Option Obj → M (Watcher Hdl) Obj
  unfolding start
  start_recv = start U udp_error

  -- UDP_func_stop_recv
  unfoldable pub stop_recv : Obj → Call U → M (Watcher Hdl) Obj
  unfolding stop_clear
  stop_recv = stop_clear U udp_error

pub record Reader (Hdl : Type 0) : Type 0 where
  pub watcher : Watcher Hdl
  pub buffer : Buffer

-- The objects of one read: `of_int` and `of_bytes` make an object with a new reference, or NULL.
-- `zero` is the number 0, which the interpreter always has.
pub record Make : Type 0 where
  pub of_int : ℤ → Option Obj
  pub of_bytes : ℕ → Option Obj
  pub zero : Obj

-- The data and the error number that the function gets, or none where one of them is NULL.
abbrev pub read_args : Make → ℤ → Option (Obj × Obj)
read_args m (pos n) = map (λ b. (b, none_obj)) (m.of_bytes n)
read_args m (negsuc n) = map (λ e. (none_obj, e)) (m.of_int (negsuc n))

-- pyuv__stream_read_cb with its objects; after an error libuv is told to stop.
abbrev pub stream_deliver :
    {Hdl : Type 0}
    → (Hdl → Hdl)
    → (Obj → Obj → Option Obj → Watcher Hdl → Option Obj × Watcher Hdl)
    → (Watcher Hdl → Watcher Hdl)
    → Obj
    → (stops : Bool) → Obj × Obj
    → Reader Hdl
    → Reader Hdl
stream_deliver uv_read_stop call hook me stops a s =
    let w = with_refs (incref a.1 (incref a.0 (incref me s.watcher.refs))) s.watcher in
    let w' = if stops then with_uv (uv_read_stop w.uv_handle) w else w in
    let t = finish_call hook (call a.0 a.1 w'.callback w') in
    record {
      watcher = with_refs (decref me (decref a.1 (decref a.0 t.refs))) t;
      buffer = unlock s.buffer;
    }

-- pyuv__stream_read_cb: Py_DECREF of what could not be made ends the process.
unfoldable pub stream_read_cb :
    {Hdl : Type 0}
    → Make
    → (Hdl → Hdl)
    → (Obj → Obj → Option Obj → Watcher Hdl → Option Obj × Watcher Hdl)
    → (Watcher Hdl → Watcher Hdl)
    → Obj
    → ℤ
    → Reader Hdl
    → Result (Unit {0}) × Reader Hdl
unfolding unlock
stream_read_cb m uv_read_stop call hook me nread s = elim (read_args m nread) [
  | none ↦ (aborted, s)
  | some a ↦ (ok tt, stream_deliver uv_read_stop call hook me (is_neg nread) a s)
]

abbrev pub pair_up : Option Obj → Option Obj → Option (Obj × Obj × Obj)
pair_up (some a) (some b) = some (a, b, none_obj)
pair_up none b = none
pair_up (some a) none = none

-- The address, the data and the error number of a datagram; `addr` is what makesockaddr makes.
abbrev pub recv_args : Make → (addr : Option Obj) → ℤ → Option (Obj × Obj × Obj)
recv_args m addr (pos n) = pair_up addr (m.of_bytes n)
recv_args m addr (negsuc n) = map (λ e. (none_obj, none_obj, e)) (m.of_int (negsuc n))

-- pyuv__udp_recv_cd with its objects, and the number of the flags, which are 0
abbrev pub udp_deliver :
    {Hdl : Type 0}
    → (flags : Obj) → (Obj → Obj → Obj → Option Obj → Watcher Hdl → Option Obj × Watcher Hdl)
    → (Watcher Hdl → Watcher Hdl)
    → Obj
    → Obj × Obj × Obj
    → Reader Hdl
    → Reader Hdl
udp_deliver flags call hook me a s =
    let w =
      with_refs (incref flags (incref a.2 (incref a.1 (incref a.0 (incref me s.watcher.refs)))))
        s.watcher in
    let t = finish_call hook (call a.0 a.1 a.2 w.callback w) in
    record {
      watcher = with_refs (decref me (decref a.2 (decref a.1 (decref a.0 t.refs)))) t;
      buffer = unlock s.buffer;
    }

-- pyuv__udp_recv_cd, with `flags` 0 as it asserts. `addr` is NULL, or what makesockaddr returns for
-- it; as before, Py_DECREF of what could not be made ends the process.
unfoldable pub udp_recv_cd :
    {Hdl : Type 0}
    → Make
    → (Obj → Obj → Obj → Option Obj → Watcher Hdl → Option Obj × Watcher Hdl)
    → (Watcher Hdl → Watcher Hdl)
    → Obj
    → ℤ
    → Option (Option Obj)
    → Reader Hdl
    → Result (Unit {0}) × Reader Hdl
unfolding unlock
udp_recv_cd m call hook me (pos zero) none s = (ok tt, record s { buffer = unlock s.buffer })
udp_recv_cd m call hook me (pos (suc n)) none s = (aborted, s)
udp_recv_cd m call hook me nread addr s = elim (recv_args m (get_or addr none) nread) [
  | none ↦ (aborted, s)
  | some a ↦ (ok tt, udp_deliver m.zero call hook me a s)
]

-- A function that leaves every count as it was, its result aside.
abbrev pub Neutral : {Hdl : Type 0} → Watcher Hdl → Watcher Hdl → Type 0
Neutral w t = (o : Obj) → t.refs o ≡ w.refs o

-- What a callback leaves, by its objects: a free slab, and counts that are higher by `more`; or the
-- end of the process, where one of them is NULL.
abbrev pub Leaves :
    {A Hdl : Type 0} → Option A → Refs → Reader Hdl → Result (Unit {0}) × Reader Hdl → Type 0
Leaves (some a) more s r =
    (r.0 ≡ ok tt)
    × (r.1.buffer.in_use ≡ false)
    × ((o : Obj) → r.1.watcher.refs o ≡ s.watcher.refs o + more o)
Leaves none more s r = r.0 ≡ aborted
