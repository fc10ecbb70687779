-- ===== src/Stream/Methods.antt =====
-- The methods of src/stream.c that ask libuv at once: try_write, fileno, set_blocking, and the
-- getters. try_send of src/udp.c repeats try_write.
use pyuv.Base.{◌≡◌, arith, Bool, true, not, ◌&&◌, Option, none, some, is_some, if◌then◌else◌}
use pyuv.Base.Int.{ℤ, is_neg}
use pyuv.Error.{runtime_error}
use pyuv.Py.{
  Obj, none_obj, incref, decref, M, is_ok, ok, raised, aborted, uv, pure, ◌>>=◌, ◌>>◌, guard,
  check_open, parse, put,
}
use pyuv.Uv.{Libuv, Call}
use pyuv.Watcher.{Watcher, with_uv, with_refs}
use pyuv.Stream.{StreamType, stream_exc}
use pyuv.Udp.{udp_try_send}

-- RAISE_STREAM_EXCEPTION
abbrev pub raise_stream : {S A : Type 0} → StreamType → ℤ → M S A
raise_stream kind err s = elim (stream_exc kind) [
  | none ↦ (aborted, s)
  | some e ↦ (raised (uv e err), s)
]

module _ (U : Libuv) (kind : StreamType) where
  open U use {Hdl, is_closing}

  -- Stream_func_try_write: the object whose buffer is written; the view holds it until it is released,
  -- which a failed ASSERT comes before.
  unfoldable pub stream_try_write : Option (Obj × Call U) → M (Watcher Hdl) ℤ
  stream_try_write args w =
      (do
        check_open w.initialized (is_closing w.uv_handle)
        a ← parse args
        let called = a.1.run w.uv_handle
        let viewed = with_uv called.1 (with_refs (incref a.0 w.refs) w)
        let sent = with_refs (decref a.0 viewed.refs) viewed
        λ t.
            if is_neg called.0
            then elim (stream_exc kind) [
              | none ↦ (aborted, viewed)
              | some e ↦ (raised (uv e called.0), sent)
            ]
            else (ok called.0, sent))
        w

  -- Stream_func_fileno
  unfoldable pub stream_fileno : (Hdl → ℤ × ℤ) → M (Watcher Hdl) ℤ
  stream_fileno query w =
      (do
        check_open w.initialized (is_closing w.uv_handle)
        let asked = query w.uv_handle
        λ t. if is_neg asked.0 then raise_stream kind asked.0 t else (ok asked.1, t))
        w

  -- Stream_func_set_blocking
  unfoldable pub set_blocking : Option (Call U) → M (Watcher Hdl) Obj
  set_blocking args w =
      (do
        check_open w.initialized (is_closing w.uv_handle)
        c ← parse args
        put (with_uv (c.run w.uv_handle).1 w)
        λ t.
            if is_neg (c.run w.uv_handle).0
            then raise_stream kind (c.run w.uv_handle).0 t
            else (ok none_obj, t))
        w

  -- Stream_readable_get, Stream_writable_get and Stream_write_queue_size_get over libuv's answer
  unfoldable pub stream_get : {A : Type 0} → (Hdl → A) → M (Watcher Hdl) A
  stream_get query w = (do guard w.initialized runtime_error; pure (query w.uv_handle)) w

-- try_write() of a TCP, Pipe or TTY, and try_send(), with arguments that parse: a call returns exactly
-- where the handle is initialized and not closing, the address of try_send is accepted, and libuv
-- answers with no error, and then it returns libuv's number; on every branch all counts are those of
-- before, so that the buffer was given back.
pub try_calls_release :
    (U : Libuv) (kind : StreamType) (bytes : Obj) (c : Call U) (addr : Bool) (w : Watcher U.Hdl)
    → is_some (stream_exc kind) ≡ true
    → let ready = w.initialized && not (U.is_closing w.uv_handle) in
      let taken = not (is_neg (c.run w.uv_handle).0) in
      let written = stream_try_write U kind (some (bytes, c)) w in
      let sent = udp_try_send U (some (bytes, if addr then some c else none)) w in
      (is_ok written.0 ≡ (ready && taken))
      × (is_ok sent.0 ≡ (ready && addr && taken))
      × ((n : ℤ) → written.0 ≡ ok n → n ≡ (c.run w.uv_handle).0)
      × ((n : ℤ) → sent.0 ≡ ok n → n ≡ (c.run w.uv_handle).0)
      × ((o : Obj) → (written.1.refs o ≡ w.refs o) × (sent.1.refs o ≡ w.refs o))
unfolding stream_try_write udp_try_send
try_calls_release U kind bytes c addr w fits = (
  ground (arith, fits),
  ground arith,
  λ n e. ground (arith, fits, e),
  λ n e. ground (arith, e),
  λ o. (ground (arith, fits), ground arith),
)
