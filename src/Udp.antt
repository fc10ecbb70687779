-- ===== src/Udp.antt =====
-- The methods of src/udp.c that set a socket up, and try_send. Sending and receiving are in
-- Stream.antt.
pub mod Sizes
mod Examples
use pyuv.Base.{
  ℕ, ◌≡◌, arith, Bool, true, false, not, ◌&&◌, Option, none, some, is_some, get_or, if◌then◌else◌,
  ◌+◌, ◌-◌,
}
use pyuv.Base.Int.{ℤ, is_neg, gtb, to_int, long_of}
use pyuv.Error.{udp_error, value_error, type_error, runtime_error}
use pyuv.Py.{
  ok, raised, uv, by_callee, incref, decref, Obj, none_obj, M, is_ok, pure, ◌>>=◌, ◌>>◌, guard,
  check, check_open, parse, put,
}
use pyuv.Uv.{Libuv, Call}
use pyuv.Watcher.{Watcher, with_uv, with_refs, tp_init}

module _ (U : Libuv) where
  open U use {Hdl, is_closing}

  -- The call of libuv, and the test of its code.
  abbrev pub udp_uv : Call U → M (Watcher Hdl) Obj
  udp_uv c w =
      (do
        put (with_uv (c.run w.uv_handle).1 w)
        check (c.run w.uv_handle).0 udp_error
        pure none_obj)
        w

  -- A method that hands its arguments to libuv.
  abbrev pub udp_call : Option (Call U) → M (Watcher Hdl) Obj
  udp_call args w =
      (do check_open w.initialized (is_closing w.uv_handle); c ← parse args; udp_uv c) w

  -- UDP_func_bind: the address where pyuv_parse_addr_tuple accepts it, and the flags.
  unfoldable pub udp_bind : Option (Option (Call U)) → M (Watcher Hdl) Obj
  udp_bind args w =
      (do check_open w.initialized (is_closing w.uv_handle); a ← parse args; c ← parse a; udp_uv c)
        w

  unfoldable pub set_membership : Option (Call U) → M (Watcher Hdl) Obj
  set_membership = udp_call

  unfoldable pub set_multicast_interface : Option (Call U) → M (Watcher Hdl) Obj
  set_multicast_interface = udp_call

  unfoldable pub set_broadcast : Option (Call U) → M (Watcher Hdl) Obj
  set_broadcast = udp_call

  unfoldable pub set_multicast_loop : Option (Call U) → M (Watcher Hdl) Obj
  set_multicast_loop = udp_call

  -- ttl < 0 || ttl > 255
  abbrev pub in_range : ℤ → Bool
  in_range n = not (is_neg n) && not (gtb n 255)

  abbrev pub ttl_call : (ℤ → Call U) → Option ℤ → M (Watcher Hdl) Obj
  ttl_call uv_ttl args w =
      (do
        check_open w.initialized (is_closing w.uv_handle)
        n ← parse args
        guard (in_range n) value_error
        udp_uv (uv_ttl n))
        w

  unfoldable pub set_multicast_ttl : (ℤ → Call U) → Option ℤ → M (Watcher Hdl) Obj
  set_multicast_ttl = ttl_call

  unfoldable pub set_ttl : (ℤ → Call U) → Option ℤ → M (Watcher Hdl) Obj
  set_ttl = ttl_call

  -- UDP_func_open, which does not look at libuv's code.
  unfoldable pub udp_open : Option (Call U) → M (Watcher Hdl) Obj
  udp_open args w =
      (do
        check_open w.initialized (is_closing w.uv_handle)
        c ← parse args
        put (with_uv (c.run w.uv_handle).1 w)
        pure none_obj)
        w

  -- UDP_func_getsockname: libuv's code and the address.
  unfoldable pub udp_getsockname : {A : Type 0} → (Hdl → ℤ × A) → M (Watcher Hdl) A
  udp_getsockname query w =
      (do
        check_open w.initialized (is_closing w.uv_handle)
        check (query w.uv_handle).0 udp_error
        pure (query w.uv_handle).1)
        w

  -- UDP_func_try_send: the object whose buffer is sent, and libuv's call for the address where
  -- pyuv_parse_addr_tuple accepts it. The view holds the object until it is released.
  unfoldable pub udp_try_send : Option (Obj × Option (Call U)) → M (Watcher Hdl) ℤ
  udp_try_send args w =
      (do
        check_open w.initialized (is_closing w.uv_handle)
        a ← parse args
        let viewed = with_refs (incref a.0 w.refs) w
        λ t. elim a.1 [
          | none ↦ (raised by_callee, with_refs (decref a.0 viewed.refs) viewed)
          | some c ↦
              let called = c.run viewed.uv_handle in
              let sent = with_uv called.1 (with_refs (decref a.0 viewed.refs) viewed) in
              if is_neg called.0
              then (raised (uv udp_error called.0), sent)
              else (ok called.0, sent)
        ])
        w

  -- UDP_func_fileno
  unfoldable pub udp_fileno : (Hdl → ℤ × ℤ) → M (Watcher Hdl) ℤ
  udp_fileno query w =
      (do
        check_open w.initialized (is_closing w.uv_handle)
        check (query w.uv_handle).0 udp_error
        pure (query w.uv_handle).1)
        w

  -- What libuv answers of a handle that may be closed: UDP_family_get and the sizes of the buffers
  abbrev pub udp_ask : (Hdl → ℤ × ℤ) → M (Watcher Hdl) ℤ
  udp_ask query w =
      (do
        guard w.initialized runtime_error
        check (query w.uv_handle).0 udp_error
        pure (query w.uv_handle).1)
        w

  unfoldable pub udp_family_get : (Hdl → ℤ × ℤ) → M (Watcher Hdl) ℤ
  udp_family_get = udp_ask

  unfoldable pub udp_sndbuf_get : (Hdl → ℤ × ℤ) → M (Watcher Hdl) ℤ
  udp_sndbuf_get = udp_ask

  unfoldable pub udp_rcvbuf_get : (Hdl → ℤ × ℤ) → M (Watcher Hdl) ℤ
  udp_rcvbuf_get = udp_ask

  -- The setters: the value is NULL where the attribute is deleted, and inside it is the integer that
  -- the object stands for, if any, which PyInt_AsLong gives or raises for.
  abbrev pub udp_size :
      (long_max : ℕ) → (ℤ → Call U) → Option (Option ℤ) → M (Watcher Hdl) (Unit {0})
  udp_size long_max uv_size val w =
      (do
        guard w.initialized runtime_error
        guard (is_some val) type_error
        n ← parse (long_of long_max (get_or val none))
        let c = uv_size (to_int n)
        put (with_uv (c.run w.uv_handle).1 w)
        check (c.run w.uv_handle).0 udp_error)
        w

  unfoldable pub udp_sndbuf_set :
      (long_max : ℕ) → (ℤ → Call U) → Option (Option ℤ) → M (Watcher Hdl) (Unit {0})
  udp_sndbuf_set = udp_size

  unfoldable pub udp_rcvbuf_set :
      (long_max : ℕ) → (ℤ → Call U) → Option (Option ℤ) → M (Watcher Hdl) (Unit {0})
  udp_rcvbuf_set = udp_size

  unfoldable pub udp_init : ℤ × Hdl → Option Obj → M (Watcher Hdl) (Unit {0})
  unfolding tp_init
  udp_init = tp_init U udp_error

-- With arguments that parse: set_ttl() returns normally exactly when the handle is initialized and
-- not closing, the number is between 0 and 255 and libuv accepts it; a method that hands its
-- arguments to libuv does exactly when the handle is and libuv accepts; open() does whenever the
-- handle is, also when libuv fails.
pub options_outcome :
    (U : Libuv) (uv_ttl : ℤ → Call U) (n : ℤ) (c : Call U) (w : Watcher U.Hdl)
    → let ready = w.initialized && not (U.is_closing w.uv_handle) in
      (is_ok (set_ttl U uv_ttl (some n) w).0 ≡ (
        ready && not (is_neg n) && not (gtb n 255) && not (is_neg ((uv_ttl n).run w.uv_handle).0)))
      × (is_ok (set_broadcast U (some c) w).0 ≡ (ready && not (is_neg (c.run w.uv_handle).0)))
      × (is_ok (udp_open U (some c) w).0 ≡ ready)
unfolding set_ttl set_broadcast udp_open
options_outcome U uv_ttl n c w = (ground arith, ground arith, ground arith)
