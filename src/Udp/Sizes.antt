-- ===== src/Udp/Sizes.antt =====
-- The sizes of a socket's buffers, which UDP (src/udp.c), TCP (src/tcp.c) and Pipe (src/pipe.c) set by
-- the same code.
use pyuv.Base.{ℕ, ◌+◌, ◌*◌, ◌^◌, ◌<◌, ◌≤◌, ◌≡◌, ◌∙◌, refl, arith, true, false, not, none, some}
use pyuv.Base.Int.{ℤ, pos, to_int, as_long, is_neg}
use pyuv.Py.{Result, is_ok}
use pyuv.Uv.{Libuv, Call}
use pyuv.Watcher.{Watcher}
use pyuv.Connections.{Peer}
use pyuv.Connections.Calls.{tcp_sndbuf_set, tcp_rcvbuf_set, pipe_sndbuf_set, pipe_rcvbuf_set}
use pyuv.Udp.{udp_sndbuf_set, udp_rcvbuf_set}

to_int_fits : (n : ℕ) → n < 2 ^ 31 → to_int (pos n) ≡ pos n
to_int_fits n h = ground arith

to_int_wraps : (n k : ℕ) → to_int (pos (n + k * 2 ^ 32)) ≡ to_int (pos n)
to_int_wraps n k = ground arith

as_long_fits : (long_max n : ℕ) → n ≤ long_max → as_long long_max (pos n) ≡ some (pos n)
as_long_fits long_max n h = ground arith

as_long_over : (long_max n : ℕ) → long_max < n → as_long long_max (pos n) ≡ none
as_long_over long_max n h = ground arith

-- What a setter does with a size that libuv is handed as `n`.
abbrev pub Hands :
    (U : Libuv) → (uv_size : ℤ → Call U) → ℕ → U.Hdl → Result (Unit {0}) × U.Hdl → Type 0
Hands U uv_size n h r =
    (r.1 ≡ ((uv_size (pos n)).run h).1) × (is_ok r.0 ≡ not (is_neg ((uv_size (pos n)).run h).0))

-- The result and the libuv handle.
abbrev pub of_udp : (U : Libuv) → Result (Unit {0}) × Watcher U.Hdl → Result (Unit {0}) × U.Hdl
of_udp U r = (r.0, r.1.uv_handle)

abbrev pub of_peer : (U : Libuv) → Result (Unit {0}) × Peer U.Hdl → Result (Unit {0}) × U.Hdl
of_peer U r = (r.0, r.1.uv_handle)

-- What a setter does with a size that it refuses: it raises and calls nothing.
abbrev pub Refuses : (U : Libuv) → U.Hdl → Result (Unit {0}) × U.Hdl → Type 0
Refuses U h r = (r.1 ≡ h) × (is_ok r.0 ≡ false)

-- For an initialized UDP, TCP or Pipe, closed or not, a size `n` below 2^31 and any k such that
-- n + k * 2^32 is a long: assigning n + k * 2^32 to the size of the send or the receive buffer hands
-- libuv `n` and returns normally exactly where libuv accepts that, so that a size out of the range
-- of an int is not refused but taken for another one.
pub sizes_wrap :
    (U : Libuv) (long_max : ℕ) (uv_size : ℤ → Call U) (n k : ℕ) (w : Watcher U.Hdl) (p : Peer U.Hdl)
    → w.initialized ≡ true
    → p.initialized ≡ true
    → n < 2 ^ 31
    → n + k * 2 ^ 32 ≤ long_max
    → let size = some (some (pos (n + k * 2 ^ 32))) in
      Hands U uv_size n w.uv_handle (of_udp U (udp_sndbuf_set U long_max uv_size size w))
      × Hands U uv_size n w.uv_handle (of_udp U (udp_rcvbuf_set U long_max uv_size size w))
      × Hands U uv_size n p.uv_handle (of_peer U (tcp_sndbuf_set U long_max uv_size size p))
      × Hands U uv_size n p.uv_handle (of_peer U (tcp_rcvbuf_set U long_max uv_size size p))
      × Hands U uv_size n p.uv_handle (of_peer U (pipe_sndbuf_set U long_max uv_size size p))
      × Hands U uv_size n p.uv_handle (of_peer U (pipe_rcvbuf_set U long_max uv_size size p))
unfolding udp_sndbuf_set udp_rcvbuf_set tcp_sndbuf_set tcp_rcvbuf_set pipe_sndbuf_set
    pipe_rcvbuf_set
sizes_wrap U long_max uv_size n k w p init ready small fits =
    let e : to_int (pos (n + k * 2 ^ 32)) ≡ pos n = to_int_wraps n k ∙ to_int_fits n small in
    let f = as_long_fits long_max (n + k * 2 ^ 32) fits in
    rw (init, ready, f, e)
      (
        (ground arith, ground arith),
        (ground arith, ground arith),
        (ground arith, ground arith),
        (ground arith, ground arith),
        (ground arith, ground arith),
        (ground arith, ground arith),
      )

-- A size beyond a long is refused: the setters raise, and libuv is not called.
pub sizes_refused :
    (U : Libuv) (long_max : ℕ) (uv_size : ℤ → Call U) (n : ℕ) (w : Watcher U.Hdl) (p : Peer U.Hdl)
    → w.initialized ≡ true
    → p.initialized ≡ true
    → long_max < n
    → let size = some (some (pos n)) in
      Refuses U w.uv_handle (of_udp U (udp_sndbuf_set U long_max uv_size size w))
      × Refuses U w.uv_handle (of_udp U (udp_rcvbuf_set U long_max uv_size size w))
      × Refuses U p.uv_handle (of_peer U (tcp_sndbuf_set U long_max uv_size size p))
      × Refuses U p.uv_handle (of_peer U (tcp_rcvbuf_set U long_max uv_size size p))
      × Refuses U p.uv_handle (of_peer U (pipe_sndbuf_set U long_max uv_size size p))
      × Refuses U p.uv_handle (of_peer U (pipe_rcvbuf_set U long_max uv_size size p))
unfolding udp_sndbuf_set udp_rcvbuf_set tcp_sndbuf_set tcp_rcvbuf_set pipe_sndbuf_set
    pipe_rcvbuf_set
sizes_refused U long_max uv_size n w p init ready large =
    rw (init, ready, as_long_over long_max n large)
      ((refl, refl), (refl, refl), (refl, refl), (refl, refl), (refl, refl), (refl, refl))
