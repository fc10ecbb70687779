-- ===== src/Udp/Examples.antt =====
-- A UDP object at address 7 of the loop at address 5, and a TCP, whose buffers get sizes beyond the
-- range of an int.
use pyuv.Base.{◌+◌, ◌-◌, ◌*◌, ◌^◌, refl, arith, none, some, [], ltb, if◌then◌else◌}
use pyuv.Base.Int.{ℤ, pos}
use pyuv.Py.{Refs}
use pyuv.Uv.{Call, phases, Phase, opened, returns}
use pyuv.Handle.{tp_new, initialize_handle}
use pyuv.Watcher.{Watcher}
use pyuv.Connections.{Peer}
use pyuv.Connections.Calls.{tcp_sndbuf_set, tcp_rcvbuf_set, pipe_sndbuf_set, pipe_rcvbuf_set}
use pyuv.Udp.{udp_sndbuf_set, udp_rcvbuf_set}
use pyuv.Udp.Sizes.{Hands, of_udp, of_peer, sizes_wrap}

abbrev refs0 : Refs
refs0 o = if ltb o 10 then 1 else 0

abbrev socket : Watcher Phase
socket = record { handle = initialize_handle 5 (tp_new opened refs0); callback = none }

abbrev peer : Peer Phase
peer = record {
  handle = initialize_handle 5 (tp_new opened refs0);
  on_read_cb = none;
  on_new_connection_cb = none;
  connects = [];
  timers = [];
  closing = 0;
  blocks = 0;
  fds = 0;
}

-- libuv accepts any size.
abbrev any_size : ℤ → Call phases
any_size n = returns (pos 0)

sizes_wrap_example :
    let size = some (some (pos (4096 + 1 * 2 ^ 32))) in
    Hands phases any_size 4096 socket.uv_handle
      (of_udp phases (udp_sndbuf_set phases (2 ^ 63 - 1) any_size size socket))
    × Hands phases any_size 4096 socket.uv_handle
        (of_udp phases (udp_rcvbuf_set phases (2 ^ 63 - 1) any_size size socket))
    × Hands phases any_size 4096 peer.uv_handle
        (of_peer phases (tcp_sndbuf_set phases (2 ^ 63 - 1) any_size size peer))
    × Hands phases any_size 4096 peer.uv_handle
        (of_peer phases (tcp_rcvbuf_set phases (2 ^ 63 - 1) any_size size peer))
    × Hands phases any_size 4096 peer.uv_handle
        (of_peer phases (pipe_sndbuf_set phases (2 ^ 63 - 1) any_size size peer))
    × Hands phases any_size 4096 peer.uv_handle
        (of_peer phases (pipe_rcvbuf_set phases (2 ^ 63 - 1) any_size size peer))
unfolding initialize_handle tp_new
sizes_wrap_example =
    sizes_wrap phases (2 ^ 63 - 1) any_size 4096 1 socket peer refl refl (omega arith) (omega arith)
