-- ===== src/Connections/Examples.antt =====
-- A TCP at address 7 of the loop at address 5, with functions at addresses 8 and 9.
use pyuv.Base.{refl, arith, true, Option, none, some, [], ◌∷◌, ltb, if◌then◌else◌}
use pyuv.Base.Int.{pos, negsuc}
use pyuv.Error.{tcp_error}
use pyuv.Py.{Obj, Refs, incref}
use pyuv.Uv.{phases, Phase, opened, returns}
use pyuv.Handle.{tp_new, initialize_handle}
use pyuv.Connections.{Peer, with_refs, tcp_connect, pipe_connect, listen, connect_cb}
use pyuv.Connections.Abstract.{System, connect_abstract, abstract_cb, timer_closed}
use pyuv.Connections.Ownership.{Live}
use pyuv.Connections.Requests.{requests-Live}
use pyuv.Connections.Callbacks.{connect_cb-Live, abstract_cb-Live}

abbrev refs0 : Refs
refs0 o = if ltb o 10 then 1 else 0

abbrev peer : Peer Phase
peer = record {
  handle = initialize_handle 5 (tp_new opened refs0);
  on_read_cb = none;
  on_new_connection_cb = none;
  connects = [];
  timers = [];
  closing = 0;
  blocks = 2;
  fds = 0;
}

peer-Live : Live phases 7 2 refs0 peer
unfolding initialize_handle tp_new
peer-Live = (
  record {
    handled = record {
      counted = λ o. ground arith;
      blank = ground arith;
      unclosed = ground arith;
      closable = ground arith;
      looped = ground arith;
      released = ground arith;
    };
    allocated = omega arith;
  },
  refl,
)

abbrev works : System
works = record {
  socket_code = pos 3;
  call_code = pos 0;
  errno = pos 0;
  malloc = true;
  init_code = pos 0;
  start_code = pos 0;
}

abbrev fails : System
fails = record works { start_code = negsuc 21 }

requests-Live_example :
    Live phases 7 2 refs0
      (tcp_connect phases tcp_error (λ o. true) 7 true (some (some (returns (pos 0)), 9)) peer).1
    × Live phases 7 2 refs0
        (pipe_connect phases tcp_error
          (λ o. true)
          7
          true
          (connect_abstract phases 7 works (returns (pos 0)))
          (some ((true, returns (pos 0)), 9))
          peer).1
    × Live phases 7 2 refs0
        (listen phases tcp_error (λ o. true) (λ n. returns (pos 0)) (some (9, none)) peer).1
requests-Live_example =
    requests-Live phases 7 tcp_error (λ o. true) true (some (some (returns (pos 0)), 9))
      (some ((true, returns (pos 0)), 9)) (λ n. returns (pos 0)) (some (9, none)) works
      (returns (pos 0)) 2 refs0 peer refl peer-Live

-- The TCP with a request under way, and the Pipe with a timer.
abbrev connecting : Peer Phase
connecting = record (with_refs (incref 7 (incref 9 peer.refs)) peer) {
  connects = 9 ∷ [];
  blocks = 3;
}

abbrev timing : Peer Phase
timing = record (with_refs (incref 7 (incref 9 peer.refs)) peer) { timers = 9 ∷ []; blocks = 3 }

connecting-Live : Live phases 7 2 refs0 connecting
unfolding initialize_handle tp_new
connecting-Live = (
  record {
    handled = record {
      counted = λ o. ground arith;
      blank = ground arith;
      unclosed = ground arith;
      closable = ground arith;
      looped = ground arith;
      released = ground arith;
    };
    allocated = omega arith;
  },
  refl,
)

timing-Live : Live phases 7 2 refs0 timing
unfolding initialize_handle tp_new
timing-Live = (
  record {
    handled = record {
      counted = λ o. ground arith;
      blank = ground arith;
      unclosed = ground arith;
      closable = ground arith;
      looped = ground arith;
      released = ground arith;
    };
    allocated = omega arith;
  },
  refl,
)

-- A function that raises, and a hook that leaves the handle alone.
abbrev fails_always : Obj → Obj → Peer Phase → Option Obj × Peer Phase
fails_always cb e s = (none, s)

connect_cb-Live_example :
    Live phases 7 2 refs0
      (connect_cb fails_always (λ s. s) 7 20 (pos 0) 9 (record connecting { connects = [] }))
connect_cb-Live_example =
    connect_cb-Live phases 7 fails_always (λ s. s) 20 (pos 0) 9 [] [] 2 refs0 refs0 connecting refl
      (λ t v. v) connecting-Live

abstract_cb-Live_example :
    Live phases 7 2 refs0 (abstract_cb fails_always (λ s. s) 7 9 (record timing { timers = [] }))
    × Live phases 7 2 refs0
        (timer_closed (abstract_cb fails_always (λ s. s) 7 9 (record timing { timers = [] })))
abstract_cb-Live_example =
    abstract_cb-Live phases 7 fails_always (λ s. s) 9 [] [] 2 refs0 refs0 timing refl (λ t v. v)
      timing-Live
