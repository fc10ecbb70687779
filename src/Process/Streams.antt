-- ===== src/Process/Streams.antt =====
-- The StdIO objects that src/process.c can meet.
use pyuv.Base.{
  zero, suc, ◌≡◌, ◌||◌, ◌&&◌, not, refl, Bool, true, false, Option, none, some, arith, is_some,
}
use pyuv.Base.Int.{ℤ, pos, negsuc}
use pyuv.Error.{type_error, value_error}
use pyuv.Py.{Obj, Refs, guard, put, ◌>>◌, xincref, xdecref}
use pyuv.Process.StdIo.{
  StdIo, StdIoArgs, stdio_tp_new, stdio_tp_init, has_fd, stream_flags, fits_stream, fd_flags,
  ignore_flags,
}
use pyuv.Process.Stages.{HasStream}

-- Five tests before a state is stored.
checked :
    (P : StdIo → Type 0) (c1 c2 c3 c4 c5 : Bool) (t s : StdIo)
    → P s
    → (c1 ≡ true → c3 ≡ true → c4 ≡ true → c5 ≡ true → P t)
    → P
        ((do
          guard c1 value_error
          guard c2 type_error
          guard c3 value_error
          guard c4 value_error
          guard c5 value_error
          put t)
          s).1
checked P false c2 c3 c4 c5 t s h k = h
checked P true false c3 c4 c5 t s h k = h
checked P true true false c4 c5 t s h k = h
checked P true true true false c5 t s h k = h
checked P true true true true false t s h k = h
checked P true true true true true t s h k = k refl refl refl refl

new_HasStream :
    (stream : Option Obj) (fd flags : ℤ) (refs : Refs)
    → (not (is_some stream && has_fd fd)) ≡ true
    → (not (is_some stream) || stream_flags flags) ≡ true
    → (not (has_fd fd) || fd_flags flags) ≡ true
    → (is_some stream || has_fd fd || ignore_flags flags) ≡ true
    → HasStream (record { stream = stream; fd = fd; flags = flags; refs = refs })
new_HasStream (some o) fd flags refs g1 g2 g3 g4 b = refl
new_HasStream none (negsuc zero) (pos n) refs g1 g2 g3 g4 b = ground (arith, b, g4)
new_HasStream none (negsuc zero) (negsuc n) refs g1 g2 g3 g4 b = cc
new_HasStream none (negsuc (suc k)) (pos n) refs g1 g2 g3 g4 b = ground (arith, b, g3)
new_HasStream none (negsuc (suc k)) (negsuc n) refs g1 g2 g3 g4 b = cc
new_HasStream none (pos k) (pos n) refs g1 g2 g3 g4 b = ground (arith, b, g3)
new_HasStream none (pos k) (negsuc n) refs g1 g2 g3 g4 b = cc

init_args-HasStream :
    (is_stream : Obj → Bool) (stream : Option Obj) (fd flags : ℤ) (s : StdIo)
    → HasStream s
    → HasStream
        (stdio_tp_init is_stream
          (some (record { stream_arg = stream; fd_arg = fd; flags_arg = flags }))
          s).1
unfolding stdio_tp_init
init_args-HasStream is_stream stream fd flags s h =
    checked HasStream (not (is_some stream && has_fd fd)) (fits_stream is_stream stream)
      (not (is_some stream) || stream_flags flags) (not (has_fd fd) || fd_flags flags)
      (is_some stream || has_fd fd || ignore_flags flags)
      (record {
        stream = stream;
        fd = fd;
        flags = flags;
        refs = xdecref s.stream (xincref stream s.refs);
      })
      s h
      (λ g1 g3 g4 g5.
        new_HasStream stream fd flags (xdecref s.stream (xincref stream s.refs)) g1 g3 g4 g5)

-- A StdIO has the stream that its flags call for: when it was only allocated, and after every
-- __init__, whether it succeeds or not.
pub stdio-HasStream :
    (is_stream : Obj → Bool) (args : Option StdIoArgs) (refs : Refs) (s : StdIo)
    → HasStream s
    → HasStream (stdio_tp_new refs) × HasStream (stdio_tp_init is_stream args s).1
unfolding stdio_tp_new stdio_tp_init
stdio-HasStream is_stream none refs s h = (λ b. ground (arith, b), h)
stdio-HasStream is_stream (some a) refs s h =
    (λ b. ground (arith, b), init_args-HasStream is_stream a.stream_arg a.fd_arg a.flags_arg s h)
