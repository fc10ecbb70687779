-- ===== src/Process/StdIo.antt =====
-- StdIO of src/process.c: what one standard stream of a child is to be.
use pyuv.Base.{
  ℕ, zero, ◌/◌, ◌%◌, Bool, true, false, not, ◌&&◌, ◌||◌, Option, none, some, ltb, ◌==◌,
  if◌then◌else◌, is_some,
}
use pyuv.Base.Int.{ℤ, pos, negsuc}
use pyuv.Error.{type_error, value_error}
use pyuv.Py.{Obj, Refs, xincref, xdecref, Result, M, ok, aborted, ◌>>=◌, ◌>>◌, guard, parse, put}

-- UV_CREATE_PIPE, UV_INHERIT_FD and UV_INHERIT_STREAM; UV_IGNORE is 0, UV_READABLE_PIPE 0x10 and
-- UV_WRITABLE_PIPE 0x20.
abbrev pub create_pipe : ℕ
create_pipe = 1

abbrev pub inherit_fd : ℕ
inherit_fd = 2

abbrev pub inherit_stream : ℕ
inherit_stream = 4

-- flags & bit, where `bit` is a power of 2
abbrev pub has_bit : ℕ → ℕ → Bool
has_bit bit flags = flags / bit % 2 == 1

-- (flags & ~(UV_CREATE_PIPE | UV_READABLE_PIPE | UV_WRITABLE_PIPE | UV_INHERIT_STREAM)) == 0. A
-- negative int has its highest bit set.
abbrev pub stream_flags : ℤ → Bool
stream_flags (negsuc n) = false
stream_flags (pos n) = ltb n 64 && not (has_bit 2 n) && not (has_bit 8 n)

-- (flags & ~(UV_INHERIT_FD)) == 0 and (flags & ~(UV_IGNORE)) == 0
abbrev pub fd_flags : ℤ → Bool
fd_flags (negsuc n) = false
fd_flags (pos n) = n == 0 || n == inherit_fd

abbrev pub ignore_flags : ℤ → Bool
ignore_flags (pos n) = n == 0
ignore_flags (negsuc n) = false

-- struct StdIO, with the counts of the interpreter. An object that was only allocated has zeros.
pub record StdIo : Type 0 where
  pub stream : Option Obj
  pub fd : ℤ
  pub flags : ℤ
  pub refs : Refs

-- StdIO_tp_new
unfoldable pub stdio_tp_new : Refs → StdIo
stdio_tp_new refs = record { stream = none; fd = pos 0; flags = pos 0; refs = refs }

-- What PyArg_ParseTupleAndKeywords stores; -1 and UV_IGNORE stand for what is left out.
pub record StdIoArgs : Type 0 where
  pub stream_arg : Option Obj
  pub fd_arg : ℤ
  pub flags_arg : ℤ

abbrev pub has_fd : ℤ → Bool
has_fd (negsuc zero) = false
has_fd n = true

abbrev pub fits_stream : (Obj → Bool) → Option Obj → Bool
fits_stream is_stream none = true
fits_stream is_stream (some o) = is_stream o

-- StdIO_tp_init; `is_stream` is PyObject_IsSubclass of the object's type.
unfoldable pub stdio_tp_init : (is_stream : Obj → Bool) → Option StdIoArgs → M StdIo (Unit {0})
stdio_tp_init is_stream args s =
    (do
      a ← parse args
      guard (not (is_some a.stream_arg && has_fd a.fd_arg)) value_error
      guard (fits_stream is_stream a.stream_arg) type_error
      guard (not (is_some a.stream_arg) || stream_flags a.flags_arg) value_error
      guard (not (has_fd a.fd_arg) || fd_flags a.flags_arg) value_error
      guard (is_some a.stream_arg || has_fd a.fd_arg || ignore_flags a.flags_arg) value_error
      put (record {
        stream = a.stream_arg;
        fd = a.fd_arg;
        flags = a.flags_arg;
        refs = xdecref s.stream (xincref a.stream_arg s.refs);
      }))
      s

-- StdIO_tp_clear
unfoldable pub stdio_tp_clear : StdIo → StdIo
stdio_tp_clear s = record s { stream = none; refs = xdecref s.stream s.refs }

-- One element of the `uv_stdio_container_t` array: the stream, the descriptor, or neither, by the
-- flags.
pub data Container : Type 0 where
  with_stream : Obj → Container
  with_fd : ℤ → Container
  ignored : Container

-- flags & bit, for an int that may be negative
abbrev pub int_bit : ℕ → ℤ → Bool
int_bit bit (pos n) = has_bit bit n
int_bit bit (negsuc n) = not (has_bit bit n)

-- The round of spawn's loop over `stdio` for one StdIO: UV_HANDLE of a NULL stream aborts.
unfoldable pub container_of : StdIo → Result Container
container_of s =
    if int_bit create_pipe s.flags || int_bit inherit_stream s.flags
    then elim s.stream [ none ↦ aborted | some o ↦ ok (with_stream o) ]
    else if int_bit inherit_fd s.flags
    then ok (with_fd s.fd)
    else ok ignored
