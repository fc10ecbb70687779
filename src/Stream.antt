-- ===== src/Stream.antt =====
-- src/stream.c: streams. Reading is that of a watcher whose function is `on_read_cb`; a write or a
-- shutdown owns a context until libuv calls back.
pub mod Reads
pub mod Writes
pub mod WriteLaws
pub mod Callbacks
pub mod Methods
mod Examples
use pyuv.Base.{
  ℕ, zero, ◌+◌, ◌-◌, Bool, true, false, Option, none, some, List, [], ◌∷◌, if◌then◌else◌,
}
use pyuv.Base.Int.{ℤ}
use pyuv.Error.{ExcType, tcp_error, pipe_error, tty_error}
use pyuv.Py.{Obj, Refs, M, aborted}
use pyuv.Handle.{Handle}
use pyuv.Watcher.{Watcher}

-- The `type` of a uv_stream_t.
pub data StreamType : Type 0 where
  uv_tcp uv_named_pipe uv_tty uv_other : StreamType

-- The exception type of RAISE_STREAM_EXCEPTION; any other type of handle fails its ASSERT.
abbrev pub stream_exc : StreamType → Option ExcType
stream_exc uv_tcp = some tcp_error
stream_exc uv_named_pipe = some pipe_error
stream_exc uv_tty = some tty_error
stream_exc uv_other = none

-- struct stream_write_ctx: `big` says that the views are in a block of their own and not in
-- `viewsml`.
pub record WriteCtx : Type 0 where
  pub callback : Obj
  pub send_handle : Option Obj
  pub views : List Obj
  pub big : Bool
