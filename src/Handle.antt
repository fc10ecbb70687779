-- ===== src/Handle.antt =====
-- src/handle.c, and the flag macros of src/pyuv.h: the base class of every handle. A handle is a
-- Python object around a `uv_handle_t`; libuv keeps a pointer to it from init until the close
-- callback, so its memory must not be released in between.
mod Defs
pub mod Ownership
pub mod Methods
pub mod Lifecycle
pub mod Closing
pub mod Safety
pub mod Frame
pub mod Phases
pub mod Liveness
mod Examples
unfoldable pub use Defs.*
