-- ===== src/Error.antt =====
-- src/error.c: the exception types of the module.
pub mod Classes
pub mod Errno
mod Examples

-- The built-in exceptions that the code raises come first, then those that `init_error` makes.
pub data ExcType : Type 0 where
  exception type_error value_error overflow_error runtime_error memory_error : ExcType
  uv_error thread_error handle_error handle_closed_error : ExcType
  async_error timer_error prepare_error idle_error check_error signal_error : ExcType
  stream_error tcp_error pipe_error tty_error udp_error poll_error : ExcType
  fs_error fs_event_error fs_poll_error process_error : ExcType
