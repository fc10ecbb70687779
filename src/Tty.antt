-- ===== src/Tty.antt =====
-- src/tty.c: what a TTY adds to a stream.
use pyuv.Base.{Option}
use pyuv.Base.Int.{ℤ}
use pyuv.Error.{tty_error}
use pyuv.Py.{Obj, none_obj, M, pure, ◌>>=◌, ◌>>◌, check, check_open, parse, put}
use pyuv.Uv.{Libuv, Call}
use pyuv.Watcher.{Watcher, with_uv, tp_init}

pub record Winsize : Type 0 where
  pub width : ℤ
  pub height : ℤ

module _ (U : Libuv) where
  open U use {Hdl, is_closing}

  -- TTY_func_set_mode: the mode is in `uv_set_mode`.
  unfoldable pub set_mode : Option (Call U) → M (Watcher Hdl) Obj
  set_mode args w =
      (do
        check_open w.initialized (is_closing w.uv_handle)
        uv_set_mode ← parse args
        put (with_uv (uv_set_mode.run w.uv_handle).1 w)
        check (uv_set_mode.run w.uv_handle).0 tty_error
        pure none_obj)
        w

  -- TTY_func_get_winsize: libuv's code, the width and the height.
  unfoldable pub get_winsize : (Hdl → ℤ × Winsize) → M (Watcher Hdl) Winsize
  get_winsize query w =
      (do
        check_open w.initialized (is_closing w.uv_handle)
        check (query w.uv_handle).0 tty_error
        pure (query w.uv_handle).1)
        w

  -- TTY_tp_init: the descriptor and whether it is readable are in `uv_init`.
  unfoldable pub tty_init : ℤ × Hdl → Option Obj → M (Watcher Hdl) (Unit {0})
  unfolding tp_init
  tty_init = tp_init U tty_error
