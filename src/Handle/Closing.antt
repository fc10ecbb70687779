-- ===== src/Handle/Closing.antt =====
-- Between the moment that libuv calls the close callback and its end.
use pyuv.Base.{◌≡◌, Bool, true, Option, none, some, arith, sym, ◌∙◌}
use mathlib.Core.Bool.{false≢true}
use pyuv.Py.{Obj}
use pyuv.Uv.{Libuv}
use pyuv.Handle.Defs.{Handle, dict_get, dict_set, func_close}
use pyuv.Handle.Lifecycle.{
  World, Act, hold, drop, init, close, start, stop, get_dict, set_dict, Acts, done, then,
}

module _ (U : Libuv) (me : Obj) where
  open U use {Hdl, is_closing, pending, take}

  -- While libuv runs the user's close callback nothing that Python code does reopens the handle.
  pub record Closing (cb : Obj) (s : Handle Hdl) : Type 0 where
    pub ready : s.initialized ≡ true
    pub shut : is_closing s.uv_handle ≡ true
    pub quiet : pending s.uv_handle ≡ none
    pub kept : s.on_close_cb ≡ some cb

  close-Closing :
      (callable : Obj → Bool) (args : Option (Option Obj)) (cb : Obj) (s : Handle Hdl)
      → Closing cb s
      → Closing cb (func_close U callable me args s).1
  unfolding func_close
  close-Closing callable args cb s c = record {
    ready = ground (arith, c.ready, c.shut);
    shut = ground (arith, c.ready, c.shut);
    quiet = ground (arith, c.ready, c.shut, c.quiet);
    kept = ground (arith, c.ready, c.shut, c.kept);
  }

  get_dict-Closing :
      (new : Option Obj) (cb : Obj) (s : Handle Hdl) → Closing cb s → Closing cb (dict_get new s).1
  unfolding dict_get
  get_dict-Closing new cb s c = record {
    ready = ground (arith, c.ready);
    shut = ground (arith, c.shut);
    quiet = ground (arith, c.quiet);
    kept = ground (arith, c.kept);
  }

  set_dict-Closing :
      (is_dict : Obj → Bool) (val : Option Obj) (cb : Obj) (s : Handle Hdl)
      → Closing cb s
      → Closing cb (dict_set is_dict val s).1
  unfolding dict_set
  set_dict-Closing is_dict none cb s c = c
  set_dict-Closing is_dict (some d) cb s c = record {
    ready = ground (arith, c.ready);
    shut = ground (arith, c.shut);
    quiet = ground (arith, c.quiet);
    kept = ground (arith, c.kept);
  }

  pub Act-Closing :
      {w v : World Hdl} (cb : Obj) → Act U me w v → Closing cb w.handle → Closing cb v.handle
  Act-Closing cb (hold s ext o _) c = record {
    ready = c.ready;
    shut = c.shut;
    quiet = c.quiet;
    kept = c.kept;
  }
  Act-Closing cb (drop s ext o _) c = record {
    ready = c.ready;
    shut = c.shut;
    quiet = c.quiet;
    kept = c.kept;
  }
  Act-Closing cb (init s ext loop h held new opened) c = absurd (false≢true (sym new ∙ c.ready))
  Act-Closing cb (close s ext callable args held) c = close-Closing callable args cb s c
  Act-Closing cb (start s ext held ready opened) c = absurd (false≢true (sym opened ∙ c.shut))
  Act-Closing cb (stop s ext held ready opened) c = absurd (false≢true (sym opened ∙ c.shut))
  Act-Closing cb (get_dict s ext new held) c = get_dict-Closing new cb s c
  Act-Closing cb (set_dict s ext is_dict val held) c = set_dict-Closing is_dict val cb s c

  pub Acts-Closing :
      {w v : World Hdl} (cb : Obj) → Acts U me w v → Closing cb w.handle → Closing cb v.handle
  Acts-Closing cb done c = c
  Acts-Closing cb (then r a) c = Act-Closing cb a (Acts-Closing cb r c)
