-- ===== src/Handle/Frame.antt =====
-- References beside those that the code outside holds, such as those of a subclass's own fields, go
-- through everything that Python code does with a handle.
use pyuv.Base.{◌+◌, ◌≡◌, arith}
use pyuv.Py.{Obj, Refs, is-le, Result, ok, raised, aborted}
use pyuv.Uv.{Libuv}
use pyuv.Handle.Defs.{Handle, dict_get}
use pyuv.Handle.Ownership.{
  Inv, result_ref, func_close-Inv, handle_incref-Inv, handle_decref-Inv, initialize_handle-Inv,
  dict_get-Inv, dict_set-Inv,
}
use pyuv.Handle.Lifecycle.{World, Act, hold, drop, init, close, start, stop, get_dict, set_dict}
use pyuv.Handle.Safety.{live, hold-Inv, drop-Inv}

-- The sum of two counts.
abbrev pub plus : Refs → Refs → Refs
plus a b o = a o + b o

result_ref-plus :
    (r : Result Obj) (a b : Refs) (o : Obj) → result_ref r (plus a b) o ≡ plus (result_ref r a) b o
result_ref-plus (ok x) a b o = omega arith
result_ref-plus (raised e) a b o = omega arith
result_ref-plus aborted a b o = omega arith

module _ (U : Libuv) (me : Obj) where
  open U use {Hdl, is_closing}

  -- The account depends on the counts alone.
  pub Inv-ext :
      (a b : Refs) (s : Handle Hdl) → ((o : Obj) → a o ≡ b o) → Inv U me a s → Inv U me b s
  Inv-ext a b s same v = record {
    counted = λ o. omega (arith, v.counted o, same o);
    blank = v.blank;
    unclosed = v.unclosed;
    closable = v.closable;
    looped = v.looped;
    released = v.released;
  }

  -- What acts on a handle keeps the account with `more` references that stay where they are.
  pub Act-frame :
      {w v : World Hdl} (more : Refs)
      → Act U me w v
      → Inv U me (plus w.ext more) w.handle
      → Inv U me (plus v.ext more) v.handle
  Act-frame more (hold s ext o known) v =
      Inv-ext _ _ _ (λ x. omega arith)
        (hold-Inv U me (plus ext more) s o (λ e. omega (arith, known e)) v)
  Act-frame more (drop s ext o held) v =
      Inv-ext _ _ _ (λ x. omega (arith, is-le o x ext held))
        (drop-Inv U me (plus ext more) s o (omega arith) v)
  Act-frame more (init s ext loop h held new opened) v =
      initialize_handle-Inv U me loop h (plus ext more) s new
        (live U me (plus ext more) s (omega arith) v) opened v
  Act-frame more (close s ext callable args held) v =
      func_close-Inv U me callable args (plus ext more) s
        (live U me (plus ext more) s (omega arith) v) v
  Act-frame more (start s ext held ready _) v =
      handle_incref-Inv U me (plus ext more) s ready (live U me (plus ext more) s (omega arith) v) v
  Act-frame more (stop s ext held _ _) v =
      handle_decref-Inv U me (plus ext more) s (live U me (plus ext more) s (omega arith) v) v
  Act-frame more (get_dict s ext new held) v =
      Inv-ext _ _ _ (result_ref-plus (dict_get new s).0 ext more)
        (dict_get-Inv U me new (plus ext more) s (live U me (plus ext more) s (omega arith) v) v)
  Act-frame more (set_dict s ext is_dict val held) v =
      dict_set-Inv U me is_dict val (plus ext more) s (live U me (plus ext more) s (omega arith) v)
        v
