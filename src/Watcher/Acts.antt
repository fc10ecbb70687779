-- ===== src/Watcher/Acts.antt =====
-- What Python code does with a watcher keeps its account of references, and leaves a handle that is
-- closing as it is.
use pyuv.Base.{◌<◌, ◌≡◌, refl, sym, ◌∙◌, Bool, true, false, Option, none, some, arith}
use mathlib.Core.Bool.{false≢true}
use pyuv.Base.Int.{ℤ}
use pyuv.Error.{ExcType}
use pyuv.Py.{Obj, Refs, held, xincref}
use pyuv.Uv.{Libuv, Call}
use pyuv.Handle.{
  Handle, handle_incref, handle_decref, initialize_handle, func_close, dict_get, dict_set,
}
use pyuv.Handle.Ownership.{Inv}
use pyuv.Handle.Lifecycle.{
  World, world, Act, hold, drop, init, close, start as start_act, stop as stop_act, get_dict,
  set_dict,
}
use pyuv.Handle.Safety.{live}
use pyuv.Handle.Closing.{Closing, Act-Closing}
use pyuv.Handle.Frame.{plus, Inv-ext, Act-frame}
use pyuv.Watcher.{Watcher, with_uv, start, stop, stop_clear, tp_init}
use pyuv.Watcher.Ownership.{WatcherInv, start-Inv, stop-Inv, stop_clear-Inv, tp_init-Inv, call-Inv}
use pyuv.Watcher.Lifecycle.{
  WatcherWorld, WatcherAct, of_handle, start_it, stop_it, stop_and_clear, init_it, call_it,
  WatcherActs, none_yet, then_one,
}

-- What a handle holds by its fields is given up, and what a watcher does.
abbrev pub Empty : {Hdl : Type 0} → Handle Hdl → Type 0
Empty s = (s.on_close_cb ≡ none) × (s.loop ≡ none) × (s.dict ≡ none)

abbrev pub Cleared : {Hdl : Type 0} → Watcher Hdl → Type 0
Cleared w = (w.callback ≡ none) × Empty w.handle

module _ (U : Libuv) (me : Obj) where
  open U use {Hdl, is_closing, pending, take}

  pub record Sound (ext : Refs) (w : Watcher Hdl) : Type 0 where
    pub account : WatcherInv U me ext w
    pub cleared : w.freed ≡ true → Cleared w

  -- Only the destructor releases a handle.
  Act-freed : {u v : World Hdl} → Act U me u v → v.handle.freed ≡ u.handle.freed
  unfolding initialize_handle func_close handle_incref handle_decref dict_get dict_set
  Act-freed (hold s ext o known) = refl
  Act-freed (drop s ext o h) = refl
  Act-freed (init s ext loop h p new opened) = refl
  Act-freed (close s ext callable args h) = ground arith
  Act-freed (start_act s ext h p q) = ground arith
  Act-freed (stop_act s ext h p q) = ground arith
  Act-freed (get_dict s ext new h) = ground arith
  Act-freed (set_dict s ext is_dict none h) = refl
  Act-freed (set_dict s ext is_dict (some d) h) = ground arith

  pub watched :
      (ext : Refs) (w : Watcher Hdl) → 0 < ext me → WatcherInv U me ext w → w.freed ≡ false
  watched ext w h v = live U me (xincref w.callback ext) w.handle (omega arith) v

  -- Whoever acts on a released handle only counts references to other objects.
  gone_and_held :
      (s : Handle Hdl) (ext more : Refs)
      → 0 < ext me
      → Inv U me (plus ext more) s
      → s.freed ≡ true
      → ⊥
  gone_and_held s ext more h v gone =
      false≢true (sym (live U me (plus ext more) s (omega arith) v) ∙ gone)

  Act-Empty :
      {u v : World Hdl} (more : Refs)
      → Act U me u v
      → Inv U me (plus u.ext more) u.handle
      → u.handle.freed ≡ true
      → Empty u.handle
      → Empty v.handle
  Act-Empty more (hold s ext o known) v gone e = e
  Act-Empty more (drop s ext o h) v gone e = e
  Act-Empty more (init s ext loop hdl h new opened) v gone e =
      absurd (gone_and_held s ext more h v gone)
  Act-Empty more (close s ext callable args h) v gone e = absurd (gone_and_held s ext more h v gone)
  Act-Empty more (start_act s ext h p q) v gone e = absurd (gone_and_held s ext more h v gone)
  Act-Empty more (stop_act s ext h p q) v gone e = absurd (gone_and_held s ext more h v gone)
  Act-Empty more (get_dict s ext new h) v gone e = absurd (gone_and_held s ext more h v gone)
  Act-Empty more (set_dict s ext is_dict val h) v gone e =
      absurd (gone_and_held s ext more h v gone)

  module _ (exc : ExcType) where
    -- The methods do not release the object.
    start-freed :
        (callable : Obj → Bool) (c : Call U) (args : Option Obj) (w : Watcher Hdl)
        → (start U exc callable me c args w).1.freed ≡ w.freed
    unfolding start handle_incref
    start-freed callable c args w = ground arith

    stop-freed : (c : Call U) (w : Watcher Hdl) → (stop U exc me c w).1.freed ≡ w.freed
    unfolding stop handle_decref
    stop-freed c w = ground arith

    stop_clear-freed : (c : Call U) (w : Watcher Hdl) → (stop_clear U exc me c w).1.freed ≡ w.freed
    unfolding stop_clear handle_decref
    stop_clear-freed c w = ground arith

    tp_init-freed :
        (err : ℤ) (h : Hdl) (args : Option Obj) (w : Watcher Hdl)
        → (tp_init U exc (err, h) args w).1.freed ≡ w.freed
    unfolding tp_init initialize_handle
    tp_init-freed err h args w = ground arith

    pub unreleased :
        (w t : Watcher Hdl) → t.freed ≡ w.freed → w.freed ≡ false → t.freed ≡ true → Cleared t
    unreleased w t same still gone = absurd (false≢true (sym still ∙ sym same ∙ gone))

    -- `more` references stay where they are.
    of_handle-Sound :
        (w : Watcher Hdl) (ext ext' more : Refs) (s : Handle Hdl)
        → Act U me (world w.handle ext) (world s ext')
        → Sound (plus ext more) w
        → Sound (plus ext' more) (record w { handle = s })
    of_handle-Sound w ext ext' more s a v =
        let both = plus more (held w.callback) in
        let before =
          Inv-ext U me (xincref w.callback (plus ext more)) (plus ext both) w.handle
            (λ o. omega arith) v.account in
        record {
          account =
              Inv-ext U me (plus ext' both) (xincref w.callback (plus ext' more)) s
                (λ o. omega arith) (Act-frame U me both a before);
          cleared = λ gone.
              let still = sym (Act-freed a) ∙ gone in
              let c = v.cleared still in (c.0, Act-Empty both a before still c.1);
        }

    pub WatcherAct-Sound :
        {t u : WatcherWorld Hdl} (more : Refs)
        → WatcherAct U me exc t u
        → Sound (plus t.ext more) t.watcher
        → Sound (plus u.ext more) u.watcher
    WatcherAct-Sound more (of_handle w ext ext' s a) v = of_handle-Sound w ext ext' more s a v
    WatcherAct-Sound more (start_it w ext callable c args h) v =
        let still = watched (plus ext more) w (omega arith) v.account in
        record {
          account = start-Inv U me exc callable c args (plus ext more) w still v.account;
          cleared =
              unreleased w (start U exc callable me c args w).1 (start-freed callable c args w)
                still;
        }
    WatcherAct-Sound more (stop_it w ext c h) v =
        let still = watched (plus ext more) w (omega arith) v.account in
        record {
          account = stop-Inv U me exc c (plus ext more) w still v.account;
          cleared = unreleased w (stop U exc me c w).1 (stop-freed c w) still;
        }
    WatcherAct-Sound more (stop_and_clear w ext c h) v =
        let still = watched (plus ext more) w (omega arith) v.account in
        record {
          account = stop_clear-Inv U me exc c (plus ext more) w still v.account;
          cleared = unreleased w (stop_clear U exc me c w).1 (stop_clear-freed c w) still;
        }
    WatcherAct-Sound more (init_it w ext err hdl args h opened) v =
        let still = watched (plus ext more) w (omega arith) v.account in
        record {
          account = tp_init-Inv U me exc err hdl args (plus ext more) w still opened v.account;
          cleared =
              unreleased w (tp_init U exc (err, hdl) args w).1 (tp_init-freed err hdl args w) still;
        }
    WatcherAct-Sound more (call_it w ext c h) v =
        let still = watched (plus ext more) w (omega arith) v.account in
        record {
          account = call-Inv U me c (plus ext more) w still v.account;
          cleared = unreleased w (with_uv (c.run w.uv_handle).1 w) refl still;
        }

    pub WatcherActs-Sound :
        {t u : WatcherWorld Hdl} (more : Refs)
        → WatcherActs U me exc t u
        → Sound (plus t.ext more) t.watcher
        → Sound (plus u.ext more) u.watcher
    WatcherActs-Sound more none_yet v = v
    WatcherActs-Sound more (then_one r a) v = WatcherAct-Sound more a (WatcherActs-Sound more r v)

    -- The methods on a handle that is closing, while its callback runs.
    start_shut :
        (callable : Obj → Bool) (c : Call U) (args : Option Obj) (cb : Obj) (w : Watcher Hdl)
        → Closing U me cb w.handle
        → (start U exc callable me c args w).1 ≡ w
    unfolding start
    start_shut callable c args cb w s = rw (s.ready, s.shut) refl

    stop_shut :
        (c : Call U) (cb : Obj) (w : Watcher Hdl)
        → Closing U me cb w.handle
        → ((stop U exc me c w).1 ≡ w) × ((stop_clear U exc me c w).1 ≡ w)
    unfolding stop stop_clear
    stop_shut c cb w s = rw (s.ready, s.shut) (refl, refl)

    tp_init_shut :
        (err : ℤ) (h : Hdl) (args : Option Obj) (cb : Obj) (w : Watcher Hdl)
        → Closing U me cb w.handle
        → (tp_init U exc (err, h) args w).1 ≡ w
    unfolding tp_init
    tp_init_shut err h args cb w s = rw s.ready refl

    call_shut :
        (c : Call U) (cb : Obj) (w : Watcher Hdl)
        → Closing U me cb w.handle
        → Closing U me cb (with_uv (c.run w.uv_handle).1 w).handle
    call_shut c cb w s = record {
      ready = s.ready;
      shut = ground (arith, s.shut, c.is_closing-run w.uv_handle);
      quiet = ground (arith, s.quiet, c.pending-run w.uv_handle);
      kept = s.kept;
    }

    WatcherAct-Closing :
        {t u : WatcherWorld Hdl} (cb : Obj)
        → WatcherAct U me exc t u
        → Closing U me cb t.watcher.handle
        → Closing U me cb u.watcher.handle
    WatcherAct-Closing cb (of_handle w ext ext' s a) c = Act-Closing U me cb a c
    WatcherAct-Closing cb (start_it w ext callable d args h) c =
        rw (start_shut callable d args cb w c) c
    WatcherAct-Closing cb (stop_it w ext d h) c = rw (stop_shut d cb w c).0 c
    WatcherAct-Closing cb (stop_and_clear w ext d h) c = rw (stop_shut d cb w c).1 c
    WatcherAct-Closing cb (init_it w ext err hdl args h opened) c =
        rw (tp_init_shut err hdl args cb w c) c
    WatcherAct-Closing cb (call_it w ext d h) c = call_shut d cb w c

    pub WatcherActs-Closing :
        {t u : WatcherWorld Hdl} (cb : Obj)
        → WatcherActs U me exc t u
        → Closing U me cb t.watcher.handle
        → Closing U me cb u.watcher.handle
    WatcherActs-Closing cb none_yet c = c
    WatcherActs-Closing cb (then_one r a) c = WatcherAct-Closing cb a (WatcherActs-Closing cb r c)
