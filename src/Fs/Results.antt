-- ===== src/Fs/Results.antt =====
-- The lemmas on the functions of src/fs.c that read and write no data, step by step.
use pyuv.Base.{
  ℕ, ◌+◌, ◌<◌, ◌≡◌, refl, true, false, Option, none, some, arith, ◌==◌, inl, inr, Bool-cases,
  get_or,
}
use mathlib.Core.Path.{subst}
use pyuv.Base.Int.{is_neg}
use pyuv.Py.{Obj, none_obj, Refs, is, is_self, is-le, held, incref, ok}
use pyuv.Request.{tp_new, tp_init}
use pyuv.Fs.{
  FsRequest, Outcome, Yield, new_object, nothing, unlisted, yields, give_back, path_of, settle_by,
  with_refs, fs_tp_new, fs_tp_init, fs_release, settle, run_callback, finish_process,
  process_fs_req,
}
use pyuv.Fs.Calls.{Env, sync_outcome, take_result, conclude}
use pyuv.Fs.Ownership.{FsInv, Fresh, give_back-FsInv, give_back-Fresh}
use pyuv.Fs.Cycle.{Listed, process_ok}
use pyuv.Fs.Balance.{Balanced, drop_last, filled}

-- The objects that processing makes are not the request, nor is None.
pub record Apart (a : Outcome) (me : Obj) : Type 0 where
  pub path_apart : held (path_of a.path_made) me ≡ 0
  pub number_apart : is a.number me ≡ 0
  pub made_apart : is (get_or a.made none_obj) me ≡ 0
  pub none_apart : is none_obj me ≡ 0

-- A request that was made for the callback `cb` and has taken nothing, with `n` references.
pub record Made (me : Obj) (refs : Refs) (base : ℕ) (cb : Obj) (n : ℕ) (s : FsRequest)
    : Type 0 where
  pub live : s.freed ≡ false
  pub ready : s.req_ptr ≡ true
  pub called : s.callback ≡ some cb
  pub owners : s.refs me ≡ n
  pub no_view : s.view ≡ none
  pub no_buf : s.buf ≡ false
  pub fresh : Fresh s
  pub account : FsInv me refs base s

one_more :
    (x ext i l d c p rs er v : ℕ)
    → x ≡ ext + i + l + d + c + p + rs + er + v
    → x + i ≡ ext + i + i + l + d + c + p + rs + er + v
one_more x ext i l d c p rs er v h = omega arith

give_back_unchanged :
    (a : Outcome) (s : FsRequest)
    → s.view ≡ none
    → s.buf ≡ false
    → ((give_back a.fs_type s).freed ≡ s.freed)
      × ((give_back a.fs_type s).callback ≡ s.callback)
      × ((o : Obj) → (give_back a.fs_type s).refs o ≡ s.refs o)
      × ((give_back a.fs_type s).view ≡ none)
      × ((give_back a.fs_type s).buf ≡ false)
unfolding give_back
give_back_unchanged a s hv hb =
    (ground arith, ground arith, λ o. ground (arith, hv), ground (arith, hv), ground (arith, hb))

module _ (call : Option Obj → FsRequest → Option Obj × FsRequest) (hook : FsRequest → FsRequest)
    (env : Env) (me : Obj) (refs : Refs) (base : ℕ) where
  sync_by-Balanced :
      (y : Yield) (s : FsRequest)
      → (y ≡ unlisted → is_neg env.err ≡ true)
      → is_neg env.err ≡ false
      → refs me ≡ 0
      → Apart env.answer me
      → Made me (incref me (incref me refs)) base none_obj 2 s
      → Balanced me refs base (
          take_result call hook env me (
            ok tt,
            finish_process me (run_callback call hook (settle_by y (sync_outcome env) s).1),
          ))
  sync_by-Balanced unlisted s listed good fresh apart m = ground (arith, listed refl, good)
  sync_by-Balanced nothing s listed good fresh apart m =
      filled call hook env me refs base (path_of env.answer.path_made) none_obj none_obj s m.live
        m.called m.owners m.no_view m.no_buf apart.path_apart apart.none_apart apart.none_apart
        m.fresh m.account
  sync_by-Balanced new_object s listed good fresh apart m =
      let g = give_back_unchanged env.answer s m.no_view m.no_buf in
      filled call hook env me refs base (path_of env.answer.path_made)
        (get_or env.answer.made none_obj) none_obj (give_back env.answer.fs_type s)
        (ground (arith, g.0, m.live)) (ground (arith, g.1, m.called))
        (ground (arith, g.2 me, m.owners)) g.3 g.4 apart.path_apart apart.made_apart
        apart.none_apart (give_back-Fresh me env.answer.fs_type s m.fresh)
        (give_back-FsInv me env.answer.fs_type (incref me (incref me refs)) base s m.live
          (ground (arith, is_self me)) m.account)

  sync-Balanced :
      (s : FsRequest)
      → Listed (sync_outcome env)
      → is_neg env.err ≡ false
      → refs me ≡ 0
      → Apart env.answer me
      → Made me (incref me (incref me refs)) base none_obj 2 s
      → Balanced me refs base
          (take_result call hook env me (process_fs_req call hook (sync_outcome env) me s))
  unfolding settle
  sync-Balanced s listed good fresh apart m =
      rw (process_ok call hook (sync_outcome env) me s listed, good)
        (sync_by-Balanced (yields env.answer.fs_type) s listed good fresh apart m)

  -- The reference that is taken before the request is processed.
  pub kept_more :
      (cb : Obj) (s : FsRequest)
      → Made me (incref me refs) base cb 1 s
      → Made me (incref me (incref me refs)) base cb 2 (with_refs (incref me s.refs) s)
  kept_more cb s m = record {
    live = m.live;
    ready = m.ready;
    called = m.called;
    owners = ground (arith, m.owners, is_self me);
    no_view = m.no_view;
    no_buf = m.no_buf;
    fresh = record {
      no_path = m.fresh.no_path;
      no_result = m.fresh.no_result;
      no_error = m.fresh.no_error;
    };
    account = record {
      counted = λ o. one_more (s.refs o) (refs o) (is me o) _ _ _ _ _ _ _ (m.account.counted o);
      blocked = m.account.blocked;
      alive = ground (arith, m.owners);
      dead = ground (arith, m.live);
    };
  }

  -- From libuv's answer on nothing is lost.
  pub conclude-Balanced :
      (cb : Obj) (s : FsRequest)
      → Listed (sync_outcome env)
      → refs me ≡ 0
      → Apart env.answer me
      → Made me (incref me refs) base cb 1 s
      → Balanced me refs base (conclude call hook env (λ t. t) cb me s)
  unfolding conclude
  conclude-Balanced cb s listed fresh apart m =
      let t = kept_more cb s m in
      elim (Bool-cases (is_neg env.err)) [
        | inl bad ↦ rw bad (drop_last me refs base s m.live m.owners m.no_view m.no_buf m.account)
        | inr good ↦ rw good (elim (Bool-cases (cb == none_obj)) [
          | inr async ↦ rw async (t.live, t.ready, t.fresh, t.account)
          | inl sync ↦ rw sync (
              sync-Balanced (with_refs (incref me s.refs) s) listed good fresh apart (
                subst
                  (λ c.
                    Made me (incref me (incref me refs)) base c 2 (with_refs (incref me s.refs) s))
                  (ground (arith, sync)) t))
        ])
      ]

  -- A new request whose __init__ succeeded, and one whose __init__ failed.
  pub built-Made :
      (loop cb : Obj)
      → refs me ≡ 0
      → 0 < refs loop
      → 0 < refs cb
      → Made me
          (incref me refs)
          base
          cb
          1
          (fs_tp_init (some (loop, cb)) true (fs_tp_new me refs base)).1
  unfolding fs_tp_init fs_tp_new tp_init tp_new
  built-Made loop cb fresh hl hc = record {
    live = refl;
    ready = refl;
    called = refl;
    owners = ground (arith, is_self me, is-le loop me refs hl, is-le cb me refs hc);
    no_view = refl;
    no_buf = refl;
    fresh = record { no_path = refl; no_result = refl; no_error = refl };
    account = record {
      counted = λ o. ground arith;
      blocked = omega arith;
      alive = ground (arith, is_self me);
      dead = ground arith;
    };
  }

  pub unbuilt-Balanced :
      refs me ≡ 0
      → ((fs_release me (fs_tp_new me refs base)).freed ≡ true)
        × ((o : Obj) → (fs_release me (fs_tp_new me refs base)).refs o ≡ refs o)
        × ((fs_release me (fs_tp_new me refs base)).blocks ≡ base)
  unfolding fs_tp_new tp_new
  unbuilt-Balanced fresh =
      drop_last me refs base (fs_tp_new me refs base) refl (ground (arith, is_self me)) refl refl
        (record {
          counted = λ o. ground arith;
          blocked = omega arith;
          alive = ground (arith, is_self me);
          dead = ground arith;
        })
