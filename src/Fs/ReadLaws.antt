-- ===== src/Fs/ReadLaws.antt =====
-- FS_func_read of src/fs.c, whose request takes a block of memory.
use mathlib.Core.Path.{subst}
use pyuv.Base.{
  ℕ, ◌+◌, ◌-◌, ◌≡◌, refl, true, false, Option, none, arith, ◌==◌, inl, inr, Bool-cases, get_or,
}
use pyuv.Base.Int.{is_neg}
use pyuv.Py.{Obj, none_obj, Refs, is_self, incref}
use pyuv.Fs.{FsRequest, fs_read, yields, give_back, path_of, with_refs, settle, process_fs_req}
use pyuv.Fs.Calls.{Env, sync_outcome, take_result, conclude}
use pyuv.Fs.Ownership.{FsInv, Fresh, give_back-FsInv, give_back-Fresh}
use pyuv.Fs.Cycle.{Listed, process_ok}
use pyuv.Fs.Balance.{Balanced, drop_last, filled}
use pyuv.Fs.Results.{Apart, Made, kept_more}
use pyuv.Fs.Functions.{of_type}

-- What the call takes, and gives back where libuv refuses.
abbrev pub with_block : FsRequest → FsRequest
with_block s = record s { buf = true; blocks = s.blocks + 1 }

abbrev pub free_block : FsRequest → FsRequest
free_block s = record s { buf = false; blocks = s.blocks - 1 }

with_block-FsInv :
    (me : Obj) (ext : Refs) (base : ℕ) (s : FsRequest)
    → s.buf ≡ false
    → FsInv me ext base s
    → FsInv me ext base (with_block s)
with_block-FsInv me ext base s no_buf v = record {
  counted = v.counted;
  blocked = ground (arith, v.blocked, no_buf);
  alive = v.alive;
  dead = v.dead;
}

freed-FsInv :
    (me : Obj) (ext : Refs) (base : ℕ) (s : FsRequest)
    → s.buf ≡ false
    → FsInv me ext base s
    → FsInv me ext base (free_block (with_block s))
freed-FsInv me ext base s no_buf v = record {
  counted = v.counted;
  blocked = ground (arith, v.blocked, no_buf);
  alive = v.alive;
  dead = v.dead;
}

given_back :
    (s : FsRequest)
    → s.buf ≡ true
    → s.view ≡ none
    → ((give_back fs_read s).freed ≡ s.freed)
      × ((give_back fs_read s).callback ≡ s.callback)
      × ((o : Obj) → (give_back fs_read s).refs o ≡ s.refs o)
      × ((give_back fs_read s).view ≡ none)
      × ((give_back fs_read s).buf ≡ false)
unfolding give_back
given_back s hb hv = (refl, refl, λ o. refl, hv, refl)

read-Listed : (env : Env) → Listed (sync_outcome (of_type fs_read env))
unfolding yields
read-Listed env e = ground (arith, e)

module _ (call : Option Obj → FsRequest → Option Obj × FsRequest) (hook : FsRequest → FsRequest)
    (env : Env) (me : Obj) (refs : Refs) (base : ℕ) where
  sync_read-Balanced :
      (s : FsRequest)
      → is_neg env.err ≡ false
      → refs me ≡ 0
      → Apart env.answer me
      → Made me (incref me (incref me refs)) base none_obj 2 s
      → Balanced me refs base (
          take_result call hook
            (of_type fs_read env)
            me
            (process_fs_req call hook (sync_outcome (of_type fs_read env)) me (with_block s)))
  unfolding settle yields
  sync_read-Balanced s good fresh apart m =
      let t = with_block s in
      let g = given_back t refl m.no_view in
      let f : Fresh t = record {
        no_path = m.fresh.no_path;
        no_result = m.fresh.no_result;
        no_error = m.fresh.no_error;
      } in
      let v = with_block-FsInv me (incref me (incref me refs)) base s m.no_buf m.account in
      rw (process_ok call hook (sync_outcome (of_type fs_read env)) me t (read-Listed env), good)
        (filled call hook (of_type fs_read env) me refs base (path_of env.answer.path_made)
          (get_or env.answer.made none_obj) none_obj (give_back fs_read t)
          (ground (arith, g.0, m.live)) (ground (arith, g.1, m.called))
          (ground (arith, g.2 me, m.owners)) g.3 g.4 apart.path_apart apart.made_apart
          apart.none_apart (give_back-Fresh me fs_read t f)
          (give_back-FsInv me fs_read (incref me (incref me refs)) base t m.live
            (ground (arith, is_self me)) v))

  -- From libuv's answer on, for a request with its block.
  pub read_concluded-Balanced :
      (cb : Obj) (s : FsRequest)
      → refs me ≡ 0
      → Apart env.answer me
      → Made me (incref me refs) base cb 1 s
      → Balanced me refs base
          (conclude call hook (of_type fs_read env) free_block cb me (with_block s))
  unfolding conclude
  read_concluded-Balanced cb s fresh apart m =
      let t = kept_more call hook env me refs base cb s m in
      let v =
        with_block-FsInv me (incref me (incref me refs)) base (with_refs (incref me s.refs) s)
          t.no_buf t.account in
      elim (Bool-cases (is_neg env.err)) [
        | inl bad ↦ rw bad (
            drop_last me refs base (free_block (with_block s)) m.live m.owners m.no_view refl
              (freed-FsInv me (incref me refs) base s m.no_buf m.account))
        | inr good ↦ rw good (elim (Bool-cases (cb == none_obj)) [
          | inr async ↦ rw async (
            t.live,
            t.ready,
            record {
              no_path = m.fresh.no_path;
              no_result = m.fresh.no_result;
              no_error = m.fresh.no_error;
            },
            record { counted = v.counted; blocked = v.blocked; alive = v.alive; dead = v.dead },
          )
          | inl sync ↦ rw sync (
              sync_read-Balanced (with_refs (incref me s.refs) s) good fresh apart (
                subst
                  (λ c.
                    Made me (incref me (incref me refs)) base c 2 (with_refs (incref me s.refs) s))
                  (ground (arith, sync)) t))
        ])
      ]
