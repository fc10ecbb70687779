-- ===== src/Fs/WriteLaws.antt =====
-- FS_func_write of src/fs.c, whose request holds the buffer of an object, `source`.
use mathlib.Core.Path.{subst}
use pyuv.Base.{
  ℕ, ◌+◌, ◌-◌, ◌≡◌, refl, true, false, Option, none, some, arith, ◌==◌, inl, inr, Bool-cases,
  get_or,
}
use pyuv.Base.Int.{is_neg}
use pyuv.Py.{Obj, none_obj, Refs, is, is_self, held, incref, xdecref}
use pyuv.Fs.{
  FsRequest, fs_write, yields, give_back, path_of, with_refs, fs_release, settle, process_fs_req,
}
use pyuv.Fs.Calls.{Env, sync_outcome, take_result, conclude}
use pyuv.Fs.Ownership.{FsInv, Fresh, give_back-FsInv, give_back-Fresh}
use pyuv.Fs.Cycle.{Listed, process_ok}
use pyuv.Fs.Balance.{Balanced, drop_last, filled}
use pyuv.Fs.Results.{Apart, Made}
use pyuv.Fs.Functions.{of_type}

-- `memcpy(&fs_req->view, &view, sizeof(Py_buffer))`, and what gives it back where libuv refuses.
abbrev pub with_view : Obj → FsRequest → FsRequest
with_view source s = record s { view = some source }

abbrev pub release_view : FsRequest → FsRequest
release_view s = record (with_refs (xdecref s.view s.refs) s) { view = none }

-- The object's reference moves from the call into the request, one is taken besides, and it goes.
to_view :
    (x ext i dt l d c p rs er v : ℕ)
    → x ≡ ext + dt + i + l + d + c + p + rs + er + v
    → v ≡ 0
    → x ≡ ext + i + l + d + c + p + rs + er + dt
to_view x ext i dt l d c p rs er v h z = omega arith

one_more_view :
    (x ext i dt l d c p rs er v : ℕ)
    → x ≡ ext + dt + i + l + d + c + p + rs + er + v
    → v ≡ 0
    → x + i ≡ ext + i + i + l + d + c + p + rs + er + dt
one_more_view x ext i dt l d c p rs er v h z = omega arith

less_view :
    (x ext i dt l d c p rs er v : ℕ)
    → x ≡ ext + dt + i + l + d + c + p + rs + er + v
    → v ≡ 0
    → x - dt ≡ ext + i + l + d + c + p + rs + er + 0
less_view x ext i dt l d c p rs er v h z = omega arith

no_held : (v : Option Obj) (o : Obj) → v ≡ none → held v o ≡ 0
no_held v o h = ground (arith, h)

module _ (me source : Obj) (refs : Refs) (base : ℕ) (cb : Obj) (s : FsRequest)
    (m : Made me (incref me (incref source refs)) base cb 1 s) where
  viewed-FsInv : FsInv me (incref me refs) base (with_view source s)
  viewed-FsInv = record {
    counted = λ o.
        to_view (s.refs o) (refs o) (is me o) (is source o) _ _ _ _ _ _ (held s.view o)
          (m.account.counted o) (no_held s.view o m.no_view);
    blocked = m.account.blocked;
    alive = m.account.alive;
    dead = m.account.dead;
  }

  kept-FsInv :
      FsInv me (incref me (incref me refs)) base (with_view source (with_refs (incref me s.refs) s))
  kept-FsInv = record {
    counted = λ o.
        one_more_view (s.refs o) (refs o) (is me o) (is source o) _ _ _ _ _ _ (held s.view o)
          (m.account.counted o) (no_held s.view o m.no_view);
    blocked = m.account.blocked;
    alive = ground (arith, m.owners);
    dead = ground (arith, m.live);
  }

  released-FsInv :
      is source me ≡ 0 → FsInv me (incref me refs) base (release_view (with_view source s))
  released-FsInv apart = record {
    counted = λ o.
        less_view (s.refs o) (refs o) (is me o) (is source o) _ _ _ _ _ _ (held s.view o)
          (m.account.counted o) (no_held s.view o m.no_view);
    blocked = m.account.blocked;
    alive = ground (arith, m.owners, apart);
    dead = ground (arith, m.live);
  }

  -- The view goes, and then the request.
  pub unwritten-Balanced :
      is source me ≡ 0
      → let t = fs_release me (release_view (with_view source s)) in
        (t.freed ≡ true) × ((o : Obj) → t.refs o ≡ refs o) × (t.blocks ≡ base)
  unwritten-Balanced apart =
      drop_last me refs base (release_view (with_view source s)) m.live
        (ground (arith, m.owners, apart)) refl m.no_buf (released-FsInv apart)

given_back :
    (t : FsRequest)
    → ((give_back fs_write t).freed ≡ t.freed)
      × ((give_back fs_write t).callback ≡ t.callback)
      × ((o : Obj) → (give_back fs_write t).refs o ≡ t.refs o - held t.view o)
      × ((give_back fs_write t).view ≡ none)
      × ((give_back fs_write t).buf ≡ t.buf)
unfolding give_back
given_back t = (refl, refl, λ o. ground arith, refl, refl)

write-Listed : (env : Env) → Listed (sync_outcome (of_type fs_write env))
unfolding yields
write-Listed env e = ground (arith, e)

module _ (call : Option Obj → FsRequest → Option Obj × FsRequest) (hook : FsRequest → FsRequest)
    (env : Env) (me source : Obj) (refs : Refs) (base : ℕ) where
  sync_write-Balanced :
      (s : FsRequest)
      → is_neg env.err ≡ false
      → is source me ≡ 0
      → Apart env.answer me
      → Made me (incref me (incref source refs)) base none_obj 1 s
      → Balanced me refs base (
          take_result call hook (of_type fs_write env) me (
            process_fs_req call hook
              (sync_outcome (of_type fs_write env))
              me
              (with_view source (with_refs (incref me s.refs) s))))
  unfolding settle yields
  sync_write-Balanced s good other apart m =
      let t = with_view source (with_refs (incref me s.refs) s) in
      let g = given_back t in
      let f : Fresh t = record {
        no_path = m.fresh.no_path;
        no_result = m.fresh.no_result;
        no_error = m.fresh.no_error;
      } in
      rw (process_ok call hook (sync_outcome (of_type fs_write env)) me t (write-Listed env), good)
        (filled call hook (of_type fs_write env) me refs base (path_of env.answer.path_made)
          (get_or env.answer.made none_obj) none_obj (give_back fs_write t)
          (ground (arith, g.0, m.live)) (ground (arith, g.1, m.called))
          (ground (arith, g.2 me, m.owners, other, is_self me)) g.3 (ground (arith, g.4, m.no_buf))
          apart.path_apart apart.made_apart apart.none_apart (give_back-Fresh me fs_write t f)
          (give_back-FsInv me fs_write (incref me (incref me refs)) base t m.live
            (ground (arith, is_self me)) (kept-FsInv me source refs base none_obj s m)))

  -- From libuv's answer on, for a request with its view.
  pub write_concluded-Balanced :
      (cb : Obj) (s : FsRequest)
      → is source me ≡ 0
      → Apart env.answer me
      → Made me (incref me (incref source refs)) base cb 1 s
      → Balanced me refs base
          (conclude call hook (of_type fs_write env) release_view cb me (with_view source s))
  unfolding conclude
  write_concluded-Balanced cb s other apart m =
      let v = kept-FsInv me source refs base cb s m in
      elim (Bool-cases (is_neg env.err)) [
        | inl bad ↦ rw bad (unwritten-Balanced me source refs base cb s m other)
        | inr good ↦ rw good (elim (Bool-cases (cb == none_obj)) [
          | inr async ↦ rw async (
            m.live,
            m.ready,
            record {
              no_path = m.fresh.no_path;
              no_result = m.fresh.no_result;
              no_error = m.fresh.no_error;
            },
            record { counted = v.counted; blocked = v.blocked; alive = v.alive; dead = v.dead },
          )
          | inl sync ↦ rw sync (
              sync_write-Balanced s good other apart (
                subst (λ c. Made me (incref me (incref source refs)) base c 1 s)
                  (ground (arith, sync)) m))
        ])
      ]
