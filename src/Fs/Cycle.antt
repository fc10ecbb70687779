-- ===== src/Fs/Cycle.antt =====
-- The end of a file system request, pyuv__process_fs_req of src/fs.c: its references, and what a read
-- or a write has taken.
use pyuv.Base.{
  ℕ, Bool, ◌+◌, ◌≤◌, if◌then◌else◌, ◌≡◌, refl, true, false, Option, none, arith, ◌==◌, inl, inr,
  Bool-cases, ◌∙◌, ap,
}
use pyuv.Base.Int.{is_neg}
use pyuv.Py.{Obj, Refs, held, is_self, incref, decref, ok}
use pyuv.Fs.{
  FsRequest, fs_read, fs_write, Outcome, Yield, new_object, nothing, unlisted, yields, give_back,
  settle_by, fs_dealloc, fs_release, settle, run_callback, finish_process, finish_settled,
  process_fs_req,
}
use pyuv.Fs.Ownership.{FsInv, Fresh, fs_release-FsInv, settle-FsInv}

-- The switch lists the type, or is not reached.
abbrev pub Listed : Outcome → Type 0
Listed a = yields a.fs_type ≡ unlisted → is_neg a.uv_result ≡ true

-- A user function that, given a live request that is accounted for, leaves it so.
abbrev pub Keeps : Obj → Refs → ℕ → (FsRequest → FsRequest) → Type 0
Keeps me ext base f =
    (t : FsRequest)
    → t.freed ≡ false
    → FsInv me ext base t
    → ((f t).freed ≡ false) × FsInv me ext base (f t)

settle_by_ok :
    (y : Yield) (a : Outcome) (s : FsRequest)
    → (y ≡ unlisted → is_neg a.uv_result ≡ true)
    → is_neg a.uv_result ≡ false
    → (settle_by y a s).0 ≡ ok tt
settle_by_ok unlisted a s listed good = ground (arith, listed refl, good)
settle_by_ok nothing a s listed good = refl
settle_by_ok new_object a s listed good = refl

settle_ok : (a : Outcome) (s : FsRequest) → Listed a → (settle a s).0 ≡ ok tt
unfolding settle
settle_ok a s listed = elim (Bool-cases (is_neg a.uv_result)) [
  | inl bad ↦ rw bad
  | inr good ↦ rw good (settle_by_ok (yields a.fs_type) a s listed good)
]

settle_by_live :
    (y : Yield) (a : Outcome) (s : FsRequest) → s.freed ≡ false → (settle_by y a s).1.freed ≡ false
unfolding give_back
settle_by_live unlisted a s live = live
settle_by_live nothing a s live = live
settle_by_live new_object a s live = ground (arith, live)

settle_live : (a : Outcome) (s : FsRequest) → s.freed ≡ false → (settle a s).1.freed ≡ false
unfolding settle
settle_live a s live = elim (Bool-cases (is_neg a.uv_result)) [
  | inl bad ↦ rw bad live
  | inr good ↦ rw good (settle_by_live (yields a.fs_type) a s live)
]

-- With a listed type the processing runs to its end.
pub process_ok :
    (call : Option Obj → FsRequest → Option Obj × FsRequest) (hook : FsRequest → FsRequest)
    (a : Outcome) (me : Obj) (s : FsRequest)
    → Listed a
    → process_fs_req call hook a me s
      ≡ (ok tt, finish_process me (run_callback call hook (settle a s).1))
unfolding process_fs_req
process_ok call hook a me s listed =
    ap (λ r. finish_settled call hook me (r, (settle a s).1)) (settle_ok a s listed)

-- For a request that was not processed before, whose type the switch lists, and whose references
-- and blocks are accounted for, libuv's reference included: if the user's function leaves them
-- accounted for, pyuv__process_fs_req does not abort, and accounts for them with libuv's reference
-- given up.
pub process_fs_req-FsInv :
    (call : Option Obj → FsRequest → Option Obj × FsRequest) (hook : FsRequest → FsRequest)
    (a : Outcome) (me : Obj) (ext : Refs) (base : ℕ) (s : FsRequest)
    → s.freed ≡ false
    → Listed a
    → Fresh s
    → FsInv me (incref me ext) base s
    → Keeps me (incref me ext) base (run_callback call hook)
    → ((process_fs_req call hook a me s).0 ≡ ok tt)
      × FsInv me ext base (process_fs_req call hook a me s).1
process_fs_req-FsInv call hook a me ext base s live listed f v keeps =
    let after =
      keeps (settle a s).1 (settle_live a s live)
        (settle-FsInv me a (incref me ext) base s live (ground (arith, is_self me)) f v) in
    rw (process_ok call hook a me s listed) (
      refl,
      fs_release-FsInv me ext base _ after.0 (record {
        counted = after.1.counted;
        blocked = after.1.blocked;
        alive = after.1.alive;
        dead = after.1.dead;
      }),
    )

fs_release_io :
    (me : Obj) (s : FsRequest) → ((fs_release me s).view ≡ s.view) × ((fs_release me s).buf ≡ s.buf)
unfolding fs_release fs_dealloc
fs_release_io me s = elim (Bool-cases (decref me s.refs me == 0)) [
  | inl last ↦ rw last (refl, refl)
  | inr more ↦ rw more (refl, refl)
]

-- Whether the request still has its view and its block.
marks :
    (call : Option Obj → FsRequest → Option Obj × FsRequest) (hook : FsRequest → FsRequest)
    (a : Outcome) (me : Obj) (s : FsRequest)
    → Listed a
    → ((t : FsRequest)
        → ((run_callback call hook t).view ≡ t.view) × ((run_callback call hook t).buf ≡ t.buf))
    → (is_neg a.uv_result ≡ true
        → ((process_fs_req call hook a me s).1.view ≡ s.view)
          × ((process_fs_req call hook a me s).1.buf ≡ s.buf))
      × (is_neg a.uv_result ≡ false
          → a.fs_type ≡ fs_write
          → (process_fs_req call hook a me s).1.view ≡ none)
      × (is_neg a.uv_result ≡ false
          → a.fs_type ≡ fs_read
          → (process_fs_req call hook a me s).1.buf ≡ false)
unfolding settle yields give_back
marks call hook a me s listed calm =
    let c = calm (settle a s).1 in
    let r = fs_release_io me (record (run_callback call hook (settle a s).1) {
      request = record (run_callback call hook (settle a s).1).request { req_ptr = false };
    }) in
    rw (process_ok call hook a me s listed) (
      λ bad. (r.0 ∙ c.0 ∙ rw bad, r.1 ∙ c.1 ∙ rw bad),
      λ good e. r.0 ∙ c.0 ∙ rw (good, e),
      λ good e. r.1 ∙ c.1 ∙ rw (good, e),
    )

view_held :
    (me : Obj) (ext : Refs) (base : ℕ) (r : FsRequest) (x : Option Obj)
    → FsInv me ext base r
    → r.view ≡ x
    → (o : Obj) → held x o ≤ r.refs o
view_held me ext base r x v e o =
    let h : held r.view o ≤ r.refs o = omega (arith, v.counted o) in rw e at h

still_taken :
    (r : FsRequest) (base : ℕ) (taken : Bool)
    → r.blocks ≡ base + (if r.buf then 1 else 0)
    → r.buf ≡ taken
    → r.blocks ≡ base + (if taken then 1 else 0)
still_taken r base taken h e = ground (arith, h, e)

no_block :
    (r : FsRequest) (base : ℕ)
    → r.blocks ≡ base + (if r.buf then 1 else 0)
    → r.buf ≡ false
    → r.blocks ≡ base
no_block r base h e = ground (arith, h, e)

-- For a request that was not processed before, whose type the switch lists, and whose references
-- and blocks are accounted for, libuv's reference included, and a user function that keeps them so
-- and leaves view and block alone: the account holds after pyuv__process_fs_req, with libuv's
-- reference given up. After a request that failed, the account still has the reference to the
-- exporter of a write's buffer and the block of a read, even when the request was released with its
-- last reference; after one that succeeded they are given back.
pub failed_io_leaks :
    (call : Option Obj → FsRequest → Option Obj × FsRequest) (hook : FsRequest → FsRequest)
    (a : Outcome) (me : Obj) (ext : Refs) (base : ℕ) (s : FsRequest)
    → s.freed ≡ false
    → Listed a
    → Fresh s
    → FsInv me (incref me ext) base s
    → Keeps me (incref me ext) base (run_callback call hook)
    → ((t : FsRequest)
        → ((run_callback call hook t).view ≡ t.view) × ((run_callback call hook t).buf ≡ t.buf))
    → let r = (process_fs_req call hook a me s).1 in
      FsInv me ext base r
      × (is_neg a.uv_result ≡ true
          → (r.view ≡ s.view)
            × (r.buf ≡ s.buf)
            × ((o : Obj) → held s.view o ≤ r.refs o)
            × (r.blocks ≡ base + (if s.buf then 1 else 0)))
      × (is_neg a.uv_result ≡ false → a.fs_type ≡ fs_write → r.view ≡ none)
      × (is_neg a.uv_result ≡ false → a.fs_type ≡ fs_read → (r.buf ≡ false) × (r.blocks ≡ base))
failed_io_leaks call hook a me ext base s live listed f v keeps calm =
    let kept = process_fs_req-FsInv call hook a me ext base s live listed f v keeps in
    let r = (process_fs_req call hook a me s).1 in
    let m = marks call hook a me s listed calm in
    (
      kept.1,
      λ bad.
          let (view, buf) = m.0 bad in
          (
            view,
            buf,
            view_held me ext base r s.view kept.1 view,
            still_taken r base s.buf kept.1.blocked buf,
          ),
      m.1,
      λ good e. let clear = m.2 good e in (clear, no_block r base kept.1.blocked clear),
    )
