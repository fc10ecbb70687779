-- ===== src/Fs/Ownership.antt =====
-- A file system request is owned as a work request is, and it holds its path, its value, its error,
-- and for a write the buffer's exporter.
use pyuv.Base.{
  ℕ, ◌+◌, ◌-◌, ◌<◌, ◌≡◌, true, false, Option, none, arith, ◌==◌, inl, inr, Bool-cases,
  if◌then◌else◌, get_or,
}
use pyuv.Base.Int.{is_neg}
use pyuv.Py.{Obj, none_obj, Refs, is, held, incref, decref}
use pyuv.Request.{tp_clear}
use pyuv.Fs.{
  FsRequest, FsType, Outcome, Yield, new_object, nothing, unlisted, settle_by, path_of, yields,
  give_back, fill, with_refs, fs_dealloc, fs_release, settle,
}

-- `ext` counts the references outside the request, and `base` the memory blocks of others.
pub record FsInv (me : Obj) (ext : Refs) (base : ℕ) (s : FsRequest) : Type 0 where
  pub counted :
      (o : Obj)
      → s.refs o
        ≡ ext o
          + held s.loop o
          + held s.dict o
          + held s.callback o
          + held s.path o
          + held s.result o
          + held s.error o
          + held s.view o
  pub blocked : s.blocks ≡ base + (if s.buf then 1 else 0)
  pub alive : s.freed ≡ false → 0 < s.refs me
  pub dead : s.freed ≡ true → s.refs me ≡ 0

-- A request that has not been processed.
pub record Fresh (s : FsRequest) : Type 0 where
  pub no_path : s.path ≡ none
  pub no_result : s.result ≡ none
  pub no_error : s.error ≡ none

one_less :
    (r ext i l d c p rs er v : ℕ)
    → r ≡ ext + i + l + d + c + p + rs + er + v
    → r - i ≡ ext + l + d + c + p + rs + er + v
one_less r ext i l d c p rs er v h = omega arith

all_less :
    (r ext i l d c p rs er v : ℕ)
    → r ≡ ext + i + l + d + c + p + rs + er + v
    → r - i - c - p - rs - er - l - d ≡ ext + 0 + 0 + 0 + 0 + 0 + 0 + v
all_less r ext i l d c p rs er v h = omega arith

zero_less : (r c p rs er l d : ℕ) → r ≡ 0 → r - c - p - rs - er - l - d ≡ 0
zero_less r c p rs er l d h = omega arith

module _ (me : Obj) where
  -- The destructor keeps the account.
  pub dealloc-FsInv :
      (ext : Refs) (base : ℕ) (s : FsRequest)
      → (decref me s.refs me == 0) ≡ true
      → FsInv me (incref me ext) base s
      → FsInv me ext base (fs_dealloc (with_refs (decref me s.refs) s))
  unfolding fs_dealloc tp_clear
  dealloc-FsInv ext base s last v = record {
    counted = λ o. all_less (s.refs o) (ext o) (is me o) _ _ _ _ _ _ _ (v.counted o);
    blocked = v.blocked;
    alive = ground arith;
    dead = λ e. zero_less (decref me s.refs me) _ _ _ _ _ _ (ground (arith, last));
  }

  pub fs_release-FsInv :
      (ext : Refs) (base : ℕ) (s : FsRequest)
      → s.freed ≡ false
      → FsInv me (incref me ext) base s
      → FsInv me ext base (fs_release me s)
  unfolding fs_release
  fs_release-FsInv ext base s live v = elim (Bool-cases (decref me s.refs me == 0)) [
    | inl last ↦ rw last (dealloc-FsInv ext base s last v)
    | inr more ↦ rw more (record {
      counted = λ o. one_less (s.refs o) (ext o) (is me o) _ _ _ _ _ _ _ (v.counted o);
      blocked = v.blocked;
      alive = ground (arith, more);
      dead = ground (arith, live);
    })
  ]

  -- Giving back what was taken keeps the account.
  pub give_back-FsInv :
      (t : FsType) (ext : Refs) (base : ℕ) (s : FsRequest)
      → s.freed ≡ false
      → 0 < ext me
      → FsInv me ext base s
      → FsInv me ext base (give_back t s)
  unfolding give_back
  give_back-FsInv t ext base s live h v = record {
    counted = λ o. ground (arith, v.counted o);
    blocked = ground (arith, v.blocked);
    alive = ground (arith, v.counted me);
    dead = ground (arith, live);
  }

  give_back_live : (t : FsType) (s : FsRequest) → s.freed ≡ false → (give_back t s).freed ≡ false
  unfolding give_back
  give_back_live t s live = ground (arith, live)

  pub give_back-Fresh : (t : FsType) (s : FsRequest) → Fresh s → Fresh (give_back t s)
  unfolding give_back
  give_back-Fresh t s f = record {
    no_path = ground (arith, f.no_path);
    no_result = ground (arith, f.no_result);
    no_error = ground (arith, f.no_error);
  }

  -- So does storing the outcome.
  pub fill-FsInv :
      (p : Option Obj) (r e : Obj) (ext : Refs) (base : ℕ) (s : FsRequest)
      → s.freed ≡ false
      → Fresh s
      → FsInv me ext base s
      → FsInv me ext base (fill p r e s)
  fill-FsInv p r e ext base s live f v = record {
    counted = λ o. ground (arith, v.counted o, f.no_path, f.no_result, f.no_error);
    blocked = v.blocked;
    alive = ground (arith, v.alive);
    dead = ground (arith, live);
  }

  settled :
      (a : Outcome) (ext : Refs) (base : ℕ) (s : FsRequest)
      → s.freed ≡ false
      → 0 < ext me
      → Fresh s
      → FsInv me ext base s
      → (y : Yield) → FsInv me ext base (settle_by y a s).1
  settled a ext base s live h f v unlisted = v
  settled a ext base s live h f v nothing =
      fill-FsInv (path_of a.path_made) none_obj none_obj ext base s live f v
  settled a ext base s live h f v new_object =
      fill-FsInv (path_of a.path_made) (get_or a.made none_obj) none_obj ext base
        (give_back a.fs_type s) (give_back_live a.fs_type s live) (give_back-Fresh a.fs_type s f)
        (give_back-FsInv a.fs_type ext base s live h v)

  -- What is stored in the request is accounted for, whatever libuv and the interpreter answer.
  pub settle-FsInv :
      (a : Outcome) (ext : Refs) (base : ℕ) (s : FsRequest)
      → s.freed ≡ false
      → 0 < ext me
      → Fresh s
      → FsInv me ext base s
      → FsInv me ext base (settle a s).1
  unfolding settle
  settle-FsInv a ext base s live h f v = elim (Bool-cases (is_neg a.uv_result)) [
    | inl bad ↦ rw bad (fill-FsInv (path_of a.path_made) none_obj a.number ext base s live f v)
    | inr good ↦ rw good (settled a ext base s live h f v (yields a.fs_type))
  ]
