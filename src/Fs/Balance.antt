-- ===== src/Fs/Balance.antt =====
-- A file system call from beginning to end: who holds what after each way that it can come out.
use pyuv.Base.{
  ℕ, ◌+◌, ◌-◌, ◌≡◌, refl, Bool, true, false, Option, none, some, arith, ◌==◌, if◌then◌else◌, ◌∙◌,
}
use pyuv.Py.{Obj, none_obj, Refs, is, is_self, held, incref, decref, ok}
use pyuv.Request.{tp_clear}
use pyuv.Fs.{FsRequest, fill, with_refs, fs_dealloc, fs_release, run_callback, finish_process}
use pyuv.Fs.Calls.{Called, refused, given_up, pending, returned, crashed, Env, take_result}
use pyuv.Fs.Ownership.{FsInv, Fresh, dealloc-FsInv, fill-FsInv}

-- What a call leaves of the references and blocks that there were.
abbrev pub Balanced : Obj → Refs → ℕ → Called → Type 0
Balanced me refs base (refused e r b) = ((o : Obj) → r o ≡ refs o) × (b ≡ base)
Balanced me refs base (given_up e s) =
    (s.freed ≡ true) × ((o : Obj) → s.refs o ≡ refs o) × (s.blocks ≡ base)
Balanced me refs base (pending s) =
    (s.freed ≡ false) × (s.req_ptr ≡ true) × Fresh s × FsInv me (incref me (incref me refs)) base s
Balanced me refs base (returned v s) =
    (s.freed ≡ true) × ((o : Obj) → s.refs o ≡ refs o + is v o) × (s.blocks ≡ base)
Balanced me refs base crashed = ⊥

no_view_left :
    (r : ℕ) (view : Option Obj) (o : Obj)
    → view ≡ none
    → r + 0 + 0 + 0 + 0 + 0 + 0 + held view o ≡ r
no_view_left r view o h = rw h (omega arith)

no_block : (base : ℕ) (buf : Bool) → buf ≡ false → base + (if buf then 1 else 0) ≡ base
no_block base buf h = rw h (omega arith)

one_left : (me : Obj) (s : FsRequest) → s.refs me ≡ 1 → (decref me s.refs me == 0) ≡ true
one_left me s one = ground (arith, one, is_self me)

two_left : (me : Obj) (s : FsRequest) → s.refs me ≡ 2 → (decref me s.refs me == 0) ≡ false
two_left me s two = ground (arith, two, is_self me)

dealloc_drops :
    (me : Obj) (refs : Refs) (base : ℕ) (s : FsRequest)
    → s.view ≡ none
    → s.buf ≡ false
    → FsInv me refs base (fs_dealloc (with_refs (decref me s.refs) s))
    → ((fs_dealloc (with_refs (decref me s.refs) s)).freed ≡ true)
      × ((o : Obj) → (fs_dealloc (with_refs (decref me s.refs) s)).refs o ≡ refs o)
      × ((fs_dealloc (with_refs (decref me s.refs) s)).blocks ≡ base)
unfolding fs_dealloc tp_clear
dealloc_drops me refs base s no_view no_buf d = (
  refl,
  λ o. d.counted o ∙ no_view_left (refs o) s.view o no_view,
  d.blocked ∙ no_block base s.buf no_buf,
)

-- A request with one reference, which is given up.
pub drop_last :
    (me : Obj) (refs : Refs) (base : ℕ) (s : FsRequest)
    → s.freed ≡ false
    → s.refs me ≡ 1
    → s.view ≡ none
    → s.buf ≡ false
    → FsInv me (incref me refs) base s
    → ((fs_release me s).freed ≡ true)
      × ((o : Obj) → (fs_release me s).refs o ≡ refs o)
      × ((fs_release me s).blocks ≡ base)
unfolding fs_release
drop_last me refs base s live one no_view no_buf v =
    let last = one_left me s one in
    rw last (dealloc_drops me refs base s no_view no_buf (dealloc-FsInv me refs base s last v))

swap_ref :
    (x ext i j l d c p rs er v : ℕ)
    → x ≡ ext + i + i + l + d + c + p + rs + er + v
    → x - i + j ≡ ext + j + i + l + d + c + p + rs + er + v
swap_ref x ext i j l d c p rs er v h = omega arith

run_none :
    (call : Option Obj → FsRequest → Option Obj × FsRequest) (hook : FsRequest → FsRequest)
    (s : FsRequest)
    → s.callback ≡ some none_obj
    → run_callback call hook s ≡ s
run_none call hook s h = rw h

abbrev processed : FsRequest → FsRequest
processed s = record s { request = record s.request { req_ptr = false } }

fs_release_kept :
    (me : Obj) (s : FsRequest) → s.refs me ≡ 2 → fs_release me s ≡ with_refs (decref me s.refs) s
unfolding fs_release
fs_release_kept me s two = rw (two_left me s two)

-- The request after the switch of a synchronous call, with its two references.
pub filled :
    (call : Option Obj → FsRequest → Option Obj × FsRequest) (hook : FsRequest → FsRequest)
    (env : Env) (me : Obj) (refs : Refs) (base : ℕ) (p : Option Obj) (r e : Obj) (g : FsRequest)
    → g.freed ≡ false
    → g.callback ≡ some none_obj
    → g.refs me ≡ 2
    → g.view ≡ none
    → g.buf ≡ false
    → held p me ≡ 0
    → is r me ≡ 0
    → is e me ≡ 0
    → Fresh g
    → FsInv me (incref me (incref me refs)) base g
    → Balanced me refs base (
        take_result call hook env me
          (ok tt, finish_process me (run_callback call hook (fill p r e g))))
filled call hook env me refs base p r e g live cb two no_view no_buf hp hr he f v =
    let t = fill-FsInv me p r e (incref me (incref me refs)) base g live f v in
    rw
      (
        run_none call hook (fill p r e g) cb,
        fs_release_kept me (processed (fill p r e g)) (ground (arith, two, hp, hr, he)),
      )
      (drop_last me (incref r refs) base
        (with_refs (incref r (decref me (fill p r e g).refs)) (processed (fill p r e g))) live
        (ground (arith, two, hp, hr, he, is_self me)) no_view no_buf
        (record {
          counted = λ o.
              swap_ref ((fill p r e g).refs o) (refs o) (is me o) (is r o) _ _ _ _ _ _ _
                (t.counted o);
          blocked = t.blocked;
          alive = ground (arith, two, hp, hr, he, is_self me);
          dead = ground (arith, live);
        }))
