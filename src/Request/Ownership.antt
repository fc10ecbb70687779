-- ===== src/Request/Ownership.antt =====
-- Who owns a work request (src/request.c, src/loop.c): Python's references and libuv's.
use pyuv.Base.{
  ◌+◌, ◌<◌, ◌≡◌, refl, Bool, true, false, ◌||◌, Option, some, arith, ◌==◌, get_or, if◌then◌else◌,
  none, inl, inr, Bool-cases,
}
use pyuv.Base.Int.{ℤ, is_neg}
use pyuv.Py.{Obj, none_obj, Refs, is_self, is-le, held, incref, ok}
use pyuv.Request.{tp_new, tp_init, tp_clear, dict_get, dict_set}
use pyuv.Request.Work.{
  WorkRequest, work_tp_new, work_tp_init, work_dealloc, release, Queued, refused, given_up, queued,
  submit_work, submit_made, queue_work,
}

-- `ext` counts the references outside the object. The memory is released exactly when there is no
-- reference.
pub record WorkInv (me : Obj) (ext : Refs) (w : WorkRequest) : Type 0 where
  pub counted :
      (o : Obj)
      → w.refs o ≡ ext o + held w.loop o + held w.dict o + held w.work_cb o + held w.done_cb o
  pub alive : w.freed ≡ false → 0 < w.refs me
  pub dead : w.freed ≡ true → w.refs me ≡ 0

module _ (me : Obj) where
  -- Giving up a reference of the outside keeps the account, the last one with it.
  pub release-Inv :
      (ext : Refs) (w : WorkRequest)
      → w.freed ≡ false
      → WorkInv me (incref me ext) w
      → WorkInv me ext (release me w)
  unfolding release work_dealloc tp_clear
  release-Inv ext w live v = record {
    counted = λ o. ground (arith, v.counted o);
    alive = ground (arith, live);
    dead = ground (arith, v.counted me, is_self me, live);
  }

  -- While somebody holds the request, setting its dictionary keeps the account, and reading it adds
  -- the reference that is returned.
  pub dict-WorkInv :
      (is_dict : Obj → Bool) (val new : Option Obj) (ext : Refs) (w : WorkRequest)
      → w.freed ≡ false
      → 0 < ext me
      → WorkInv me ext w
      → WorkInv me ext (record w { request = (dict_set is_dict val w.request).1 })
        × ((d : Obj)
            → (dict_get new w.request).0 ≡ ok d
            → WorkInv me (incref d ext) (record w { request = (dict_get new w.request).1 }))
  unfolding dict_set dict_get
  dict-WorkInv is_dict val new ext w live h v = (
    record {
      counted = λ o. ground (arith, v.counted o);
      alive = ground (arith, v.counted me);
      dead = ground (arith, live);
    },
    λ d e. record {
      counted = λ o. ground (arith, v.counted o, e);
      alive = ground (arith, v.counted me);
      dead = ground (arith, live);
    },
  )

-- What queue_work leaves of the references that there were.
abbrev pub Balanced : Obj → Refs → Queued → Type 0
Balanced me refs (refused e r) = (o : Obj) → r o ≡ refs o
Balanced me refs (given_up e w) = (w.freed ≡ true) × ((o : Obj) → w.refs o ≡ refs o)
Balanced me refs (queued w) =
    (w.freed ≡ false)
    × (w.req_ptr ≡ true)
    × (w.refs me ≡ 2)
    × WorkInv me (incref me (incref me refs)) w

submit_work-Balanced :
    (err : ℤ) (me : Obj) (refs : Refs) (w : WorkRequest)
    → w.freed ≡ false
    → w.req_ptr ≡ true
    → refs me ≡ 0
    → w.refs me ≡ 1
    → WorkInv me (incref me refs) w
    → Balanced me refs (submit_work err me w)
unfolding release work_dealloc tp_clear
submit_work-Balanced err me refs w live req fresh one v = elim (Bool-cases (is_neg err)) [
  | inl bad ↦
      rw bad (ground (arith, one, is_self me), λ o. ground (arith, v.counted o, one, is_self me))
  | inr good ↦ rw good (
    live,
    req,
    ground (arith, one, is_self me),
    record {
      counted = λ o. ground (arith, v.counted o);
      alive = ground arith;
      dead = ground (arith, live);
    },
  )
]

-- The request that is built before it is submitted.
abbrev pub built : Obj → Obj → Obj → Obj → Refs → WorkRequest
built me self work done refs =
    (work_tp_init (some (record { loop_arg = self; work_arg = work; done_arg = done })) true
      (work_tp_new me refs)).1

built-WorkInv :
    (me self work done : Obj) (refs : Refs)
    → refs me ≡ 0
    → WorkInv me (incref me refs) (built me self work done refs)
unfolding work_tp_init work_tp_new tp_init tp_new
built-WorkInv me self work done refs fresh = record {
  counted = λ o. ground arith;
  alive = ground (arith, is_self me);
  dead = ground arith;
}

built_once :
    (me self work done : Obj) (refs : Refs)
    → refs me ≡ 0
    → 0 < refs self
    → 0 < refs work
    → 0 < refs done
    → (built me self work done refs).refs me ≡ 1
unfolding work_tp_init work_tp_new tp_init tp_new
built_once me self work done refs fresh hs hw hd =
    ground (arith, is_self me, is-le self me refs hs, is-le work me refs hw, is-le done me refs hd)

made-Balanced :
    (self me work done : Obj) (sliced : Bool) (err : ℤ) (refs : Refs)
    → refs me ≡ 0
    → 0 < refs self
    → 0 < refs work
    → 0 < refs done
    → Balanced me refs (
        submit_made err me (
          work_tp_init
            (some (record { loop_arg = self; work_arg = work; done_arg = done }))
            sliced
            (work_tp_new me refs)))
unfolding work_tp_init work_tp_new tp_init tp_new release work_dealloc tp_clear
made-Balanced self me work done true err refs fresh hs hw hd =
    submit_work-Balanced err me refs (built me self work done refs) refl refl fresh
      (built_once me self work done refs fresh hs hw hd)
      (built-WorkInv me self work done refs fresh)
made-Balanced self me work done false err refs fresh hs hw hd =
    (ground (arith, is_self me), λ o. ground (arith, is_self me))

-- Somebody holds the functions that a call was given, or None.
abbrev pub HeldArgs : Refs → Option (Obj × Option Obj) → Type 0
HeldArgs refs none = Unit {0}
HeldArgs refs (some (work, done)) = (0 < refs work) × (0 < refs (get_or done none_obj))

-- For a loop, functions and None that somebody holds, and memory that nobody refers to, if there is
-- any: a call of queue_work that fails, for any reason (arguments that do not parse or are not
-- callable, no memory, an __init__ that fails, libuv's refusal), leaves every count as it was, and
-- a request that it made is released; one that succeeds leaves a request that its caller and libuv
-- hold once each.
pub queue_work-Balanced :
    (callable : Obj → Bool) (self me : Obj) (args : Option (Obj × Option Obj))
    (memory sliced : Bool) (err : ℤ) (refs : Refs)
    → refs me ≡ 0
    → 0 < refs self
    → HeldArgs refs args
    → Balanced me refs
        (queue_work callable self args (if memory then some me else none) sliced err refs)
unfolding queue_work
queue_work-Balanced callable self me none memory sliced err refs fresh hs h = λ o. refl
queue_work-Balanced callable self me (some (work, done)) memory sliced err refs fresh hs (hw, hd) =
    elim (Bool-cases (callable work)) [
      | inr cannot ↦ rw cannot (λ o. refl)
      | inl can ↦
          rw can
            (elim (Bool-cases
              (get_or done none_obj == none_obj || callable (get_or done none_obj))) [
                | inr cannot ↦ rw cannot (λ o. refl)
                | inl fit ↦ rw fit (elim (Bool-cases memory) [
                  | inr empty ↦ rw empty (λ o. refl)
                  | inl room ↦ rw room (
                      made-Balanced self me work (get_or done none_obj) sliced err refs fresh hs hw
                        hd)
                ])
              ])
    ]
