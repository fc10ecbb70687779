-- ===== src/Uv.antt =====
-- What the code relies on of libuv (a vendored library): the life of a `uv_handle_t`. Each record
-- is a parameter of the definitions that call libuv; its laws are what libuv documents.
use pyuv.Base.Int.{ℤ}
use pyuv.Base.{arith, ◌≡◌, refl, Bool, true, false, Option, none, some}

-- The two callbacks that the code hands to `uv_close`.
pub data CloseCb : Type 0 where
  handle_close_cb handle_dealloc_close_cb : CloseCb

-- `pending` is the close callback that libuv still has to call. `take` is libuv's part of calling
-- it: the handle stays closed, and the callback is not called again.
pub record Libuv : Type 1 where
  pub Hdl : Type 0
  pub is_closing : Hdl → Bool
  pub close : CloseCb → Hdl → Hdl
  pub pending : Hdl → Option CloseCb
  pub take : Hdl → Hdl
  pub is_closing-close : (cb : CloseCb) (h : Hdl) → is_closing (close cb h) ≡ true
  pub pending-close :
      (cb : CloseCb) (h : Hdl) → is_closing h ≡ false → pending (close cb h) ≡ some cb
  pub pending_open : (h : Hdl) → is_closing h ≡ false → pending h ≡ none
  pub is_closing-take : (h : Hdl) → is_closing (take h) ≡ is_closing h
  pub pending-take : (h : Hdl) → pending (take h) ≡ none

-- A call of libuv that does something with an open handle and returns a code, negative for an
-- error: start, stop and the like. Only `uv_close` closes a handle.
pub record Call (U : Libuv) : Type 0 where
  pub run : U.Hdl → ℤ × U.Hdl
  pub is_closing-run : (h : U.Hdl) → U.is_closing (run h).1 ≡ U.is_closing h
  pub pending-run : (h : U.Hdl) → U.pending (run h).1 ≡ U.pending h

-- A libuv that only keeps the phase of the handle.
pub data Phase : Type 0 where
  opened : Phase
  closing : CloseCb → Phase
  closed : Phase

abbrev pub phase_closing : Phase → Bool
phase_closing opened = false
phase_closing (closing cb) = true
phase_closing closed = true

abbrev pub phase_close : CloseCb → Phase → Phase
phase_close cb opened = closing cb
phase_close cb (closing first) = closing first
phase_close cb closed = closed

abbrev pub phase_pending : Phase → Option CloseCb
phase_pending opened = none
phase_pending (closing cb) = some cb
phase_pending closed = none

abbrev pub phase_take : Phase → Phase
phase_take opened = opened
phase_take (closing cb) = closed
phase_take closed = closed

pub phase_laws_close : (cb : CloseCb) (p : Phase) → phase_closing (phase_close cb p) ≡ true
phase_laws_close cb p = ground arith

pub phase_laws_pending :
    (cb : CloseCb) (p : Phase)
    → phase_closing p ≡ false
    → phase_pending (phase_close cb p) ≡ some cb
phase_laws_pending cb p h = ground arith

pub phase_laws_open : (p : Phase) → phase_closing p ≡ false → phase_pending p ≡ none
phase_laws_open p h = ground arith

pub phase_laws_take : (p : Phase) → phase_closing (phase_take p) ≡ phase_closing p
phase_laws_take p = ground arith

pub phase_laws_taken : (p : Phase) → phase_pending (phase_take p) ≡ none
phase_laws_taken p = ground arith

-- It meets the laws, so that examples can run.
abbrev pub phases : Libuv
phases = record {
  Hdl = Phase;
  is_closing = phase_closing;
  close = phase_close;
  pending = phase_pending;
  take = phase_take;
  is_closing-close = phase_laws_close;
  pending-close = phase_laws_pending;
  pending_open = phase_laws_open;
  is_closing-take = phase_laws_take;
  pending-take = phase_laws_taken;
}

-- A call that returns `err` and leaves the phase.
abbrev pub returns : ℤ → Call phases
returns err = record { run = λ h. (err, h); is_closing-run = λ h. refl; pending-run = λ h. refl }
