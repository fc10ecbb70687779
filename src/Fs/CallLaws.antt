-- ===== src/Fs/CallLaws.antt =====
-- The body that the functions of src/fs.c share, for those that read and write no data.
use pyuv.Base.{
  ℕ, ◌<◌, ◌≡◌, refl, Bool, true, false, not, ◌&&◌, Option, some, ◌==◌, inl, inr, Bool-cases,
}
use pyuv.Py.{Obj, none_obj, Refs}
use pyuv.Request.{tp_init}
use pyuv.Fs.{FsRequest, fs_tp_new, fs_tp_init}
use pyuv.Fs.Calls.{Env, sync_outcome, conclude, conclude_made, fs_call}
use pyuv.Fs.Cycle.{Listed}
use pyuv.Fs.Balance.{Balanced}
use pyuv.Fs.Results.{Apart, conclude-Balanced, built-Made, unbuilt-Balanced}

module _ (call : Option Obj → FsRequest → Option Obj × FsRequest) (hook : FsRequest → FsRequest)
    (env : Env) where
  made-Balanced :
      (sliced : Bool) (me loop cb : Obj) (refs : Refs) (base : ℕ)
      → Listed (sync_outcome env)
      → refs me ≡ 0
      → 0 < refs loop
      → 0 < refs cb
      → Apart env.answer me
      → Balanced me refs base (
          conclude_made call hook env
            (λ s. conclude call hook env (λ t. t) cb me s)
            (λ t. t)
            me
            (fs_tp_init (some (loop, cb)) sliced (fs_tp_new me refs base)))
  unfolding fs_tp_init tp_init conclude fs_tp_new
  made-Balanced false me loop cb refs base listed fresh hl hc apart =
      unbuilt-Balanced call hook env me refs base fresh
  made-Balanced true me loop cb refs base listed fresh hl hc apart =
      conclude-Balanced call hook env me refs base cb
        (fs_tp_init (some (loop, cb)) true (fs_tp_new me refs base)).1 listed fresh apart
        (built-Made call hook env me refs base loop cb fresh hl hc)

module _ (call : Option Obj → FsRequest → Option Obj × FsRequest) (hook : FsRequest → FsRequest)
    (env : Env) where
  -- For a loop and a callback that somebody holds, or None, and memory that nobody refers to, where
  -- the objects that processing makes are others and the switch lists the type: a call never fails
  -- an ASSERT. If it raises, every count and the memory blocks are as before, and a request that was
  -- made is released. If libuv has the request, its caller and libuv hold it once each. A value that
  -- is returned has one more reference, the request is released, and all else is as before.
  pub fs_call-Balanced :
      (me loop cb : Obj) (refs : Refs) (base : ℕ)
      → env.alloc ≡ some me
      → Listed (sync_outcome env)
      → refs me ≡ 0
      → 0 < refs loop
      → 0 < refs cb
      → Apart env.answer me
      → Balanced me refs base (fs_call call hook env (some (loop, cb)) refs base)
  unfolding fs_call
  fs_call-Balanced me loop cb refs base memory listed fresh hl hc apart =
      elim (Bool-cases (not (cb == none_obj) && not (env.callable cb))) [
        | inl unfit ↦ rw unfit (λ o. refl, refl)
        | inr fit ↦
            rw (fit, memory)
              (made-Balanced call hook (record env { alloc = some me }) env.sliced me loop cb refs
                base listed fresh hl hc apart)
      ]
