-- ===== src/Fs/ReadCall.antt =====
-- FS_func_read of src/fs.c as a whole.
use pyuv.Base.{
  ℕ, ◌<◌, ◌≡◌, refl, Bool, true, false, not, ◌&&◌, Option, some, ◌==◌, inl, inr, Bool-cases,
  if◌then◌else◌,
}
use pyuv.Error.{memory_error}
use pyuv.Py.{Obj, none_obj, Refs, set_string}
use pyuv.Request.{tp_init}
use pyuv.Fs.{FsRequest, fs_read, fs_tp_new, fs_tp_init, fs_release}
use pyuv.Fs.Calls.{given_up, Env, conclude, conclude_made, fs_read_call}
use pyuv.Fs.Balance.{Balanced, drop_last}
use pyuv.Fs.Results.{Apart, built-Made, unbuilt-Balanced}
use pyuv.Fs.Functions.{of_type}
use pyuv.Fs.ReadLaws.{with_block, free_block, read_concluded-Balanced}

module _ (call : Option Obj → FsRequest → Option Obj × FsRequest) (hook : FsRequest → FsRequest)
    (env : Env) where
  made_read-Balanced :
      (sliced malloc : Bool) (me loop cb : Obj) (refs : Refs) (base : ℕ)
      → refs me ≡ 0
      → 0 < refs loop
      → 0 < refs cb
      → Apart env.answer me
      → Balanced me refs base (
          conclude_made call hook
            (of_type fs_read env)
            (λ s.
              if not malloc
              then given_up (set_string memory_error) (fs_release me s)
              else conclude call hook (of_type fs_read env) free_block cb me (with_block s))
            (λ t. t)
            me
            (fs_tp_init (some (loop, cb)) sliced (fs_tp_new me refs base)))
  unfolding fs_tp_init tp_init conclude fs_tp_new
  made_read-Balanced false malloc me loop cb refs base fresh hl hc apart =
      unbuilt-Balanced call hook env me refs base fresh
  made_read-Balanced true false me loop cb refs base fresh hl hc apart =
      let m = built-Made call hook env me refs base loop cb fresh hl hc in
      drop_last me refs base (fs_tp_init (some (loop, cb)) true (fs_tp_new me refs base)).1 m.live
        m.owners m.no_view m.no_buf m.account
  made_read-Balanced true true me loop cb refs base fresh hl hc apart =
      read_concluded-Balanced call hook env me refs base cb
        (fs_tp_init (some (loop, cb)) true (fs_tp_new me refs base)).1 fresh apart
        (built-Made call hook env me refs base loop cb fresh hl hc)

module _ (call : Option Obj → FsRequest → Option Obj × FsRequest) (hook : FsRequest → FsRequest)
    (env : Env) where
  -- A call of FS.read, for a loop and a callback that somebody holds, or None, and memory that nobody
  -- refers to, where the objects that processing makes are others: no ASSERT fails. If it raises,
  -- for want of memory too, every count and the memory blocks are as before, and a request that was
  -- made is released. If libuv has the request, its caller and libuv hold it once each, and its block
  -- is accounted for. A value that is returned has one more reference, the request is released, and
  -- all else is as before, the block too.
  pub fs_read_call-Balanced :
      (malloc : Bool) (me loop cb : Obj) (refs : Refs) (base : ℕ)
      → env.alloc ≡ some me
      → refs me ≡ 0
      → 0 < refs loop
      → 0 < refs cb
      → Apart env.answer me
      → Balanced me refs base
          (fs_read_call call hook (of_type fs_read env) malloc (some (loop, cb)) refs base)
  unfolding fs_read_call
  fs_read_call-Balanced malloc me loop cb refs base memory fresh hl hc apart =
      elim (Bool-cases (not (cb == none_obj) && not (env.callable cb))) [
        | inl unfit ↦ rw unfit (λ o. refl, refl)
        | inr fit ↦
            rw (fit, memory)
              (made_read-Balanced call hook (record env { alloc = some me }) env.sliced malloc me
                loop cb refs base fresh hl hc apart)
      ]
