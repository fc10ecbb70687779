-- ===== src/Fs/WriteCall.antt =====
-- FS_func_write of src/fs.c as a whole.
use pyuv.Base.{ℕ, ◌<◌, ◌≡◌, arith, Bool, true, false, not, ◌&&◌, Option, some, ◌==◌, if◌then◌else◌}
use pyuv.Error.{type_error}
use pyuv.Py.{Obj, none_obj, Refs, is, is-le, incref, decref, set_string}
use pyuv.Request.{tp_init}
use pyuv.Fs.{FsRequest, fs_write, with_refs, fs_tp_new, fs_tp_init, fs_release}
use pyuv.Fs.Calls.{given_up, Env, conclude, conclude_made, fs_write_call}
use pyuv.Fs.Balance.{Balanced}
use pyuv.Fs.Results.{Apart, built-Made, unbuilt-Balanced}
use pyuv.Fs.Functions.{of_type}
use pyuv.Fs.WriteLaws.{with_view, release_view, unwritten-Balanced, write_concluded-Balanced}

module _ (call : Option Obj → FsRequest → Option Obj × FsRequest) (hook : FsRequest → FsRequest)
    (env : Env) where
  made_write-Balanced :
      (sliced unfit : Bool) (me loop cb source : Obj) (refs : Refs) (base : ℕ)
      → refs me ≡ 0
      → is source me ≡ 0
      → 0 < refs loop
      → 0 < refs cb
      → Apart env.answer me
      → Balanced me refs base (
          conclude_made call hook
            (of_type fs_write env)
            (λ s.
              if unfit
              then given_up
                  (set_string type_error)
                  (fs_release me (with_refs (decref source s.refs) s))
              else conclude call hook
                  (of_type fs_write env)
                  release_view
                  cb
                  me
                  (with_view source s))
            (λ t. with_refs (decref source t.refs) t)
            me
            (fs_tp_init (some (loop, cb)) sliced (fs_tp_new me (incref source refs) base)))
  unfolding fs_tp_init tp_init conclude fs_tp_new
  made_write-Balanced false unfit me loop cb source refs base fresh other hl hc apart =
      let u =
        unbuilt-Balanced call hook env me (incref source refs) base
          (ground (arith, fresh, other)) in
      (u.0, λ o. ground (arith, u.1 o), u.2)
  made_write-Balanced true true me loop cb source refs base fresh other hl hc apart =
      unwritten-Balanced me source refs base cb
        (fs_tp_init (some (loop, cb)) true (fs_tp_new me (incref source refs) base)).1
        (built-Made call hook env me (incref source refs) base loop cb
          (ground (arith, fresh, other)) (ground (arith, hl)) (ground (arith, hc)))
        other
  made_write-Balanced true false me loop cb source refs base fresh other hl hc apart =
      write_concluded-Balanced call hook env me source refs base cb
        (fs_tp_init (some (loop, cb)) true (fs_tp_new me (incref source refs) base)).1 other apart
        (built-Made call hook env me (incref source refs) base loop cb
          (ground (arith, fresh, other)) (ground (arith, hl)) (ground (arith, hc)))

module _ (call : Option Obj → FsRequest → Option Obj × FsRequest) (hook : FsRequest → FsRequest)
    (env : Env) where
  -- A call of FS.write, for a loop, data and a callback that somebody holds, or None, and memory that
  -- nobody refers to, where the objects that processing makes are others: no ASSERT fails. If it
  -- raises, every count and the memory blocks are as before, the data's too, and a request that was
  -- made is released. If libuv has the request, its caller and libuv hold it once each, and its view
  -- is accounted for. A value that is returned has one more reference, the request is released, and
  -- all else is as before, the count of the data too.
  pub fs_write_call-Balanced :
      (me loop cb source : Obj) (refs : Refs) (base : ℕ)
      → env.alloc ≡ some me
      → refs me ≡ 0
      → 0 < refs loop
      → 0 < refs cb
      → 0 < refs source
      → Apart env.answer me
      → Balanced me refs base
          (fs_write_call call hook (of_type fs_write env) (some (loop, cb)) source refs base)
  unfolding fs_write_call
  fs_write_call-Balanced me loop cb source refs base memory fresh hl hc hs apart = rw memory (
      made_write-Balanced call hook (record env { alloc = some me }) env.sliced
        (not (cb == none_obj) && not (env.callable cb)) me loop cb source refs base fresh
        (ground (arith, is-le source me refs hs, fresh)) hl hc apart)
