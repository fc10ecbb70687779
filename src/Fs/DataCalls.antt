-- ===== src/Fs/DataCalls.antt =====
-- FS_func_read and FS_func_write of src/fs.c, which take something for their request that has to be
-- given back.
use pyuv.Base.{ℕ, ◌<◌, ◌≡◌, Bool, Option, some}
use pyuv.Py.{Obj, Refs}
use pyuv.Fs.{FsRequest, fs_read, fs_write}
use pyuv.Fs.Calls.{Env, fs_read_call, fs_write_call}
use pyuv.Fs.Balance.{Balanced}
use pyuv.Fs.Results.{Apart}
use pyuv.Fs.Functions.{of_type}
use pyuv.Fs.ReadCall.{fs_read_call-Balanced}
use pyuv.Fs.WriteCall.{fs_write_call-Balanced}

module _ (call : Option Obj → FsRequest → Option Obj × FsRequest) (hook : FsRequest → FsRequest)
    (env : Env) where
  -- A call of FS.read and one of FS.write, for a loop, a callback and data that somebody holds, and
  -- memory that nobody refers to, where the objects that processing makes are others: no ASSERT
  -- fails; a call that raises, for want of memory too, leaves every count and the memory blocks as
  -- before and releases its request; a pending request is held once each by caller and libuv, its
  -- block and its view accounted for; a returned value has one more reference, the request is
  -- released, all else is as before, the block and the count of the data too.
  pub data_calls-Balanced :
      (malloc : Bool) (me loop cb source : Obj) (refs : Refs) (base : ℕ)
      → env.alloc ≡ some me
      → refs me ≡ 0
      → 0 < refs loop
      → 0 < refs cb
      → 0 < refs source
      → Apart env.answer me
      → Balanced me refs base
          (fs_read_call call hook (of_type fs_read env) malloc (some (loop, cb)) refs base)
        × Balanced me refs base
            (fs_write_call call hook (of_type fs_write env) (some (loop, cb)) source refs base)
  data_calls-Balanced malloc me loop cb source refs base memory fresh hl hc hs apart = (
    fs_read_call-Balanced call hook env malloc me loop cb refs base memory fresh hl hc apart,
    fs_write_call-Balanced call hook env me loop cb source refs base memory fresh hl hc hs apart,
  )
