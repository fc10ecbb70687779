-- ===== src/Fs/Functions.antt =====
-- The functions of src/fs.c one by one: they repeat one body and differ in the arguments that they
-- pass on to libuv and in the type that libuv gives the request.
use pyuv.Base.{ℕ, ◌<◌, ◌≡◌, Option, some, ◌≢◌}
use pyuv.Py.{Obj, Refs}
use pyuv.Fs.{
  FsType, FsRequest, unlisted, yields, fs_stat, fs_lstat, fs_fstat, fs_unlink, fs_mkdir, fs_rmdir,
  fs_rename, fs_chmod, fs_fchmod, fs_link, fs_symlink, fs_readlink, fs_chown, fs_fchown, fs_open,
  fs_close, fs_fsync, fs_fdatasync, fs_ftruncate, fs_scandir, fs_sendfile, fs_utime, fs_futime,
  fs_access, fs_realpath,
}
use pyuv.Fs.Calls.{Called, Env, sync_outcome, fs_call}
use pyuv.Fs.Cycle.{Listed}
use pyuv.Fs.Balance.{Balanced}
use pyuv.Fs.Results.{Apart}
use pyuv.Fs.CallLaws.{fs_call-Balanced}

abbrev pub of_type : FsType → Env → Env
of_type t env = record env { answer = record env.answer { fs_type = t } }

module _ (call : Option Obj → FsRequest → Option Obj × FsRequest) (hook : FsRequest → FsRequest)
    (env : Env) where
  abbrev pub typed_call : FsType → Option (Obj × Obj) → Refs → ℕ → Called
  typed_call t = fs_call call hook (of_type t env)

  abbrev pub func_stat : Option (Obj × Obj) → Refs → ℕ → Called
  func_stat = typed_call fs_stat

  abbrev pub func_lstat : Option (Obj × Obj) → Refs → ℕ → Called
  func_lstat = typed_call fs_lstat

  abbrev pub func_fstat : Option (Obj × Obj) → Refs → ℕ → Called
  func_fstat = typed_call fs_fstat

  abbrev pub func_unlink : Option (Obj × Obj) → Refs → ℕ → Called
  func_unlink = typed_call fs_unlink

  abbrev pub func_mkdir : Option (Obj × Obj) → Refs → ℕ → Called
  func_mkdir = typed_call fs_mkdir

  abbrev pub func_rmdir : Option (Obj × Obj) → Refs → ℕ → Called
  func_rmdir = typed_call fs_rmdir

  abbrev pub func_rename : Option (Obj × Obj) → Refs → ℕ → Called
  func_rename = typed_call fs_rename

  abbrev pub func_chmod : Option (Obj × Obj) → Refs → ℕ → Called
  func_chmod = typed_call fs_chmod

  abbrev pub func_fchmod : Option (Obj × Obj) → Refs → ℕ → Called
  func_fchmod = typed_call fs_fchmod

  abbrev pub func_link : Option (Obj × Obj) → Refs → ℕ → Called
  func_link = typed_call fs_link

  abbrev pub func_symlink : Option (Obj × Obj) → Refs → ℕ → Called
  func_symlink = typed_call fs_symlink

  abbrev pub func_readlink : Option (Obj × Obj) → Refs → ℕ → Called
  func_readlink = typed_call fs_readlink

  abbrev pub func_chown : Option (Obj × Obj) → Refs → ℕ → Called
  func_chown = typed_call fs_chown

  abbrev pub func_fchown : Option (Obj × Obj) → Refs → ℕ → Called
  func_fchown = typed_call fs_fchown

  abbrev pub func_open : Option (Obj × Obj) → Refs → ℕ → Called
  func_open = typed_call fs_open

  abbrev pub func_close : Option (Obj × Obj) → Refs → ℕ → Called
  func_close = typed_call fs_close

  abbrev pub func_fsync : Option (Obj × Obj) → Refs → ℕ → Called
  func_fsync = typed_call fs_fsync

  abbrev pub func_fdatasync : Option (Obj × Obj) → Refs → ℕ → Called
  func_fdatasync = typed_call fs_fdatasync

  abbrev pub func_ftruncate : Option (Obj × Obj) → Refs → ℕ → Called
  func_ftruncate = typed_call fs_ftruncate

  abbrev pub func_scandir : Option (Obj × Obj) → Refs → ℕ → Called
  func_scandir = typed_call fs_scandir

  abbrev pub func_sendfile : Option (Obj × Obj) → Refs → ℕ → Called
  func_sendfile = typed_call fs_sendfile

  abbrev pub func_utime : Option (Obj × Obj) → Refs → ℕ → Called
  func_utime = typed_call fs_utime

  abbrev pub func_futime : Option (Obj × Obj) → Refs → ℕ → Called
  func_futime = typed_call fs_futime

  abbrev pub func_access : Option (Obj × Obj) → Refs → ℕ → Called
  func_access = typed_call fs_access

  abbrev pub func_realpath : Option (Obj × Obj) → Refs → ℕ → Called
  func_realpath = typed_call fs_realpath

module _ (call : Option Obj → FsRequest → Option Obj × FsRequest) (hook : FsRequest → FsRequest)
    (env : Env) where
  type-Listed : (t : FsType) → yields t ≢ unlisted → Listed (sync_outcome (of_type t env))
  type-Listed t known e = absurd (known e)

  -- Every one of these functions, for a loop and a callback that somebody holds, or None, and memory
  -- that nobody refers to, where the objects that processing makes are others: it never fails an
  -- ASSERT. If it raises, every count and the memory blocks are as before, and a request that was
  -- made is released. If libuv has the request, its caller and libuv hold it once each. A value that
  -- is returned has one more reference, the request is released, and all else is as before.
  pub typed_call-Balanced :
      (t : FsType) (me loop cb : Obj) (refs : Refs) (base : ℕ)
      → yields t ≢ unlisted
      → env.alloc ≡ some me
      → refs me ≡ 0
      → 0 < refs loop
      → 0 < refs cb
      → Apart env.answer me
      → Balanced me refs base (typed_call call hook env t (some (loop, cb)) refs base)
  typed_call-Balanced t me loop cb refs base known memory fresh hl hc apart =
      fs_call-Balanced call hook (of_type t env) me loop cb refs base memory (type-Listed t known)
        fresh hl hc
        (record {
          path_apart = apart.path_apart;
          number_apart = apart.number_apart;
          made_apart = apart.made_apart;
          none_apart = apart.none_apart;
        })
