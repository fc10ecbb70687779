-- ===== src/Fs.antt =====
-- src/fs.c and struct FSRequest of src/request.c: file system calls, which run at once or in
-- libuv's thread pool, and end in one function either way.
pub mod Contents
pub mod Listing
pub mod Calls
pub mod Ownership
pub mod Cycle
pub mod Balance
pub mod Results
pub mod CallLaws
pub mod Functions
pub mod ReadLaws
pub mod ReadCall
pub mod WriteLaws
pub mod WriteCall
pub mod DataCalls
mod Examples
use pyuv.Base.{ℕ, ◌+◌, ◌-◌, Bool, true, false, Option, none, some, ◌==◌, if◌then◌else◌, get_or}
use pyuv.Base.Int.{ℤ, is_neg}
use pyuv.Py.{
  Obj, none_obj, Refs, incref, decref, xincref, xdecref, Result, M, ok, raised, aborted, by_callee,
}
use pyuv.Request.{Request, tp_new, tp_init, tp_clear}
use pyuv.Request.Work.{is_none_obj}

-- uv_fs_type, with the values that pyuv__process_fs_req lists and one for all others
pub data FsType : Type 0 where
  fs_stat fs_lstat fs_fstat fs_unlink fs_mkdir fs_rmdir fs_rename fs_chmod fs_fchmod : FsType
  fs_link fs_symlink fs_chown fs_fchown fs_close fs_fsync fs_fdatasync fs_ftruncate : FsType
  fs_utime fs_futime fs_access fs_readlink fs_realpath fs_write fs_open fs_sendfile : FsType
  fs_read fs_scandir fs_unknown : FsType

-- The kinds of value that the cases of the switch give.
pub data Yield : Type 0 where
  new_object nothing unlisted : Yield

unfoldable pub yields : FsType → Yield
yields fs_stat = new_object
yields fs_lstat = new_object
yields fs_fstat = new_object
yields fs_readlink = new_object
yields fs_realpath = new_object
yields fs_write = new_object
yields fs_open = new_object
yields fs_sendfile = new_object
yields fs_read = new_object
yields fs_scandir = new_object
yields fs_unknown = unlisted
yields t = nothing

-- struct FSRequest: `view` is the object whose buffer a write holds, `buf` says that a read has
-- taken its block, and `blocks` counts what PyMem_Malloc has given out.
pub record FsRequest : Type 0 where
  pub request : Request
  pub open request use *
  pub callback : Option Obj
  pub path : Option Obj
  pub result : Option Obj
  pub error : Option Obj
  pub view : Option Obj
  pub buf : Bool
  pub blocks : ℕ

abbrev pub with_refs : Refs → FsRequest → FsRequest
with_refs r s = record s { request = record s.request { refs = r } }

-- FSRequest_tp_new: the new object has one reference.
unfoldable pub fs_tp_new : Obj → Refs → ℕ → FsRequest
unfolding tp_new
fs_tp_new me refs blocks = record {
  request = record (tp_new (incref me refs)) { req_ptr = true };
  callback = none;
  path = none;
  result = none;
  error = none;
  view = none;
  buf = false;
  blocks = blocks;
}

abbrev pub finish_init :
    Obj → Result (Unit {0}) × Request → FsRequest → Result (Unit {0}) × FsRequest
finish_init cb (ok t, r) s = (
  ok t,
  record (with_refs (xdecref s.callback (incref cb r.refs)) (record s { request = r })) {
    callback = some cb;
  },
)
finish_init cb (raised e, r) s = (raised e, record s { request = r })
finish_init cb (aborted, r) s = (aborted, record s { request = r })

-- FSRequest_tp_init, of the loop and the callback; `sliced` says that PySequence_GetSlice made its
-- tuple, which is released again.
unfoldable pub fs_tp_init : Option (Obj × Obj) → (sliced : Bool) → M FsRequest (Unit {0})
fs_tp_init none sliced s = (raised by_callee, s)
fs_tp_init (some (loop, cb)) false s = (raised by_callee, s)
fs_tp_init (some (loop, cb)) true s = finish_init cb (tp_init (some loop) s.request) s

-- FSRequest_tp_clear and Request_tp_dealloc. The view and the block are not among what is cleared.
unfoldable pub fs_dealloc : FsRequest → FsRequest
unfolding tp_clear
fs_dealloc s = record s {
  request =
      record (tp_clear (record s.request {
        refs = xdecref s.error (xdecref s.result (xdecref s.path (xdecref s.callback s.refs)));
      })) { freed = true };
  callback = none;
  path = none;
  result = none;
  error = none;
}

-- Py_DECREF(fs_req)
unfoldable pub fs_release : Obj → FsRequest → FsRequest
fs_release me s =
    let t = with_refs (decref me s.refs) s in if t.refs me == 0 then fs_dealloc t else t

-- What libuv and the interpreter answer while a request is processed: its type and result, the
-- string made of req->path if there is one, the number of a negative result, and the value, which is
-- NULL when it cannot be made. The last three come with a reference.
pub record Outcome : Type 0 where
  pub fs_type : FsType
  pub uv_result : ℤ
  pub path_made : Option (Option Obj)
  pub number : Obj
  pub made : Option Obj

abbrev pub path_of : Option (Option Obj) → Option Obj
path_of none = some none_obj
path_of (some p) = p

-- The cases of UV_FS_WRITE and UV_FS_READ give back what the call took.
unfoldable pub give_back : FsType → FsRequest → FsRequest
give_back fs_write s = record (with_refs (xdecref s.view s.refs) s) { view = none }
give_back fs_read s = record s { buf = false; blocks = s.blocks - (if s.buf then 1 else 0) }
give_back t s = s

abbrev pub fill : Option Obj → Obj → Obj → FsRequest → FsRequest
fill p r e s = record (with_refs (incref r (incref e (xincref p s.refs))) s) {
  path = p;
  result = some r;
  error = some e;
}

-- The switch of pyuv__process_fs_req, whose default fails an ASSERT, and what is stored after it.
abbrev pub settle_by : Yield → Outcome → M FsRequest (Unit {0})
settle_by unlisted a s = (aborted, s)
settle_by nothing a s = (ok tt, fill (path_of a.path_made) none_obj none_obj s)
settle_by new_object a s =
    (ok tt, fill (path_of a.path_made) (get_or a.made none_obj) none_obj (give_back a.fs_type s))

-- pyuv__process_fs_req up to the callback
unfoldable pub settle : Outcome → M FsRequest (Unit {0})
settle a s =
    if is_neg a.uv_result
    then (ok tt, fill (path_of a.path_made) none_obj a.number s)
    else settle_by (yields a.fs_type) a s

-- What a call of a Python function leaves behind: its result is released, or `hook` has handled
-- the exception.
abbrev pub finish_call : (FsRequest → FsRequest) → Option Obj × FsRequest → FsRequest
finish_call hook (some r, s) = with_refs (decref r s.refs) s
finish_call hook (none, s) = hook s

-- The user's part: `call` runs his function with the request.
abbrev pub run_callback :
    (Option Obj → FsRequest → Option Obj × FsRequest)
    → (hook : FsRequest → FsRequest) → FsRequest
    → FsRequest
run_callback call hook s =
    if is_none_obj s.callback then s else finish_call hook (call s.callback s)

abbrev pub finish_process : Obj → FsRequest → FsRequest
finish_process me s = fs_release me (record s { request = record s.request { req_ptr = false } })

-- The callback and the end of pyuv__process_fs_req, after the switch.
abbrev pub finish_settled :
    (Option Obj → FsRequest → Option Obj × FsRequest)
    → (hook : FsRequest → FsRequest) → Obj
    → Result (Unit {0}) × FsRequest
    → Result (Unit {0}) × FsRequest
finish_settled call hook me (ok u, t) = (ok u, finish_process me (run_callback call hook t))
finish_settled call hook me (raised e, t) = (raised e, t)
finish_settled call hook me (aborted, t) = (aborted, t)

-- pyuv__process_fs_req
unfoldable pub process_fs_req :
    (Option Obj → FsRequest → Option Obj × FsRequest)
    → (hook : FsRequest → FsRequest) → Outcome
    → Obj
    → M FsRequest (Unit {0})
process_fs_req call hook a me s = finish_settled call hook me (settle a s)
