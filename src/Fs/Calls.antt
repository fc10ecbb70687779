-- ===== src/Fs/Calls.antt =====
-- The functions of src/fs.c that make a request. They repeat one body; read() and write() have
-- something to give back besides.
use pyuv.Base.{ℕ, ◌+◌, ◌-◌, Bool, true, false, not, ◌&&◌, Option, none, some, ◌==◌, if◌then◌else◌}
use pyuv.Base.Int.{ℤ, is_neg}
use pyuv.Error.{type_error, memory_error, fs_error}
use pyuv.Py.{
  Obj, none_obj, Refs, incref, decref, xdecref, Exc, uv, by_callee, set_string, Result, ok, raised,
  aborted,
}
use pyuv.Fs.{FsRequest, Outcome, with_refs, fs_tp_new, fs_tp_init, fs_release, process_fs_req}

-- What a call comes to: refused before there is a request, a request that was made and given up, a
-- request that libuv has, a value, or a failed ASSERT.
pub data Called : Type 0 where
  refused : Exc → Refs → ℕ → Called
  given_up : Exc → FsRequest → Called
  pending : FsRequest → Called
  returned : Obj → FsRequest → Called
  crashed : Called

-- The interpreter's and libuv's part: the callable objects, the address of the new request if there
-- is memory, whether its __init__ gets its slice, libuv's code, and what processing meets when the
-- call is synchronous. libuv's code is then the result as well.
pub record Env : Type 0 where
  pub callable : Obj → Bool
  pub alloc : Option Obj
  pub sliced : Bool
  pub err : ℤ
  pub answer : Outcome

abbrev pub sync_outcome : Env → Outcome
sync_outcome env = record env.answer { uv_result = env.err }

module _ (call : Option Obj → FsRequest → Option Obj × FsRequest) (hook : FsRequest → FsRequest)
    (env : Env) where
  -- The end of a synchronous call: the value is taken out of the request, which is given up.
  abbrev pub take_result : Obj → Result (Unit {0}) × FsRequest → Called
  take_result me (ok u, s) = elim s.result [
    | none ↦ crashed
    | some v ↦ returned v (fs_release me (with_refs (incref v s.refs) s))
  ]
  take_result me (raised e, s) = crashed
  take_result me (aborted, s) = crashed

  -- From libuv's answer on; `undo` gives back what the request has taken.
  unfoldable pub conclude : (FsRequest → FsRequest) → Obj → Obj → FsRequest → Called
  conclude undo cb me s =
      if is_neg env.err
      then given_up (uv fs_error env.err) (fs_release me (undo s))
      else let t = with_refs (incref me s.refs) s in
        if not (cb == none_obj)
        then pending t
        else take_result me (process_fs_req call hook (sync_outcome env) me t)

  abbrev pub conclude_made :
      (FsRequest → Called)
      → (undo : FsRequest → FsRequest) → Obj
      → Result (Unit {0}) × FsRequest
      → Called
  conclude_made k undo me (ok u, s) = k s
  conclude_made k undo me (raised e, s) = given_up e (undo (fs_release me s))
  conclude_made k undo me (aborted, s) = crashed

  -- `PyObject_CallFunctionObjArgs(&FSRequestType, loop, callback, NULL)`; `undo` is what the code
  -- does where that gives NULL.
  abbrev pub with_request :
      (Obj → FsRequest → Called)
      → (undo : FsRequest → FsRequest) → (none_left : Called) → Obj
      → Obj
      → Refs
      → ℕ
      → Called
  with_request k undo none_left loop cb refs blocks = elim env.alloc [
    | none ↦ none_left
    | some me ↦
        conclude_made (k me) undo me
          (fs_tp_init (some (loop, cb)) env.sliced (fs_tp_new me refs blocks))
  ]

  -- pyuv__fs_stat and the functions that repeat it: `args` are the loop and the callback, None where
  -- it is left out.
  unfoldable pub fs_call : (args : Option (Obj × Obj)) → Refs → ℕ → Called
  unfolding conclude
  fs_call none refs blocks = refused by_callee refs blocks
  fs_call (some (loop, cb)) refs blocks =
      if not (cb == none_obj) && not (env.callable cb)
      then refused (set_string type_error) refs blocks
      else with_request (λ me s. conclude (λ t. t) cb me s) (λ t. t) (refused by_callee refs blocks)
          loop cb refs blocks

  -- FS_func_read: `malloc` says whether PyMem_Malloc has the memory.
  unfoldable pub fs_read_call : (malloc : Bool) → (args : Option (Obj × Obj)) → Refs → ℕ → Called
  unfolding conclude
  fs_read_call malloc none refs blocks = refused by_callee refs blocks
  fs_read_call malloc (some (loop, cb)) refs blocks =
      if not (cb == none_obj) && not (env.callable cb)
      then refused (set_string type_error) refs blocks
      else with_request
          (λ me s.
            if not malloc
            then given_up (set_string memory_error) (fs_release me s)
            else conclude (λ t. record t { buf = false; blocks = t.blocks - 1 }) cb me
                (record s { buf = true; blocks = s.blocks + 1 }))
          (λ t. t) (refused by_callee refs blocks) loop cb refs blocks

  -- FS_func_write: parsing the arguments takes the buffer of `data`. The request is made before the
  -- callback is looked at.
  unfoldable pub fs_write_call : (args : Option (Obj × Obj)) → (data_obj : Obj) → Refs → ℕ → Called
  unfolding conclude
  fs_write_call none data_obj refs blocks = refused by_callee refs blocks
  fs_write_call (some (loop, cb)) data_obj refs blocks =
      with_request
        (λ me s.
          if not (cb == none_obj) && not (env.callable cb)
          then given_up (set_string type_error)
              (fs_release me (with_refs (decref data_obj s.refs) s))
          else conclude (λ t. record (with_refs (xdecref t.view t.refs) t) { view = none }) cb me
              (record s { view = some data_obj }))
        (λ t. with_refs (decref data_obj t.refs) t) (refused by_callee refs blocks) loop cb
        (incref data_obj refs) blocks
