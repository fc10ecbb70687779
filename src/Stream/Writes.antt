-- ===== src/Stream/Writes.antt =====
-- write() of src/stream.c and send() of src/udp.c, which repeat the same code: a context is
-- allocated, the data's buffers are taken, and libuv owns the context until it calls back.
use pyuv.Base.{
  ℕ, zero, suc, ◌+◌, ◌-◌, Bool, true, false, not, ◌&&◌, Option, none, some, List, [], ◌∷◌, ◌++◌,
  ltb, ◌==◌, if◌then◌else◌, length, get_or, ◌||◌,
}
use pyuv.Base.Int.{ℤ, is_neg}
use pyuv.Error.{ExcType, memory_error, value_error, type_error}
use pyuv.Py.{
  Obj, none_obj, Refs, is, incref, decref, xincref, xdecref, M, Result, ok, raised, aborted,
  set_string, uv, by_callee, check_open, parse, guard, ◌>>=◌, ◌>>◌,
}
use pyuv.Stream.{StreamType, uv_named_pipe, WriteCtx}

-- What these functions change: the counts of references, the contexts that libuv owns, and the
-- number of blocks taken from PyMem_Malloc.
pub record Writer : Type 0 where
  pub refs : Refs
  pub writes : List WriteCtx
  pub blocks : ℕ

-- The references that buffers hold to the objects that export them.
abbrev pub counts : List Obj → Obj → ℕ
counts [] o = 0
counts (x ∷ xs) o = is x o + counts xs o

abbrev pub take_views : List Obj → Refs → Refs
take_views xs r o = r o + counts xs o

-- `for (...) PyBuffer_Release(&ctx->views[i]);`
abbrev pub release_views : List Obj → Refs → Refs
release_views xs r o = r o - counts xs o

-- The loop of PyObject_GetBuffer: it stops at the first object that exports no buffer. The views
-- that were taken, and whether that is all.
unfoldable pub get_views : (Obj → Bool) → List Obj → List Obj × Bool
get_views exports [] = ([], true)
get_views exports (x ∷ xs) =
    let rest = get_views exports xs in if exports x then (x ∷ rest.0, rest.1) else ([], false)

abbrev pub write_ctx : Obj → Option Obj → List Obj → Bool → WriteCtx
write_ctx callback send_handle views big = record {
  callback = callback;
  send_handle = send_handle;
  views = views;
  big = big;
}

abbrev pub ctx_blocks : WriteCtx → ℕ
ctx_blocks c = if c.big then 2 else 1

-- RAISE_STREAM_EXCEPTION, or RAISE_UV_EXCEPTION
abbrev pub raise : {A : Type 0} → Option ExcType → ℤ → Result A
raise none err = aborted
raise (some exc) err = raised (uv exc err)

-- `ASSERT(UV_HANDLE(self)->type == UV_NAMED_PIPE)` where a handle is sent
abbrev pub may_send : StreamType → Option Obj → Bool
may_send kind none = true
may_send uv_named_pipe (some h) = true
may_send kind (some h) = false

-- What the caller provides: itself, its type, the exceptions that it raises, whether an object
-- exports a buffer, whether the two allocations succeed, and libuv's code.
pub record Env : Type 0 where
  pub me : Obj
  pub kind : StreamType
  pub exc : Option ExcType
  pub exports : Obj → Bool
  pub ctx_malloc : Bool
  pub views_malloc : Bool
  pub err : ℤ

-- The end that both functions share: the context `c` is filled and its references are taken; libuv
-- accepts it, or all is undone.
unfoldable pub submit : Env → WriteCtx → M Writer Obj
submit env c s =
    if not (may_send env.kind c.send_handle)
    then (aborted, s)
    else if is_neg env.err
    then (
      raise env.exc env.err,
      record s {
        refs = release_views c.views (xdecref c.send_handle (decref c.callback s.refs));
        blocks = s.blocks - ctx_blocks c;
      },
    )
    else (ok none_obj, record s { refs = incref env.me s.refs; writes = s.writes ++ c ∷ [] })

-- The references that a context takes: the buffers', then the callback and the handle.
abbrev pub fill : WriteCtx → Writer → Writer
fill c s = record s { refs = xincref c.send_handle (incref c.callback (take_views c.views s.refs)) }

abbrev pub malloc : ℕ → Writer → Writer
malloc n s = record s { blocks = s.blocks + n }

abbrev pub free : ℕ → Writer → Writer
free n s = record s { blocks = s.blocks - n }

-- pyuv__stream_write_bytes and pyuv__udp_send_bytes
unfoldable pub write_bytes : Env → Obj → Obj → Option Obj → M Writer Obj
unfolding submit
write_bytes env obj callback send_handle s =
    if not env.ctx_malloc
    then (raised (set_string memory_error), s)
    else if not (env.exports obj)
    then (raised by_callee, free 1 (malloc 1 s))
    else let c = write_ctx callback send_handle (obj ∷ []) false in
      submit env c (fill c (malloc 1 s))

-- INT_MAX
abbrev pub int_max : ℕ
int_max = 2147483647

-- ARRAY_SIZE(ctx->viewsml)
abbrev pub small_views : ℕ
small_views = 4

-- The label `error` of the two functions, behind a failed call of libuv.
abbrev pub undo_items : {A : Type 0} → Obj → Result A × Writer → Result A × Writer
undo_items fast (ok r, t) = (ok r, t)
undo_items fast (raised e, t) = (raised e, record t { refs = decref fast t.refs })
undo_items fast (aborted, t) = (aborted, t)

-- pyuv__stream_write_sequence and pyuv__udp_send_sequence, once PySequence_Fast has given the
-- object `fast`, with a new reference to it, and its items.
unfoldable pub write_items : Env → Obj → List Obj → Obj → Option Obj → M Writer Obj
unfolding submit get_views
write_items env fast items callback send_handle s =
    let drop_fast = λ (t : Writer). record t { refs = decref fast t.refs } in
    let big = ltb small_views (length items) in
    let views = get_views env.exports items in
    let c = write_ctx callback send_handle views.0 big in
    if ltb int_max (length items)
    then (raised (set_string value_error), drop_fast s)
    else if length items == 0
    then (raised (set_string value_error), drop_fast s)
    else if not env.ctx_malloc
    then (raised (set_string memory_error), drop_fast s)
    else if big && not env.views_malloc
    then (raised (set_string memory_error), drop_fast (free 1 (malloc 1 s)))
    else if not views.1
    then (
      raised by_callee,
      drop_fast (
          free (ctx_blocks c) (record (malloc (ctx_blocks c) s) {
            refs = release_views views.0 (take_views views.0 s.refs);
          })),
    )
    else undo_items fast (submit env c (fill c (malloc (ctx_blocks c) s)))

-- The whole of pyuv__stream_write_sequence.
unfoldable pub write_sequence : Env → Option (Obj × List Obj) → Obj → Option Obj → M Writer Obj
unfolding write_items
write_sequence env none callback send_handle s = (raised by_callee, s)
write_sequence env (some (fast, items)) callback send_handle s =
    write_items env fast items callback send_handle (record s { refs = incref fast s.refs })

-- The data that write() and send() accept: an object with a buffer, a sequence that is no text, with
-- what PySequence_Fast makes of it, and anything else.
pub data Payload : Type 0 where
  buffer : Obj → Payload
  sequence : Option (Obj × List Obj) → Payload
  other : Payload

unfoldable pub write_payload : Env → Payload → Obj → M Writer Obj
unfolding write_bytes write_sequence
write_payload env (buffer obj) callback = write_bytes env obj callback none
write_payload env (sequence fast) callback = write_sequence env fast callback none
write_payload env other callback = λ t. (raised (set_string type_error), t)

-- Stream_func_write, and UDP_func_send behind its address
unfoldable pub func_write :
    Env → (Obj → Bool) → Bool → Bool → Option (Payload × Option Obj) → M Writer Obj
unfolding write_payload
func_write env callable initialized closing args s =
    (do
      check_open initialized closing
      given ← parse args
      let callback = get_or given.1 none_obj
      guard (callback == none_obj || callable callback) type_error
      write_payload env given.0 callback)
      s

-- Stream_func_shutdown: its context holds the callback alone, which may be any object.
unfoldable pub func_shutdown : Env → Bool → Bool → Option (Option Obj) → M Writer Obj
unfolding submit
func_shutdown env initialized closing args s =
    (do
      check_open initialized closing
      arg ← parse args
      guard env.ctx_malloc memory_error
      let c = write_ctx (get_or arg none_obj) none [] false
      λ t. submit env c (fill c (malloc 1 t)))
      s

abbrev pub remove_at : ℕ → List WriteCtx → List WriteCtx
remove_at i [] = []
remove_at zero (c ∷ cs) = cs
remove_at (suc i) (c ∷ cs) = c ∷ remove_at i cs

-- What PyObject_CallFunctionObjArgs leaves: the result is released, or the hook has run.
abbrev pub finish_call : (Writer → Writer) → Option Obj × Writer → Writer
finish_call hook (some r, s) = record s { refs = decref r s.refs }
finish_call hook (none, s) = hook s

-- `errorno` is the number of a negative status, with its new reference, or None.
abbrev pub status_obj : (ℤ → Obj) → ℤ → Obj
status_obj of_int status = if is_neg status then of_int status else none_obj

-- The call of the user's function in pyuv__stream_write_cb, unless it is None.
abbrev pub notify :
    (ℤ → Obj)
    → (Obj → Obj → Writer → Option Obj × Writer)
    → (Writer → Writer)
    → Obj
    → ℤ
    → Writer
    → Writer
notify of_int call hook callback status s =
    if callback == none_obj
    then s
    else let e = status_obj of_int status in
      let t = finish_call hook (call callback e (record s { refs = incref e s.refs })) in
      record t { refs = decref e t.refs }

-- pyuv__stream_write_cb, pyuv__stream_shutdown_cb and pyuv__udp_send_cb, on the context `c`
unfoldable pub write_cb :
    (ℤ → Obj)
    → (Obj → Obj → Writer → Option Obj × Writer)
    → (Writer → Writer)
    → Obj
    → ℤ
    → WriteCtx
    → Writer
    → Writer
write_cb of_int call hook me status c s =
    let t = notify of_int call hook c.callback status s in
    record t {
      refs = decref me (release_views c.views (xdecref c.send_handle (decref c.callback t.refs)));
      blocks = t.blocks - ctx_blocks c;
    }
