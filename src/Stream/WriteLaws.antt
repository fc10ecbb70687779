-- ===== src/Stream/WriteLaws.antt =====
-- The account of a writer (src/stream.c, src/udp.c): its contexts' references and memory blocks.
use pyuv.Base.{
  ℕ, ◌+◌, ◌-◌, ◌≡◌, ◌⊎◌, inl, inr, refl, Bool, true, false, not, ◌&&◌, ◌||◌, Option, none, some,
  List, [], ◌∷◌, ◌++◌, arith, ltb, ◌==◌, length, get_or, Bool-cases, Option-cases,
}
use pyuv.Base.Int.{is_neg}
use pyuv.Error.{type_error, runtime_error, handle_closed_error}
use pyuv.Py.{
  Obj, Exc, set_string, by_callee, none_obj, Refs, is, held, incref, Result, ok, raised, aborted,
}
use pyuv.Stream.{WriteCtx}
use pyuv.Stream.Writes.{
  write_ctx, int_max, small_views, Writer, counts, get_views, ctx_blocks, Env, submit, fill, malloc,
  write_bytes, write_items, undo_items, Payload, buffer, sequence, other, write_payload, func_write,
  func_shutdown, may_send,
}

-- The references that a context holds.
abbrev pub ctx_refs : WriteCtx → Obj → ℕ
ctx_refs c o = is c.callback o + held c.send_handle o + counts c.views o

-- Those of all contexts that libuv owns, each of which holds the stream too.
abbrev pub in_flight : Obj → List WriteCtx → Obj → ℕ
in_flight me [] o = 0
in_flight me (c ∷ cs) o = ctx_refs c o + is me o + in_flight me cs o

abbrev pub blocks_of : List WriteCtx → ℕ
blocks_of [] = 0
blocks_of (c ∷ cs) = ctx_blocks c + blocks_of cs

-- `ext` counts the references that others hold, `spare` the blocks.
pub record Accounted (me : Obj) (spare : ℕ) (ext : Refs) (s : Writer) : Type 0 where
  pub counted : (o : Obj) → s.refs o ≡ ext o + in_flight me s.writes o
  pub allocated : s.blocks ≡ spare + blocks_of s.writes

in_flight-append :
    (me : Obj) (cs : List WriteCtx) (c : WriteCtx) (o : Obj)
    → in_flight me (cs ++ c ∷ []) o ≡ in_flight me cs o + ctx_refs c o + is me o
in_flight-append me [] c o = omega arith
in_flight-append me (d ∷ cs) c o = omega (arith, in_flight-append me cs c o)

blocks_of-append :
    (cs : List WriteCtx) (c : WriteCtx) → blocks_of (cs ++ c ∷ []) ≡ blocks_of cs + ctx_blocks c
blocks_of-append [] c = omega arith
blocks_of-append (d ∷ cs) c = omega (arith, blocks_of-append cs c)

-- What a call leaves accounted for, unless the process has aborted.
abbrev pub Keeps : Obj → ℕ → Refs → Result Obj × Writer → Type 0
Keeps me n ext r = (r.0 ≡ aborted) ⊎ Accounted me n ext r.1

submit-Keeps :
    (env : Env) (c : WriteCtx) (n : ℕ) (ext : Refs) (s : Writer)
    → Accounted env.me n ext s
    → Keeps env.me n ext (submit env c (fill c (malloc (ctx_blocks c) s)))
unfolding submit
submit-Keeps env c n ext s v = elim (Bool-cases (may_send env.kind c.send_handle)) [
  | inr e ↦ inl (ground arith)
  | inl e ↦ elim (Bool-cases (is_neg env.err)) [
    | inl bad ↦ elim (Option-cases env.exc) [
      | inl n ↦ inl (ground arith)
      | inr n ↦ inr (record {
        counted = λ o. ground (arith, v.counted o);
        allocated = ground (arith, v.allocated);
      })
    ]
    | inr good ↦ inr (record {
      counted = λ o. ground (arith, v.counted o, in_flight-append env.me s.writes c o);
      allocated = ground (arith, v.allocated, blocks_of-append s.writes c);
    })
  ]
]

write_bytes-Keeps :
    (env : Env) (obj callback : Obj) (send_handle : Option Obj) (n : ℕ) (ext : Refs) (s : Writer)
    → Accounted env.me n ext s
    → Keeps env.me n ext (write_bytes env obj callback send_handle s)
unfolding write_bytes
write_bytes-Keeps env obj callback send_handle n ext s v = elim (Bool-cases env.ctx_malloc) [
  | inr e ↦ rw e (inr v)
  | inl e ↦ elim (Bool-cases (env.exports obj)) [
    | inr d ↦
        rw (e, d) (inr (record { counted = v.counted; allocated = ground (arith, v.allocated) }))
    | inl d ↦
        rw (e, d) (submit-Keeps env (write_ctx callback send_handle (obj ∷ []) false) n ext s v)
  ]
]

-- The references of the others, with the one to the list or tuple that PySequence_Fast gave, which
-- a successful write does not give up.
abbrev pub leaked : Obj → Result Obj → Refs → Refs
leaked fast (ok r) ext = incref fast ext
leaked fast (raised e) ext = ext
leaked fast aborted ext = ext

undo_items-Keeps :
    (me fast : Obj) (n : ℕ) (ext : Refs) (r : Result Obj × Writer)
    → Keeps me n (incref fast ext) r
    → Keeps me n (leaked fast (undo_items fast r).0 ext) (undo_items fast r)
undo_items-Keeps me fast n ext (ok a, t) k = k
undo_items-Keeps me fast n ext (aborted, t) k = inl refl
undo_items-Keeps me fast n ext (raised e, t) (inl k) = cc
undo_items-Keeps me fast n ext (raised e, t) (inr v) =
    inr (record { counted = λ o. ground (arith, v.counted o); allocated = v.allocated })

drop-Keeps :
    (me fast : Obj) (n : ℕ) (ext : Refs) (s t : Writer)
    → Accounted me n (incref fast ext) s
    → ((o : Obj) → t.refs o ≡ s.refs o - is fast o)
    → t.writes ≡ s.writes
    → t.blocks ≡ s.blocks
    → Accounted me n ext t
drop-Keeps me fast n ext s t v r w b = record {
  counted = λ o. ground (arith, v.counted o, r o);
  allocated = ground (arith, v.allocated);
}

write_items-Keeps :
    (env : Env) (fast : Obj) (items : List Obj) (callback : Obj) (send_handle : Option Obj) (n : ℕ)
    (ext : Refs) (s : Writer)
    → Accounted env.me n (incref fast ext) s
    → let r = write_items env fast items callback send_handle s in
      Keeps env.me n (leaked fast r.0 ext) r
unfolding write_items
write_items-Keeps env fast items callback send_handle n ext s v =
    elim (Bool-cases (ltb int_max (length items))) [
      | inl e ↦ rw e (inr (drop-Keeps env.me fast n ext s _ v (λ o. refl) refl refl))
      | inr e ↦ elim (Bool-cases (length items == 0)) [
        | inl d ↦ rw (e, d) (inr (drop-Keeps env.me fast n ext s _ v (λ o. refl) refl refl))
        | inr d ↦ elim (Bool-cases env.ctx_malloc) [
          | inr c ↦ rw (e, d, c) (inr (drop-Keeps env.me fast n ext s _ v (λ o. refl) refl refl))
          | inl c ↦ elim (Bool-cases (big && not env.views_malloc)) [
            | inl b ↦
                rw (e, d, c, b)
                  (inr (drop-Keeps env.me fast n ext s _ v (λ o. refl) refl (omega arith)))
            | inr b ↦ elim (Bool-cases views.1) [
              | inr a ↦
                  rw (e, d, c, b, a)
                    (inr (drop-Keeps env.me fast n ext s _ v (λ o. omega arith) refl (omega arith)))
              | inl a ↦
                  rw (e, d, c, b, a)
                    (undo_items-Keeps env.me fast n ext
                      (submit env ctx (fill ctx (malloc (ctx_blocks ctx) s)))
                      (submit-Keeps env ctx n (incref fast ext) s v))
            ]
          ]
        ]
      ]
    ]
  where
    big : Bool
    big = ltb small_views (length items)

    views : List Obj × Bool
    views = get_views env.exports items

    ctx : WriteCtx
    ctx = write_ctx callback send_handle views.0 big

-- What write() may leave of the references to its arguments.
abbrev pub payload_ext : Payload → Result Obj → Refs → Refs
payload_ext (sequence (some (fast, items))) r ext = leaked fast r ext
payload_ext (sequence none) r ext = ext
payload_ext (buffer obj) r ext = ext
payload_ext other r ext = ext

abbrev pub args_ext : Option (Payload × Option Obj) → Result Obj → Refs → Refs
args_ext none r ext = ext
args_ext (some (given, callback)) r ext = payload_ext given r ext

write_payload-Keeps :
    (env : Env) (given : Payload) (callback : Obj) (n : ℕ) (ext : Refs) (s : Writer)
    → Accounted env.me n ext s
    → let r = write_payload env given callback s in Keeps env.me n (payload_ext given r.0 ext) r
unfolding write_payload
write_payload-Keeps env (buffer obj) callback n ext s v =
    write_bytes-Keeps env obj callback none n ext s v
write_payload-Keeps env (sequence none) callback n ext s v = inr v
write_payload-Keeps env (sequence (some (fast, items))) callback n ext s v =
    write_items-Keeps env fast items callback none n ext (record s { refs = incref fast s.refs })
      (record { counted = λ o. ground (arith, v.counted o); allocated = v.allocated })
write_payload-Keeps env other callback n ext s v = inr v

refused :
    (me : Obj) (args : Option (Payload × Option Obj)) (e : Exc) (n : ℕ) (ext : Refs) (s : Writer)
    → Accounted me n ext s
    → Keeps me n (args_ext args (raised e) ext) (raised e, s)
refused me none e n ext s v = inr v
refused me (some (buffer obj, cb)) e n ext s v = inr v
refused me (some (sequence none, cb)) e n ext s v = inr v
refused me (some (sequence (some (fast, items)), cb)) e n ext s v = inr v
refused me (some (other, cb)) e n ext s v = inr v

-- For a stream or UDP handle whose references and blocks are accounted for: after write() or send(),
-- on every branch, they still are, unless an ASSERT has aborted the process; the others then hold
-- what they held before, and beside it, if a sequence was accepted, one reference to the object
-- that PySequence_Fast returned, which nothing gives up.
pub func_write-Accounted :
    (env : Env) (callable : Obj → Bool) (initialized closing : Bool)
    (args : Option (Payload × Option Obj)) (n : ℕ) (ext : Refs) (s : Writer)
    → Accounted env.me n ext s
    → let r = func_write env callable initialized closing args s in
      Keeps env.me n (args_ext args r.0 ext) r
unfolding func_write
func_write-Accounted env callable false closing args n ext s v =
    refused env.me args (set_string runtime_error) n ext s v
func_write-Accounted env callable true true args n ext s v =
    refused env.me args (set_string handle_closed_error) n ext s v
func_write-Accounted env callable true false none n ext s v =
    refused env.me none by_callee n ext s v
func_write-Accounted env callable true false (some (given, cb)) n ext s v =
    elim (Bool-cases (get_or cb none_obj == none_obj || callable (get_or cb none_obj))) [
      | inr e ↦ rw e (refused env.me (some (given, cb)) (set_string type_error) n ext s v)
      | inl e ↦ rw e (write_payload-Keeps env given (get_or cb none_obj) n ext s v)
    ]

pub func_shutdown-Accounted :
    (env : Env) (initialized closing : Bool) (args : Option (Option Obj)) (n : ℕ) (ext : Refs)
    (s : Writer)
    → Accounted env.me n ext s
    → Keeps env.me n ext (func_shutdown env initialized closing args s)
unfolding func_shutdown
func_shutdown-Accounted env false closing args n ext s v = inr v
func_shutdown-Accounted env true true args n ext s v = inr v
func_shutdown-Accounted env true false none n ext s v = inr v
func_shutdown-Accounted env true false (some cb) n ext s v = elim (Bool-cases env.ctx_malloc) [
  | inr e ↦ rw e (inr v)
  | inl e ↦ rw e (submit-Keeps env (write_ctx (get_or cb none_obj) none [] false) n ext s v)
]
