-- ===== src/Stream/Callbacks.antt =====
-- The callbacks of writes and shutdowns in src/stream.c and src/udp.c, against the account of a writer.
use pyuv.Base.{
  ℕ, zero, suc, ◌+◌, ◌≤◌, ◌<◌, ◌≡◌, ◌≢◌, ◌==◌, Bool-cases, inl, inr, true, false, Option, none,
  some, List, [], ◌∷◌, ◌++◌, arith, ltb, length, get_elem?,
}
use pyuv.Base.Int.{ℤ, is_neg}
use pyuv.Py.{Obj, none_obj, Refs, is, incref}
use pyuv.Stream.{WriteCtx}
use pyuv.Stream.Writes.{
  int_max, Writer, get_views, ctx_blocks, Env, write_bytes, write_sequence, remove_at, status_obj,
  finish_call, write_cb, write_ctx,
}
use pyuv.Stream.WriteLaws.{ctx_refs, in_flight, blocks_of, Accounted}

in_flight-remove_at :
    (me : Obj) (i : ℕ) (cs : List WriteCtx) (c : WriteCtx) (o : Obj)
    → get_elem? cs i ≡ some c
    → in_flight me cs o ≡ in_flight me (remove_at i cs) o + ctx_refs c o + is me o
in_flight-remove_at me i [] c o e = cc
in_flight-remove_at me zero (d ∷ cs) c o e = ground arith
in_flight-remove_at me (suc i) (d ∷ cs) c o e = omega (arith, in_flight-remove_at me i cs c o e)

blocks_of-remove_at :
    (i : ℕ) (cs : List WriteCtx) (c : WriteCtx)
    → get_elem? cs i ≡ some c
    → blocks_of cs ≡ blocks_of (remove_at i cs) + ctx_blocks c
blocks_of-remove_at i [] c e = cc
blocks_of-remove_at zero (d ∷ cs) c e = ground arith
blocks_of-remove_at (suc i) (d ∷ cs) c e = omega (arith, blocks_of-remove_at i cs c e)

-- What the running callback holds of the context `c`.
abbrev pub held_by_cb : Obj → WriteCtx → Refs → Refs
held_by_cb me c ext o = ext o + ctx_refs c o + is me o

-- libuv returns the context at `i`: its references are now the callback's.
pub take_ctx :
    (me : Obj) (i n : ℕ) (c : WriteCtx) (ext : Refs) (s : Writer)
    → get_elem? s.writes i ≡ some c
    → Accounted me n ext s
    → Accounted me
        (n + ctx_blocks c)
        (held_by_cb me c ext)
        (record s { writes = remove_at i s.writes })
take_ctx me i n c ext s e v = record {
  counted = λ o. omega (arith, v.counted o, in_flight-remove_at me i s.writes c o e);
  allocated = omega (arith, v.allocated, blocks_of-remove_at i s.writes c e);
}

-- What the user's function is called on: the context taken out, and its number held for the call.
abbrev pub called_on : (of_int : ℤ → Obj) → ℤ → ℕ → Writer → Writer
called_on of_int status i s = record s {
  writes = remove_at i s.writes;
  refs = incref (status_obj of_int status) s.refs;
}

-- libuv returns any context that it owns, by the callback of a write, a shutdown or a send, whose
-- user function, if there is one, keeps the account while the error's number is held for it (it may
-- take or drop references and write again): afterwards all that the context held is given back, its
-- blocks too, and so is the number.
pub write_cb-Accounted :
    (of_int : ℤ → Obj) (call : Obj → Obj → Writer → Option Obj × Writer) (hook : Writer → Writer)
    (me : Obj) (status : ℤ) (i n : ℕ) (c : WriteCtx) (ext ext' : Refs) (s : Writer)
    → get_elem? s.writes i ≡ some c
    → (c.callback ≢ none_obj
        → let e = status_obj of_int status in
          let t = called_on of_int status i s in
          Accounted me (n + ctx_blocks c) (incref e (held_by_cb me c ext)) t
          → Accounted me
              (n + ctx_blocks c)
              (incref e (held_by_cb me c ext'))
              (finish_call hook (call c.callback e t)))
    → (c.callback ≡ none_obj → (o : Obj) → ext' o ≡ ext o)
    → Accounted me n ext s
    → Accounted me n ext'
        (write_cb of_int call hook me status c (record s { writes = remove_at i s.writes }))
unfolding write_cb
write_cb-Accounted of_int call hook me status i n c ext ext' s e acts idle v =
    let e' = status_obj of_int status in
    let taken = take_ctx me i n c ext s e v in
    elim (Bool-cases (c.callback == none_obj)) [
      | inl silent ↦
          let same = idle (ground (arith, silent)) in
          rw silent (record {
            counted = λ o. ground (arith, taken.counted o, same o);
            allocated = ground (arith, taken.allocated);
          })
      | inr called ↦
          let w =
            acts (λ q. ground (arith, called, q))
              (record {
                counted = λ o. omega (arith, taken.counted o);
                allocated = taken.allocated;
              }) in
          rw called (record {
            counted = λ o. ground (arith, w.counted o);
            allocated = ground (arith, w.allocated);
          })
    ]

-- A whole write of a sequence that libuv accepts and completes, with no user function: the stream,
-- its contexts and its blocks are as before, and so are all counts but that of the object that
-- PySequence_Fast returned, which stays one higher. Writing one object with a buffer leaves
-- nothing behind.
pub write_cycle :
    (env : Env) (of_int : ℤ → Obj) (call : Obj → Obj → Writer → Option Obj × Writer)
    (hook : Writer → Writer) (status : ℤ) (fast obj : Obj) (items : List Obj) (s : Writer)
    → env.ctx_malloc ≡ true
    → env.views_malloc ≡ true
    → is_neg env.err ≡ false
    → 0 < length items
    → length items ≤ int_max
    → get_views env.exports items ≡ (items, true)
    → env.exports obj ≡ true
    → let t = (write_sequence env (some (fast, items)) none_obj none s).1 in
      let u = (write_bytes env obj none_obj none s).1 in
      let c = write_ctx none_obj none items (ltb 4 (length items)) in
      let d = write_ctx none_obj none (obj ∷ []) false in
      (t.writes ≡ s.writes ++ c ∷ [])
      × ((o : Obj) → (write_cb of_int call hook env.me status c t).refs o ≡ s.refs o + is fast o)
      × ((write_cb of_int call hook env.me status c t).blocks ≡ s.blocks)
      × (u.writes ≡ s.writes ++ d ∷ [])
      × ((o : Obj) → (write_cb of_int call hook env.me status d u).refs o ≡ s.refs o)
      × ((write_cb of_int call hook env.me status d u).blocks ≡ s.blocks)
unfolding write_sequence write_bytes write_cb
write_cycle env of_int call hook status fast obj items s m1 m2 good some_items few all fits =
    (ground arith, ground arith, ground arith, ground arith, ground arith, ground arith)
