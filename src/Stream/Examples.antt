-- ===== src/Stream/Examples.antt =====
-- A TCP stream at address 7, a list at address 20 and byte strings at 21 to 25.
use pyuv.Base.{◌+◌, ◌≡◌, refl, true, false, none, some, List, [], ◌∷◌, arith, ltb, if◌then◌else◌}
use pyuv.Base.Int.{pos, negsuc}
use pyuv.Error.{tcp_error}
use pyuv.Py.{Obj, Refs, is}
use pyuv.Uv.{Phase, opened}
use pyuv.Handle.{tp_new}
use pyuv.Stream.{uv_tcp, WriteCtx}
use pyuv.Stream.Writes.{
  Writer, Env, get_views, sequence, func_write, write_cb, write_ctx, remove_at,
}
use pyuv.Stream.WriteLaws.{Accounted, Keeps, args_ext, func_write-Accounted}
use pyuv.Stream.Callbacks.{write_cb-Accounted}
use pyuv.Stream.Reads.{Reader, Make}

abbrev start_refs : Refs
start_refs o = if ltb o 40 then 1 else 0

abbrev accepting : Env
accepting = record {
  me = 7;
  kind = uv_tcp;
  exc = some tcp_error;
  exports = λ o. ltb 20 o;
  ctx_malloc = true;
  views_malloc = true;
  err = pos 0;
}

abbrev five : List Obj
five = 21 ∷ 22 ∷ 23 ∷ 24 ∷ 25 ∷ []

abbrev quiet : Writer
quiet = record { refs = start_refs; writes = []; blocks = 0 }

quiet-Accounted : Accounted 7 0 start_refs quiet
quiet-Accounted = record { counted = λ o. omega arith; allocated = omega arith }

func_write-Accounted_example :
    let r =
      func_write accepting
        (λ o. false)
        true
        false
        (some (sequence (some (20, five)), none))
        quiet in
    Keeps 7 0 (args_ext (some (sequence (some (20, five)), none)) r.0 start_refs) r
func_write-Accounted_example =
    func_write-Accounted accepting (λ o. false) true false (some (sequence (some (20, five)), none))
      0 start_refs quiet quiet-Accounted

-- A second item of the five, the list itself, exports no buffer.
abbrev failing : List Obj
failing = 21 ∷ 20 ∷ []

failing_unchanged :
    (o : Obj)
    → (func_write accepting
          (λ o. false)
          true
          false
          (some (sequence (some (20, failing)), none))
          quiet).1.refs
        o
      ≡ quiet.refs o
unfolding func_write
failing_unchanged o = omega arith

abbrev one_ctx : WriteCtx
one_ctx = write_ctx 9 none (21 ∷ []) false

-- libuv owns one context, of a write with the function at 9.
abbrev writing : Writer
writing = record {
  refs = λ o. start_refs o + is 9 o + is 21 o + is 7 o;
  writes = one_ctx ∷ [];
  blocks = 1;
}

writing-Accounted : Accounted 7 0 start_refs writing
writing-Accounted = record { counted = λ o. omega arith; allocated = omega arith }

-- The write failed, and the function raises.
write_cb-Accounted_example : Accounted 7 0 start_refs (
    write_cb
      (λ n. 50)
      (λ cb e s. (none, s))
      (λ s. s)
      7
      (negsuc 31)
      one_ctx
      (record writing { writes = remove_at 0 writing.writes }))
write_cb-Accounted_example =
    write_cb-Accounted (λ n. 50) (λ cb e s. (none, s)) (λ s. s) 7 (negsuc 31) 0 0 one_ctx start_refs
      start_refs writing refl (λ some_function v. v) (λ e o. refl) writing-Accounted

five_exported : get_views accepting.exports five ≡ (five, true)
unfolding get_views
five_exported = refl

abbrev make : Make
make = record { of_int = λ n. some 50; of_bytes = λ n. some 51; zero = 52 }

abbrev reading : Reader Phase
reading = record {
  watcher = record { handle = tp_new opened start_refs; callback = some 9 };
  buffer = record { in_use = true };
}
