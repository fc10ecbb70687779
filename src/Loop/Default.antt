-- ===== src/Loop/Default.antt =====
-- The default loop: Loop_func_default_loop of src/loop.c.
use pyuv.Base.{ℕ, ◌+◌, ◌≡◌, Bool, if◌then◌else◌, true, false, Option, none, some, arith}
use pyuv.Base.Int.{ℤ, is_neg}
use pyuv.Py.{Obj, is, is_self, incref, ok, is_ok}
use pyuv.Loop.{Loop, Loops, new_loop, drop_loop, init_default, default_loop}

default_kept :
    (alloc : Option Obj) (err : ℤ) (tp_init : Option (Obj × Bool)) (l : Loop) (s : Loops)
    → (default_loop alloc err tp_init s).0 ≡ ok l
    → (default_loop alloc err tp_init s).1.default_loop ≡ some l
unfolding default_loop new_loop init_default
default_kept alloc err tp_init l s e = ground (arith, e)

shared :
    (alloc : Option Obj) (err : ℤ) (tp_init : Option (Obj × Bool)) (l : Loop) (t : Loops)
    → t.default_loop ≡ some l
    → default_loop alloc err tp_init t ≡ (ok l, record t { refs = incref l.addr t.refs })
unfolding default_loop
shared alloc err tp_init l t h = rw h

-- Once default_loop() has returned a loop, every further call returns that same loop, whatever libuv
-- and the interpreter would answer, and adds one reference to it and nothing else.
pub default_loop_once :
    (alloc next : Option Obj) (err again : ℤ) (tp_init init : Option (Obj × Bool)) (l : Loop)
    (s : Loops)
    → (default_loop alloc err tp_init s).0 ≡ ok l
    → default_loop next again init (default_loop alloc err tp_init s).1 ≡ (
      ok l,
      record (default_loop alloc err tp_init s).1 {
        refs = incref l.addr (default_loop alloc err tp_init s).1.refs;
      },
    )
default_loop_once alloc next err again tp_init init l s e =
    shared next again init l (default_loop alloc err tp_init s).1
      (default_kept alloc err tp_init l s e)

-- The reference to the empty tuple, where a subclass's __init__ is called.
abbrev pub passed : Option (Obj × Bool) → Obj → ℕ
passed none o = 0
passed (some (args, done)) o = is args o

-- Where there is no default loop yet and the memory is fresh: a call that fails leaves no default
-- loop and every count as before, but for at most the empty tuple that a subclass's __init__ was
-- given; one that succeeds makes a default loop with a free buffer, which the file and the caller
-- hold once each, and leaves that tuple one more reference.
pub default_loop_first :
    (me : Obj) (err : ℤ) (tp_init : Option (Obj × Bool)) (s : Loops)
    → s.default_loop ≡ none
    → s.refs me ≡ 0
    → let r = default_loop (some me) err tp_init s in
      (is_ok r.0 ≡ false
        → (r.1.default_loop ≡ none)
          × ((o : Obj) → r.1.refs o ≡ s.refs o + (if is_neg err then 0 else passed tp_init o)))
      × ((l : Loop)
          → r.0 ≡ ok l
          → (r.1.default_loop ≡ some l)
            × (l.addr ≡ me)
            × (l.is_default ≡ true)
            × (l.buffer.in_use ≡ false)
            × ((o : Obj) → r.1.refs o ≡ s.refs o + is me o + is me o + passed tp_init o))
unfolding default_loop new_loop init_default drop_loop
default_loop_first me err tp_init s first fresh = (
  λ e. (ground (arith, e, first), λ o. ground (arith, e, first, is_self me, fresh)),
  λ l e. (
    ground (arith, e),
    ground (arith, e, first),
    ground (arith, e, first),
    ground (arith, e, first),
    λ o. ground (arith, e, first),
  ),
)
