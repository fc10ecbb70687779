-- ===== src/Buffer.antt =====
-- The read buffer of a loop: `struct { slab; in_use }` of src/pyuv.h and pyuv__alloc_cb of
-- src/common.c. One slab serves all streams and UDP handles of the loop; the read callbacks of
-- src/stream.c and src/udp.c unlock it when they end.
pub mod Sharing
mod Examples
use pyuv.Base.{ℕ, Bool, true, false, Option, none, some, if◌then◌else◌}

-- PYUV_SLAB_SIZE
abbrev pub slab_size : ℕ
slab_size = 65536

-- loop->buffer.in_use
pub record Buffer : Type 0 where
  pub in_use : Bool

-- What alloc_cb puts into `buf`: whether `base` is the slab, and `len`.
pub record Grant : Type 0 where
  pub is_slab : Bool
  pub len : ℕ

-- pyuv__alloc_cb
unfoldable pub alloc_cb : Buffer → Grant × Buffer
alloc_cb b =
    if b.in_use
    then (record { is_slab = false; len = 0 }, b)
    else (record { is_slab = true; len = slab_size }, record { in_use = true })

-- `loop->buffer.in_use = False;` at the end of the read callbacks
unfoldable pub unlock : Buffer → Buffer
unlock b = record b { in_use = false }
