-- ===== src/Base/Int.antt =====
-- C's `int` and `long` where a sign can occur: error codes of libuv, ports, descriptors.
use Prim.Native.Nat.{ℕ, zero, suc, ◌-◌, ◌%◌, ◌^◌, compare, Ordering}
use mathlib.Core.Bool.{Bool, true, false}
use mathlib.Core.Option.{Option, none, some}

-- `negsuc n` is -(n + 1).
pub data ℤ : Type 0 where
  pos : ℕ → ℤ
  negsuc : ℕ → ℤ

-- x < 0
abbrev pub is_neg : ℤ → Bool
is_neg (pos n) = false
is_neg (negsuc n) = true

-- x > n, against a constant that is not negative
abbrev pub gtb : ℤ → ℕ → Bool
gtb (pos m) n = elim (compare m n) [ Ordering.gt ↦ true | _ ↦ false ]
gtb (negsuc m) n = false

-- the value of an integer that is not negative
abbrev pub to_ℕ : ℤ → ℕ
to_ℕ (pos n) = n
to_ℕ (negsuc n) = 0

-- x == 0
abbrev pub is_zero : ℤ → Bool
is_zero (pos zero) = true
is_zero (pos (suc n)) = false
is_zero (negsuc n) = false

-- (int) of a `long`: the low 32 bits, in two's complement
abbrev pub to_int : ℤ → ℤ
to_int (pos n) = elim (compare (n % 2 ^ 32) (2 ^ 31)) [
  | Ordering.lt ↦ pos (n % 2 ^ 32)
  | _ ↦ negsuc (2 ^ 32 - 1 - n % 2 ^ 32)
]
to_int (negsuc n) = elim (compare (n % 2 ^ 32) (2 ^ 31)) [
  | Ordering.lt ↦ negsuc (n % 2 ^ 32)
  | _ ↦ pos (2 ^ 32 - 1 - n % 2 ^ 32)
]

-- PyInt_AsLong of an integer, for the greatest `long`; none where it raises OverflowError
abbrev pub as_long : (long_max : ℕ) → ℤ → Option ℤ
as_long long_max (pos n) = elim (compare n long_max) [ Ordering.gt ↦ none | _ ↦ some (pos n) ]
as_long long_max (negsuc n) = elim (compare n long_max) [ Ordering.gt ↦ none | _ ↦ some (negsuc n) ]

-- PyInt_AsLong of an object, by the integer that it stands for, if any
abbrev pub long_of : (long_max : ℕ) → Option ℤ → Option ℤ
long_of long_max none = none
long_of long_max (some n) = as_long long_max n
