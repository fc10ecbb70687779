-- ===== src/Address.antt =====
-- pyuv_parse_addr_tuple and makesockaddr of src/common.c: between Python's address tuples and a
-- `struct sockaddr`. The conversions of the address itself are libuv's.
pub mod Laws
mod Examples
use pyuv.Base.{
  ℕ, ◌+◌, ◌*◌, ◌/◌, ◌%◌, ◌≡◌, Bool, true, false, ◌||◌, Option, none, some, ltb, if◌then◌else◌,
}
use pyuv.Base.Int.{ℤ, pos, is_neg, gtb, to_ℕ}
use pyuv.Error.{type_error, overflow_error, value_error}
use pyuv.Py.{Result, ok, raised, set_string, by_callee}
use Prim.Native.String.{String}
use text.Mathlib.Text.{◌==◌ as str_eq}

-- The machine's byte order.
pub data Order : Type 0 where
  little_endian big_endian : Order

-- The 16 and 32 bits with their bytes in the other order
abbrev pub swap16 : ℕ → ℕ
swap16 x = x % 256 * 256 + x / 256 % 256

abbrev pub swap32 : ℕ → ℕ
swap32 x = swap16 (x % 65536) * 65536 + swap16 (x / 65536)

-- htons and ntohs, which are one function, and ntohl
abbrev pub htons : Order → ℕ → ℕ
htons little_endian x = swap16 x
htons big_endian x = x

abbrev pub ntohl : Order → ℕ → ℕ
ntohl little_endian x = swap32 x
ntohl big_endian x = x

-- `(short)port`, as its bit pattern
abbrev pub to_short : ℕ → ℕ
to_short port = port % 65536

-- struct sockaddr_in and sockaddr_in6 by the values of their fields, and any other family. Ports
-- are in network order.
pub data SockAddr (In In6 : Type 0) : Type 0 where
  inet : (port : ℕ) (addr : In) → SockAddr In In6
  inet6 : (port flowinfo : ℕ) (addr : In6) (scope_id : ℕ) → SockAddr In In6
  unspec : SockAddr In In6

-- libuv's conversions: the addresses that it stands for, INADDR_ANY and INADDR_BROADCAST,
-- uv_inet_pton and uv_ip4_name, uv_ip6_name. A name that libuv writes can be read back, and names
-- of the two families differ.
pub record Inet : Type 1 where
  pub In : Type 0
  pub In6 : Type 0
  pub any : In
  pub broadcast : In
  pub pton4 : String → Option In
  pub pton6 : String → Option In6
  pub name4 : In → String
  pub name6 : In6 → String
  pub pton4-name4 : (a : In) → pton4 (name4 a) ≡ some a
  pub pton4-name6 : (a : In6) → pton4 (name6 a) ≡ none
  pub pton6-name6 : (a : In6) → pton6 (name6 a) ≡ some a
  pub name4_nonempty : (a : In) → str_eq (name4 a) "" ≡ false
  pub name4_plain : (a : In) → str_eq (name4 a) "<broadcast>" ≡ false
  pub name6_nonempty : (a : In6) → str_eq (name6 a) "" ≡ false
  pub name6_plain : (a : In6) → str_eq (name6 a) "<broadcast>" ≡ false

-- What PyArg_ParseTuple finds in the tuple. The format "I" stores an unsigned int; what is left out
-- is 0.
pub record AddrArgs : Type 0 where
  pub host : String
  pub port : ℤ
  pub flowinfo : ℕ
  pub scope_id : ℕ

-- The argument: not a tuple, a tuple that PyArg_ParseTuple refuses, or its parts.
pub data AddrObj : Type 0 where
  no_tuple bad_tuple : AddrObj
  tuple : AddrArgs → AddrObj

-- What makesockaddr builds: a pair, a quadruple, or None.
pub data PyAddr : Type 0 where
  pair : (host : String) (port : ℕ) → PyAddr
  quadruple : (host : String) (port flowinfo scope_id : ℕ) → PyAddr
  no_addr : PyAddr

module _ (I : Inet) (order : Order) where
  open I use {In, In6, any, broadcast, pton4, pton6, name4, name6}

  -- The chain of tests on the host.
  unfoldable pub fill_sockaddr : AddrArgs → Result (SockAddr In In6)
  fill_sockaddr a =
      let port = htons order (to_short (to_ℕ a.port)) in
      if str_eq a.host ""
      then ok (inet port any)
      else if str_eq a.host "<broadcast>"
      then ok (inet port broadcast)
      else elim (pton4 a.host) [
        | some addr ↦ ok (inet port addr)
        | none ↦ elim (pton6 a.host) [
          | some addr ↦ ok (inet6 port a.flowinfo addr a.scope_id)
          | none ↦ raised (set_string value_error)
        ]
      ]

  -- pyuv_parse_addr_tuple
  unfoldable pub parse_addr_tuple : AddrObj → Result (SockAddr In In6)
  unfolding fill_sockaddr
  parse_addr_tuple no_tuple = raised (set_string type_error)
  parse_addr_tuple bad_tuple = raised by_callee
  parse_addr_tuple (tuple a) =
      if is_neg a.port || gtb a.port 0xffff
      then raised (set_string overflow_error)
      else if ltb 0xfffff a.flowinfo
      then raised (set_string overflow_error)
      else fill_sockaddr a

  -- makesockaddr
  unfoldable pub makesockaddr : SockAddr In In6 → PyAddr
  makesockaddr (inet port addr) = pair (name4 addr) (htons order port)
  makesockaddr (inet6 port flowinfo addr scope_id) =
      quadruple (name6 addr) (htons order port) (ntohl order flowinfo) scope_id
  makesockaddr unspec = no_addr
