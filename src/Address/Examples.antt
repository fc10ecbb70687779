-- ===== src/Address/Examples.antt =====
-- Addresses of a small host table, on a little-endian machine.
use pyuv.Base.{◌≡◌, refl, false, Option, none, some, arith, if◌then◌else◌}
use pyuv.Base.Int.{pos}
use pyuv.Error.{overflow_error}
use pyuv.Py.{ok, raised, set_string}
use Prim.Native.String.{String}
use text.Mathlib.Text.{◌==◌ as str_eq}
use pyuv.Address.{
  little_endian, SockAddr, inet, inet6, Inet, AddrArgs, tuple, quadruple, ntohl, parse_addr_tuple,
  makesockaddr,
}
use pyuv.Address.Laws.{give_back, parse-makesockaddr, makesockaddr-parse}

-- The IPv4 addresses in use; the only IPv6 one is the loopback.
data In4 : Type 0 where
  any_addr broadcast_addr localhost : In4

data Loopback6 : Type 0 where
  loopback6 : Loopback6

abbrev name_of : In4 → String
name_of any_addr = "0.0.0.0"
name_of broadcast_addr = "255.255.255.255"
name_of localhost = "127.0.0.1"

abbrev pton : String → Option In4
pton s =
    if str_eq s "0.0.0.0"
    then some any_addr
    else if str_eq s "255.255.255.255"
    then some broadcast_addr
    else if str_eq s "127.0.0.1"
    then some localhost
    else none

pton-name_of : (a : In4) → pton (name_of a) ≡ some a
pton-name_of any_addr = refl
pton-name_of broadcast_addr = refl
pton-name_of localhost = refl

name_of_nonempty : (a : In4) → str_eq (name_of a) "" ≡ false
name_of_nonempty any_addr = refl
name_of_nonempty broadcast_addr = refl
name_of_nonempty localhost = refl

name_of_plain : (a : In4) → str_eq (name_of a) "<broadcast>" ≡ false
name_of_plain any_addr = refl
name_of_plain broadcast_addr = refl
name_of_plain localhost = refl

abbrev name6_of : Loopback6 → String
name6_of a = "::1"

abbrev pton_6 : String → Option Loopback6
pton_6 s = if str_eq s "::1" then some loopback6 else none

all_loopback6 : (a : Loopback6) → pton_6 (name6_of a) ≡ some a
all_loopback6 loopback6 = refl

abbrev hosts : Inet
hosts = record {
  In = In4;
  In6 = Loopback6;
  any = any_addr;
  broadcast = broadcast_addr;
  pton4 = pton;
  pton6 = pton_6;
  name4 = name_of;
  name6 = name6_of;
  pton4-name4 = pton-name_of;
  pton4-name6 = λ a. refl;
  pton6-name6 = all_loopback6;
  name4_nonempty = name_of_nonempty;
  name4_plain = name_of_plain;
  name6_nonempty = λ a. refl;
  name6_plain = λ a. refl;
}

refuses_port :
    parse_addr_tuple hosts little_endian
      (tuple (record { host = "127.0.0.1"; port = pos 65536; flowinfo = 0; scope_id = 0 }))
    ≡ raised (set_string overflow_error)
unfolding parse_addr_tuple
refuses_port = refl

abbrev flow_args : AddrArgs
flow_args = record { host = "::1"; port = pos 80; flowinfo = 1; scope_id = 2 }

parse-makesockaddr_example :
    (parse_addr_tuple hosts little_endian
        (give_back hosts little_endian (makesockaddr hosts little_endian (inet 20480 localhost)))
      ≡ ok (inet 20480 localhost))
    × (parse_addr_tuple hosts little_endian (
          give_back hosts little_endian
            (makesockaddr hosts little_endian (inet6 20480 0 loopback6 2)))
        ≡ ok (inet6 20480 0 loopback6 2))
parse-makesockaddr_example =
    parse-makesockaddr hosts little_endian 20480 2 localhost loopback6 (omega arith)

makesockaddr-parse_example :
    (s : SockAddr In4 Loopback6) × (parse_addr_tuple hosts little_endian (tuple flow_args) ≡ ok s)
    × (makesockaddr hosts little_endian s ≡ quadruple "::1" 80 (ntohl little_endian 1) 2)
makesockaddr-parse_example =
    makesockaddr-parse hosts little_endian flow_args loopback6 80 refl (omega arith) (omega arith)
      refl
