-- ===== src/Address/Laws.antt =====
-- The two conversions of src/common.c one after the other.
use pyuv.Base.{ℕ, ◌%◌, ◌≤◌, ◌<◌, ◌≡◌, ◌∙◌, ap, refl, arith}
use pyuv.Base.Int.{pos, to_ℕ}
use pyuv.Py.{ok}
use pyuv.Address.{
  Order, little_endian, big_endian, htons, ntohl, SockAddr, inet, inet6, Inet, AddrArgs, AddrObj,
  no_tuple, tuple, PyAddr, pair, quadruple, no_addr, fill_sockaddr, parse_addr_tuple, makesockaddr,
}

htons_lt : (order : Order) (p : ℕ) → p < 65536 → htons order p < 65536
htons_lt little_endian p h = omega arith
htons_lt big_endian p h = h

htons-htons : (order : Order) (p : ℕ) → p < 65536 → htons order (htons order p) ≡ p
htons-htons little_endian p h = omega arith
htons-htons big_endian p h = refl

ntohl_zero : (order : Order) → ntohl order 0 ≡ 0
ntohl_zero little_endian = refl
ntohl_zero big_endian = refl

mod_small : (p : ℕ) → p < 65536 → p % 65536 ≡ p
mod_small p h = omega arith

module _ (I : Inet) (order : Order) where
  open I use {In, In6, any, broadcast, pton4, pton6, name4, name6}

  fill_sockaddr-name4 :
      (args : AddrArgs) (a : In)
      → args.host ≡ name4 a
      → fill_sockaddr I order args ≡ ok (inet (htons order (to_ℕ args.port % 65536)) a)
  unfolding fill_sockaddr
  fill_sockaddr-name4 args a h = rw (h, I.name4_nonempty a, I.name4_plain a, I.pton4-name4 a)

  fill_sockaddr-name6 :
      (args : AddrArgs) (b : In6)
      → args.host ≡ name6 b
      → fill_sockaddr I order args
        ≡ ok (inet6 (htons order (to_ℕ args.port % 65536)) args.flowinfo b args.scope_id)
  unfolding fill_sockaddr
  fill_sockaddr-name6 args b h =
      rw (h, I.name6_nonempty b, I.name6_plain b, I.pton4-name6 b, h, I.pton6-name6 b)

  in_range :
      (args : AddrArgs) (p : ℕ)
      → args.port ≡ pos p
      → p ≤ 0xffff
      → args.flowinfo ≤ 0xfffff
      → parse_addr_tuple I order (tuple args) ≡ fill_sockaddr I order args
  unfolding parse_addr_tuple
  in_range args p e h f = rw e (ground arith)

  port_kept : (port : ℕ) → port < 65536 → htons order (htons order port % 65536) ≡ port
  port_kept port h = rw (mod_small _ (htons_lt order port h)) (htons-htons order port h)

  port_read : (port : ℕ) → port < 65536 → htons order (htons order (port % 65536)) ≡ port
  port_read port h = rw (mod_small port h) (htons-htons order port h)

  -- The tuple that Python passes back for an address it was given.
  abbrev pub give_back : PyAddr → AddrObj
  give_back (pair host port) =
      tuple (record { host = host; port = pos port; flowinfo = 0; scope_id = 0 })
  give_back (quadruple host port flowinfo scope_id) =
      tuple (record { host = host; port = pos port; flowinfo = flowinfo; scope_id = scope_id })
  give_back no_addr = no_tuple

  -- An IPv4 socket address with a 16-bit port survives the way to Python and back, and so does an
  -- IPv6 one whose flow information is 0, on either byte order.
  pub parse-makesockaddr :
      (port scope_id : ℕ) (a : In) (b : In6)
      → port < 65536
      → (parse_addr_tuple I order (give_back (makesockaddr I order (inet port a)))
          ≡ ok (inet port a))
        × (parse_addr_tuple I order (give_back (makesockaddr I order (inet6 port 0 b scope_id)))
            ≡ ok (inet6 port 0 b scope_id))
  unfolding makesockaddr
  parse-makesockaddr port scope_id a b h = (
    in_range _ _ refl (ground (arith, htons_lt order port h)) (ground arith)
        ∙ fill_sockaddr-name4 _ a refl
        ∙ ap (λ p. ok (inet p a)) (port_kept port h),
    in_range _ _ refl (ground (arith, htons_lt order port h)) (ground (arith, ntohl_zero order))
        ∙ fill_sockaddr-name6 _ b refl
        ∙ ap (λ p. ok (inet6 p (ntohl order 0) b scope_id)) (port_kept port h)
        ∙ ap (λ f. ok (inet6 port f b scope_id)) (ntohl_zero order),
  )

  -- An IPv6 tuple that is accepted comes back with its host's name, its port and its scope, but on
  -- a little-endian machine with the bytes of its flow information reversed: it is stored as it is,
  -- and read through ntohl.
  pub makesockaddr-parse :
      (args : AddrArgs) (b : In6) (p : ℕ)
      → args.port ≡ pos p
      → p ≤ 0xffff
      → args.flowinfo ≤ 0xfffff
      → args.host ≡ name6 b
      → (s : SockAddr In In6) × (parse_addr_tuple I order (tuple args) ≡ ok s)
        × (makesockaddr I order s ≡ quadruple args.host p (ntohl order args.flowinfo) args.scope_id)
  unfolding makesockaddr
  makesockaddr-parse args b p e h f n = (
    _,
    in_range args p e h f ∙ fill_sockaddr-name6 args b n,
    rw (e, n)
        (ap (λ q. quadruple (name6 b) q (ntohl order args.flowinfo) args.scope_id)
          (port_read p (ground arith))),
  )
