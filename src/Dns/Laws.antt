-- ===== src/Dns/Laws.antt =====
-- Who owns the request of a lookup (src/dns.c), and what a call gives back.
use pyuv.Base.{
  ◌+◌, ◌-◌, ◌<◌, ◌≡◌, ◌≢◌, ◌⊎◌, refl, Bool, true, false, ◌||◌, Option, none, some, ◌==◌,
}
use pyuv.Base.Int.{ℤ, is_neg}
use pyuv.Py.{Obj, none_obj, Refs, by_callee, is, held, incref, xincref}
use pyuv.Dns.{
  LookupRequest, Looked, refused, failed, waiting, answered, of_text, Query, Answer, getaddrinfo,
}

-- What a call leaves of the references that there were: where it waits, the caller and libuv hold the
-- request once each, and the request its loop and its function.
abbrev pub Settled : Obj → (loop callback : Obj) → Refs → Looked → Type 0
Settled me l cb refs (refused e r) = (o : Obj) → r o ≡ refs o
Settled me l cb refs (failed e w) = (w.freed ≡ true) × ((o : Obj) → w.refs o ≡ refs o)
Settled me l cb refs (waiting w) =
    (w.freed ≡ false)
    × (w.req_ptr ≡ true)
    × ((o : Obj) → w.refs o ≡ refs o + is me o + is me o + is l o + is cb o)
Settled me l cb refs (answered v w) = (w.freed ≡ true) × ((o : Obj) → w.refs o ≡ refs o + is v o)

-- The request that is built, by its counts.
abbrev built : (loop callback : Obj) → Refs → LookupRequest
built l cb r = record {
  request = record {
    req_ptr = true;
    initialized = true;
    loop = some l;
    dict = none;
    refs = r;
    freed = false;
  };
  callback = some cb;
}

module _ (me l cb : Obj) (refs : Refs) where
  -- The counts of a request that is built, its names given up again.
  abbrev counts : Refs
  counts o = refs o + is me o + is l o + is cb o

  module _ (fresh : refs me ≡ 0) (hl : 0 < refs l) (hc : 0 < refs cb) where
    abbrev named : Option Obj → Option Obj → Refs
    named i s = xincref s (xincref i refs)

    -- The counts that the code arrives at, of the parts that it adds and takes.
    abbrev cleaned : Option Obj → Option Obj → Refs
    cleaned i s o = named i s o + is me o + is l o - 0 + is cb o - 0 - held i o - held s o

-- What a call of getnameinfo leaves: where it comes to its result, made or not, the request still has
-- the reference of the call, and holds its loop and None.
abbrev pub NameSettled : Obj → (loop callback : Obj) → Refs → (code : ℤ) → Looked → Type 0
NameSettled me l cb refs code (refused e r) = (o : Obj) → r o ≡ refs o
NameSettled me l cb refs code (failed e w) =
    ((w.freed ≡ true) × ((o : Obj) → w.refs o ≡ refs o))
    ⊎ ((e ≡ by_callee)
        × (is_neg code ≡ false)
        × (w.freed ≡ false)
        × ((o : Obj) → w.refs o ≡ refs o + is me o + is l o + is none_obj o))
NameSettled me l cb refs code (waiting w) =
    (cb ≢ none_obj)
    × (w.freed ≡ false)
    × (w.req_ptr ≡ true)
    × ((o : Obj) → w.refs o ≡ refs o + is me o + is me o + is l o + is cb o)
NameSettled me l cb refs code (answered v w) =
    (w.freed ≡ false) × ((o : Obj) → w.refs o ≡ refs o + is me o + is l o + is none_obj o + is v o)

-- A getaddrinfo whose host is a text, and whose service is a text that cannot be encoded, keeps the
-- bytes object of the host.
pub encoded_host_lost :
    (callable : Obj → Bool) (q : Query) (a : Answer) (b : Obj) (refs : Refs)
    → (q.callback == none_obj || callable q.callback) ≡ true
    → getaddrinfo callable
        (some (record q { host = of_text (some b); service = of_text none }))
        a
        refs
      ≡ refused by_callee (incref b refs)
unfolding getaddrinfo
encoded_host_lost callable q a b refs fits = rw fits refl
