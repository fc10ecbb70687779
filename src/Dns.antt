-- ===== src/Dns.antt =====
-- src/dns.c, and GAIRequest and GNIRequest of src/request.c: names and addresses, at once or by a
-- callback.
pub mod Laws
pub mod Results
mod Examples
use pyuv.Base.{
  ℕ, ◌+◌, ◌-◌, Bool, true, false, not, ◌||◌, ◌&&◌, Option, none, some, List, [], ◌∷◌, ◌==◌, is_some,
  if◌then◌else◌,
}
use pyuv.Base.Int.{ℤ, negsuc, is_neg, gtb}
use pyuv.Error.{uv_error, type_error, value_error, memory_error}
use pyuv.Py.{
  Obj, none_obj, Refs, incref, decref, xincref, xdecref, Exc, uv, by_callee, set_string, Result, M,
  ok, raised, aborted,
}
use pyuv.Request.{Request, tp_new, tp_init, tp_clear}

-- struct GAIRequest, struct GNIRequest
pub record LookupRequest : Type 0 where
  pub request : Request
  pub open request use *
  pub callback : Option Obj

abbrev pub with_refs : Refs → LookupRequest → LookupRequest
with_refs r w = record w { request = record w.request { refs = r } }

-- GAIRequest_tp_new, GNIRequest_tp_new: the new object has one reference.
unfoldable pub lookup_new : Obj → Refs → LookupRequest
unfolding tp_new
lookup_new me refs = record {
  request = record (tp_new (incref me refs)) { req_ptr = true };
  callback = none;
}

abbrev pub finish_lookup :
    Obj → Result (Unit {0}) × Request → LookupRequest → Result (Unit {0}) × LookupRequest
finish_lookup cb (ok t, r) w = (
  ok t,
  record w {
    request = record r { refs = xdecref w.callback (incref cb r.refs) };
    callback = some cb;
  },
)
finish_lookup cb (raised e, r) w = (raised e, record w { request = r })
finish_lookup cb (aborted, r) w = (aborted, record w { request = r })

-- GAIRequest_tp_init, GNIRequest_tp_init, for the loop and the function; `sliced` says that
-- PySequence_GetSlice made its tuple, which is released again.
unfoldable pub lookup_init : (loop callback : Obj) → (sliced : Bool) → M LookupRequest (Unit {0})
lookup_init loop cb false w = (raised by_callee, w)
lookup_init loop cb true w = finish_lookup cb (tp_init (some loop) w.request) w

-- GAIRequest_tp_clear, GNIRequest_tp_clear and Request_tp_dealloc
unfoldable pub lookup_dealloc : LookupRequest → LookupRequest
unfolding tp_clear
lookup_dealloc w = record {
  request = record (tp_clear (record w.request { refs = xdecref w.callback w.refs })) {
    freed = true;
  };
  callback = none;
}

-- Py_DECREF(gai_req): the object dies with its last reference.
unfoldable pub lookup_release : Obj → LookupRequest → LookupRequest
unfolding lookup_dealloc
lookup_release me w =
    let t = with_refs (decref me w.refs) w in if t.refs me == 0 then lookup_dealloc t else t

-- What a call comes to: refused before there is a request, a request that was made and an exception,
-- one that libuv has, or one that is done and a value.
pub data Looked : Type 0 where
  refused : Exc → Refs → Looked
  failed : Exc → LookupRequest → Looked
  waiting : LookupRequest → Looked
  answered : Obj → LookupRequest → Looked

-- The arguments `host` and `service`: a text by the bytes object that encodes it, if any, and a
-- number by PyInt_AsLong.
pub data Name : Type 0 where
  no_name : Name
  of_text : Option Obj → Name
  of_bytes : Name
  of_int : ℤ → Name
  of_other : Name

-- The test of `service`, and the exception where it fails
abbrev pub service_error : Name → Option Exc
service_error no_name = none
service_error (of_text none) = some by_callee
service_error (of_text (some b)) = none
service_error of_bytes = none
service_error (of_int n) = if is_neg n || gtb n 65535 then some (set_string value_error) else none
service_error of_other = some (set_string type_error)

-- A number is no host.
abbrev pub host_error : Name → Option Exc
host_error no_name = none
host_error (of_text none) = some by_callee
host_error (of_text (some b)) = none
host_error of_bytes = none
host_error (of_int n) = some (set_string type_error)
host_error of_other = some (set_string type_error)

-- The bytes object that the function holds.
abbrev pub encoded : Name → Option Obj
encoded (of_text b) = b
encoded n = none

-- The arguments: the function is None where it is left out.
pub record Query : Type 0 where
  pub loop : Obj
  pub host : Name
  pub service : Name
  pub callback : Obj

-- What the interpreter and libuv answer: the memory for the request, the tuple of its __init__, the
-- code of uv_getaddrinfo or uv_getnameinfo, and the object for the result, where there is memory.
pub record Answer : Type 0 where
  pub alloc : Option Obj
  pub sliced : Bool
  pub code : ℤ
  pub value : Option Obj

-- The end of a synchronous call, where the object for the result was made or not.
abbrev pub give_value : Exc → Option Obj → LookupRequest → Looked
give_value e none w = failed e w
give_value e (some v) w = answered v (with_refs (incref v w.refs) w)

-- Util_func_getaddrinfo behind uv_getaddrinfo, on success. The memory of libuv's list of results is
-- left out.
abbrev pub gai_finish : (callback me : Obj) → Option Obj → LookupRequest → Looked
gai_finish cb me value w =
    if cb == none_obj
    then give_value (uv uv_error (negsuc 11)) value (lookup_release me w)
    else waiting (with_refs (incref me w.refs) w)

-- Util_func_getnameinfo behind uv_getnameinfo, on success: a synchronous call does not give up its
-- request.
abbrev pub gni_finish : (callback me : Obj) → Option Obj → LookupRequest → Looked
gni_finish cb me value w =
    if cb == none_obj
    then give_value by_callee value w
    else waiting (with_refs (incref me w.refs) w)

-- From the call of libuv on. `clean` gives up what the function holds besides the request.
abbrev pub look_up :
    (finish : Option Obj → LookupRequest → Looked)
    → (clean : Refs → Refs) → (me : Obj) → Answer
    → Result (Unit {0}) × LookupRequest
    → Looked
look_up finish clean me a (ok t, w) =
    let v = with_refs (clean w.refs) w in
    if is_neg a.code then failed (uv uv_error a.code) (lookup_release me v) else finish a.value v
look_up finish clean me a (raised e, w) =
    failed (set_string memory_error) (lookup_release me (with_refs (clean w.refs) w))
look_up finish clean me a (aborted, w) =
    failed (set_string memory_error) (lookup_release me (with_refs (clean w.refs) w))

-- The request, and what follows.
abbrev pub ask :
    (finish : Obj → Option Obj → LookupRequest → Looked)
    → (clean : Refs → Refs) → Query
    → Answer
    → Refs
    → Looked
ask finish clean q a refs = elim a.alloc [
  | none ↦ refused (set_string memory_error) (clean refs)
  | some me ↦
      look_up (finish me) clean me a (lookup_init q.loop q.callback a.sliced (lookup_new me refs))
]

-- Py_XDECREF(idna); Py_XDECREF(ascii);
abbrev pub drop_names : Query → Refs → Refs
drop_names q r = xdecref (encoded q.service) (xdecref (encoded q.host) r)

-- The end of a call whose `service` is refused: where its text cannot be encoded the function
-- returns at once.
abbrev pub bad_service : Query → Exc → Refs → Looked
bad_service q e refs = elim q.service [
  | of_text b ↦ refused e refs
  | no_name ↦ refused e (xdecref (encoded q.host) refs)
  | of_bytes ↦ refused e (xdecref (encoded q.host) refs)
  | of_int n ↦ refused e (xdecref (encoded q.host) refs)
  | of_other ↦ refused e (xdecref (encoded q.host) refs)
]

abbrev pub with_service : Query → Answer → Option Exc → Refs → Looked
with_service q a (some e) refs = bad_service q e refs
with_service q a none refs =
    ask (λ me. gai_finish q.callback me) (drop_names q) q a (xincref (encoded q.service) refs)

abbrev pub with_host : (Obj → Bool) → Query → Answer → Option Exc → Refs → Looked
with_host callable q a (some e) refs = refused e refs
with_host callable q a none refs =
    let r = xincref (encoded q.host) refs in
    if q.callback == none_obj || callable q.callback
    then with_service q a (service_error q.service) r
    else refused (set_string type_error) (xdecref (encoded q.host) r)

-- Util_func_getaddrinfo
unfoldable pub getaddrinfo : (Obj → Bool) → Option Query → Answer → Refs → Looked
unfolding lookup_new lookup_init lookup_release
getaddrinfo callable none a refs = refused by_callee refs
getaddrinfo callable (some q) a refs = with_host callable q a (host_error q.host) refs

-- Util_func_getnameinfo; `addressed` says that pyuv_parse_addr_tuple accepts the address.
unfoldable pub getnameinfo :
    (Obj → Bool) → Option Query → (addressed : Bool) → Answer → Refs → Looked
unfolding lookup_new lookup_init lookup_release
getnameinfo callable none addressed a refs = refused by_callee refs
getnameinfo callable (some q) addressed a refs =
    if q.callback == none_obj || callable q.callback
    then (if addressed
        then ask (λ me. gni_finish q.callback me) (λ r. r) q a refs
        else refused by_callee refs)
    else refused (set_string type_error) refs

-- What PyObject_CallFunctionObjArgs leaves.
abbrev pub finish_call :
    (LookupRequest → LookupRequest) → Option Obj × LookupRequest → LookupRequest
finish_call hook (some r, w) = with_refs (decref r w.refs) w
finish_call hook (none, w) = hook w

-- pyuv__getaddrinfo_cb, pyuv__getnameinfo_cb: `result` and `errorno` are what the callback passes,
-- each with a new reference.
unfoldable pub lookup_cb :
    (Option Obj → LookupRequest → Option Obj × LookupRequest)
    → (hook : LookupRequest → LookupRequest) → (result errorno me : Obj) → LookupRequest
    → LookupRequest
unfolding lookup_release
lookup_cb call hook result errorno me w =
    let t =
      finish_call hook (call w.callback (with_refs (incref result (incref errorno w.refs)) w)) in
    let u = with_refs (decref errorno (decref result t.refs)) t in
    lookup_release me (record u { request = record u.request { req_ptr = false } })
