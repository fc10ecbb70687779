-- ===== src/Dns/Results.antt =====
-- pyuv__getaddrinfo_process_result of src/dns.c: from libuv's list of addresses to a list of Python
-- tuples.
use pyuv.Base.{
  ℕ, suc, ◌+◌, ◌≡◌, ◌∙◌, refl, sym, arith, Bool, true, false, not, ◌||◌, is_some, Option, none,
  some, List, [], ◌∷◌, ◌++◌, ◌==◌, if◌then◌else◌, ◌≤◌, Bool-cases, Option-cases, inl, inr,
}
use pyuv.Base.Int.{ℤ, pos, negsuc, is_zero}
use Prim.Native.String.{String}
use mathlib.Core.List.{append_assoc, append-nil}

-- struct addrinfo: `addr` is what makesockaddr makes of ai_addr, or none where it sets an exception.
pub record AddrInfo (Val : Type 0) : Type 0 where
  pub family : ℤ
  pub socktype : ℤ
  pub protocol : ℤ
  pub addrlen : ℕ
  pub canonname : Option String
  pub addr : Option Val

-- An AddrinfoResult; `canonname` is NULL where the text cannot be decoded.
pub record AddrItem (Val : Type 0) : Type 0 where
  pub family : ℤ
  pub socktype : ℤ
  pub protocol : ℤ
  pub canonname : Option String
  pub addr : Val

-- The list, the addresses that nobody holds and nobody released, and whether an exception is left.
pub record Built (Val : Type 0) : Type 0 where
  pub items : List (AddrItem Val)
  pub lost : ℕ
  pub err : Bool

-- What there is memory for in a round: the tuple, and its place in the list.
pub record Space : Type 0 where
  pub item_made : Bool
  pub appended : Bool

-- ptr->ai_canonname ? ptr->ai_canonname : ""
abbrev pub name_or_empty : Option String → String
name_or_empty none = ""
name_or_empty (some s) = s

-- There is memory in every round.
abbrev pub Ample : (ℕ → Space) → Type 0
Ample space = (i : ℕ) → ((space i).item_made ≡ true) × ((space i).appended ≡ true)

module _ {Val : Type 0} (decoded : String → Option String) where
  abbrev pub addr_item : AddrInfo Val → Val → AddrItem Val
  addr_item p a = record {
    family = p.family;
    socktype = p.socktype;
    protocol = p.protocol;
    canonname = decoded (name_or_empty p.canonname);
    addr = a;
  }

  -- PyList_Append and Py_DECREF(item). A text that cannot be decoded leaves its exception too.
  abbrev pub append : Bool → AddrItem Val → Built Val → Built Val
  append true item b = record b {
    items = b.items ++ item ∷ [];
    err = b.err || not (is_some item.canonname);
  }
  append false item b = record b { err = true }

  -- The loop from its round `i` on; `break` where there is no address or
  -- no tuple, and its exception is cleared.
  unfoldable pub addr_loop : (space : ℕ → Space) → ℕ → List (AddrInfo Val) → Built Val → Built Val
  addr_loop space i [] b = b
  addr_loop space i (p ∷ ps) b =
      let skip = addr_loop space (suc i) ps b in
      let next =
        λ (a : Val). addr_loop space (suc i) ps (append (space i).appended (addr_item p a) b) in
      if p.addrlen == 0 then skip else elim p.addr [
        | none ↦ record b { err = false }
        | some a ↦
            if (space i).item_made then next a else record b { lost = b.lost + 1; err = false }
      ]

  -- pyuv__getaddrinfo_process_result: the code, and the list where one was made. -12 is UV_ENOMEM.
  unfoldable pub process_result :
      (status : ℤ)
      → (list_made : Bool) → (space : ℕ → Space) → List (AddrInfo Val)
      → ℤ × Option (Built Val)
  unfolding addr_loop
  process_result status list_made space res =
      if not (is_zero status)
      then (status, none)
      else if list_made
      then (pos 0, some (addr_loop space 0 res (record { items = []; lost = 0; err = false })))
      else (negsuc 11, none)

  -- The entries that the list is meant to hold: those with an address, up to the first whose address
  -- cannot be converted.
  abbrev pub usable : List (AddrInfo Val) → List (AddrItem Val)
  usable [] = []
  usable (p ∷ ps) =
      let rest = usable ps in
      if p.addrlen == 0 then rest else elim p.addr [ none ↦ [] | some a ↦ addr_item p a ∷ rest ]

  addr_loop_lem :
      (space : ℕ → Space) (i : ℕ) (ps : List (AddrInfo Val)) (b : Built Val)
      → Ample space
      → ((addr_loop space i ps b).items ≡ b.items ++ usable ps)
        × ((addr_loop space i ps b).lost ≡ b.lost)
  unfolding addr_loop
  addr_loop_lem space i [] b ample = (sym (append-nil b.items), refl)
  addr_loop_lem space i (p ∷ ps) b ample = elim (Bool-cases (p.addrlen == 0)) [
    | inl e ↦ rw e (addr_loop_lem space (suc i) ps b ample)
    | inr e ↦ elim (Option-cases p.addr) [
      | inl n ↦ rw (e, n) (sym (append-nil b.items), refl)
      | inr (a, n) ↦
          let t = append true (addr_item p a) b in
          let ih = addr_loop_lem space (suc i) ps t ample in
          rw (e, n, (ample i).0, (ample i).1)
            (ih.0 ∙ append_assoc b.items (addr_item p a ∷ []) (usable ps), ih.1)
    ]
  ]

  append_lost : (done : Bool) (t : AddrItem Val) (b : Built Val) → (append done t b).lost ≡ b.lost
  append_lost true t b = refl
  append_lost false t b = refl

  lost_one :
      (space : ℕ → Space) (i : ℕ) (ps : List (AddrInfo Val)) (b : Built Val)
      → (addr_loop space i ps b).lost ≤ b.lost + 1
  unfolding addr_loop
  lost_one space i [] b = omega arith
  lost_one space i (p ∷ ps) b = elim (Bool-cases (p.addrlen == 0)) [
    | inl e ↦ rw e (lost_one space (suc i) ps b)
    | inr e ↦ elim (Option-cases p.addr) [
      | inl n ↦ rw (e, n) (omega arith)
      | inr (a, n) ↦ elim (Bool-cases (space i).item_made) [
        | inr m ↦ rw (e, n, m) (omega arith)
        | inl m ↦
            let t = append (space i).appended (addr_item p a) b in
            let h = append_lost (space i).appended (addr_item p a) b in
            rw (e, n, m) (omega (arith, lost_one space (suc i) ps t, h))
      ]
    ]
  ]

  -- What a synchronous or asynchronous getaddrinfo makes of libuv's answer: an error code is passed
  -- on, and so is the want of memory for the list; where there is memory in every round, the list
  -- holds the entries with an address, in libuv's order, up to the first whose address cannot be
  -- converted, and nothing is lost; in any case at most one address is lost.
  pub process_result_lists :
      (status : ℤ) (list_made : Bool) (space : ℕ → Space) (res : List (AddrInfo Val))
      → let r = process_result status list_made space res in
        (is_zero status ≡ false → (r.0 ≡ status) × (r.1 ≡ none))
        × (is_zero status ≡ true → list_made ≡ false → (r.0 ≡ negsuc 11) × (r.1 ≡ none))
        × (is_zero status ≡ true
            → list_made ≡ true
            → (b : Built Val) × (r ≡ (pos 0, some b))
              × (Ample space → (b.items ≡ usable res) × (b.lost ≡ 0))
              × (b.lost ≤ 1))
  unfolding process_result
  process_result_lists status list_made space res = (
    λ z. rw z (refl, refl),
    λ z l. rw (z, l) (refl, refl),
    λ z l.
        let start : Built Val = record { items = []; lost = 0; err = false } in
        (
          addr_loop space 0 res start,
          rw (z, l) refl,
          λ ample. addr_loop_lem space 0 res start ample,
          lost_one space 0 res start,
        ),
  )

  -- A round without memory for its tuple: the address that makesockaddr made is lost.
  pub address_lost :
      (space : ℕ → Space) (i : ℕ) (p : AddrInfo Val) (ps : List (AddrInfo Val)) (a : Val)
      (b : Built Val)
      → (p.addrlen == 0) ≡ false
      → p.addr ≡ some a
      → (space i).item_made ≡ false
      → addr_loop space i (p ∷ ps) b ≡ record b { lost = b.lost + 1; err = false }
  unfolding addr_loop
  address_lost space i p ps a b e n m = rw (e, n, m) refl
