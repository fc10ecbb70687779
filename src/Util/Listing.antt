-- ===== src/Util/Listing.antt =====
-- What the lists of src/util.c hold, and that libuv gets its arrays back.
use pyuv.Base.{
  ℕ, zero, suc, ◌+◌, ◌-◌, ◌/◌, ◌%◌, ◌<◌, ◌≡◌, ◌↔◌, refl, sym, ap, arith, Bool, List, [], ◌∷◌, ◌++◌,
  map, Bool-cases, inl, inr, length,
}
use pyuv.Base.Int.{ℤ, is_zero, is_neg}
use pyuv.Py.{Result, ok, raised, aborted}
use pyuv.Util.Tables.{
  Text, Machine, Convert, CpuInfo, CpuItem, Sockaddr, inet, inet6, other, PhysAddr, Interface,
  InterfaceItem, hex_digit, mac_text, cpu_values, cpu_objects, interface_values, interface_objects,
  cpu_item, cpu_loop, cpu_info, written, interface_item, interface_loop, interface_addresses,
}
use mathlib.Core.Path.{subst}
use mathlib.Core.List.{append_assoc, append-nil}

-- The objects that the caller gets.
abbrev pub kept : {A : Type 0} → (A → ℕ) → Result A → ℕ
kept f (ok a) = f a
kept f (raised e) = 0
kept f aborted = 0

-- A list object that holds `n` others.
abbrev pub listed : {A : Type 0} → (List A → ℕ) → List A → ℕ
listed f is = suc (f is)

-- A result, where there is one, is `a`.
abbrev pub Gives : {A : Type 0} → A → Result A → Type 0
Gives a (ok b) = b ≡ a
Gives a (raised e) = Unit
Gives a aborted = Unit

-- The family is one of the two that have a name.
abbrev pub Named : {A : Type 0} → Sockaddr A → Type 0
Named (inet a) = Unit
Named (inet6 a) = Unit
Named other = ⊥

abbrev pub AllNamed : {A : Type 0} → List (Interface A) → Type 0
AllNamed [] = Unit
AllNamed (f ∷ fs) = Named f.address × Named f.netmask × AllNamed fs

written-Named :
    {A : Type 0} (ip4_name ip6_name : A → Text) (a : Sockaddr A) (x y : Text)
    → Named a
    → written ip4_name ip6_name a x ≡ written ip4_name ip6_name a y
written-Named ip4_name ip6_name (inet a) x y n = refl
written-Named ip4_name ip6_name (inet6 a) x y n = refl
written-Named ip4_name ip6_name other x y n = absurd n

module _ {Val : Type 0} where
  cpu_objects-append :
      (is js : List (CpuItem Val)) → cpu_objects (is ++ js) ≡ cpu_objects is + cpu_objects js
  cpu_objects-append [] js = omega arith
  cpu_objects-append (i ∷ is) js = omega (arith, cpu_objects-append is js)

  cpu_loop_lem :
      (v : Convert Val) (item_made times_made : ℕ → Bool) (i : ℕ) (cs : List CpuInfo)
      (done : List (CpuItem Val)) (base : ℕ) (s : Machine)
      → s.live ≡ base + suc (cpu_objects done)
      → let r = cpu_loop v item_made times_made i cs done s in
        (r.1.live ≡ base + kept (listed cpu_objects) r.0)
        × (r.1.arrays ≡ s.arrays - 1)
        × Gives (done ++ map (cpu_item v) cs) r.0
  unfolding cpu_loop
  cpu_loop_lem v item_made times_made i [] done base s e =
      (omega arith, refl, sym (append-nil done))
  cpu_loop_lem v item_made times_made i (c ∷ cs) done base s e = elim (Bool-cases (item_made i)) [
    | inl p ↦ elim (Bool-cases (times_made i)) [
      | inl q ↦
          let ih =
            cpu_loop_lem v item_made times_made (suc i) cs (done ++ cpu_item v c ∷ []) base
              (record s { live = s.live + 2 + cpu_values (cpu_item v c) })
              (omega (arith, cpu_objects-append done (cpu_item v c ∷ []), e)) in
          rw (p, q)
            (ih.0, ih.1, rw (← append_assoc done (cpu_item v c ∷ []) (map (cpu_item v) cs)) ih.2)
      | inr q ↦ rw (p, q) (omega (arith, e), refl, tt)
    ]
    | inr p ↦ elim (Bool-cases (times_made i)) [
      | inl q ↦ rw (p, q) (omega (arith, e), refl, tt)
      | inr q ↦ rw (p, q) (omega (arith, e), refl, tt)
    ]
  ]

  interface_objects-append :
      (is js : List (InterfaceItem Val))
      → interface_objects (is ++ js) ≡ interface_objects is + interface_objects js
  interface_objects-append [] js = omega arith
  interface_objects-append (i ∷ is) js = omega (arith, interface_objects-append is js)

  -- Util_func_cpu_info, whatever libuv answers and whichever allocation or conversion fails: the
  -- array of libuv is given back exactly where there was one; a call that raises leaves no object
  -- behind; one that returns leaves those of its list and no other, and the list has one element
  -- for each processor, in libuv's order, with the fields at their indices.
  pub cpu_info_lists :
      (v : Convert Val) (list_made : Bool) (item_made times_made : ℕ → Bool) (err : ℤ)
      (cpus : List CpuInfo) (s : Machine)
      → let r = cpu_info v list_made item_made times_made err cpus s in
        (r.1.arrays ≡ s.arrays)
        × (r.1.live ≡ s.live + kept (listed cpu_objects) r.0)
        × Gives (map (cpu_item v) cpus) r.0
  unfolding cpu_info
  cpu_info_lists v list_made item_made times_made err cpus s =
      let l =
        cpu_loop_lem v item_made times_made 0 cpus [] s.live
          (record { live = s.live + 1; arrays = s.arrays + 1 }) (omega arith) in
      elim (Bool-cases (is_zero err)) [
        | inl p ↦ elim (Bool-cases list_made) [
          | inl q ↦ rw (p, q) (omega (arith, l.1), l.0, l.2)
          | inr q ↦ rw (p, q) (omega arith, omega arith, tt)
        ]
        | inr p ↦ rw p (refl, omega arith, tt)
      ]

  module _ {A : Type 0} (ip4_name ip6_name : A → Text) where
    -- An element by its interface alone.
    abbrev pub described : Convert Val → Interface A → InterfaceItem Val
    described v = interface_item ip4_name ip6_name v []

    item-Named :
        (v : Convert Val) (f : Interface A) (buf : Text)
        → Named f.address
        → Named f.netmask
        → interface_item ip4_name ip6_name v buf f ≡ described v f
    item-Named v f buf a n = cc (
      written-Named ip4_name ip6_name f.address buf [] a,
      written-Named ip4_name ip6_name f.netmask (written ip4_name ip6_name f.address buf)
          (written ip4_name ip6_name f.address []) n,
    )

    interface_loop_lem :
        (v : Convert Val) (item_made : ℕ → Bool) (i : ℕ) (buf : Text) (fs : List (Interface A))
        (done : List (InterfaceItem Val)) (base : ℕ) (s : Machine)
        → AllNamed fs
        → s.live ≡ base + suc (interface_objects done)
        → let r = interface_loop ip4_name ip6_name v item_made i buf fs done s in
          (r.1.live ≡ base + kept (listed interface_objects) r.0)
          × (r.1.arrays ≡ s.arrays - 1)
          × Gives (done ++ map (described v) fs) r.0
    unfolding interface_loop
    interface_loop_lem v item_made i buf [] done base s n e =
        (omega arith, refl, sym (append-nil done))
    interface_loop_lem v item_made i buf (f ∷ fs) done base s n e =
        elim (Bool-cases (item_made i)) [
          | inl p ↦
              let item = interface_item ip4_name ip6_name v buf f in
              let next = done ++ item ∷ [] in
              let t : Machine = record s { live = s.live + 1 + interface_values item } in
              let ih =
                interface_loop_lem v item_made (suc i) (mac_text f.phys_addr) fs next base t n.2
                  (omega (arith, interface_objects-append done (item ∷ []), e)) in
              rw p (
                ih.0,
                ih.1,
                subst
                    (λ x.
                      Gives (done ++ x ∷ map (described v) fs)
                        (interface_loop ip4_name ip6_name v item_made (suc i) (mac_text f.phys_addr)
                          fs next t).0)
                    (item-Named v f buf n.0 n.1)
                    (rw (← append_assoc done (item ∷ []) (map (described v) fs)) ih.2),
              )
          | inr p ↦ rw p (omega (arith, e), refl, tt)
        ]

    -- Util_func_interface_addresses where every address and netmask is of IPv4 or IPv6: libuv's
    -- array is given back exactly where there was one, whichever allocation or conversion fails; a
    -- call that raises leaves no object behind; one that returns leaves those of its list and no
    -- other, and the list describes each interface, in libuv's order, by its own fields alone,
    -- whatever the static buffer held before.
    pub interface_addresses_lists :
        (v : Convert Val) (list_made : Bool) (item_made : ℕ → Bool) (err : ℤ)
        (interfaces : List (Interface A)) (buf : Text) (s : Machine)
        → AllNamed interfaces
        → let r =
            interface_addresses ip4_name ip6_name v list_made item_made err interfaces buf s in
          (r.1.arrays ≡ s.arrays)
          × (r.1.live ≡ s.live + kept (listed interface_objects) r.0)
          × Gives (map (described v) interfaces) r.0
    unfolding interface_addresses
    interface_addresses_lists v list_made item_made err interfaces buf s n =
        let l =
          interface_loop_lem v item_made 0 buf interfaces [] s.live
            (record { live = s.live + 1; arrays = s.arrays + 1 }) n (omega arith) in
        elim (Bool-cases (is_neg err)) [
          | inl p ↦ rw p (refl, omega arith, tt)
          | inr p ↦ elim (Bool-cases list_made) [
            | inl q ↦ rw (p, q) (omega (arith, l.1), l.0, l.2)
            | inr q ↦ rw (p, q) (omega arith, omega arith, tt)
          ]
        ]

hex_digit-inj : (a b : ℕ) → a < 16 → b < 16 → hex_digit a ≡ hex_digit b → a ≡ b
hex_digit-inj a b x y e = ground arith

-- The bytes of a physical address.
abbrev pub SameBytes : PhysAddr → PhysAddr → Type 0
SameBytes p q =
    (p.a0 % 256 ≡ q.a0 % 256)
    × (p.a1 % 256 ≡ q.a1 % 256)
    × (p.a2 % 256 ≡ q.a2 % 256)
    × (p.a3 % 256 ≡ q.a3 % 256)
    × (p.a4 % 256 ≡ q.a4 % 256)
    × (p.a5 % 256 ≡ q.a5 % 256)

-- The two digits of a character tell its byte, and its byte tells them.
digits-inj :
    (a b : ℕ)
    → hex_digit (a / 16 % 16) ≡ hex_digit (b / 16 % 16)
    → hex_digit (a % 16) ≡ hex_digit (b % 16)
    → a % 256 ≡ b % 256
digits-inj a b high low =
    let h = hex_digit-inj (a / 16 % 16) (b / 16 % 16) (omega arith) (omega arith) high in
    let l = hex_digit-inj (a % 16) (b % 16) (omega arith) (omega arith) low in omega (arith, h, l)

byte_high : (a b : ℕ) → a % 256 ≡ b % 256 → a / 16 % 16 ≡ b / 16 % 16
byte_high a b e = omega arith

byte_low : (a b : ℕ) → a % 256 ≡ b % 256 → a % 16 ≡ b % 16
byte_low a b e = omega arith

abbrev nth : ℕ → Text → ℕ
nth k [] = 0
nth zero (c ∷ t) = c
nth (suc k) (c ∷ t) = nth k t

-- The text of a physical address has 17 characters, so that it fits into the buffer of 47, and it
-- tells the six bytes: two addresses have the same text exactly where they agree in every byte.
pub mac_text-inj :
    (p q : PhysAddr) → (length (mac_text p) ≡ 17) × ((mac_text p ≡ mac_text q) ↔ SameBytes p q)
unfolding mac_text
mac_text-inj p q = (
  refl,
  (
    λ e. (
      digits-inj p.a0 q.a0 (ap (nth 0) e) (ap (nth 1) e),
      digits-inj p.a1 q.a1 (ap (nth 3) e) (ap (nth 4) e),
      digits-inj p.a2 q.a2 (ap (nth 6) e) (ap (nth 7) e),
      digits-inj p.a3 q.a3 (ap (nth 9) e) (ap (nth 10) e),
      digits-inj p.a4 q.a4 (ap (nth 12) e) (ap (nth 13) e),
      digits-inj p.a5 q.a5 (ap (nth 15) e) (ap (nth 16) e),
    ),
    λ b. cc (
      byte_high p.a0 q.a0 b.0,
      byte_low p.a0 q.a0 b.0,
      byte_high p.a1 q.a1 b.1,
      byte_low p.a1 q.a1 b.1,
      byte_high p.a2 q.a2 b.2,
      byte_low p.a2 q.a2 b.2,
      byte_high p.a3 q.a3 b.3,
      byte_low p.a3 q.a3 b.3,
      byte_high p.a4 q.a4 b.4,
      byte_low p.a4 q.a4 b.4,
      byte_high p.a5 q.a5 b.5,
      byte_low p.a5 q.a5 b.5,
    ),
  ),
)
