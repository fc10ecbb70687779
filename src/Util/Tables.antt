-- ===== src/Util/Tables.antt =====
-- The functions of src/util.c that build a list of what libuv knows: Util_func_interface_addresses
-- and Util_func_cpu_info. An array that libuv allocates has to be given back to it on every path.
use pyuv.Base.{
  ℕ, suc, ◌+◌, ◌-◌, ◌/◌, ◌%◌, Bool, true, false, ◌&&◌, Option, none, some, List, [], ◌∷◌, ◌++◌,
  if◌then◌else◌, ltb,
}
use pyuv.Base.Int.{ℤ, is_neg, is_zero}
use pyuv.Error.{uv_error}
use pyuv.Py.{M, ok, raised, uv, by_callee}

-- The bytes of a C string, without the final NUL.
abbrev pub Text : Type 0
Text = List ℕ

-- The live objects that a call made, and the arrays that libuv allocated and has not got back.
pub record Machine : Type 0 where
  pub live : ℕ
  pub arrays : ℕ

-- The interpreter's conversions, which return NULL where they fail.
pub record Convert (Val : Type 0) : Type 0 where
  pub of_text : Text → Option Val
  pub of_bool : Bool → Option Val
  pub of_long : ℤ → Option Val
  pub of_ulong : ℕ → Option Val

-- uv_cpu_info_t
pub record CpuInfo : Type 0 where
  pub model : Text
  pub speed : ℤ
  pub sys : ℕ
  pub user : ℕ
  pub idle : ℕ
  pub irq : ℕ
  pub nice : ℕ

-- A CPUInfoResult with its CPUInfoTimesResult, whose elements are in the order of their indices.
pub record CpuItem (Val : Type 0) : Type 0 where
  pub model : Option Val
  pub speed : Option Val
  pub times : List (Option Val)

-- A sockaddr by its family; the other families have no name.
pub data Sockaddr (A : Type 0) : Type 0 where
  inet inet6 : A → Sockaddr A
  other : Sockaddr A

-- The six characters of phys_addr.
pub record PhysAddr : Type 0 where
  pub a0 : ℕ
  pub a1 : ℕ
  pub a2 : ℕ
  pub a3 : ℕ
  pub a4 : ℕ
  pub a5 : ℕ

-- uv_interface_address_t
pub record Interface (A : Type 0) : Type 0 where
  pub name : Text
  pub is_internal : Bool
  pub address : Sockaddr A
  pub netmask : Sockaddr A
  pub phys_addr : PhysAddr

-- An InterfaceAddressesResult, its elements in the order of their indices.
pub record InterfaceItem (Val : Type 0) : Type 0 where
  pub name : Option Val
  pub is_internal : Option Val
  pub address : Option Val
  pub netmask : Option Val
  pub mac : Option Val

-- The digits of "%02x" for an unsigned char
abbrev pub hex_digit : ℕ → ℕ
hex_digit d = if ltb d 10 then 48 + d else 87 + d

-- "%02x:%02x:%02x:%02x:%02x:%02x" of the six characters, each cast to an unsigned char
unfoldable pub mac_text : PhysAddr → Text
mac_text p =
    hex_digit (p.a0 / 16 % 16)
    ∷ hex_digit (p.a0 % 16)
    ∷ 58
    ∷ hex_digit (p.a1 / 16 % 16)
    ∷ hex_digit (p.a1 % 16)
    ∷ 58
    ∷ hex_digit (p.a2 / 16 % 16)
    ∷ hex_digit (p.a2 % 16)
    ∷ 58
    ∷ hex_digit (p.a3 / 16 % 16)
    ∷ hex_digit (p.a3 % 16)
    ∷ 58
    ∷ hex_digit (p.a4 / 16 % 16)
    ∷ hex_digit (p.a4 % 16)
    ∷ 58
    ∷ hex_digit (p.a5 / 16 % 16)
    ∷ hex_digit (p.a5 % 16)
    ∷ []

-- An object that was made, or none.
abbrev pub one : {A : Type 0} → Option A → ℕ
one none = 0
one (some a) = 1

abbrev pub ones : {A : Type 0} → List (Option A) → ℕ
ones [] = 0
ones (a ∷ r) = one a + ones r

abbrev pub count : Bool → ℕ
count true = 1
count false = 0

-- Py_DECREF of a list that holds `n` objects, and uv_free_cpu_info or uv_free_interface_addresses
abbrev pub give_up : ℕ → Machine → Machine
give_up n s = record s { live = s.live - suc n; arrays = s.arrays - 1 }

-- What is in the static `buf` after the test of the family.
abbrev pub written : {A : Type 0} → (ip4_name ip6_name : A → Text) → Sockaddr A → Text → Text
written ip4_name ip6_name (inet a) buf = ip4_name a
written ip4_name ip6_name (inet6 a) buf = ip6_name a
written ip4_name ip6_name other buf = buf

module _ {Val : Type 0} where
  -- The objects of an element beside the tuples, and those of a list of elements.
  abbrev pub cpu_values : CpuItem Val → ℕ
  cpu_values i = one i.model + one i.speed + ones i.times

  abbrev pub cpu_objects : List (CpuItem Val) → ℕ
  cpu_objects [] = 0
  cpu_objects (i ∷ is) = 2 + cpu_values i + cpu_objects is

  abbrev pub interface_values : InterfaceItem Val → ℕ
  interface_values i = one i.name + one i.is_internal + one i.address + one i.netmask + one i.mac

  abbrev pub interface_objects : List (InterfaceItem Val) → ℕ
  interface_objects [] = 0
  interface_objects (i ∷ is) = 1 + interface_values i + interface_objects is

  abbrev pub cpu_item : Convert Val → CpuInfo → CpuItem Val
  cpu_item v c = record {
    model = v.of_text c.model;
    speed = v.of_long c.speed;
    times =
        v.of_ulong c.sys
        ∷ v.of_ulong c.user
        ∷ v.of_ulong c.idle
        ∷ v.of_ulong c.irq
        ∷ v.of_ulong c.nice
        ∷ [];
  }

  -- The loop of Util_func_cpu_info from round `i` on: `item_made` and `times_made` say which tuples
  -- there is memory for, and `done` is what the list holds.
  unfoldable pub cpu_loop :
      Convert Val
      → (item_made times_made : ℕ → Bool) → ℕ
      → List CpuInfo
      → List (CpuItem Val)
      → M Machine (List (CpuItem Val))
  cpu_loop v item_made times_made i [] done s = (ok done, record s { arrays = s.arrays - 1 })
  cpu_loop v item_made times_made i (c ∷ cs) done s =
      let made = count (item_made i) + count (times_made i) in
      let t = record s { live = s.live + made } in
      let rest =
        cpu_loop v item_made times_made (suc i) cs (done ++ cpu_item v c ∷ [])
          (record t { live = t.live + cpu_values (cpu_item v c) }) in
      if item_made i && times_made i
      then rest
      else (raised by_callee, give_up (cpu_objects done) (record t { live = t.live - made }))

  -- Util_func_cpu_info: `err` and `cpus` are uv_cpu_info's, and `list_made` is PyList_New's.
  unfoldable pub cpu_info :
      Convert Val
      → (list_made : Bool) → (item_made times_made : ℕ → Bool) → (err : ℤ) → (cpus : List CpuInfo)
      → M Machine (List (CpuItem Val))
  unfolding cpu_loop
  cpu_info v list_made item_made times_made err cpus s =
      if is_zero err
      then (let t = record s { arrays = s.arrays + 1 } in
          if list_made
          then cpu_loop v item_made times_made 0 cpus [] (record t { live = t.live + 1 })
          else (raised by_callee, record t { arrays = t.arrays - 1 }))
      else (raised (uv uv_error err), s)

  module _ {A : Type 0} (ip4_name ip6_name : A → Text) where
    abbrev pub interface_item : Convert Val → Text → Interface A → InterfaceItem Val
    interface_item v buf f = record {
      name = v.of_text f.name;
      is_internal = v.of_bool f.is_internal;
      address = v.of_text (written ip4_name ip6_name f.address buf);
      netmask =
          v.of_text (written ip4_name ip6_name f.netmask (written ip4_name ip6_name f.address buf));
      mac = v.of_text (mac_text f.phys_addr);
    }

    -- The loop of Util_func_interface_addresses from round `i` on, with what `buf` holds.
    unfoldable pub interface_loop :
        Convert Val
        → (item_made : ℕ → Bool) → ℕ
        → Text
        → List (Interface A)
        → List (InterfaceItem Val)
        → M Machine (List (InterfaceItem Val))
    interface_loop v item_made i buf [] done s = (ok done, record s { arrays = s.arrays - 1 })
    interface_loop v item_made i buf (f ∷ fs) done s =
        let item = interface_item v buf f in
        let t = record s { live = s.live + count (item_made i) } in
        let rest =
          interface_loop v item_made (suc i) (mac_text f.phys_addr) fs (done ++ item ∷ [])
            (record t { live = t.live + interface_values item }) in
        if item_made i then rest else (raised by_callee, give_up (interface_objects done) t)

    -- Util_func_interface_addresses: `buf` is what the last call left there.
    unfoldable pub interface_addresses :
        Convert Val
        → (list_made : Bool) → (item_made : ℕ → Bool) → (err : ℤ)
        → (interfaces : List (Interface A)) → (buf : Text) → M Machine (List (InterfaceItem Val))
    unfolding interface_loop
    interface_addresses v list_made item_made err interfaces buf s =
        if is_neg err
        then (raised (uv uv_error err), s)
        else let t = record s { arrays = s.arrays + 1 } in
          if list_made
          then interface_loop v item_made 0 buf interfaces [] (record t { live = t.live + 1 })
          else (raised by_callee, record t { arrays = t.arrays - 1 })
