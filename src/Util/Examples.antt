-- ===== src/Util/Examples.antt =====
-- A SignalChecker at address 7 of the loop at address 5, which other code holds once, and small
-- tables of processors and interfaces.
use pyuv.Base.{
  ℕ, ◌+◌, ◌<◌, ◌≡◌, arith, true, false, Option, none, some, [], ◌∷◌, map, ltb, length, ◌==◌, ◌≤◌,
  ◌↔◌, ◌⊎◌, Bool, if◌then◌else◌,
}
use pyuv.Base.Int.{pos}
use pyuv.Py.{Refs}
use pyuv.Uv.{Phase, opened}
use pyuv.Handle.{tp_new, initialize_handle, handle_incref}
use pyuv.Util.Checker.{Received, got, interrupted, again, drain_poll_fd, SignalChecker}
use pyuv.Util.Draining.{drain_poll_fd_ends}
use pyuv.Util.Tables.{
  Text, Machine, Convert, CpuInfo, cpu_item, cpu_info, cpu_objects, interface_objects, inet,
  Interface, mac_text, interface_addresses,
}
use pyuv.Util.Listing.{
  kept, listed, Gives, cpu_info_lists, described, interface_addresses_lists, SameBytes,
  mac_text-inj,
}

abbrev refs0 : Refs
refs0 o = if ltb o 10 then 1 else 0

-- It is started, so that it also holds itself.
abbrev checker : SignalChecker Phase
checker = record {
  handle = handle_incref 7 (initialize_handle 5 (tp_new opened refs0));
  fd = pos 3;
}

-- One signal interrupts recv(), which then reads a byte.
abbrev one_signal : ℕ → Received
one_signal i = if ltb i 1 then interrupted else got 1

drain_poll_fd_ends_example :
    (1 < 5
      → (b : Bool) × (drain_poll_fd 5 one_signal 0 ≡ some (b, 2))
        × ((b ≡ true) ↔ (((n : ℕ) × (one_signal 1 ≡ got n)) ⊎ (one_signal 1 ≡ again))))
    × (5 ≤ 1 → drain_poll_fd 5 one_signal 0 ≡ none)
drain_poll_fd_ends_example =
    drain_poll_fd_ends one_signal 1 5 (λ j h. ground arith) (λ e. ground (arith, e))

-- Conversions into numbers; a text that begins with byte 255 cannot be decoded.
abbrev decoded : Text → Option ℕ
decoded [] = some 0
decoded (c ∷ t) = if c == 255 then none else some c

abbrev numbers : Convert ℕ
numbers = record {
  of_text = decoded;
  of_bool = λ b. some (if b then 1 else 0);
  of_long = λ n. some 0;
  of_ulong = λ n. some n;
}

abbrev cpu : CpuInfo
cpu = record { model = 65 ∷ []; speed = pos 1800; sys = 1; user = 2; idle = 3; irq = 4; nice = 5 }

abbrev idle_machine : Machine
idle_machine = record { live = 0; arrays = 0 }

abbrev ethernet : Interface Text
ethernet = record {
  name = 101 ∷ [];
  is_internal = false;
  address = inet (49 ∷ []);
  netmask = inet (50 ∷ []);
  phys_addr = record { a0 = 0; a1 = 17; a2 = 34; a3 = 51; a4 = 68; a5 = 255 };
}

-- The second tuple of times cannot be made.
cpu_info_lists_example :
    let r =
      cpu_info numbers true (λ i. true) (λ i. ltb i 1) (pos 0) (cpu ∷ cpu ∷ []) idle_machine in
    (r.1.arrays ≡ 0)
    × (r.1.live ≡ 0 + kept (listed cpu_objects) r.0)
    × Gives (map (cpu_item numbers) (cpu ∷ cpu ∷ [])) r.0
cpu_info_lists_example =
    cpu_info_lists numbers true (λ i. true) (λ i. ltb i 1) (pos 0) (cpu ∷ cpu ∷ []) idle_machine

interface_addresses_lists_example :
    let r =
      interface_addresses
        (λ t. t)
        (λ t. t)
        numbers
        true
        (λ i. true)
        (pos 0)
        (ethernet ∷ [])
        []
        idle_machine in
    (r.1.arrays ≡ 0)
    × (r.1.live ≡ 0 + kept (listed interface_objects) r.0)
    × Gives (map (described (λ t. t) (λ t. t) numbers) (ethernet ∷ [])) r.0
interface_addresses_lists_example =
    interface_addresses_lists (λ t. t) (λ t. t) numbers true (λ i. true) (pos 0) (ethernet ∷ []) []
      idle_machine (tt, tt, tt)

mac_text-inj_example :
    (length (mac_text ethernet.phys_addr) ≡ 17)
    × ((mac_text ethernet.phys_addr ≡ mac_text ethernet.phys_addr)
        ↔ SameBytes ethernet.phys_addr ethernet.phys_addr)
mac_text-inj_example = mac_text-inj ethernet.phys_addr ethernet.phys_addr
