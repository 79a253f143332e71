-- ===== src/Iface/System.antt =====
-- The enumeration of interfaces in crates/tactus/src/iface.rs. What the system's libraries define and answer is
-- given: the numbers of their flags and families, the list that `getifaddrs` writes, none where it fails, and what
-- each call of `GetAdaptersAddresses` returns and writes.
use link_wire_rs.Common.{
  ℕ, zero, suc, ◌/◌, ◌%◌, List, [], ◌∷◌, Option, none, some, Bool, false, not, ◌&&◌, ◌||◌, ltb,
  ◌==◌, if◌then◌else◌,
}
use link_wire_rs.Common.Bytes.{from_be_bytes}
use link_wire_rs.Iface.Plan.{Interface}

-- A common bit in the lowest `n`.
unfoldable pub common_bit : ℕ → ℕ → ℕ → Bool
common_bit zero a b = false
common_bit (suc n) a b = (a % 2 == 1 && b % 2 == 1) || common_bit n (a / 2) (b / 2)

-- `flags & f != 0` of 32 bits
abbrev pub has : ℕ → ℕ → Bool
has flags f = common_bit 32 flags f

-- A socket address: its family, and the bytes of the address, as they are in memory.
pub record Sockaddr : Type 0 where
  pub family : ℕ
  pub octets : List ℕ

pub record Libc : Type 0 where
  pub af_inet : ℕ
  pub iff_up : ℕ
  pub iff_running : ℕ
  pub iff_loopback : ℕ
  pub iff_multicast : ℕ
  pub iff_pointopoint : ℕ

-- `ifaddrs`, whose address may be null.
pub record Ifaddrs : Type 0 where
  pub ifa_addr : Option Sockaddr
  pub ifa_flags : ℕ

module _ (c : Libc) where
  abbrev pub unix_interface : Sockaddr → ℕ → Interface
  unix_interface s flags = record {
    addr = from_be_bytes s.octets;
    up = has flags c.iff_up && has flags c.iff_running;
    loopback = has flags c.iff_loopback;
    multicast = has flags c.iff_multicast;
    point_to_point = has flags c.iff_pointopoint;
  }

  abbrev pub push_unix : Option Sockaddr → ℕ → List Interface → List Interface
  push_unix none flags out = out
  push_unix (some s) flags out =
      if not (s.family == c.af_inet) then out else unix_interface s flags ∷ out

  unfoldable pub unix_walk : List Ifaddrs → List Interface
  unix_walk [] = []
  unix_walk (ifa ∷ rest) = push_unix ifa.ifa_addr ifa.ifa_flags (unix_walk rest)

  unfoldable pub unix_interfaces : Option (List Ifaddrs) → Option (List Interface)
  unix_interfaces none = none
  unix_interfaces (some list) = some (unix_walk list)

pub record Win32 : Type 0 where
  pub af_inet : ℕ
  pub no_error : ℕ
  pub error_buffer_overflow : ℕ
  pub if_oper_status_up : ℕ
  pub if_type_software_loopback : ℕ
  pub if_type_ppp : ℕ
  pub if_type_tunnel : ℕ
  pub ip_adapter_no_multicast : ℕ

pub record Adapter : Type 0 where
  pub flags : ℕ
  pub oper_status : ℕ
  pub if_type : ℕ
  pub unicast : List (Option Sockaddr)

module _ (c : Win32) where
  -- The loop of calls: the adapters, or none for an error. Out of fuel is none outside.
  unfoldable pub ask_adapters : (ℕ → ℕ × List Adapter) → ℕ → ℕ → Option (Option (List Adapter))
  ask_adapters call zero attempts = none
  ask_adapters call (suc n) attempts =
      let (rc, list) = call attempts in
      let again = ask_adapters call n (suc attempts) in
      if rc == c.no_error
      then some (some list)
      else if rc == c.error_buffer_overflow && ltb attempts 3
      then again
      else some none

  abbrev pub adapter_interface : Adapter → Sockaddr → Interface
  adapter_interface a s = record {
    addr = from_be_bytes s.octets;
    up = a.oper_status == c.if_oper_status_up;
    loopback = a.if_type == c.if_type_software_loopback;
    multicast = not (has a.flags c.ip_adapter_no_multicast);
    point_to_point = a.if_type == c.if_type_ppp || a.if_type == c.if_type_tunnel;
  }

  abbrev pub push_address : Adapter → Option Sockaddr → List Interface → List Interface
  push_address a none out = out
  push_address a (some s) out =
      if not (s.family == c.af_inet) then out else adapter_interface a s ∷ out

  abbrev pub push_addresses : Adapter → List (Option Sockaddr) → List Interface → List Interface
  push_addresses a [] out = out
  push_addresses a (u ∷ us) out = push_address a u (push_addresses a us out)

  unfoldable pub windows_walk : List Adapter → List Interface
  windows_walk [] = []
  windows_walk (a ∷ rest) = push_addresses a a.unicast (windows_walk rest)

  abbrev pub walk_answer : Option (Option (List Adapter)) → Option (Option (List Interface))
  walk_answer none = none
  walk_answer (some none) = some none
  walk_answer (some (some list)) = some (some (windows_walk list))

  -- Four calls at most.
  unfoldable pub windows_interfaces : (ℕ → ℕ × List Adapter) → Option (Option (List Interface))
  windows_interfaces call = walk_answer (ask_adapters call 4 0)

-- No enumeration on other platforms.
unfoldable pub other_interfaces : Option (List Interface)
other_interfaces = none
