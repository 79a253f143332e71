-- ===== src/Tests/Scans.antt =====
-- The scans of the interfaces at concrete answers of a system.
use link_wire_rs.Common.{ℕ, zero, suc, ◌≡◌, refl, List, [], ◌∷◌, some, none, true, ◌||◌, ◌==◌}
use link_wire_rs.Common.Bytes.{from_be_bytes}
use link_wire_rs.Common.Maps.{any}
use link_wire_rs.Iface.Plan.{localhost, contains, initial}
use link_wire_rs.Iface.System.{
  Libc, Ifaddrs, Win32, Adapter, common_bit, unix_interfaces, windows_interfaces,
}
use link_wire_rs.Iface.Ascending.{IsAscending}
use link_wire_rs.Iface.Scans.{serves, unix_initial, IsAnswer, windows_interfaces-IsAnswer}

-- The numbers of Linux.
abbrev linux : Libc
linux = record {
  af_inet = 2;
  iff_up = 1;
  iff_running = 64;
  iff_loopback = 8;
  iff_multicast = 4096;
  iff_pointopoint = 16;
}

-- lo, an Ethernet interface by its two families, and one that is not running.
abbrev listed : List Ifaddrs
listed =
    record {
      ifa_addr = some (record { family = 2; octets = 127 ∷ 0 ∷ 0 ∷ 1 ∷ [] });
      ifa_flags = 73;
    }
    ∷ record {
      ifa_addr = some (record { family = 2; octets = 192 ∷ 168 ∷ 1 ∷ 7 ∷ [] });
      ifa_flags = 4163;
    }
    ∷ record { ifa_addr = some (record { family = 17; octets = [] }); ifa_flags = 4163 }
    ∷ record {
      ifa_addr = some (record { family = 2; octets = 10 ∷ 0 ∷ 0 ∷ 1 ∷ [] });
      ifa_flags = 4099;
    }
    ∷ []

unix_initial_example :
    IsAscending (initial (unix_interfaces linux (some listed)))
    × ((a : ℕ)
        → contains (initial (unix_interfaces linux (some listed))) a
          ≡ (any (λ n. serves linux a n.ifa_addr n.ifa_flags) listed || localhost == a))
unix_initial_example = unix_initial linux listed

ethernet_serves : any (λ n. serves linux 3232235783 n.ifa_addr n.ifa_flags) listed ≡ true
unfolding common_bit from_be_bytes
ethernet_serves = refl

abbrev windows : Win32
windows = record {
  af_inet = 2;
  no_error = 0;
  error_buffer_overflow = 111;
  if_oper_status_up = 1;
  if_type_software_loopback = 24;
  if_type_ppp = 23;
  if_type_tunnel = 131;
  ip_adapter_no_multicast = 16;
}

-- The list has grown between the first two calls.
abbrev answers : ℕ → ℕ × List Adapter
answers zero = (111, [])
answers (suc n) = (0, record { flags = 0; oper_status = 1; if_type = 6; unicast = none ∷ [] } ∷ [])

windows_interfaces-IsAnswer_example : IsAnswer windows answers (windows_interfaces windows answers)
windows_interfaces-IsAnswer_example = windows_interfaces-IsAnswer windows answers
