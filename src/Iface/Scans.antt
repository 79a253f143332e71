-- ===== src/Iface/Scans.antt =====
-- Which gateways a scan of crates/tactus/src/iface.rs wants, from what the system answers.
use link_wire_rs.Common.{
  ℕ, zero, suc, ◌+◌, ◌/◌, ◌^◌, ◌≤◌, ◌≡◌, ◌⊎◌, refl, ◌∙◌, ap, List, [], ◌∷◌, Option, none, some,
  Bool, false, not, ◌&&◌, ◌||◌, ltb, ◌==◌, arith, Bool-cases, inl, inr, if-intro, ==_iff, ◌<◌,
}
use link_wire_rs.Common.Maps.{any}
use link_wire_rs.Common.Bytes.{from_be_bytes}
use link_wire_rs.Iface.Plan.{Interface, localhost, contains, admits, initial}
use link_wire_rs.Iface.System.{
  Sockaddr, Libc, Ifaddrs, has, push_unix, unix_walk, unix_interfaces, Win32, Adapter, ask_adapters,
  walk_answer, windows_interfaces, windows_walk,
}
use link_wire_rs.Iface.Sets.{admit_lem}
use link_wire_rs.Iface.Ascending.{IsAscending, admit-IsAscending}

-- The IPv4 address `a`, which is neither 127.0.0.0/8 nor 0.0.0.0, of an interface with these flags: it is up and
-- running, capable of multicast, and neither point-to-point nor a loopback.
abbrev pub serves : Libc → ℕ → Option Sockaddr → ℕ → Bool
serves c a none flags = false
serves c a (some s) flags =
    s.family == c.af_inet
    && (has flags c.iff_up && has flags c.iff_running)
    && has flags c.iff_multicast
    && not (has flags c.iff_pointopoint)
    && not (has flags c.iff_loopback)
    && not (a / 2 ^ 24 == 127)
    && not (a == 0)
    && from_be_bytes s.octets == a

same_address :
    (v a : ℕ) (u m p l : Bool)
    → ((u && m && not p && not l && not (v / 2 ^ 24 == 127) && not (v == 0)) && v == a)
      ≡ (u && m && not p && not l && not (a / 2 ^ 24 == 127) && not (a == 0) && v == a)
same_address v a u m p l = elim (Bool-cases (v == a)) [
  | inl same ↦ let e = (==_iff v a).0 same in rw e refl
  | inr other ↦ rw other (ground arith)
]

any-push_unix :
    (c : Libc) (a : ℕ) (o : Option Sockaddr) (flags : ℕ) (out : List Interface)
    → any (λ i. admits i && i.addr == a) (push_unix c o flags out)
      ≡ (serves c a o flags || any (λ i. admits i && i.addr == a) out)
unfolding admits
any-push_unix c a none flags out = refl
any-push_unix c a (some s) flags out = elim (Bool-cases (s.family == c.af_inet)) [
  | inl inet ↦ rw inet (
      ap (λ b. b || any (λ i. admits i && i.addr == a) out)
        (same_address (from_be_bytes s.octets) a (has flags c.iff_up && has flags c.iff_running)
          (has flags c.iff_multicast) (has flags c.iff_pointopoint) (has flags c.iff_loopback)))
  | inr other ↦ rw other refl
]

any-unix_walk :
    (c : Libc) (a : ℕ) (list : List Ifaddrs)
    → any (λ i. admits i && i.addr == a) (unix_walk c list)
      ≡ any (λ n. serves c a n.ifa_addr n.ifa_flags) list
unfolding unix_walk
any-unix_walk c a [] = refl
any-unix_walk c a (n ∷ list) =
    any-push_unix c a n.ifa_addr n.ifa_flags (unix_walk c list)
    ∙ ap (λ b. serves c a n.ifa_addr n.ifa_flags || b) (any-unix_walk c a list)

-- On a unix host a peer starts on 127.0.0.1 and on every IPv4 address, outside 127.0.0.0/8 and not 0.0.0.0, of an
-- interface that the system lists as up and running, capable of multicast, and neither point-to-point nor a
-- loopback: on each of these once, in ascending order, and on no other.
pub unix_initial :
    (c : Libc) (list : List Ifaddrs)
    → IsAscending (initial (unix_interfaces c (some list)))
      × ((a : ℕ)
          → contains (initial (unix_interfaces c (some list))) a
            ≡ (any (λ n. serves c a n.ifa_addr n.ifa_flags) list || localhost == a))
unfolding initial unix_interfaces
unix_initial c list = (
  admit-IsAscending (unix_walk c list),
  λ a. admit_lem (unix_walk c list) a ∙ ap (λ b. b || localhost == a) (any-unix_walk c a list),
)

-- What the calls of `GetAdaptersAddresses` come to.
abbrev pub Came : Win32 → (ℕ → ℕ × List Adapter) → ℕ → Option (Option (List Adapter)) → Type 0
Came c call first none = ⊥
Came c call first (some none) = Unit
Came c call first (some (some list)) =
    (n : ℕ) × (first ≤ n) × (n ≤ 3) × ((call n).0 ≡ c.no_error) × ((call n).1 ≡ list)

later :
    (c : Win32) (call : ℕ → ℕ × List Adapter) (first : ℕ) (o : Option (Option (List Adapter)))
    → Came c call (suc first) o
    → Came c call first o
later c call first none h = h
later c call first (some none) h = h
later c call first (some (some list)) (n, from, upto, done, same) =
    (n, omega arith, upto, done, same)

ask_adapters-Came :
    (c : Win32) (call : ℕ → ℕ × List Adapter) (n first : ℕ)
    → n + first ≡ 4
    → 0 < n
    → Came c call first (ask_adapters c call n first)
unfolding ask_adapters
ask_adapters-Came c call zero first e h = absurd (omega arith)
ask_adapters-Came c call (suc n) first e h =
    if-intro (Came c call first) ((call first).0 == c.no_error) _ _
      (λ done. (first, omega arith, omega arith, (==_iff (call first).0 c.no_error).0 done, refl))
      (λ failed.
        if-intro (Came c call first) ((call first).0 == c.error_buffer_overflow && ltb first 3) _ _
          (λ again.
            later c call first _
              (ask_adapters-Came c call n (suc first) (omega arith) (ground arith)))
          (λ over. tt))

-- The interfaces are those of the first answer without an error, or there is an error.
abbrev pub IsAnswer : Win32 → (ℕ → ℕ × List Adapter) → Option (Option (List Interface)) → Type 0
IsAnswer c call found =
    (found ≡ some none)
    ⊎ ((n : ℕ) × (n ≤ 3)
        × ((call n).0 ≡ c.no_error)
        × (found ≡ some (some (windows_walk c (call n).1))))

walk_answer-IsAnswer :
    (c : Win32) (call : ℕ → ℕ × List Adapter) (o : Option (Option (List Adapter)))
    → Came c call 0 o
    → IsAnswer c call (walk_answer c o)
walk_answer-IsAnswer c call none h = absurd h
walk_answer-IsAnswer c call (some none) h = inl refl
walk_answer-IsAnswer c call (some (some list)) (n, from, upto, done, same) =
    inr (n, upto, done, rw same refl)

-- Whatever the system answers, the loop of `GetAdaptersAddresses` ends within four calls: with an error, or with the
-- interfaces of an answer that was none.
pub windows_interfaces-IsAnswer :
    (c : Win32) (call : ℕ → ℕ × List Adapter) → IsAnswer c call (windows_interfaces c call)
unfolding windows_interfaces
windows_interfaces-IsAnswer c call =
    walk_answer-IsAnswer c call (ask_adapters c call 4 0)
      (ask_adapters-Came c call 4 0 refl (omega arith))
