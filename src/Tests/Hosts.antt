-- ===== src/Tests/Hosts.antt =====
-- A route of two hops on Linux, and a store of DNS entries on macOS.
use wg_kotlin.Base.{
  ℕ, ◌+◌, ◌≡◌, refl, ◌≢◌, inl, inr, true, Option, none, some, List, [], ◌∷◌, ◌==◌, if◌then◌else◌,
  Bool-cases, length, replicate, keep, Result, ok, err,
}
use wg_kotlin.Text.{Str}
use wg_kotlin.Protocol.{IpAddr}
use wg_kotlin.Frame.{IoError}
use wg_kotlin.Platform.Routes.{octets_eq}
use wg_kotlin.Platform.Filter.{octets_eq_iff}
use wg_kotlin.EndpointLinux.{
  RouteMessage, NextHop, unicast, destination, multi_path, status, other, mark, from_route,
}
use wg_kotlin.EndpointLinux.Hosts.{Outcome, from_route-Outcome}
use wg_kotlin.EndpointLinux.Netlink.{Reply, Datagram, done, receive, is_heard, receive-heard}
use wg_kotlin.Validation.{dns_or_default}
use wg_kotlin.Platform.Host.{Host}
use wg_kotlin.Platform.Commands.{ips_to_args}
use wg_kotlin.MacRoutes.{Snapshots, RouteTable}
use wg_kotlin.MacSession.{configure_session}
use wg_kotlin.MacSession.Settled.{Configured, configure_session-Configured}
use wg_kotlin.Tests.Configs.{home, show_ip}
use wg_kotlin.Tests.Systems.{Route, api}
use wg_kotlin.DnsStore.{DynamicStore, clear_dns_entries, sc_status_no_key}
use wg_kotlin.DnsStore.Entries.{IsStore, Copied, Cleared, clear_dns_entries-Cleared}

-- A dead hop and one that is on the link.
abbrev two_hops : List (NextHop ℕ)
two_hops = record { flags = 1; route = 7 } ∷ record { flags = 4 + 16; route = 8 } ∷ []

abbrev found_route : RouteMessage ℕ
found_route = record {
  kind = unicast;
  prefix_length = 0;
  protocol = 3;
  flags = 4 + 512;
  attributes = other 254 ∷ multi_path two_hops ∷ status mark 5 ∷ [];
  fields = 0;
}

abbrev host_address : IpAddr
host_address = IpAddr.v4 (198 ∷ 51 ∷ 100 ∷ 10 ∷ [])

from_route-Outcome_example : Outcome host_address found_route (from_route host_address found_route)
from_route-Outcome_example = from_route-Outcome host_address found_route

-- Of the two hops, the one that is alive is left.
live_hop :
    from_route host_address found_route
    ≡ ok (record found_route {
      prefix_length = 32;
      protocol = 4;
      flags = 4;
      attributes =
          other 254
          ∷ multi_path (record { flags = 4; route = 8 } ∷ [])
          ∷ destination host_address
          ∷ [];
    })
unfolding from_route
live_hop = refl

-- A reader that takes the first two bytes as size and sequence, of replies without a route.
abbrev read_done : List ℕ → Option (Reply ℕ)
read_done (size ∷ sequence ∷ bytes) =
    some (record { size = size; sequence = sequence; payload = done })
read_done _ = none

abbrev datagrams : List (Result IoError Datagram)
datagrams =
    ok (record { port = 5; bytes = 16 ∷ 1 ∷ replicate 14 0 })
    ∷ ok (record { port = 0; bytes = 16 ∷ 1 ∷ replicate 14 0 })
    ∷ []

receive-heard_example :
    receive read_done true datagrams ≡ receive read_done true (keep is_heard datagrams)
receive-heard_example = receive-heard read_done true datagrams

abbrev Entries : Type 0
Entries = Str → Option ℕ

abbrev found_value : Option ℕ → Entries → Result ℕ ℕ × Entries
found_value none w = (err sc_status_no_key, w)
found_value (some value) w = (ok value, w)

abbrev without : Str → Entries → Entries
without k w j = if octets_eq j k then none else w j

abbrev put_all : List (Str × ℕ) → Entries → Entries
put_all [] w = w
put_all ((k, value) ∷ values) w = λ j. if octets_eq j k then some value else put_all values w j

abbrev store : DynamicStore Entries ℕ
store = record {
  create = λ w. (ok tt, w);
  copy = λ k w. found_value (w k) w;
  set_multiple = λ values w. (ok tt, put_all values w);
  remove = λ k w. (ok tt, without k w);
  same = λ a b. a == b;
  strings = λ servers domains. length servers;
  named = λ interface. length interface;
}

abbrev look_up : Entries → Str → Option ℕ
look_up w k = w k

store-IsStore : IsStore store look_up
store-IsStore = record {
  creates = λ w k. refl;
  copies = λ k w. copied k w (w k) refl;
  removes = λ k w j differs. elsewhere k w j differs;
}
  where
    copied :
        (k : Str) (w : Entries) (value : Option ℕ)
        → w k ≡ value
        → Copied store look_up k w (found_value value w)
    copied k w none e = ((λ s. e), λ j. refl)
    copied k w (some value) e = (e, λ j. refl)

    elsewhere : (k : Str) (w : Entries) (j : Str) → j ≢ k → without k w j ≡ w j
    elsewhere k w j differs = elim (Bool-cases (octets_eq j k)) [
      | inl same ↦ absurd (differs ((octets_eq_iff j k).0 same))
      | inr other_key ↦ rw other_key refl
    ]

abbrev wg0 : Str
wg0 = 119 ∷ 103 ∷ 48 ∷ []

clear_dns_entries-Cleared_example :
    Cleared store look_up wg0 (λ k. some 3) (clear_dns_entries store wg0 (λ k. some 3))
clear_dns_entries-Cleared_example =
    clear_dns_entries-Cleared store look_up store-IsStore wg0 (λ k. some 3)

-- Routes and commands that leave the entries as they are.
abbrev mac_host : Host Entries Route IpAddr
mac_host = record {
  open_manager = λ w. (ok tt, w);
  delete = λ r w. (ok tt, w);
  add = λ r w. (ok tt, w);
  lookup = λ ip w. (ok ip, w);
  replace_endpoint = λ e w. (ok tt, w);
  delete_endpoint = λ e w. (ok tt, w);
  which = λ name w. true;
  command_output =
      λ invocation w. (ok (record { success = true; code = some 0; stdout = []; stderr = [] }), w);
  to_lowercase = λ s. s;
  display_ip = show_ip;
}

abbrev mac_snapshots : Snapshots (Unit {0}) ℕ
mac_snapshots = record {
  key = λ s. ok tt;
  message = λ s op. ok [];
  same_path = λ s t. ok (s == t);
  key_eq = λ j k. true;
}

abbrev mac_table : RouteTable Entries (Unit {0}) ℕ
mac_table = record { find = λ k w. (ok none, w); request = λ s op w. (ok tt, w) }

configure_session-Configured_example :
    Configured mac_snapshots mac_table store look_up store-IsStore mac_host api
      (λ (e : IpAddr). ok 1)
      (λ (r : Route). ok 2)
      home
      wg0
      (ips_to_args show_ip (dns_or_default home.dns).servers)
      (configure_session mac_snapshots mac_table store mac_host api
        (λ (e : IpAddr). ok 1)
        (λ (r : Route). ok 2)
        home
        wg0
        []
        (λ k. some 3))
configure_session-Configured_example =
    configure_session-Configured mac_snapshots mac_table store look_up store-IsStore mac_host api
      (λ (e : IpAddr). ok 1) (λ (r : Route). ok 2) home wg0 [] (λ k. some 3)
