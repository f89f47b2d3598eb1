-- ===== src/MacSession.antt =====
-- The set-up of a session on macOS and its clean-up: wg-kotlin-daemon-rust/daemon/src/platform/macos.rs.
-- The clean-up hook is the list of route changes that it restores.
pub mod Settled
use wg_kotlin.Base.{
  ℕ, zero, suc, ◌+◌, ◌-◌, ◌*◌, ◌/◌, ◌%◌, ◌^◌, ◌≤◌, ◌<◌, min, max, String, ◌≡◌, refl, sym, ap, ◌∙◌,
  subst, ◌≢◌, ◌↔◌, ◌⊎◌, inl, inr, Bool, true, false, not, ◌&&◌, ◌||◌, Option, none, some, List, [],
  ◌∷◌, ◌++◌, map, reverse, append-nil, append_assoc, reverse-append, reverse-reverse, arith, ltb,
  leb, ◌==◌, if◌then◌else◌, ltb→lt, lt→ltb, leb→le, ==_iff, tests, Bool-cases, Option-cases,
  and_iff, length, take, drop, replicate, all, any, keep, is_empty, is_empty_iff, length-append,
  length-take, length-drop, length-keep-le, take-append-drop, take-append, drop-append, All,
  All-append, All-left, All-right, All-reverse, All-unreverse, All-map, all_iff, Result, ok, err,
  ok_or, map_err, Result-cases, bound, ok-injective, unguarded,
}
use wg_kotlin.Base.Eff.{Eff}
use wg_kotlin.Text.{Str}
use wg_kotlin.Protocol.{TunSessionConfig, IpAddr}
use wg_kotlin.Validation.{dns_or_default}
use wg_kotlin.Platform.Host.{Host, RouteApi, PlatformError}
use wg_kotlin.Platform.Commands.{ips_to_args, normalize_domains}
use wg_kotlin.Platform.Routes.{build_and_filter_routes}
use wg_kotlin.RoutingMessage.{RouteError}
use wg_kotlin.MacRoutes.{Snapshots, RouteTable, Changes, install, restore_with}
use wg_kotlin.DnsStore.{
  DynamicStore, DnsError, dns_key, root_key, dns_values, set_dns_entries, clear_dns_entries,
}
use wg_kotlin.DnsStore.Entries.{
  IsStore, Stored, SetDone, Cleared, clear_dns_entries-Cleared, set_dns_entries-Stored,
}

pub data SetupError : Type 0 where
  routes_failed : RouteError → SetupError
  clear_failed : List DnsError → SetupError
  set_failed : DnsError → SetupError

-- "{routes}; {dns}" where both parts of a clean-up fail
pub data CleanupError : Type 0 where
  restore_failed : List RouteError → CleanupError
  dns_failed : List DnsError → CleanupError
  both_failed : List RouteError → List DnsError → CleanupError

pub data SessionError : Type 0 where
  not_built : PlatformError → SessionError
  panicked : SessionError
  -- "{error}" and "{error}; cleanup failed: {cleanup_error}"
  setup_failed : SetupError → SessionError
  cleanup_failed : SetupError → CleanupError → SessionError

abbrev pub combined :
    Result (List RouteError) (Unit {0})
    → Result (List DnsError) (Unit {0})
    → Result CleanupError (Unit {0})
combined (ok u) dns = map_err dns_failed dns
combined (err routes) (ok u) = err (restore_failed routes)
combined (err routes) (err dns) = err (both_failed routes dns)

abbrev pub reported : SetupError → Result CleanupError (Unit {0}) → SessionError
reported error (ok u) = setup_failed error
reported error (err cleanup) = cleanup_failed error cleanup

module _ {W K S V : Type 0} (snapshots : Snapshots K S) (table : RouteTable W K S)
    (store : DynamicStore W V) where
  abbrev pub after_clear :
      Str
      → List Str
      → List Str
      → Changes K S
      → Result (List DnsError) (Unit {0}) × W
      → Result SetupError (Unit {0}) × (Changes K S × W)
  after_clear name servers domains changes (err errors, w) =
      (err (clear_failed errors), (changes, w))
  after_clear name servers domains changes (ok u, w) =
      if not (is_empty servers) && not (is_empty domains)
      then (let (r, w') = set_dns_entries store name servers domains w in
          (map_err set_failed r, (changes, w')))
      else (ok tt, (changes, w))

  abbrev pub after_install :
      Str
      → List Str
      → List Str
      → Result RouteError (Unit {0}) × (Changes K S × W)
      → Result SetupError (Unit {0}) × (Changes K S × W)
  after_install name servers domains (err e, state) = (err (routes_failed e), state)
  after_install name servers domains (ok u, (changes, w)) =
      after_clear name servers domains changes (clear_dns_entries store name w)

  -- The closure whose outcome is `setup_result`
  unfoldable pub setup :
      List (Result RouteError S)
      → Str
      → List Str
      → List Str
      → Eff (Changes K S × W) SetupError (Unit {0})
  setup requests name servers domains state =
      after_install name servers domains (install snapshots table requests state)

  -- Both parts of the clean-up are run, whatever comes of the first.
  unfoldable pub cleanup : Str → Eff (Changes K S × W) CleanupError (Unit {0})
  cleanup name state =
      let (routes, (changes, w)) = restore_with snapshots table state in
      let (dns, w') = clear_dns_entries store name w in (combined routes dns, (changes, w'))

  abbrev pub concluded :
      Str → Result SetupError (Unit {0}) × (Changes K S × W) → Result SessionError (Changes K S) × W
  concluded name (ok u, (changes, w)) = (ok changes, w)
  concluded name (err error, state) =
      let (r, (changes, w)) = cleanup name state in (err (reported error r), w)

  module _ {R E : Type 0} (host : Host W R E) (api : RouteApi R)
      (endpoint_request : E → Result RouteError S) (tun_request : R → Result RouteError S) where
    abbrev pub with_servers :
        TunSessionConfig
        → Str
        → List R
        → List E
        → Option (List Str)
        → Eff W SessionError (Changes K S)
    with_servers config name filtered endpoints none w = (err panicked, w)
    with_servers config name filtered endpoints (some servers) w = concluded name (
        setup (map endpoint_request endpoints ++ map tun_request filtered) name servers
          (normalize_domains (dns_or_default config.dns).search_domains) ([], w))

    abbrev pub built :
        TunSessionConfig
        → Str
        → Option (List Str)
        → Result PlatformError (List R × List E) × W
        → Result SessionError (Changes K S) × W
    built config name servers (err e, w) = (err (not_built e), w)
    built config name servers (ok (filtered, endpoints), w) =
        with_servers config name filtered endpoints servers w

    unfoldable pub configure_session :
        TunSessionConfig → Str → List E → Eff W SessionError (Changes K S)
    unfolding cleanup setup
    configure_session config name endpoint_routes w =
        built config name (ips_to_args host.display_ip (dns_or_default config.dns).servers)
          (build_and_filter_routes api host config name endpoint_routes w)
