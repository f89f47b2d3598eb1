-- ===== src/MacSession/Settled.antt =====
-- The DNS entries that the set-up of a session on macOS leaves.
use wg_kotlin.Base.{
  ◌≡◌, Bool, true, false, not, ◌&&◌, Option, none, some, List, [], ◌++◌, map, if◌then◌else◌,
  is_empty, All, Result, ok, err, map_err,
}
use wg_kotlin.Text.{Str}
use wg_kotlin.Protocol.{TunSessionConfig}
use wg_kotlin.Validation.{dns_or_default}
use wg_kotlin.Platform.Host.{Host, RouteApi, PlatformError}
use wg_kotlin.Platform.Commands.{ips_to_args, normalize_domains}
use wg_kotlin.Platform.Routes.{build_and_filter_routes}
use wg_kotlin.RoutingMessage.{RouteError}
use wg_kotlin.MacRoutes.{Snapshots, RouteTable, Changes, install, restore_with}
use wg_kotlin.DnsStore.{
  DynamicStore, DnsError, dns_key, root_key, dns_values, set_dns_entries, clear_dns_entries,
}
use wg_kotlin.DnsStore.Entries.{
  IsStore, Stored, SetDone, Cleared, clear_dns_entries-Cleared, set_dns_entries-Stored,
}
use wg_kotlin.MacSession.{
  SetupError, SessionError, setup_failed, cleanup_failed, restore_failed, set_failed, combined,
  reported, after_clear, after_install, setup, cleanup, concluded, built, configure_session,
}

abbrev pub asked : List Str → List Str → Bool
asked servers domains = not (is_empty servers) && not (is_empty domains)

module _ {W K S V : Type 0} (snapshots : Snapshots K S) (table : RouteTable W K S)
    (store : DynamicStore W V) (lookup : W → Str → Option V) (laws : IsStore store lookup) where
  -- The interface has no entry.
  abbrev pub Gone : Str → W → Type 0
  Gone name w = (lookup w (dns_key name) ≡ none) × (lookup w (root_key name) ≡ none)

  -- With servers and domains, the entries are those; without either there are none.
  abbrev pub AsAsked : Str → List Str → List Str → Bool → W → Type 0
  AsAsked name servers domains true w =
      All (Stored store lookup laws w) (dns_values store name servers domains)
  AsAsked name servers domains false w = Gone name w

  -- After a clean-up whose part on DNS has succeeded there are no entries.
  abbrev pub AfterFailure : Str → SessionError → W → Type 0
  AfterFailure name (setup_failed e) w = Gone name w
  AfterFailure name (cleanup_failed e (restore_failed routes)) w = Gone name w
  AfterFailure name _ w = Unit

  SetUp :
      Str → List Str → List Str → Bool → Result SetupError (Unit {0}) × (Changes K S × W) → Type 0
  SetUp name servers domains wanted (ok u, (changes, w)) = AsAsked name servers domains wanted w
  SetUp name servers domains wanted (err e, state) = Unit

  after_clear-SetUp :
      (name : Str) (servers domains : List Str) (changes : Changes K S) (w₀ : W)
      (p : Result (List DnsError) (Unit {0}) × W)
      → Cleared store lookup name w₀ p
      → SetUp name servers domains
          (asked servers domains)
          (after_clear snapshots table store name servers domains changes p)
  unfolding SetUp
  after_clear-SetUp name servers domains changes w₀ (err errors, w) cleared = tt
  after_clear-SetUp name servers domains changes w₀ (ok u, w) (others, gone, gone') =
      go (asked servers domains) (set_dns_entries store name servers domains w)
        (set_dns_entries-Stored store lookup laws name servers domains w)
    where
      go :
          (wanted : Bool) (p : Result DnsError (Unit {0}) × W)
          → SetDone store lookup laws (dns_values store name servers domains) p
          → SetUp name servers domains wanted
              (if wanted then (map_err set_failed p.0, (changes, p.1)) else (ok tt, (changes, w)))
      go true (ok v, w') stored = stored
      go true (err e, w') stored = tt
      go false p stored = (gone, gone')

  after_install-SetUp :
      (name : Str) (servers domains : List Str)
      (p : Result RouteError (Unit {0}) × (Changes K S × W))
      → SetUp name servers domains
          (asked servers domains)
          (after_install snapshots table store name servers domains p)
  unfolding SetUp
  after_install-SetUp name servers domains (err e, state) = tt
  after_install-SetUp name servers domains (ok u, (changes, w)) =
      after_clear-SetUp name servers domains changes w (clear_dns_entries store name w)
        (clear_dns_entries-Cleared store lookup laws name w)

  -- What a set-up comes to.
  abbrev pub Settled : Str → List Str → List Str → Result SessionError (Changes K S) × W → Type 0
  Settled name servers domains (ok changes, w) =
      AsAsked name servers domains (asked servers domains) w
  Settled name servers domains (err e, w) = AfterFailure name e w

  cleaned :
      (name : Str) (error : SetupError) (w₀ : W) (r : Result (List RouteError) (Unit {0}))
      (p : Result (List DnsError) (Unit {0}) × W)
      → Cleared store lookup name w₀ p
      → AfterFailure name (reported error (combined r p.0)) p.1
  cleaned name error w₀ (ok u) (ok v, w) (others, gone, gone') = (gone, gone')
  cleaned name error w₀ (ok u) (err dns, w) cleared = tt
  cleaned name error w₀ (err routes) (ok v, w) (others, gone, gone') = (gone, gone')
  cleaned name error w₀ (err routes) (err dns, w) cleared = tt

  concluded-Settled :
      (name : Str) (servers domains : List Str)
      (p : Result SetupError (Unit {0}) × (Changes K S × W))
      → SetUp name servers domains (asked servers domains) p
      → Settled name servers domains (concluded snapshots table store name p)
  unfolding SetUp cleanup
  concluded-Settled name servers domains (ok u, (changes, w)) done = done
  concluded-Settled name servers domains (err error, state) done =
      let (routes, (changes, w)) = restore_with snapshots table state in
      cleaned name error w routes (clear_dns_entries store name w)
        (clear_dns_entries-Cleared store lookup laws name w)

  module _ {R E : Type 0} (host : Host W R E) (api : RouteApi R)
      (endpoint_request : E → Result RouteError S) (tun_request : R → Result RouteError S) where
    -- What is left by a session that is configured, or was not.
    abbrev pub Configured :
        TunSessionConfig → Str → Option (List Str) → Result SessionError (Changes K S) × W → Type 0
    Configured config name (some servers) p =
        Settled name servers (normalize_domains (dns_or_default config.dns).search_domains) p
    Configured config name none (ok changes, w) = ¬ (Unit {0})
    Configured config name none (err e, w) = AfterFailure name e w

    -- A session that is configured has the DNS entries that were asked for, or none if there are no
    -- servers or no domains; one whose set-up failed has none, unless clearing them failed too, or
    -- nothing was set up.
    pub configure_session-Configured :
        (config : TunSessionConfig) (name : Str) (endpoints : List E) (w : W)
        → Configured config name (ips_to_args host.display_ip (dns_or_default config.dns).servers) (
            configure_session snapshots table store host api endpoint_request tun_request config
              name endpoints w)
    unfolding configure_session setup
    configure_session-Configured config name endpoints w =
        go (build_and_filter_routes api host config name endpoints w)
          (ips_to_args host.display_ip (dns_or_default config.dns).servers)
      where
        go :
            (p : Result PlatformError (List R × List E) × W) (servers : Option (List Str))
            → Configured config name servers (
                built snapshots table store host api endpoint_request tun_request config name
                  servers p)
        go (err e, w') none = tt
        go (err e, w') (some servers) = tt
        go (ok (filtered, routes), w') none = tt
        go (ok (filtered, routes), w') (some servers) =
            let domains : List Str = normalize_domains (dns_or_default config.dns).search_domains in
            let requests = map endpoint_request routes ++ map tun_request filtered in
            concluded-Settled name servers domains
              (after_install snapshots table store name servers domains
                (install snapshots table requests ([], w')))
              (after_install-SetUp name servers domains (install snapshots table requests ([], w')))
