-- ===== src/Platform/Windows/Settled.antt =====
-- wg-kotlin-daemon-rust/daemon/src/platform/windows.rs: what is left of a session.
use wg_kotlin.Base.{◌≡◌, List, ok}
use wg_kotlin.Text.{Str}
use wg_kotlin.Protocol.{TunSessionConfig}
use wg_kotlin.Validation.{dns_or_default}
use wg_kotlin.Validation.Dns.{IsDns}
use wg_kotlin.Platform.Host.{Host, RouteApi}
use wg_kotlin.Platform.Arguments.{ips_to_args_lem}
use wg_kotlin.Platform.Routes.{filtered_routes, build_and_filter_routes}
use wg_kotlin.Platform.Teardown.{Clears, Settled, into_cleanup_hook-Settled}
use wg_kotlin.Platform.Windows.{
  CurrentProcess, clear_nrpt_rules, setup, namespaces, configure_session,
}

module _ {W R E : Type 0} (host : Host W R E) (api : RouteApi R) (process : CurrentProcess W)
    (name : Str) (Gone : W → R → Type 0) (GoneEndpoint : W → E → Type 0) (Reverted : W → Type 0)
    (laws : Clears host (clear_nrpt_rules host process name) Gone GoneEndpoint Reverted) where
  -- A deletion and a clearing of the DNS rules that succeed remove what they name, and no other step
  -- of a clean-up brings it back. Then with DNS settings that the validator accepts: if the route
  -- manager opens, the session's routes, endpoint routes and DNS rules are all gone after a setup
  -- that fails, unless the error reports a failed clean-up, and after the hook of one that succeeds
  -- has run without an error.
  pub windows-Settled :
      (config : TunSessionConfig) (endpoint_routes : List E) (w w₁ : W)
      → IsDns (dns_or_default config.dns)
      → host.open_manager w ≡ (ok tt, w₁)
      → Settled host
          (clear_nrpt_rules host process name)
          Gone
          GoneEndpoint
          Reverted
          laws
          (filtered_routes api config name)
          endpoint_routes
          (configure_session host process api config name endpoint_routes w)
  unfolding configure_session build_and_filter_routes
  windows-Settled config endpoint_routes w w₁ dns opened =
      let (servers, shown, _, _) =
        ips_to_args_lem host.display_ip (dns_or_default config.dns).servers dns.servers in
      let (result, w₂) =
        setup host process name (filtered_routes api config name) endpoint_routes servers
          (namespaces (dns_or_default config.dns).search_domains) w₁ in
      rw (opened, shown)
        (into_cleanup_hook-Settled host (clear_nrpt_rules host process name) Gone GoneEndpoint
          Reverted laws result (filtered_routes api config name) endpoint_routes w₂)
