-- ===== src/Platform/Linux.antt =====
-- wg-kotlin-daemon-rust/daemon/src/platform/linux.rs
use wg_kotlin.Base.{not, ◌&&◌, Option, none, some, List, [], ◌∷◌, map, if◌then◌else◌, is_empty, err}
use wg_kotlin.Base.Eff.{Eff, ◌>>=◌, ◌>>◌, pure}
use wg_kotlin.Text.{Str, codes}
use wg_kotlin.Protocol.{TunSessionConfig}
use wg_kotlin.Validation.{dns_or_default}
use wg_kotlin.Platform.Host.{Host, RouteApi, Invocation, PlatformError, panicked}
use wg_kotlin.Platform.Commands.{run_command, ips_to_args, normalize_domains}
use wg_kotlin.Platform.Routes.{build_and_filter_routes, add_routes_with_predelete}
use wg_kotlin.Platform.Cleanup.{CleanupHook, into_cleanup_hook}

-- `resolvectl` with these arguments.
abbrev pub resolvectl : List Str → Invocation
resolvectl arguments = record {
  program = codes "resolvectl";
  arguments = arguments;
  stdin = none;
  environment = [];
}

module _ {W R E : Type 0} (host : Host W R E) (api : RouteApi R) where
  unfoldable pub revert_dns : Str → Eff W PlatformError (Unit {0})
  revert_dns name = do
    run_command host (codes "revert-dns") (resolvectl (codes "revert" ∷ name ∷ [])) []
    pure tt

  unfoldable pub set_dns : Str → List Str → List Str → Eff W PlatformError (Unit {0})
  set_dns name servers domains =
      if not (is_empty servers) && not (is_empty domains)
      then (do
        run_command host (codes "set-dns") (resolvectl (codes "dns" ∷ name ∷ servers)) []
        run_command host (codes "set-domains") (resolvectl (codes "domain" ∷ name ∷ domains)) []
        pure tt)
      else pure tt

  -- The closure whose outcome is `setup_result`.
  unfoldable pub setup :
      Str → List R → List E → List Str → List Str → Eff W PlatformError (Unit {0})
  unfolding revert_dns set_dns
  setup name filtered endpoints servers domains = do
    add_routes_with_predelete host filtered endpoints
    revert_dns name
    set_dns name servers domains

  abbrev pub configure_with :
      Str → List R × List E → Option (List Str) → List Str → Eff W PlatformError (CleanupHook W)
  configure_with name routes none domains w = (err panicked, w)
  configure_with name (filtered, endpoints) (some servers) domains w =
      let (setup_result, w') = setup name filtered endpoints servers domains w in
      into_cleanup_hook host setup_result filtered endpoints (revert_dns name) w'

  unfoldable pub configure_session :
      TunSessionConfig → Str → List E → Eff W PlatformError (CleanupHook W)
  unfolding setup
  configure_session config name endpoint_routes = do
    routes ← build_and_filter_routes api host config name endpoint_routes
    configure_with name routes (ips_to_args host.display_ip (dns_or_default config.dns).servers) (
        map (λ domain. b'~' ∷ domain)
          (normalize_domains (dns_or_default config.dns).search_domains))
