-- ===== src/Tests/Systems.antt =====
-- A system that holds something of a session, or nothing, and on which every call succeeds.
use wg_kotlin.Base.{
  ℕ, ◌≡◌, refl, sym, ap, Bool, true, false, not, none, some, List, [], ◌∷◌, ◌++◌, map, length,
  Result, ok,
}
use wg_kotlin.Text.{Str, codes, str_eq}
use wg_kotlin.Frame.{IoError}
use wg_kotlin.Protocol.{IpAddr, Cidr, TunSessionConfig}
use wg_kotlin.Validation.{linux, dns_or_default}
use wg_kotlin.Platform.Host.{Host, RouteApi, RouteLaws, Output, PlatformError}
use wg_kotlin.Platform.Commands.{run_command}
use wg_kotlin.Platform.Routes.{resolve_endpoint_routes, filtered_routes, endpoint_ips}
use wg_kotlin.Platform.Filter.{Passes, IsEndpoint, networks, route, filtered_routes_lem}
use wg_kotlin.Platform.Cleanup.{cleanup_routes}
use wg_kotlin.Platform.Linux.{revert_dns, configure_session}
use wg_kotlin.Platform.Teardown.{Clears, Cleared, Settled, configure_session-Settled}
use wg_kotlin.Session.{Tun, TunSession, BuilderCall, named, start, close, builder_calls}
use wg_kotlin.Session.Opening.{AssignsAll, SetsMtu, builder_calls-IsConfig}
use wg_kotlin.Session.Closing.{close-start-Cleared}
use wg_kotlin.Tests.Configs.{home, home-IsConfig, show_ip}

pub record Route : Type 0 where
  pub destination : IpAddr
  pub prefix : ℕ

abbrev pub api : RouteApi Route
api = record {
  new = λ ip n. record { destination = ip; prefix = n };
  with_if_name = λ name r. r;
  destination = λ r. r.destination;
  prefix = λ r. r.prefix;
}

api_laws : RouteLaws api
api_laws = record { destination-new = λ ip n name. refl; prefix-new = λ ip n name. refl }

abbrev is_revert : List Str → Bool
is_revert [] = false
is_revert (a ∷ arguments) = str_eq a (codes "revert")

abbrev done : Output
done = record { success = true; code = some 0; stdout = []; stderr = [] }

-- The state is whether the system holds something of the session.
abbrev pub host : Host Bool Route IpAddr
host = record {
  open_manager = λ w. (ok tt, w);
  delete = λ r w. (ok tt, false);
  add = λ r w. (ok tt, true);
  lookup = λ ip w. (ok ip, w);
  replace_endpoint = λ e w. (ok tt, true);
  delete_endpoint = λ e w. (ok tt, false);
  which = λ name w. true;
  command_output = λ invocation w. (ok done, not (is_revert invocation.arguments));
  to_lowercase = λ s. s;
  display_ip = show_ip;
}

abbrev Clean : Bool → Type 0
Clean w = w ≡ false

clears :
    (name : Str) → Clears host (revert_dns host api name) (λ w r. Clean w) (λ w e. Clean w) Clean
unfolding revert_dns run_command str_eq
clears name = record {
  delete_gone = λ r w w' h. sym (ap (λ (p : Result IoError (Unit {0}) × Bool). p.1) h);
  delete_keeps = λ r s w h. refl;
  endpoint_gone = λ e w w' h. sym (ap (λ (p : Result IoError (Unit {0}) × Bool). p.1) h);
  endpoint_keeps = λ e f w h. refl;
  endpoint_keeps_routes = λ e s w h. refl;
  teardown_reverts = λ w w' h. sym (ap (λ (p : Result PlatformError (Unit {0}) × Bool). p.1) h);
  teardown_keeps_routes = λ s w h. refl;
  teardown_keeps_endpoints = λ f w h. refl;
}

configure_session-Settled_example :
    Settled host
      (revert_dns host api (codes "utun7"))
      (λ w r. Clean w)
      (λ w e. Clean w)
      Clean
      (clears (codes "utun7"))
      (filtered_routes api home (codes "utun7"))
      []
      (configure_session host api home (codes "utun7") [] false)
configure_session-Settled_example =
    configure_session-Settled host api (codes "utun7") (λ w r. Clean w) (λ w e. Clean w) Clean
      (clears (codes "utun7")) home [] false false home-IsConfig.dns refl

filtered_routes_lem_example :
    (kept_networks : List (IpAddr × ℕ)) × Passes
      (IsEndpoint (endpoint_ips home.peer_endpoints))
      (networks home.peer_allowed_ips)
      kept_networks
    × (filtered_routes api home (codes "utun7")
        ≡ map (route api api_laws (codes "utun7")) kept_networks)
filtered_routes_lem_example =
    filtered_routes_lem api api_laws (codes "utun7") home home-IsConfig.routes

builder_calls-IsConfig_example :
    (calls last : List BuilderCall) × (builder_calls home
      ≡ some (named (codes "utun7") ∷ calls ++ last))
    × AssignsAll home.addresses calls
    × SetsMtu home.mtu last
builder_calls-IsConfig_example = builder_calls-IsConfig linux home home-IsConfig

abbrev pub tun : Tun Bool (Unit {0})
tun = record {
  build_sync = λ calls w. (ok tt, w);
  set_nonblocking = λ d w. (ok tt, w);
  device_name = λ d w. none;
  new_interrupt = λ w. (ok tt, w);
  trigger = λ d w. w;
  recv_intr = λ d buffer w. (ok (buffer, 1), w);
  send_intr = λ d packet w. (ok (length packet), w);
}

abbrev started_session : TunSession Bool (Unit {0})
started_session = record {
  interface_name = codes "utun7";
  device = tt;
  closed = false;
  cleanup_hook = some (
      cleanup_routes host (filtered_routes api home (codes "utun7"))
        (IpAddr.v4 (192 ∷ 0 ∷ 2 ∷ 1 ∷ []) ∷ []) (revert_dns host api (codes "utun7")));
}

starts : start host api tun home false ≡ (ok started_session, true)
unfolding start configure_session wg_kotlin.Validation.validate_interface_name wg_kotlin.Text.len
    wg_kotlin.Text.strip_prefix wg_kotlin.Platform.Routes.resolve_endpoint_routes
    wg_kotlin.Protocol.parse_proto_ip builder_calls wg_kotlin.Protocol.parse_proto_cidr
    wg_kotlin.Platform.Routes.build_and_filter_routes wg_kotlin.Platform.Commands.ips_to_args
    wg_kotlin.Platform.Commands.proto_ip_to_string wg_kotlin.Platform.Cleanup.into_cleanup_hook
    wg_kotlin.Platform.Routes.add_routes_with_predelete run_command
    wg_kotlin.Platform.Commands.contains str_eq wg_kotlin.Platform.Commands.normalize_domains
    wg_kotlin.Text.trim_start_by wg_kotlin.Platform.Commands.ips_from
    wg_kotlin.Platform.Commands.normalize_from revert_dns wg_kotlin.Platform.Linux.set_dns
    wg_kotlin.Platform.Linux.setup wg_kotlin.Platform.Routes.add_endpoint_routes
    wg_kotlin.Platform.Routes.add_tunnel_routes endpoint_ips filtered_routes
    wg_kotlin.Platform.Routes.is_kept wg_kotlin.Platform.Routes.resolve_from
    wg_kotlin.Platform.Routes.tunnel_routes wg_kotlin.Session.address_calls wg_kotlin.Text.trim
starts = refl

close-start-Cleared_example :
    (endpoints : List IpAddr) × (v : Bool) × (resolve_endpoint_routes host home false
      ≡ (ok endpoints, v))
    × ((u u' : Bool) (closed : TunSession Bool (Unit {0}))
        → close host api tun started_session u ≡ (ok tt, closed, u')
        → Cleared host
            (revert_dns host api (codes "utun7"))
            (λ w r. Clean w)
            (λ w e. Clean w)
            Clean
            (clears (codes "utun7"))
            (filtered_routes api home (codes "utun7"))
            endpoints
            u')
close-start-Cleared_example =
    close-start-Cleared host api tun (λ w r. Clean w) (λ w e. Clean w) (λ name. Clean) clears home
      started_session false true home-IsConfig.dns starts
