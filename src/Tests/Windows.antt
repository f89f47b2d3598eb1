-- ===== src/Tests/Windows.antt =====
-- Processes on macOS, and processes, routes and pipes on Windows.
use wg_kotlin.Base.{
  ℕ, suc, ◌+◌, ◌/◌, ◌^◌, ◌<◌, ◌≡◌, refl, sym, ap, subst, Bool, true, none, some, [], ◌∷◌, arith,
  Result, ok, ok-injective,
}
use wg_kotlin.Base.Int.{ℤ, pos}
use wg_kotlin.Text.{codes}
use wg_kotlin.Frame.{IoError, interrupted}
use wg_kotlin.Platform.Windows.{FileTime, ticks}
use wg_kotlin.Platform.Windows.Rules.{comment-injective}
use wg_kotlin.Owner.Mac.{
  BsdInfo, InfoApi, InfoLaws, macos_info, open_owner, is_alive, open_owner-current, OwnerProcess,
}
use wg_kotlin.Owner.Windows.{
  HandleApi, HandleLaws, windows_sid, ensure_alive, unix_epoch_millis, open_owner-created,
}
use wg_kotlin.Owner.Windows
use wg_kotlin.Protocol.{IpAddr}
use wg_kotlin.EndpointWindows.{RouteBuilder, Manager, from_route, lookup}
use wg_kotlin.EndpointWindows.Attributes.{Attributes, BuilderLaws, attributes, lookup-attributes}
use wg_kotlin.LocalSocket.Pipe.{PipeApi, PipeListener, accept}
use wg_kotlin.LocalSocket.Pipe.Held.{PipeLaws, Holds, accept-Holds}

abbrev own_pid : ℕ
own_pid = 41

abbrev own_time : ℕ
own_time = 7

comment-injective_example :
    (own_pid ≡ own_pid) × (own_time ≡ own_time) × (codes "utun0" ≡ codes "utun0")
comment-injective_example =
    comment-injective 41 41 7 7 (codes "utun0") (codes "utun0") (omega arith) (omega arith)
      (omega arith) (omega arith) refl

abbrev info : BsdInfo
info = record { pbi_status = 2; pbi_ruid = 501; pbi_start_tvsec = 5; pbi_start_tvusec = 7000 }

abbrev infos : InfoApi Bool
infos = record { size = 136; proc_pidinfo = λ pid w. ((pos 136, info), w) }

abbrev info_laws : InfoLaws infos ℕ
info_laws = record {
  current = λ w pid. some pid;
  number = λ i. i;
  birth = λ i. (5, 7000);
  shown = λ pid found w w' e.
      let same : info ≡ found = ap (λ (p : (ℤ × BsdInfo) × Bool). (p.0).1) e in
      (pid, refl, refl, ap (λ (f : BsdInfo). (f.pbi_start_tvsec, f.pbi_start_tvusec)) same);
  unique = λ i j n b. n;
}

abbrev mac_owner : OwnerProcess
mac_owner = record { pid = 41; uid = 501; birth = (5, 7000) }

opens : open_owner infos 41 5007 true ≡ (ok mac_owner, true)
unfolding open_owner macos_info
opens = refl

open_owner-current_example :
    (mac_owner.pid ≡ 41)
    × ((i : ℕ) × (some own_pid ≡ some i)
        × ((u : Bool) → (is_alive infos mac_owner u).0 ≡ true → some own_pid ≡ some i))
open_owner-current_example = open_owner-current infos info_laws 41 5007 true true mac_owner opens

-- One second after the start of 1970.
abbrev creation : FileTime
creation = record { high = 27111902; low = 3587643008 }

abbrev handles : HandleApi Bool ℕ (Unit {0}) (Unit {0}) (Unit {0})
handles = record {
  usize_bytes = 8;
  wait_timeout = 258;
  open_process = λ pid w. (ok pid, w);
  process_times = λ h w. (ok creation, w);
  open_token = λ h w. (ok tt, w);
  token_size = λ t w. (28, w);
  token_user = λ t capacity size w. (ok tt, w);
  sid_text = λ u w. (ok tt, w);
  to_string = λ x. ok (codes "S-1-5-18");
  local_free = λ x w. w;
  wait = λ h millis w. (258, w);
}

abbrev Runs : Bool → ℕ → Type 0
Runs w i = Unit

abbrev handle_laws : HandleLaws handles ℕ Runs
handle_laws = record {
  instance_of = λ h. h;
  number = λ i. i;
  created = λ i. ticks creation;
  opened = λ pid h w w' e. sym (ok-injective (ap (λ (p : Result IoError ℕ × Bool). p.0) e));
  timed = λ h t w w' e.
      let same : creation ≡ t = ok-injective (ap (λ (p : Result IoError FileTime × Bool). p.0) e) in
      (ap ticks same, subst (λ u. ticks u < 2 ^ 64) same (omega arith));
  waits = λ h w w' e. tt;
}

abbrev windows_owner : Windows.OwnerProcess ℕ
windows_owner = Windows.held 41 41 (codes "S-1-5-18")

opens_windows : Windows.open_owner handles 41 1000 true ≡ (ok windows_owner, true)
unfolding Windows.open_owner windows_sid ensure_alive Windows.is_alive
opens_windows = refl

open_owner-created_example :
    (0 < own_pid)
    × (windows_owner.pid ≡ 41)
    × (windows_owner.process ≡ 41)
    × (ticks creation / 10_000 ≡ 1000 + unix_epoch_millis)
    × Unit {0}
open_owner-created_example =
    open_owner-created handles Runs handle_laws 41 1000 true true windows_owner (omega arith)
      opens_windows

abbrev builder : RouteBuilder Attributes
builder = record {
  new = λ ip n. record {
    destination = ip;
    prefix = n;
    gateway = none;
    if_name = none;
    if_index = none;
    metric = none;
    luid = none;
  };
  with_gateway = λ v r. record r { gateway = some v };
  with_if_name = λ v r. record r { if_name = some v };
  with_if_index = λ v r. record r { if_index = some v };
  with_metric = λ v r. record r { metric = some v };
  with_luid = λ v r. record r { luid = some v };
  destination = λ r. r.destination;
  prefix = λ r. r.prefix;
  gateway = λ r. r.gateway;
  if_name = λ r. r.if_name;
  if_index = λ r. r.if_index;
  metric = λ r. r.metric;
  luid = λ r. r.luid;
}

builder_laws : BuilderLaws builder
builder_laws = record {
  new_route = λ ip n. refl;
  sets_gateway = λ v r. refl;
  sets_if_name = λ v r. refl;
  sets_if_index = λ v r. refl;
  sets_metric = λ v r. refl;
  sets_luid = λ v r. refl;
}

abbrev default_route : Attributes
default_route = record {
  destination = IpAddr.v4 (0 ∷ 0 ∷ 0 ∷ 0 ∷ []);
  prefix = 0;
  gateway = some (IpAddr.v4 (10 ∷ 0 ∷ 0 ∷ 1 ∷ []));
  if_name = none;
  if_index = some 12;
  metric = some 71;
  luid = none;
}

abbrev manager : Manager Bool (Unit {0}) Attributes
manager = record {
  new = λ w. (ok tt, w);
  find_route = λ m ip w. (ok (some default_route), w);
  delete = λ m r w. (ok tt, w);
  add = λ m r w. (ok tt, w);
  no_route = interrupted;
}

abbrev endpoint_ip : IpAddr
endpoint_ip = IpAddr.v4 (192 ∷ 0 ∷ 2 ∷ 1 ∷ [])

abbrev endpoint_route : Attributes
endpoint_route = record default_route { destination = endpoint_ip; prefix = 32 }

looked_up : lookup builder manager endpoint_ip true ≡ (ok endpoint_route, true)
unfolding lookup from_route
looked_up = refl

lookup-attributes_example :
    (m : Unit {0}) × (found : Attributes) × (w₁ : Bool) × (w₂ : Bool) × (manager.new true
      ≡ (ok m, w₁))
    × (manager.find_route m endpoint_ip w₁ ≡ (ok (some found), w₂))
    × (attributes builder endpoint_route
        ≡ record (attributes builder found) { destination = endpoint_ip; prefix = 32 })
lookup-attributes_example =
    lookup-attributes builder manager builder_laws endpoint_ip endpoint_route true true looked_up

-- The state is the number of servers so far, and a server its number.
abbrev pipes : PipeApi ℕ ℕ (Unit {0})
pipes = record {
  descriptor = λ s w. (ok tt, w);
  create_server = λ endpoint first x w. (ok w, suc w);
  free = λ x w. w;
  connect = λ p w. (ok tt, w);
  drop_pipe = λ p w. w;
  raw_os_error = λ e. none;
  client_process = λ p w. (ok 41, w);
  invalid_endpoint = interrupted;
}

abbrev Serves : ℕ → ℕ → Type 0
Serves w p = p < w

pipe_laws : PipeLaws pipes Serves
pipe_laws = record {
  descriptor_keeps = λ s p w h. h;
  free_keeps = λ x p w h. h;
  connect_keeps = λ q p w h. h;
  client_keeps = λ q p w h. h;
  server_keeps = λ endpoint first x p w h. omega arith;
  server_creates = λ endpoint first x p w w' e.
      let same : w ≡ p = ok-injective (ap (λ (c : Result IoError ℕ × ℕ). c.0) e) in
      let next : suc w ≡ w' = ap (λ (c : Result IoError ℕ × ℕ). c.1) e in
      (omega (arith, same, next), λ q h. ground (arith, same));
  drop_keeps = λ q p w other h. h;
}

abbrev pipe_listener : PipeListener ℕ
pipe_listener = record { endpoint = codes "x"; sid = codes "S-1-5-18"; pending = 0 }

accept-Holds_example : Holds pipes Serves pipe_laws (accept pipes 1 pipe_listener 1)
accept-Holds_example = accept-Holds pipes Serves pipe_laws 1 pipe_listener 1 (omega arith)
