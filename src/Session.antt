-- ===== src/Session.antt =====
-- wg-kotlin-daemon-rust/daemon/src/session.rs, on Linux: how a session's device is opened and
-- configured, its packets, and its end.
pub mod Opening
pub mod Closing
use wg_kotlin.Base.{
  ℕ, zero, suc, ◌+◌, ◌-◌, ◌*◌, ◌/◌, ◌%◌, ◌^◌, ◌≤◌, ◌<◌, min, max, String, ◌≡◌, refl, sym, ap, ◌∙◌,
  subst, ◌≢◌, ◌↔◌, ◌⊎◌, inl, inr, Bool, true, false, not, ◌&&◌, ◌||◌, Option, none, some, List, [],
  ◌∷◌, ◌++◌, map, reverse, append-nil, append_assoc, reverse-append, reverse-reverse, arith, ltb,
  leb, ◌==◌, if◌then◌else◌, ltb→lt, lt→ltb, leb→le, ==_iff, tests, Bool-cases, Option-cases,
  and_iff, length, take, drop, replicate, all, any, keep, is_empty, is_empty_iff, length-append,
  length-take, length-keep-le, take-append-drop, take-append, drop-append, All, All-append,
  All-left, All-right, All-reverse, All-unreverse, All-map, all_iff, Result, ok, err, ok_or,
  map_err, Result-cases,
}
use wg_kotlin.Base.Eff.{Eff, ◌>>=◌, ◌>>◌, pure, fail, lift, map_fail}
use wg_kotlin.Base.Int.{ℤ, pos, negsuc}
use wg_kotlin.Text.{Str}
use wg_kotlin.Protocol.{Cidr, IpAddr, TunSessionConfig, parse_proto_cidr}
use wg_kotlin.Frame.{IoError}
use wg_kotlin.Validation.{Os, linux, Rejection, Check, validate_interface_name}
use wg_kotlin.Platform.Host.{Host, RouteApi, PlatformError}
use wg_kotlin.Platform.Routes.{u8_try_from, resolve_endpoint_routes}
use wg_kotlin.Platform.Cleanup.{CleanupHook}
use wg_kotlin.Platform.Linux.{configure_session}

-- The calls on `tun_rs::DeviceBuilder`, in their order.
pub data BuilderCall : Type 0 where
  named : Str → BuilderCall
  ipv4 ipv6 : (octets : List ℕ) (prefix : ℕ) → BuilderCall
  mtu : ℕ → BuilderCall

-- What `tun_rs` gives.
pub record Tun (W D : Type 0) : Type 0 where
  pub build_sync : List BuilderCall → Eff W IoError D
  pub set_nonblocking : D → Eff W IoError (Unit {0})
  pub device_name : D → W → Option Str
  pub new_interrupt : Eff W IoError (Unit {0})
  pub trigger : D → W → W
  -- the buffer that was passed, filled, and the count of bytes
  pub recv_intr : D → List ℕ → Eff W IoError (List ℕ × ℕ)
  pub send_intr : D → List ℕ → Eff W IoError ℕ

-- The messages, by the text around the values that they show; `panicked` is no message.
pub data StartError : Type 0 where
  rejected : Rejection → StartError
  routes_unresolved configuring : PlatformError → StartError
  creating non_blocking interrupt : IoError → StartError
  panicked : StartError

pub record TunSession (W D : Type 0) : Type 0 where
  pub interface_name : Str
  pub device : D
  pub closed : Bool
  pub cleanup_hook : Option (CleanupHook W)

abbrev pub address_call : IpAddr → ℕ → BuilderCall
address_call (IpAddr.v4 octets) prefix = ipv4 octets prefix
address_call (IpAddr.v6 octets) prefix = ipv6 octets prefix

-- The two `unwrap`s are the two `none`s.
abbrev pub parsed_call : Option (IpAddr × ℕ) → Option BuilderCall
parsed_call none = none
parsed_call (some (ip, prefix)) = elim (u8_try_from prefix) [
  | none ↦ none
  | some n ↦ some (address_call ip n)
]

abbrev pub cons_call : Option BuilderCall → Option (List BuilderCall) → Option (List BuilderCall)
cons_call (some call) (some calls) = some (call ∷ calls)
cons_call _ _ = none

unfoldable pub address_calls : List Cidr → Option (List BuilderCall)
address_calls [] = some []
address_calls (addr ∷ addresses) =
    cons_call (parsed_call (parse_proto_cidr addr)) (address_calls addresses)

-- `if config.mtu > 0 { builder.mtu(config.mtu as u16) }`
abbrev pub mtu_calls : ℤ → List BuilderCall
mtu_calls (pos z) = if ltb 0 z then mtu (z % 2 ^ 16) ∷ [] else []
mtu_calls (negsuc z) = []

abbrev pub assembled :
    Str → Option (List BuilderCall) → List BuilderCall → Option (List BuilderCall)
assembled interface_name none last = none
assembled interface_name (some calls) last = some (named interface_name ∷ calls ++ last)

unfoldable pub builder_calls : TunSessionConfig → Option (List BuilderCall)
unfolding address_calls
builder_calls config =
    assembled config.interface_name (address_calls config.addresses) (mtu_calls config.mtu)

abbrev pub unwrapped : {W A : Type 0} → Option A → Eff W StartError A
unwrapped none = fail panicked
unwrapped (some a) = pure a

abbrev pub name_or : Str → Option Str → Str
name_or other none = other
name_or other (some current) = current

module _ {W R E D : Type 0} (host : Host W R E) (api : RouteApi R) (tun : Tun W D) where
  -- A failure interrupts the device's readers before it is reported.
  abbrev pub interrupted :
      D → Result PlatformError (CleanupHook W) × W → Result StartError (CleanupHook W) × W
  interrupted device (ok hook, w) = (ok hook, w)
  interrupted device (err e, w) = (err (configuring e), tun.trigger device w)

  abbrev pub current_name : D → Str → Eff W StartError Str
  current_name device other w = (ok (name_or other (tun.device_name device w)), w)

  abbrev pub configured : TunSessionConfig → Str → List E → D → Eff W StartError (CleanupHook W)
  configured config name endpoint_routes device w =
      interrupted device (configure_session host api config name endpoint_routes w)

  -- `platform::prepare_session_start` does nothing here.
  unfoldable pub start : TunSessionConfig → Eff W StartError (TunSession W D)
  start config = do
    lift (map_err rejected (validate_interface_name linux config.interface_name))
    endpoint_routes ← map_fail routes_unresolved (resolve_endpoint_routes host config)
    calls ← unwrapped (builder_calls config)
    device ← map_fail creating (tun.build_sync calls)
    map_fail non_blocking (tun.set_nonblocking device)
    interface_name ← current_name device config.interface_name
    map_fail interrupt tun.new_interrupt
    hook ← configured config interface_name endpoint_routes device
    pure (record {
      interface_name = interface_name;
      device = device;
      closed = false;
      cleanup_hook = some hook;
    })

  abbrev pub buffer_size : ℕ
  buffer_size = 65536

  abbrev truncated : Result IoError (List ℕ × ℕ) × W → Result IoError (List ℕ) × W
  truncated (ok (buffer, bytes), w) = (ok (take bytes buffer), w)
  truncated (err e, w) = (err e, w)

  unfoldable pub read_packet : TunSession W D → Eff W IoError (List ℕ)
  read_packet session w = truncated (tun.recv_intr session.device (replicate buffer_size 0) w)

  unfoldable pub write_packet : TunSession W D → List ℕ → Eff W IoError (Unit {0})
  write_packet session packet = do tun.send_intr session.device packet; pure tt

  abbrev pub emptied : TunSession W D → TunSession W D
  emptied session = record {
    interface_name = session.interface_name;
    device = session.device;
    closed = true;
    cleanup_hook = none;
  }

  abbrev pub run_hook : Option (CleanupHook W) → Eff W PlatformError (Unit {0})
  run_hook none = pure tt
  run_hook (some cleanup) = cleanup

  -- All clones of a session share the flag and the hook.
  unfoldable pub close : TunSession W D → W → Result PlatformError (Unit {0}) × TunSession W D × W
  close session w =
      if session.closed
      then (ok tt, session, w)
      else (let (r, w') = run_hook session.cleanup_hook (tun.trigger session.device w) in
          (r, emptied session, w'))
