-- ===== src/Tunnel.antt =====
-- wg-kotlin-uniffi-boringtun/src/commonMain/rust/lib.rs: the WireGuard session that the app calls.
-- BoringTun, the base64 decoder and the address parser are the record `Boring`.
pub mod Sizes
pub mod Sessions
use wg_kotlin.Base.{
  ℕ, zero, suc, ◌+◌, ◌-◌, ◌*◌, ◌/◌, ◌%◌, ◌^◌, ◌≤◌, ◌<◌, min, max, String, ◌≡◌, refl, sym, ap, ◌∙◌,
  subst, ◌≢◌, ◌↔◌, ◌⊎◌, inl, inr, Bool, true, false, not, ◌&&◌, ◌||◌, Option, none, some, List, [],
  ◌∷◌, ◌++◌, map, reverse, append-nil, append_assoc, reverse-append, reverse-reverse, arith, ltb,
  leb, ◌==◌, if◌then◌else◌, ltb→lt, lt→ltb, leb→le, ==_iff, tests, Bool-cases, Option-cases,
  and_iff, length, take, drop, replicate, all, any, keep, is_empty, is_empty_iff, length-append,
  length-take, length-keep-le, take-append-drop, take-append, drop-append, All, All-append,
  All-left, All-right, All-reverse, All-unreverse, All-map, all_iff, Result, ok, err, ◌>>=◌, ◌>>◌,
  ok_or, map_err, Result-cases,
}
use wg_kotlin.Text.{Str, len}
use wg_kotlin.Protocol.{IpAddr}

abbrev pub max_ip_packet_size : ℕ
max_ip_packet_size = 2 ^ 16 - 1

abbrev pub data_packet_overhead : ℕ
data_packet_overhead = 32

abbrev pub min_packet_buffer_size : ℕ
min_packet_buffer_size = 148

abbrev pub max_packet_buffer_size : ℕ
max_packet_buffer_size = max_ip_packet_size + data_packet_overhead

abbrev pub max_peer_index : ℕ
max_peer_index = 0x00ff_ffff

pub data TunnelError : Type 0 where
  invalid_index invalid_base64_key packet_too_large buffer_too_large invalid_source_ip internal :
      TunnelError

-- BoringTun's result; its address is dropped.
pub data TunnResult : Type 0 where
  done : TunnResult
  failed : (code : ℕ) → TunnResult
  write_to_network : List ℕ → TunnResult
  write_to_tunnel_v4 write_to_tunnel_v6 : List ℕ → IpAddr → TunnResult

pub data TunnelPacketResult : Type 0 where
  done : TunnelPacketResult
  error : (code : ℕ) → TunnelPacketResult
  write_to_network write_to_tunnel_v4 write_to_tunnel_v6 : (packet : List ℕ) → TunnelPacketResult

-- The calls get the size of the slice that they may write, and may panic (`none`).
pub record Boring (T : Type 0) : Type 0 where
  pub new :
      (private public : List ℕ)
      → (preshared : Option (List ℕ)) → (keep_alive : Option ℕ) → (index : ℕ) → T
  pub encapsulate : T → (src : List ℕ) → (dst_size : ℕ) → Option (TunnResult × T)
  pub decapsulate : T → IpAddr → (src : List ℕ) → (dst_size : ℕ) → Option (TunnResult × T)
  pub update_timers : T → (dst_size : ℕ) → Option (TunnResult × T)
  -- the base64 engine's `decode_slice` into 32 bytes: the buffer and the number of bytes written
  pub decode_slice : Str → Option (List ℕ × ℕ)
  pub parse_ip : Str → Option IpAddr

-- The mutex and what it guards. The buffer has `max_packet_buffer_size` bytes throughout.
pub record TunnelSession (T : Type 0) : Type 0 where
  pub tunnel : T
  pub poisoned : Bool

unfoldable pub packet_buffer_size : ℕ → ℕ → Result TunnelError ℕ
packet_buffer_size requested minimum =
    if ltb max_packet_buffer_size requested
    then err buffer_too_large
    else ok (max requested minimum)

unfoldable pub map_tunn_result : TunnResult → TunnelPacketResult
map_tunn_result TunnResult.done = TunnelPacketResult.done
map_tunn_result (failed code) = error code
map_tunn_result (TunnResult.write_to_network packet) = TunnelPacketResult.write_to_network packet
map_tunn_result (TunnResult.write_to_tunnel_v4 packet addr) =
    TunnelPacketResult.write_to_tunnel_v4 packet
map_tunn_result (TunnResult.write_to_tunnel_v6 packet addr) =
    TunnelPacketResult.write_to_tunnel_v6 packet

-- `none` is a panic.
abbrev pub Call : Type 0 → Type 0
Call T = Option (Result TunnelError TunnelPacketResult × TunnelSession T)

module _ {T : Type 0} (boring : Boring T) where
  open boring use {new, encapsulate, decapsulate, update_timers, decode_slice, parse_ip}

  abbrev written : TunnelSession T → Option (TunnResult × T) → Call T
  written s none = none
  written s (some (result, tunnel)) =
      some (ok (map_tunn_result result), record s { tunnel = tunnel })

  -- `&mut buffer[..dst_size]` panics beyond the buffer's end.
  abbrev with_slice : TunnelSession T → (ℕ → Option (TunnResult × T)) → ℕ → Call T
  with_slice s call dst_size =
      if s.poisoned
      then some (err internal, s)
      else if leb dst_size max_packet_buffer_size
      then written s (call dst_size)
      else none

  abbrev sized : TunnelSession T → (ℕ → Option (TunnResult × T)) → Result TunnelError ℕ → Call T
  sized s call (err e) = some (err e, s)
  sized s call (ok dst_size) = with_slice s call dst_size

  unfoldable pub encrypt_raw_packet : TunnelSession T → List ℕ → ℕ → Call T
  unfolding packet_buffer_size
  encrypt_raw_packet s src dst_size =
      if ltb max_ip_packet_size (length src)
      then some (err packet_too_large, s)
      else sized s (encapsulate s.tunnel src) (
          packet_buffer_size dst_size
            (max (length src + data_packet_overhead) min_packet_buffer_size))

  abbrev decrypt_from : TunnelSession T → List ℕ → ℕ → Option IpAddr → Call T
  decrypt_from s src dst_size none = some (err invalid_source_ip, s)
  decrypt_from s src dst_size (some source_ip) = sized s (decapsulate s.tunnel source_ip src) (
      packet_buffer_size dst_size
        (if is_empty src then max_packet_buffer_size else max (length src) min_packet_buffer_size))

  unfoldable pub decrypt_to_raw_packet : TunnelSession T → List ℕ → ℕ → Str → Call T
  unfolding packet_buffer_size
  decrypt_to_raw_packet s src dst_size source_ip =
      if ltb max_packet_buffer_size (length src)
      then some (err packet_too_large, s)
      else decrypt_from s src dst_size (parse_ip source_ip)

  unfoldable pub run_periodic_task : TunnelSession T → ℕ → Call T
  unfolding packet_buffer_size
  run_periodic_task s dst_size =
      sized s (update_timers s.tunnel) (packet_buffer_size dst_size min_packet_buffer_size)

  abbrev decoded_key : Option (List ℕ × ℕ) → Option (List ℕ)
  decoded_key none = none
  decoded_key (some (key, size)) = if size == length key then some key else none

  unfoldable pub parse_key_bytes : Str → Option (List ℕ)
  parse_key_bytes encoded =
      if leb 43 (len encoded) && leb (len encoded) 44
      then decoded_key (decode_slice encoded)
      else none

  -- `Some(v) => Some(parse_key_bytes(v).ok_or(…)?)`, `None => None`
  abbrev pub parse_preshared : Option Str → Result TunnelError (Option (List ℕ))
  parse_preshared none = ok none
  parse_preshared (some encoded) = do
    key ← ok_or (parse_key_bytes encoded) invalid_base64_key
    ok (some key)

  unfoldable pub create_new_tunnel :
      Str → Str → Option Str → ℕ → ℕ → Result TunnelError (TunnelSession T)
  unfolding parse_key_bytes
  create_new_tunnel secret_key public_key preshared_key keep_alive index =
      if ltb max_peer_index index then err invalid_index else do
        private ← ok_or (parse_key_bytes secret_key) invalid_base64_key
        public ← ok_or (parse_key_bytes public_key) invalid_base64_key
        preshared ← parse_preshared preshared_key
        ok (record {
          tunnel =
              new private public preshared (if keep_alive == 0 then none else some keep_alive)
                index;
          poisoned = false;
        })

-- `convert_x25519_key_to_hex`, `convert_x25519_key_to_base64` and `generate_public_key` all refuse a
-- key of another length before they call their library.
unfoldable pub with_key : {A : Type 0} → (List ℕ → A) → List ℕ → Option A
with_key convert key = if length key == 32 then some (convert key) else none
