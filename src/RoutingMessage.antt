-- ===== src/RoutingMessage.antt =====
-- The routing messages of macOS in wg-kotlin-daemon-rust/daemon/src/platform/endpoint_macos.rs: the
-- header, the socket addresses after it, and how both are written and read. The form of the structure
-- `rt_msghdr` is libc's, the argument `Layout`. `RouteError` has the errors of this file and of
-- routes_macos.rs.
pub mod Addresses
pub mod Endpoint
pub mod Replies
pub mod Scan
pub mod Answers
pub mod Exchange
use wg_kotlin.Base.{
  ℕ, zero, suc, ◌+◌, ◌-◌, ◌*◌, ◌/◌, ◌%◌, ◌^◌, ◌≤◌, ◌<◌, min, max, String, ◌≡◌, refl, sym, ap, ◌∙◌,
  subst, ◌≢◌, ◌↔◌, ◌⊎◌, inl, inr, Bool, true, false, not, ◌&&◌, ◌||◌, Option, none, some, List, [],
  ◌∷◌, ◌++◌, map, reverse, append-nil, append_assoc, reverse-append, reverse-reverse, arith, ltb,
  leb, ◌==◌, if◌then◌else◌, ltb→lt, lt→ltb, leb→le, ==_iff, tests, Bool-cases, Option-cases,
  and_iff, length, take, drop, replicate, all, any, keep, is_empty, is_empty_iff, length-append,
  length-take, length-keep-le, take-append-drop, take-append, drop-append, All, All-append,
  All-left, All-right, All-reverse, All-unreverse, All-map, all_iff, Result, ok, err, ◌>>=◌, ◌>>◌,
  ok_or, map_err, Result-cases,
}
use wg_kotlin.Frame.{IoError}
use wg_kotlin.Protocol.{IpAddr}

pub data RouteError : Type 0 where
  io : IoError → RouteError
  changed_outside unsupported_family no_destination invalid_destination : RouteError
  truncated_message missing_address truncated_address message_too_long not_reachable : RouteError
  truncated_prefix invalid_length timed_out closed : RouteError
  no_interface proxy_route no_tun_interface index_too_large family_mismatch : RouteError
  invalid_dump unexpected_version table_changing : RouteError

-- `libc::RTM_VERSION`, `RTM_ADD`, `RTM_DELETE` and `RTM_GET`
abbrev pub rtm_version : ℕ
rtm_version = 5

abbrev pub add_code : ℕ
add_code = 1

abbrev pub delete_code : ℕ
delete_code = 2

abbrev pub get_code : ℕ
get_code = 4

-- `x & (1 << n) != 0`
abbrev pub bit : ℕ → ℕ → Bool
bit n x = x / 2 ^ n % 2 == 1

-- `rt_msghdr` by its fields that are used, those of `rtm_rmx` among them, and all the others.
pub record Header (Rest : Type 0) : Type 0 where
  pub msglen : ℕ
  pub version : ℕ
  pub kind : ℕ
  pub index : ℕ
  pub flags : ℕ
  pub addrs : ℕ
  pub pid : ℕ
  pub seq : ℕ
  pub errno : ℕ
  pub inits : ℕ
  pub mtu : ℕ
  pub hopcount : ℕ
  pub others : Rest

-- The fields have 16 bits, 8 bits or 32 bits.
pub record InRange {Rest : Type 0} (h : Header Rest) : Type 0 where
  pub msglen : h.msglen < 2 ^ 16
  pub version : h.version < 2 ^ 8
  pub kind : h.kind < 2 ^ 8
  pub index : h.index < 2 ^ 16
  pub flags : h.flags < 2 ^ 32
  pub addrs : h.addrs < 2 ^ 32
  pub pid : h.pid < 2 ^ 32
  pub seq : h.seq < 2 ^ 32
  pub errno : h.errno < 2 ^ 32
  pub inits : h.inits < 2 ^ 32
  pub mtu : h.mtu < 2 ^ 32
  pub hopcount : h.hopcount < 2 ^ 32

-- Of libc: the structure's size, and its fields from and to bytes. `zeroed` stands for zero bytes.
pub record Layout (Rest : Type 0) : Type 0 where
  pub size : ℕ
  pub zeroed : Rest
  pub read : List ℕ → Header Rest
  pub write : Header Rest → List ℕ

-- A structure that was written is read back, its length, version and type stand first, and every
-- field that is read is in its range.
pub record IsLayout {Rest : Type 0} (layout : Layout Rest) : Type 0 where
  pub size_min : 4 ≤ layout.size
  pub sized : (h : Header Rest) → length (layout.write h) ≡ layout.size
  pub reads_back :
      (h : Header Rest) (bytes : List ℕ) → InRange h → layout.read (layout.write h ++ bytes) ≡ h
  pub prefixed :
      (h : Header Rest)
      → InRange h
      → (bytes : List ℕ) × (layout.write h
          ≡ h.msglen % 256 ∷ h.msglen / 256 ∷ h.version ∷ h.kind ∷ bytes)
  pub ranged : (bytes : List ℕ) → InRange (layout.read bytes)

-- `size_of::<libc::sockaddr_in>()`, `sockaddr_in6` and `sockaddr_dl`, and the families
abbrev pub af_inet : ℕ
af_inet = 2

abbrev pub af_inet6 : ℕ
af_inet6 = 30

abbrev pub af_link : ℕ
af_link = 18

-- `sockaddr_in` has 16 bytes and `sockaddr_in6` 28, with the octets from byte 4 and from byte 8.
unfoldable pub ip_address : IpAddr → List ℕ
ip_address (IpAddr.v4 octets) = (16 ∷ af_inet ∷ 0 ∷ 0 ∷ []) ++ octets ++ replicate 8 0
ip_address (IpAddr.v6 octets) =
    (28 ∷ af_inet6 ∷ 0 ∷ 0 ∷ 0 ∷ 0 ∷ 0 ∷ 0 ∷ []) ++ octets ++ replicate 4 0

-- `sockaddr_dl` has 20 bytes, with the index, little-endian, from byte 2.
unfoldable pub link_address : ℕ → List ℕ
link_address index = 20 ∷ af_link ∷ index % 256 ∷ index / 256 ∷ replicate 16 0

-- `length.max(4).next_multiple_of(4)`
abbrev pub padded_size : ℕ → ℕ
padded_size n = (max n 4 + 3) / 4 * 4

-- An address with the zeros after it.
abbrev pub block : List ℕ → List ℕ
block address = address ++ replicate (padded_size (length address) - length address) 0

unfoldable pub append : List ℕ → List ℕ → List ℕ
append payload address = payload ++ block address

-- The first byte is the length of an address; its slot ends at a multiple of 4.
abbrev pub next_address : List ℕ → Result RouteError (List ℕ × List ℕ)
next_address [] = err missing_address
next_address (size ∷ bytes) =
    if ltb (length (size ∷ bytes)) (padded_size size)
    then err truncated_address
    else ok (take size (size ∷ bytes), drop (padded_size size) (size ∷ bytes))

-- The loop of `addresses` over so many slots; the lowest bit tells whether the next one is there.
unfoldable pub addresses_from : ℕ → ℕ → List ℕ → Result RouteError (List (Option (List ℕ)))
addresses_from zero addrs bytes = ok []
addresses_from (suc n) addrs bytes =
    if addrs % 2 == 0
    then (do values ← addresses_from n (addrs / 2) bytes; ok (none ∷ values))
    else do
      (value, rest) ← next_address bytes
      values ← addresses_from n (addrs / 2) rest
      ok (some value ∷ values)

module _ {Rest : Type 0} (layout : Layout Rest) where
  unfoldable pub header : List ℕ → Result RouteError (Header Rest)
  header bytes =
      if ltb (length bytes) layout.size then err truncated_message else ok (layout.read bytes)

  -- `libc::RTAX_MAX` is 8.
  unfoldable pub addresses : List ℕ → Header Rest → Result RouteError (List (Option (List ℕ)))
  unfolding addresses_from
  addresses bytes h = addresses_from 8 h.addrs (drop layout.size bytes)
