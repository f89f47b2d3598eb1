-- ===== src/EndpointLinux.antt =====
-- The route to an endpoint on Linux: wg-kotlin-daemon-rust/daemon/src/platform/endpoint_linux.rs.
-- Routes are the messages of netlink_packet_route, with the attributes that the code tells apart and
-- `other` for the rest; what a header or an attribute holds that the code does not read is of any
-- type.
pub mod Hosts
pub mod Netlink
pub mod Requests
use wg_kotlin.Base.{
  ℕ, zero, suc, ◌+◌, ◌-◌, ◌*◌, ◌/◌, ◌%◌, ◌^◌, ◌≤◌, ◌<◌, min, max, String, ◌≡◌, refl, sym, ap, ◌∙◌,
  subst, ◌≢◌, ◌↔◌, ◌⊎◌, inl, inr, Bool, true, false, not, ◌&&◌, ◌||◌, Option, none, some, List, [],
  ◌∷◌, ◌++◌, map, reverse, append-nil, append_assoc, reverse-append, reverse-reverse, arith, ltb,
  leb, ◌==◌, if◌then◌else◌, ltb→lt, lt→ltb, leb→le, ==_iff, tests, Bool-cases, Option-cases,
  and_iff, length, take, drop, replicate, all, any, keep, is_empty, is_empty_iff, length-append,
  length-take, length-drop, length-keep-le, take-append-drop, take-append, drop-append, All,
  All-append, All-left, All-right, All-reverse, All-unreverse, All-map, all_iff, Result, ok, err,
  ◌>>=◌, ◌>>◌, ok_or, map_err, Result-cases, bound, ok-injective, unguarded,
}
use wg_kotlin.Frame.{IoError}
use wg_kotlin.Protocol.{IpAddr, is_ipv4}

pub data RouteKind : Type 0 where
  unicast local : RouteKind
  other_kind : ℕ → RouteKind

pub record NextHop (X : Type 0) : Type 0 where
  pub flags : ℕ
  pub route : X

-- What the kernel reports of a route or was asked with.
pub data Status : Type 0 where
  cache_info uid mark iif expires multicast_expires : Status

pub data Attribute (X : Type 0) : Type 0 where
  destination : IpAddr → Attribute X
  multi_path : List (NextHop X) → Attribute X
  status : Status → X → Attribute X
  other : X → Attribute X

-- `RouteProtocol::Static`
abbrev pub static_protocol : ℕ
static_protocol = 4

pub record RouteMessage (X : Type 0) : Type 0 where
  pub kind : RouteKind
  pub prefix_length : ℕ
  pub protocol : ℕ
  pub flags : ℕ
  pub attributes : List (Attribute X)
  pub fields : X

pub data LookupError : Type 0 where
  unreachable no_live_hop : LookupError

-- RTNH_F_DEAD is bit 0, RTNH_F_PERVASIVE bit 1 and RTNH_F_ONLINK bit 2, in routes as in hops.
abbrev pub flag : ℕ → ℕ → Bool
flag n flags = flags / 2 ^ n % 2 == 1

-- `flags & (Onlink | Pervasive)`
abbrev pub creation_flags : ℕ → ℕ
creation_flags flags = flags / 2 ^ 1 % 2 ^ 2 * 2 ^ 1

abbrev pub is_reachable : RouteKind → Bool
is_reachable unicast = true
is_reachable local = true
is_reachable (other_kind n) = false

abbrev pub host_length : IpAddr → ℕ
host_length ip = if is_ipv4 ip then 32 else 128

module _ {X : Type 0} where
  abbrev pub is_live : NextHop X → Bool
  is_live hop = not (flag 0 hop.flags)

  abbrev pub without_hop_status : NextHop X → NextHop X
  without_hop_status hop = record hop { flags = creation_flags hop.flags }

  -- One round of the loop over the attributes
  abbrev pub live_hops : Attribute X → Result LookupError (Attribute X)
  live_hops (multi_path hops) =
      let live = keep is_live hops in
      if is_empty live then err no_live_hop else ok (multi_path (map without_hop_status live))
  live_hops attr = ok attr

  unfoldable pub live_attributes : List (Attribute X) → Result LookupError (List (Attribute X))
  live_attributes [] = ok []
  live_attributes (attr ∷ attrs) = do
    first ← live_hops attr
    rest ← live_attributes attrs
    ok (first ∷ rest)

  -- What `retain` keeps
  abbrev pub is_kept : Attribute X → Bool
  is_kept (destination ip) = false
  is_kept (multi_path hops) = true
  is_kept (status s x) = false
  is_kept (other x) = true

  unfoldable pub from_route : IpAddr → RouteMessage X → Result LookupError (RouteMessage X)
  unfolding live_attributes
  from_route ip found = if not (is_reachable found.kind) then err unreachable else do
    attrs ← live_attributes found.attributes
    ok (record found {
      prefix_length = host_length ip;
      protocol = static_protocol;
      flags = creation_flags found.flags;
      attributes = keep is_kept attrs ++ destination ip ∷ [];
    })
