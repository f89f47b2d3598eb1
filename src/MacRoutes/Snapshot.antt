-- ===== src/MacRoutes/Snapshot.antt =====
-- The type `Snapshot` of wg-kotlin-daemon-rust/daemon/src/platform/routes_macos.rs: a route kept as
-- the bytes of a routing message, its key, the path it takes, and the message that restores it.
use wg_kotlin.Base.{
  ℕ, zero, suc, ◌+◌, ◌-◌, ◌*◌, ◌/◌, ◌%◌, ◌^◌, bit_and, Bool, true, false, not, ◌&&◌, ◌||◌, Option,
  none, some, List, [], ◌∷◌, leb, ◌==◌, if◌then◌else◌, length, replicate, Result, ok, err, ◌>>=◌,
  ok_or,
}
use wg_kotlin.RoutingMessage.{
  RouteError, Header, Layout, bit, add_code, delete_code, af_link, link_address, append, header,
  addresses, no_destination, invalid_destination, no_interface, proxy_route, message_too_long,
}
use wg_kotlin.RoutingMessage.Addresses.{slot_bits}
use wg_kotlin.RoutingMessage.Endpoint.{slot, family_of}
use wg_kotlin.Platform.Routes.{octets_eq}
use wg_kotlin.MacRoutes.{Operation, rtm_add, rtm_delete}
use wg_kotlin.MacRoutes.Address.{address_bytes, same_address}

pub record RouteKey : Type 0 where
  pub family : ℕ
  pub destination : List ℕ
  pub mask : List ℕ
  pub host : Bool
  pub scope : ℕ

abbrev pub bool_eq : Bool → Bool → Bool
bool_eq true b = b
bool_eq false b = not b

-- `==` on keys, which is derived
unfoldable pub key_eq : RouteKey → RouteKey → Bool
key_eq a b =
    a.family == b.family
    && (octets_eq a.destination b.destination
        && (octets_eq a.mask b.mask && (bool_eq a.host b.host && a.scope == b.scope)))

-- `*byte &= mask` over both lists
abbrev pub masked : List ℕ → List ℕ → List ℕ
masked (b ∷ bytes) (m ∷ mask) = bit_and b m ∷ masked bytes mask
masked bytes _ = bytes

abbrev or_empty : Option (List ℕ) → List ℕ
or_empty none = []
or_empty (some bytes) = bytes

-- `x & !(1 << n)`
abbrev pub clear : ℕ → ℕ → ℕ
clear n x = x - x / 2 ^ n % 2 * 2 ^ n

-- RTF_DONE, RTF_CONDEMNED, RTF_IFREF and RTF_DEAD are what the kernel sets.
abbrev pub without_status : ℕ → ℕ
without_status flags = clear 6 (clear 25 (clear 26 (clear 29 flags)))

-- `slots[index] = Some(address)`
abbrev pub set_slot : ℕ → List ℕ → List (Option (List ℕ)) → List (Option (List ℕ))
set_slot n address [] = []
set_slot zero address (value ∷ slots) = some address ∷ slots
set_slot (suc n) address (value ∷ slots) = value ∷ set_slot n address slots

-- The loop that appends the addresses; their bits are `slot_bits`.
abbrev pub append_slots : List ℕ → List (Option (List ℕ)) → List ℕ
append_slots bytes [] = bytes
append_slots bytes (none ∷ slots) = append_slots bytes slots
append_slots bytes (some address ∷ slots) = append_slots (append bytes address) slots

abbrev pub code : Operation → ℕ
code rtm_add = add_code
code rtm_delete = delete_code

-- All eight metrics are set by RTM_ADD: RTV_MTU to RTV_RTTVAR.
abbrev pub metrics : Operation → ℕ
metrics rtm_add = 2 ^ 8 - 1
metrics rtm_delete = 0

abbrev is_link : List ℕ → Bool
is_link address = elim (family_of address) [ none ↦ false | some family ↦ family == af_link ]

-- Gateways that are both interfaces are equal here, as the interface is compared by its index.
abbrev pub gateway_equal : Option (List ℕ) → Option (List ℕ) → Result RouteError Bool
gateway_equal (some a) (some b) = if is_link a && is_link b then ok true else same_address a b
gateway_equal none none = ok true
gateway_equal _ _ = ok false

abbrev pub source_equal : Option (List ℕ) → Option (List ℕ) → Result RouteError Bool
source_equal left none = ok true
source_equal (some a) (some b) = same_address a b
source_equal none (some b) = ok false

module _ {Rest : Type 0} (layout : Layout Rest) where
  abbrev pub key_of : Header Rest → List (Option (List ℕ)) → Result RouteError RouteKey
  key_of h slots = do
    dst ← ok_or (slot 0 slots) no_destination
    family ← ok_or (family_of dst) invalid_destination
    destination ← address_bytes dst family
    mask ←
        (if bit 2 h.flags
          then ok (replicate (length destination) 255)
          else address_bytes (or_empty (slot 2 slots)) family)
    ok (record {
      family = family;
      destination = masked destination mask;
      mask = mask;
      host = bit 2 h.flags;
      scope = if bit 24 h.flags then h.index else 0;
    })

  -- `Snapshot::key`
  unfoldable pub key : List ℕ → Result RouteError RouteKey
  key bytes = do h ← header layout bytes; slots ← addresses layout bytes h; key_of h slots

  -- RTF_GATEWAY, RTF_REJECT and RTF_BLACKHOLE
  abbrev pub same_flags : ℕ → ℕ → Bool
  same_flags a b =
      bool_eq (bit 1 a) (bit 1 b) && (bool_eq (bit 3 a) (bit 3 b) && bool_eq (bit 12 a) (bit 12 b))

  -- `Snapshot::same_path`
  unfoldable pub same_path : List ℕ → List ℕ → Result RouteError Bool
  same_path this other = do
    left ← header layout this
    right ← header layout other
    left_attrs ← addresses layout this left
    right_attrs ← addresses layout other right
    this_key ← key this
    other_key ← key other
    (if not (key_eq this_key other_key)
          || (not (left.index == right.index) || not (same_flags left.flags right.flags))
        then ok false
        else do
          gateways ← gateway_equal (slot 1 left_attrs) (slot 1 right_attrs)
          sources ← source_equal (slot 5 left_attrs) (slot 5 right_attrs)
          ok (gateways && sources))

  abbrev pub restoring : Header Rest → List (Option (List ℕ)) → Operation → ℕ → Header Rest
  restoring h slots operation size = record h {
    msglen = size;
    kind = code operation;
    errno = 0;
    addrs = slot_bits slots;
    flags = without_status h.flags;
    inits = metrics operation;
  }

  -- `Snapshot::message`; the fields are written into the copy of the header.
  unfoldable pub message : List ℕ → Operation → Result RouteError (List ℕ)
  message bytes operation = do
    h ← header layout bytes
    (if h.index == 0 then err no_interface else if bit 27 h.flags then err proxy_route else do
      attrs ← addresses layout bytes h
      (let slots = set_slot 4 (link_address h.index) attrs in
          let size = layout.size + length (append_slots [] slots) in
          if leb (2 ^ 16) size
          then err message_too_long
          else ok (append_slots (layout.write (restoring h slots operation size)) slots)))
