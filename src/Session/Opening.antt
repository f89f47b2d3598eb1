-- ===== src/Session/Opening.antt =====
-- What the device of a validated configuration is opened with.
use wg_kotlin.Base.{
  ℕ, zero, suc, ◌%◌, ◌^◌, ◌≤◌, ◌<◌, ◌≡◌, refl, ap, ◌⊎◌, inl, inr, Bool, true, false, Option, none,
  some, List, [], ◌∷◌, ◌++◌, arith, lt→ltb, All,
}
use wg_kotlin.Base.Int.{ℤ, pos, negsuc, is_zero}
use wg_kotlin.Protocol.{
  Cidr, IpAddr, TunSessionConfig, parse_proto_cidr, parse_proto_cidr-Reads, host_prefix, IsCidr,
  Reads,
}
use wg_kotlin.Validation.{Os}
use wg_kotlin.Validation.Networks.{FitsMtu}
use wg_kotlin.Validation.Config.{IsConfig}
use wg_kotlin.Session.{
  BuilderCall, named, mtu, address_call, parsed_call, address_calls, mtu_calls, builder_calls,
}

-- The call that assigns exactly this network.
abbrev Assigns : Cidr → BuilderCall → Type 0
Assigns addr call =
    (ip : IpAddr) × (prefix : ℕ) × (parse_proto_cidr addr ≡ some (ip, prefix))
    × (prefix ≤ host_prefix ip)
    × (call ≡ address_call ip prefix)

abbrev pub AssignsAll : List Cidr → List BuilderCall → Type 0
AssignsAll [] [] = Unit
AssignsAll (addr ∷ addresses) (call ∷ calls) = Assigns addr call × AssignsAll addresses calls
AssignsAll _ _ = ⊥

-- The MTU that was asked for, whole; 0 asks for none.
abbrev pub SetsMtu : ℤ → List BuilderCall → Type 0
SetsMtu (pos z) calls = ((z ≡ 0) × (calls ≡ [])) ⊎ ((0 < z) × (calls ≡ mtu z ∷ []))
SetsMtu (negsuc z) calls = ⊥

small_prefix : (ip : IpAddr) → host_prefix ip < 256
small_prefix (IpAddr.v4 octets) = ground arith
small_prefix (IpAddr.v6 octets) = ground arith

network_call :
    (addr : Cidr)
    → IsCidr addr
    → (call : BuilderCall) × (parsed_call (parse_proto_cidr addr) ≡ some call) × Assigns addr call
network_call addr h = go (parse_proto_cidr addr) refl (parse_proto_cidr-Reads addr)
  where
    go :
        (o : Option (IpAddr × ℕ))
        → parse_proto_cidr addr ≡ o
        → Reads o (IsCidr addr)
        → (call : BuilderCall) × (parsed_call (parse_proto_cidr addr) ≡ some call)
          × Assigns addr call
    go none e reads = absurd (reads h)
    go (some (ip, prefix)) e reads =
        let small : prefix < 256 = ground (arith, small_prefix ip, reads.1 h) in
        (address_call ip prefix, ground (arith, e, small), (ip, prefix, e, reads.1 h, refl))

network_calls :
    (addresses : List Cidr)
    → All IsCidr addresses
    → (calls : List BuilderCall) × (address_calls addresses ≡ some calls)
      × AssignsAll addresses calls
unfolding address_calls
network_calls [] h = ([], refl, tt)
network_calls (addr ∷ addresses) (a, h) =
    let (call, e, assigns) = network_call addr a in
    let (calls, es, all_assign) = network_calls addresses h in
    (call ∷ calls, rw (e, es) refl, (assigns, all_assign))

abbrev is_neg : ℤ → Bool
is_neg (pos z) = false
is_neg (negsuc z) = true

mtu_kept : (n : ℕ) → 0 < n → n < 2 ^ 16 → mtu_calls (pos n) ≡ mtu n ∷ []
mtu_kept n positive small =
    let whole : n % 2 ^ 16 ≡ n = omega arith in rw (lt→ltb 0 n positive, whole) refl

sets_mtu :
    (m : ℤ) (networks : List Cidr) → ((m ≡ pos 0) ⊎ FitsMtu m networks) → SetsMtu m (mtu_calls m)
sets_mtu (pos zero) networks h = inl (refl, refl)
sets_mtu (pos (suc z)) networks (inl e) = absurd (ground (arith, ap is_zero e))
sets_mtu (pos (suc z)) networks (inr h) =
    inr (ground arith, mtu_kept (suc z) (ground arith) (ground arith))
sets_mtu (negsuc z) networks (inl e) = absurd (ground (arith, ap is_neg e))
sets_mtu (negsuc z) networks (inr h) = h

-- For a configuration that the validator accepts neither `unwrap` panics and the cast to 16 bits
-- loses nothing: the device gets the configured name, each configured network with a prefix in its
-- family's range, in order, and the MTU as configured, or none for 0.
pub builder_calls-IsConfig :
    (os : Os) (config : TunSessionConfig)
    → IsConfig os config
    → (calls last : List BuilderCall) × (builder_calls config
        ≡ some (named config.interface_name ∷ calls ++ last))
      × AssignsAll config.addresses calls
      × SetsMtu config.mtu last
unfolding builder_calls
builder_calls-IsConfig os config h =
    let (calls, e, assign) = network_calls config.addresses h.addresses in
    (calls, mtu_calls config.mtu, rw e refl, assign, sets_mtu config.mtu config.addresses h.mtu)
