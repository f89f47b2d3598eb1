-- ===== src/MacRoutes/Backup.antt =====
-- The messages that restore a route in wg-kotlin-daemon-rust/daemon/src/platform/routes_macos.rs
-- stand for the route that they were made from.
use wg_kotlin.Base.{
  ℕ, zero, suc, ◌+◌, ◌*◌, ◌^◌, ◌≤◌, ◌<◌, ◌≡◌, refl, sym, ap, ◌∙◌, subst, ◌≢◌, Option, none, some,
  List, [], ◌∷◌, ◌++◌, append-nil, append_assoc, arith, leb, ◌==◌, length, All, ok, bound,
  ok-injective, unguarded,
}
use wg_kotlin.RoutingMessage.{
  Header, InRange, Layout, IsLayout, bit, link_address, append, block, header, addresses,
}
use wg_kotlin.RoutingMessage.Addresses.{
  IsSlot, slot_bits, appended, header-write, addresses-write, header-InRange, addresses-IsSlot,
}
use wg_kotlin.RoutingMessage.Endpoint.{slot}
use wg_kotlin.MacRoutes.{Operation, rtm_add, rtm_delete}
use wg_kotlin.MacRoutes.Snapshot.{
  key, same_path, message, restoring, without_status, set_slot, append_slots, code, metrics,
}

append_slots_lem :
    (bytes : List ℕ) (slots : List (Option (List ℕ)))
    → append_slots bytes slots ≡ bytes ++ appended slots
unfolding append
append_slots_lem bytes [] = sym (append-nil bytes)
append_slots_lem bytes (none ∷ slots) = append_slots_lem bytes slots
append_slots_lem bytes (some address ∷ slots) =
    append_slots_lem (bytes ++ block address) slots
    ∙ append_assoc bytes (block address) (appended slots)

-- Setting a slot leaves the others as they are.
slot-set_slot :
    (n m : ℕ) (address : List ℕ) (slots : List (Option (List ℕ)))
    → n ≢ m
    → slot n (set_slot m address slots) ≡ slot n slots
slot-set_slot n m address [] h = refl
slot-set_slot zero zero address (value ∷ slots) h = absurd (h refl)
slot-set_slot zero (suc m) address (value ∷ slots) h = refl
slot-set_slot (suc n) zero address (value ∷ slots) h = refl
slot-set_slot (suc n) (suc m) address (value ∷ slots) h =
    slot-set_slot n m address slots (λ e. h (ap suc e))

set_slot-IsSlot :
    (n : ℕ) (address : List ℕ) (slots : List (Option (List ℕ)))
    → IsSlot (some address)
    → All IsSlot slots
    → All IsSlot (set_slot n address slots)
set_slot-IsSlot n address [] good h = tt
set_slot-IsSlot zero address (value ∷ slots) good h = (good, h.1)
set_slot-IsSlot (suc n) address (value ∷ slots) good h =
    (h.0, set_slot-IsSlot n address slots good h.1)

length-set_slot :
    (n : ℕ) (address : List ℕ) (slots : List (Option (List ℕ)))
    → length (set_slot n address slots) ≡ length slots
length-set_slot n address [] = refl
length-set_slot zero address (value ∷ slots) = refl
length-set_slot (suc n) address (value ∷ slots) = ap suc (length-set_slot n address slots)

slot-same :
    (n : ℕ) (address : List ℕ) (slots : List (Option (List ℕ)))
    → n < length slots
    → slot n (set_slot n address slots) ≡ some address
slot-same n address [] h = absurd (omega arith)
slot-same zero address (value ∷ slots) h = refl
slot-same (suc n) address (value ∷ slots) h = slot-same n address slots (omega arith)

code-bound : (operation : Operation) → code operation < 2 ^ 8
code-bound rtm_add = omega arith
code-bound rtm_delete = omega arith

metrics-bound : (operation : Operation) → metrics operation < 2 ^ 32
metrics-bound rtm_add = omega arith
metrics-bound rtm_delete = omega arith

double : (n : ℕ) → 2 ^ suc n ≡ 2 * 2 ^ n
double n = omega arith

slot_bits-bound : (slots : List (Option (List ℕ))) → slot_bits slots < 2 ^ length slots
slot_bits-bound [] = omega arith
slot_bits-bound (none ∷ slots) = omega (arith, slot_bits-bound slots, double (length slots))
slot_bits-bound (some address ∷ slots) = omega (arith, slot_bits-bound slots, double (length slots))

-- RTF_GATEWAY, RTF_HOST, RTF_REJECT, RTF_BLACKHOLE and RTF_IFSCOPE are kept.
bit-without_status :
    (x : ℕ)
    → (bit 1 (without_status x) ≡ bit 1 x)
      × (bit 2 (without_status x) ≡ bit 2 x)
      × (bit 3 (without_status x) ≡ bit 3 x)
      × (bit 12 (without_status x) ≡ bit 12 x)
      × (bit 24 (without_status x) ≡ bit 24 x)
bit-without_status x = (
  ap (λ (n : ℕ). n == 1) (omega arith),
  ap (λ (n : ℕ). n == 1) (omega arith),
  ap (λ (n : ℕ). n == 1) (omega arith),
  ap (λ (n : ℕ). n == 1) (omega arith),
  ap (λ (n : ℕ). n == 1) (omega arith),
)

without_status-le : (x : ℕ) → without_status x ≤ x
without_status-le x = omega arith

-- What is read from a snapshot `bytes` and from the message `sent` that was made from it.
record Restored {Rest : Type 0} (layout : Layout Rest) (bytes sent : List ℕ) : Type 0 where
  h : Header Rest
  h' : Header Rest
  slots : List (Option (List ℕ))
  slots' : List (Option (List ℕ))
  head : header layout bytes ≡ ok h
  head' : header layout sent ≡ ok h'
  read : addresses layout bytes h ≡ ok slots
  read' : addresses layout sent h' ≡ ok slots'
  index : h'.index ≡ h.index
  flags : h'.flags ≡ without_status h.flags
  kept : (n : ℕ) → n ≢ 4 → slot n slots' ≡ slot n slots
  interface : slot 4 slots' ≡ some (link_address h.index)

module _ {Rest : Type 0} (layout : Layout Rest) (libc : IsLayout layout) where
  restoring-InRange :
      (h : Header Rest) (slots : List (Option (List ℕ))) (operation : Operation) (size : ℕ)
      → InRange h
      → length slots ≡ 8
      → size < 2 ^ 16
      → InRange (restoring layout h slots operation size)
  restoring-InRange h slots operation size range eight small = record {
    msglen = small;
    version = range.version;
    kind = code-bound operation;
    index = range.index;
    flags = omega (arith, without_status-le h.flags, range.flags);
    addrs = omega (arith, subst (λ (n : ℕ). slot_bits slots < 2 ^ n) eight (slot_bits-bound slots));
    pid = range.pid;
    seq = range.seq;
    errno = omega arith;
    inits = metrics-bound operation;
    mtu = range.mtu;
    hopcount = range.hopcount;
  }

  message-Restored :
      (bytes sent : List ℕ) (operation : Operation)
      → message layout bytes operation ≡ ok sent
      → Restored layout bytes sent
  unfolding message link_address
  message-Restored bytes sent operation made =
      let (h, head, e) = bound (header layout bytes) made in
      let (here, e') = unguarded (h.index == 0) _ e in
      let (own, e'') = unguarded (bit 27 h.flags) _ e' in
      let (attrs, read, e₃) = bound (addresses layout bytes h) e'' in
      let slots : List (Option (List ℕ)) = set_slot 4 (link_address h.index) attrs in
      let size : ℕ = layout.size + length (append_slots [] slots) in
      let (small, e₄) = unguarded (leb (2 ^ 16) size) _ e₃ in
      let h' : Header Rest = restoring layout h slots operation size in
      let ours : All IsSlot attrs × (length attrs ≡ 8) =
        addresses-IsSlot layout libc bytes h attrs read in
      let eight : length slots ≡ 8 = length-set_slot 4 (link_address h.index) attrs ∙ ours.1 in
      let good : All IsSlot slots = set_slot-IsSlot 4 (link_address h.index) attrs refl ours.0 in
      let range : InRange h' =
        restoring-InRange h slots operation size (header-InRange layout libc bytes h head) eight
          (ground (arith, small)) in
      let whole : layout.write h' ++ (appended slots ++ []) ≡ sent =
        ap (λ (rest : List ℕ). layout.write h' ++ rest) (append-nil (appended slots))
        ∙ sym (append_slots_lem (layout.write h') slots)
        ∙ ok-injective e₄ in
      subst (Restored layout bytes) whole (record {
        h = h;
        h' = h';
        slots = attrs;
        slots' = slots;
        head = head;
        head' = header-write layout libc h' (appended slots ++ []) range;
        read = read;
        read' = addresses-write layout libc h' slots [] good eight refl;
        index = refl;
        flags = refl;
        kept = λ n n4. slot-set_slot n 4 (link_address h.index) attrs n4;
        interface = slot-same 4 (link_address h.index) attrs (omega (arith, ours.1));
      })

  key-Restored :
      (bytes sent : List ℕ) → Restored layout bytes sent → key layout sent ≡ key layout bytes
  unfolding key
  key-Restored bytes sent r =
      let bits = bit-without_status r.h.flags in
      rw
        (
          r.head',
          r.head,
          r.read',
          r.read,
          r.kept 0 (λ e. cc),
          r.kept 2 (λ e. cc),
          r.flags,
          bits.1,
          bits.4,
          r.index,
        )
        refl

  same_path-Restored :
      (bytes sent other : List ℕ)
      → Restored layout bytes sent
      → same_path layout sent other ≡ same_path layout bytes other
  unfolding same_path
  same_path-Restored bytes sent other r =
      let bits = bit-without_status r.h.flags in
      rw
        (
          r.head',
          r.head,
          r.read',
          r.read,
          key-Restored bytes sent r,
          r.kept 1 (λ e. cc),
          r.kept 5 (λ e. cc),
          r.flags,
          bits.0,
          bits.2,
          bits.3,
          r.index,
        )
        refl

  -- The message that restores a route stands for the same destination, and takes the same path as
  -- the route does.
  pub message_keeps_route :
      (bytes sent : List ℕ) (operation : Operation)
      → message layout bytes operation ≡ ok sent
      → (key layout sent ≡ key layout bytes)
        × ((other : List ℕ) → same_path layout sent other ≡ same_path layout bytes other)
  message_keeps_route bytes sent operation made =
      let r : Restored layout bytes sent = message-Restored bytes sent operation made in
      (key-Restored bytes sent r, λ other. same_path-Restored bytes sent other r)
