-- ===== src/RoutingMessage/Addresses.antt =====
-- The socket addresses of a routing message: what `append` wrote is what `addresses` reads.
use wg_kotlin.Base.{
  ℕ, zero, suc, ◌+◌, ◌-◌, ◌*◌, ◌/◌, ◌%◌, ◌≤◌, ◌≡◌, refl, sym, ap, ◌∙◌, subst, inl, inr, false,
  Option, none, some, List, [], ◌∷◌, ◌++◌, append_assoc, arith, ltb, ◌==◌, Bool-cases, length, take,
  drop, replicate, length-append, length-take, take-append, drop-append, All, ok, bound,
  ok-injective, unguarded,
}
use wg_kotlin.RoutingMessage.{
  Header, InRange, Layout, IsLayout, header, addresses, padded_size, block, next_address,
  addresses_from,
}

abbrev first : List ℕ → ℕ
first [] = 0
first (b ∷ bytes) = b

-- A socket address begins with its length. The empty one is what a length of 0 stands for.
abbrev pub IsAddress : List ℕ → Type 0
IsAddress address = first address ≡ length address

abbrev pub IsSlot : Option (List ℕ) → Type 0
IsSlot none = Unit
IsSlot (some address) = IsAddress address

-- The bits of the slots that are there, and their addresses one after the other.
abbrev pub slot_bits : List (Option (List ℕ)) → ℕ
slot_bits [] = 0
slot_bits (none ∷ slots) = 2 * slot_bits slots
slot_bits (some address ∷ slots) = 1 + 2 * slot_bits slots

abbrev pub appended : List (Option (List ℕ)) → List ℕ
appended [] = []
appended (none ∷ slots) = appended slots
appended (some address ∷ slots) = block address ++ appended slots

length-replicate {ℓ} : {A : Type ℓ} (a : A) (n : ℕ) → length (replicate n a) ≡ n
length-replicate a zero = refl
length-replicate a (suc n) = ap suc (length-replicate a n)

pub length-block : (address : List ℕ) → length (block address) ≡ padded_size (length address)
length-block address =
    let n : ℕ = length address in
    let a : length (block address) ≡ n + length {A = ℕ} (replicate (padded_size n - n) 0) =
      length-append address (replicate (padded_size n - n) 0) in
    let b : length {A = ℕ} (replicate (padded_size n - n) 0) ≡ padded_size n - n =
      length-replicate 0 (padded_size n - n) in
    omega (arith, a, b)

-- A block begins with the length of its address.
block-cons :
    (address rest : List ℕ)
    → IsAddress address
    → (bytes : List ℕ) × (block address ++ rest ≡ length address ∷ bytes)
block-cons [] rest e = (0 ∷ 0 ∷ 0 ∷ rest, refl)
block-cons (b ∷ address) rest e =
    let zeros : List ℕ = replicate (padded_size (length (b ∷ address)) - length (b ∷ address)) 0 in
    ((address ++ zeros) ++ rest, ap (λ n. n ∷ (address ++ zeros) ++ rest) e)

next_address-cons :
    (size : ℕ) (bytes : List ℕ)
    → padded_size size ≤ length (size ∷ bytes)
    → next_address (size ∷ bytes)
      ≡ ok (take size (size ∷ bytes), drop (padded_size size) (size ∷ bytes))
next_address-cons size bytes le =
    let e : ltb (length (size ∷ bytes)) (padded_size size) ≡ false = ground (arith, le) in rw e refl

take-block : (address rest : List ℕ) → take (length address) (block address ++ rest) ≡ address
take-block address rest =
    let zeros : List ℕ = replicate (padded_size (length address) - length address) 0 in
    subst (λ (bytes : List ℕ). take (length address) bytes ≡ address)
      (sym (append_assoc address zeros rest)) (take-append address (zeros ++ rest))

drop-block :
    (address rest : List ℕ) → drop (padded_size (length address)) (block address ++ rest) ≡ rest
drop-block address rest =
    subst (λ (n : ℕ). drop n (block address ++ rest) ≡ rest) (length-block address)
      (drop-append (block address) rest)

pub next_address-block :
    (address rest : List ℕ)
    → IsAddress address
    → next_address (block address ++ rest) ≡ ok (address, rest)
next_address-block address rest h =
    let n : ℕ = length address in
    let (bytes, e) = block-cons address rest h in
    let long : padded_size n ≤ length (n ∷ bytes) =
      subst (λ (whole : List ℕ). padded_size n ≤ length whole) e
        (omega (arith, length-append (block address) rest, length-block address)) in
    let step : next_address (block address ++ rest)
        ≡ ok (take n (n ∷ bytes), drop (padded_size n) (n ∷ bytes)) =
      ap next_address e ∙ next_address-cons n bytes long in
    let t : take n (n ∷ bytes) ≡ address = ap (take n) (sym e) ∙ take-block address rest in
    let d : drop (padded_size n) (n ∷ bytes) ≡ rest =
      ap (drop (padded_size n)) (sym e) ∙ drop-block address rest in
    step ∙ ap (λ x. ok (x, drop (padded_size n) (n ∷ bytes))) t ∙ ap (λ x. ok (address, x)) d

pub addresses_from-appended :
    (slots : List (Option (List ℕ))) (rest : List ℕ)
    → All IsSlot slots
    → addresses_from (length slots) (slot_bits slots) (appended slots ++ rest) ≡ ok slots
unfolding addresses_from
addresses_from-appended [] rest h = refl
addresses_from-appended (none ∷ slots) rest h =
    let n : ℕ = slot_bits slots in
    let even : 2 * n % 2 ≡ 0 = omega arith in
    let half : 2 * n / 2 ≡ n = omega arith in
    rw (even, half, addresses_from-appended slots rest h.1) refl
addresses_from-appended (some address ∷ slots) rest h =
    let n : ℕ = slot_bits slots in
    let odd : (1 + 2 * n) % 2 ≡ 1 = omega arith in
    let half : (1 + 2 * n) / 2 ≡ n = omega arith in
    let next : next_address ((block address ++ appended slots) ++ rest)
        ≡ ok (address, appended slots ++ rest) =
      ap next_address (append_assoc (block address) (appended slots) rest)
      ∙ next_address-block address (appended slots ++ rest) h.0 in
    rw (odd, half, next, addresses_from-appended slots rest h.1) refl

-- What was read is in the form that `append` writes.
next_address-IsAddress :
    (bytes address rest : List ℕ) → next_address bytes ≡ ok (address, rest) → IsAddress address
next_address-IsAddress [] address rest e = cc
next_address-IsAddress (size ∷ bytes) address rest e =
    let (long, same) = unguarded (ltb (length (size ∷ bytes)) (padded_size size)) _ e in
    subst IsAddress (ap (λ (p : List ℕ × List ℕ). p.0) (ok-injective same))
      (prefix size bytes (ground (arith, long)))
  where
    prefix :
        (size : ℕ) (bytes : List ℕ)
        → padded_size size ≤ length (size ∷ bytes)
        → IsAddress (take size (size ∷ bytes))
    prefix zero bytes fits = refl
    prefix (suc n) bytes fits = omega (arith, length-take n bytes)

addresses_from-IsSlot :
    (n addrs : ℕ) (bytes : List ℕ) (slots : List (Option (List ℕ)))
    → addresses_from n addrs bytes ≡ ok slots
    → All IsSlot slots × (length slots ≡ n)
unfolding addresses_from
addresses_from-IsSlot zero addrs bytes slots e =
    subst (λ (slots : List (Option (List ℕ))). All IsSlot slots × (length slots ≡ 0))
      (ok-injective e) (tt, refl)
addresses_from-IsSlot (suc n) addrs bytes slots e = elim (Bool-cases (addrs % 2 == 0)) [
  | inl even ↦
      let (values, read, e') = bound (addresses_from n (addrs / 2) bytes) (rw even at e) in
      let (slots', size) = addresses_from-IsSlot n (addrs / 2) bytes values read in
      done none values (ok-injective e') tt slots' size
  | inr odd ↦
      let ((value, rest), next, e') = bound (next_address bytes) (rw odd at e) in
      let (values, read, e'') = bound (addresses_from n (addrs / 2) rest) e' in
      let (slots', size) = addresses_from-IsSlot n (addrs / 2) rest values read in
      done (some value) values (ok-injective e'') (next_address-IsAddress bytes value rest next)
        slots' size
]
  where
    done :
        (value : Option (List ℕ)) (values : List (Option (List ℕ)))
        → value ∷ values ≡ slots
        → IsSlot value
        → All IsSlot values
        → length values ≡ n
        → All IsSlot slots × (length slots ≡ suc n)
    done value values same slot slots' size =
        subst (λ (slots : List (Option (List ℕ))). All IsSlot slots × (length slots ≡ suc n)) same
          ((slot, slots'), ap suc size)

module _ {Rest : Type 0} (layout : Layout Rest) (libc : IsLayout layout) where
  pub header-write :
      (h : Header Rest) (bytes : List ℕ)
      → InRange h
      → header layout (layout.write h ++ bytes) ≡ ok h
  unfolding header
  header-write h bytes range =
      let long : ltb (length (layout.write h ++ bytes)) layout.size ≡ false =
        ground (arith, length-append (layout.write h) bytes, libc.sized h) in
      rw long (ap ok (libc.reads_back h bytes range))

  pub drop-write :
      (h : Header Rest) (bytes : List ℕ) → drop layout.size (layout.write h ++ bytes) ≡ bytes
  drop-write h bytes =
      subst (λ (n : ℕ). drop n (layout.write h ++ bytes) ≡ bytes) (libc.sized h)
        (drop-append (layout.write h) bytes)

  pub addresses-write :
      (h : Header Rest) (slots : List (Option (List ℕ))) (rest : List ℕ)
      → All IsSlot slots
      → length slots ≡ 8
      → h.addrs ≡ slot_bits slots
      → addresses layout (layout.write h ++ (appended slots ++ rest)) h ≡ ok slots
  unfolding addresses
  addresses-write h slots rest good size bits =
      let bytes : List ℕ = appended slots ++ rest in
      ap (addresses_from 8 h.addrs) (drop-write h bytes)
      ∙ ap (λ (a : ℕ). addresses_from 8 a bytes) bits
      ∙ ap (λ (n : ℕ). addresses_from n (slot_bits slots) bytes) (sym size)
      ∙ addresses_from-appended slots rest good

  pub header-InRange : (bytes : List ℕ) (h : Header Rest) → header layout bytes ≡ ok h → InRange h
  unfolding header
  header-InRange bytes h read =
      subst InRange (ok-injective (unguarded (ltb (length bytes) layout.size) _ read).1)
        (libc.ranged bytes)

  pub addresses-IsSlot :
      (bytes : List ℕ) (h : Header Rest) (slots : List (Option (List ℕ)))
      → addresses layout bytes h ≡ ok slots
      → All IsSlot slots × (length slots ≡ 8)
  unfolding addresses
  addresses-IsSlot bytes h slots read =
      addresses_from-IsSlot 8 h.addrs (drop layout.size bytes) slots read
