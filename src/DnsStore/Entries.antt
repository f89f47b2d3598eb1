-- ===== src/DnsStore/Entries.antt =====
-- What the DNS entries of an interface are after they were set or cleared.
use wg_kotlin.Base.{
  ℕ, ◌≡◌, refl, ap, ◌∙◌, ◌≢◌, inl, inr, true, Option, none, some, List, [], ◌∷◌, arith, ◌==◌,
  if◌then◌else◌, ==_iff, Bool-cases, length, is_empty, length-append, All, Result, ok, err,
}
use wg_kotlin.Text.{Str, codes}
use wg_kotlin.DnsStore.{
  DynamicStore, DnsError, noted, sc_status_no_key, root_key, dns_key, resolver_keys, Done, read,
  copy_value, compared, compare_each, after_set, set_values, checked_gone, after_remove,
  before_remove, remove_value, remove_each, remove_values, dns_values, opened_set, set_dns_entries,
  opened_clear, clear_dns_entries,
}

module _ {W V : Type 0} (store : DynamicStore W V) (lookup : W → Str → Option V) where
  abbrev pub Same : W → W → Type 0
  Same w w' = (k : Str) → lookup w' k ≡ lookup w k

  abbrev pub Elsewhere : Str → W → W → Type 0
  Elsewhere k w w' = (j : Str) → j ≢ k → lookup w' j ≡ lookup w j

  abbrev pub Copied : Str → W → Result ℕ V × W → Type 0
  Copied k w (ok value, w') = (lookup w k ≡ some value) × Same w w'
  Copied k w (err status, w') = ((status ≡ sc_status_no_key) → lookup w k ≡ none) × Same w w'

  -- What is relied on: opening and reading change nothing, and a value that is not there is told
  -- from one that cannot be read; a removal, carried out or not, leaves all other keys alone.
  pub record IsStore : Type 0 where
    pub creates : (w : W) → Same w (store.create w).1
    pub copies : (k : Str) (w : W) → Copied k w (store.copy k w)
    pub removes : (k : Str) (w : W) → Elsewhere k w (store.remove k w).1

  -- A removal that succeeds has left no value.
  abbrev pub Removed : Str → W → Result DnsError (Unit {0}) × W → Type 0
  Removed k w (ok u, w') = Elsewhere k w w' × (lookup w' k ≡ none)
  Removed k w (err e, w') = Elsewhere k w w'

  Read : Str → W → Result DnsError (Option V) × W → Type 0
  Read k w (ok value, w') = (lookup w k ≡ value) × Same w w'
  Read k w (err e, w') = Same w w'

  module _ (laws : IsStore) where
    copy_value-Read : (k : Str) (w : W) → Read k w (copy_value store k w)
    unfolding Read copy_value
    copy_value-Read k w = go (store.copy k w) (laws.copies k w)
      where
        go : (p : Result ℕ V × W) → Copied k w p → Read k w (read store k p)
        go (ok value, w') copied = copied
        go (err status, w') copied = elim (Bool-cases (status == sc_status_no_key)) [
          | inl missing ↦
              rw missing (copied.0 ((==_iff status sc_status_no_key).0 missing), copied.1)
          | inr failed ↦ rw failed copied.1
        ]

    checked_gone-Removed :
        (k : Str) (w : W) (p : Result DnsError (Option V) × W)
        → Read k w p
        → Removed k w (checked_gone store k p)
    unfolding Read
    checked_gone-Removed k w (err e, w') r = λ j h. r j
    checked_gone-Removed k w (ok none, w') r = (λ j h. r.1 j, r.1 k ∙ r.0)
    checked_gone-Removed k w (ok (some value), w') r = λ j h. r.1 j

    Removed-after :
        (k : Str) (u w : W) (p : Result DnsError (Unit {0}) × W)
        → Elsewhere k u w
        → Removed k w p
        → Removed k u p
    Removed-after k u w (ok v, w') before (other, gone) = (λ j h. other j h ∙ before j h, gone)
    Removed-after k u w (err e, w') before other = λ j h. other j h ∙ before j h

    after_remove-Removed :
        (k : Str) (w : W) (p : Result ℕ (Unit {0}) × W)
        → Elsewhere k w p.1
        → Removed k w (after_remove store k p)
    after_remove-Removed k w (ok u, w') other =
        Removed-after k w w' (checked_gone store k (copy_value store k w')) other
          (checked_gone-Removed k w' (copy_value store k w') (copy_value-Read k w'))
    after_remove-Removed k w (err status, w') other =
        elim (Bool-cases (status == sc_status_no_key)) [
          | inl missing ↦ rw missing (
              Removed-after k w w' (checked_gone store k (copy_value store k w')) other
                (checked_gone-Removed k w' (copy_value store k w') (copy_value-Read k w')))
          | inr failed ↦ rw failed other
        ]

    remove_value-Removed : (k : Str) (w : W) → Removed k w (remove_value store k w)
    unfolding remove_value Read
    remove_value-Removed k w = go (copy_value store k w) (copy_value-Read k w)
      where
        go :
            (p : Result DnsError (Option V) × W)
            → Read k w p
            → Removed k w (before_remove store k p)
        go (err e, w') r = λ j h. r j
        go (ok none, w') r = (λ j h. r.1 j, r.1 k ∙ r.0)
        go (ok (some value), w') r =
            Removed-after k w w' (after_remove store k (store.remove k w')) (λ j h. r.1 j)
              (after_remove-Removed k w' (store.remove k w') (laws.removes k w'))

  -- The entries of all others are as they were.
  abbrev pub Others : Str → W → W → Type 0
  Others interface w w' =
      (j : Str) → j ≢ dns_key interface → j ≢ root_key interface → lookup w' j ≡ lookup w j

  -- A clear that succeeds has left neither entry; one that fails says why.
  abbrev pub Cleared : Str → W → Done store → Type 0
  Cleared interface w (ok u, w') =
      Others interface w w'
      × (lookup w' (dns_key interface) ≡ none)
      × (lookup w' (root_key interface) ≡ none)
  Cleared interface w (err errors, w') = Others interface w w' × (errors ≢ [])

  dns_key-differs : (interface : Str) → dns_key interface ≢ root_key interface
  dns_key-differs interface e =
      absurd (omega (arith, ap length e, length-append (root_key interface) (codes "/DNS")))

  module _ (laws : IsStore) where
    both-Removed :
        (interface : Str) (w : W) (p q : Result DnsError (Unit {0}) × W)
        → Removed (dns_key interface) w p
        → Removed (root_key interface) p.1 q
        → let errors = noted q.0 (noted p.0 []) in
          Cleared interface w (if is_empty errors then ok tt else err errors, q.1)
    both-Removed interface w (ok u, w₁) (ok v, w₂) a b = (
      (λ j d r. b.0 j r ∙ a.0 j d),
      b.0 (dns_key interface) (dns_key-differs interface) ∙ a.1,
      b.1,
    )
    both-Removed interface w (ok u, w₁) (err f, w₂) a b = ((λ j d r. b j r ∙ a.0 j d), λ e. cc)
    both-Removed interface w (err e, w₁) (ok v, w₂) a b = ((λ j d r. b.0 j r ∙ a j d), λ e. cc)
    both-Removed interface w (err e, w₁) (err f, w₂) a b = ((λ j d r. b j r ∙ a j d), λ e. cc)

    Cleared-after :
        (interface : Str) (u w : W) (p : Done store)
        → Same u w
        → Cleared interface w p
        → Cleared interface u p
    Cleared-after interface u w (ok v, w') same (others, gone, gone') =
        ((λ j d r. others j d r ∙ same j), gone, gone')
    Cleared-after interface u w (err e, w') same (others, why) =
        ((λ j d r. others j d r ∙ same j), why)

    -- In a store where opening and reading change nothing and a removal leaves all other keys alone,
    -- clearing touches no entry but the two of the interface. If it succeeds, both are gone, and if
    -- not, there is an error to report.
    pub clear_dns_entries-Cleared :
        (interface : Str) (w : W) → Cleared interface w (clear_dns_entries store interface w)
    unfolding clear_dns_entries remove_values remove_each
    clear_dns_entries-Cleared interface w = go (store.create w) (laws.creates w)
      where
        go :
            (p : Result ℕ (Unit {0}) × W)
            → Same w p.1
            → Cleared interface w (opened_clear store (resolver_keys interface) p)
        go (err status, w') same = ((λ j d r. same j), λ e. cc)
        go (ok u, w') same =
            let d : Str = dns_key interface in
            let r : Str = root_key interface in
            let p = remove_value store d w' in
            Cleared-after interface w w' (remove_values store (resolver_keys interface) w') same (
              both-Removed interface w' p (remove_value store r p.1)
                (remove_value-Removed laws d w') (remove_value-Removed laws r p.1))

    -- The value of each key is one that is the same as was set.
    abbrev pub Stored : W → Str × V → Type 0
    Stored w entry =
        (value : V) × (lookup w entry.0 ≡ some value) × (store.same value entry.1 ≡ true)

    abbrev pub SetDone : List (Str × V) → Result DnsError (Unit {0}) × W → Type 0
    SetDone values (ok u, w) = All (Stored w) values
    SetDone values (err e, w) = Unit {0}

    compare_each-SetDone :
        (values : List (Str × V)) (w : W)
        → SetDone values (compare_each store values w) × Same w (compare_each store values w).1
    unfolding compare_each Read
    compare_each-SetDone [] w = (tt, λ j. refl)
    compare_each-SetDone ((key, expected) ∷ values) w =
        go (copy_value store key w) (copy_value-Read laws key w)
          (λ w'. compare_each-SetDone values w')
      where
        join :
            (w' : W) (value : V) (p : Result DnsError (Unit {0}) × W)
            → (lookup w key ≡ some value) × Same w w'
            → store.same value expected ≡ true
            → SetDone values p × Same w' p.1
            → SetDone ((key, expected) ∷ values) p × Same w p.1
        join w' value (ok u, w'') r same (stored, kept) =
            (((value, kept key ∙ r.1 key ∙ r.0, same), stored), λ j. kept j ∙ r.1 j)
        join w' value (err e, w'') r same (stored, kept) = (tt, λ j. kept j ∙ r.1 j)

        go :
            (p : Result DnsError (Option V) × W)
            → Read key w p
            → ((w' : W)
                → SetDone values (compare_each store values w')
                  × Same w' (compare_each store values w').1)
            → SetDone
                ((key, expected) ∷ values)
                (compared store key expected (compare_each store values) p)
              × Same w (compared store key expected (compare_each store values) p).1
        go (err e, w') r later = (tt, r)
        go (ok none, w') r later = (tt, r.1)
        go (ok (some value), w') r later = elim (Bool-cases (store.same value expected)) [
          | inl same ↦ rw same (join w' value (compare_each store values w') r same (later w'))
          | inr other ↦ rw other (tt, r.1)
        ]

    pub set_dns_entries-Stored :
        (interface : Str) (servers domains : List Str) (w : W)
        → SetDone
            (dns_values store interface servers domains)
            (set_dns_entries store interface servers domains w)
    unfolding set_dns_entries set_values
    set_dns_entries-Stored interface servers domains w = opened (store.create w)
      where
        set :
            (p : Result ℕ (Unit {0}) × W)
            → SetDone
                (dns_values store interface servers domains)
                (after_set store (dns_values store interface servers domains) p)
        set (err status, w') = tt
        set (ok u, w') = (compare_each-SetDone (dns_values store interface servers domains) w').0

        opened :
            (p : Result ℕ (Unit {0}) × W)
            → SetDone
                (dns_values store interface servers domains)
                (opened_set store (dns_values store interface servers domains) p)
        opened (err status, w') = tt
        opened (ok u, w') = set (store.set_multiple (dns_values store interface servers domains) w')
