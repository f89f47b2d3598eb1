-- ===== src/DnsStore.antt =====
-- The DNS entries of a session on macOS: wg-kotlin-daemon-rust/daemon/src/platform/dns_macos.rs. The
-- dynamic store of the system and its values are arguments.
pub mod Entries
use wg_kotlin.Base.{
  ℕ, zero, suc, ◌+◌, ◌-◌, ◌*◌, ◌/◌, ◌%◌, ◌^◌, ◌≤◌, ◌<◌, min, max, String, ◌≡◌, refl, sym, ap, ◌∙◌,
  subst, ◌≢◌, ◌↔◌, ◌⊎◌, inl, inr, Bool, true, false, not, ◌&&◌, ◌||◌, Option, none, some, List, [],
  ◌∷◌, ◌++◌, map, reverse, append-nil, append_assoc, reverse-append, reverse-reverse, arith, ltb,
  leb, ◌==◌, if◌then◌else◌, ltb→lt, lt→ltb, leb→le, ==_iff, tests, Bool-cases, Option-cases,
  and_iff, length, take, drop, replicate, all, any, keep, is_empty, is_empty_iff, length-append,
  length-take, length-drop, length-keep-le, take-append-drop, take-append, drop-append, All,
  All-append, All-left, All-right, All-reverse, All-unreverse, All-map, all_iff, Result, ok, err,
  ◌>>=◌, ◌>>◌, ok_or, map_err, Result-cases, bound, ok-injective, unguarded,
}
use wg_kotlin.Text.{Str, codes}

-- `SC_STATUS_NO_KEY`
abbrev pub sc_status_no_key : ℕ
sc_status_no_key = 1004

pub data DnsError : Type 0 where
  open_failed set_failed : ℕ → DnsError
  read_failed remove_failed : Str → ℕ → DnsError
  mismatch still_exists : Str → DnsError

-- Of SystemConfiguration: a call returns its value, or the status that `SCError` then reports.
-- `strings` and `named` are the values that `dns_values` makes.
pub record DynamicStore (W V : Type 0) : Type 0 where
  pub create : W → Result ℕ (Unit {0}) × W
  pub copy : Str → W → Result ℕ V × W
  pub set_multiple : List (Str × V) → W → Result ℕ (Unit {0}) × W
  pub remove : Str → W → Result ℕ (Unit {0}) × W
  pub same : V → V → Bool
  pub strings : List Str → List Str → V
  pub named : Str → V

abbrev pub root_key : Str → Str
root_key interface = codes "State:/Network/Interface/" ++ interface

abbrev pub dns_key : Str → Str
dns_key interface = root_key interface ++ codes "/DNS"

abbrev pub resolver_keys : Str → List Str
resolver_keys interface = dns_key interface ∷ root_key interface ∷ []

abbrev pub noted : Result DnsError (Unit {0}) → List DnsError → List DnsError
noted (ok u) errors = errors
noted (err e) errors = errors ++ e ∷ []

module _ {W V : Type 0} (store : DynamicStore W V) where
  abbrev pub Done : Type 0
  Done = Result (List DnsError) (Unit {0}) × W

  abbrev pub read : Str → Result ℕ V × W → Result DnsError (Option V) × W
  read key (ok value, w) = (ok (some value), w)
  read key (err status, w) =
      (if status == sc_status_no_key then ok none else err (read_failed key status), w)

  unfoldable pub copy_value : Str → W → Result DnsError (Option V) × W
  copy_value key w = read key (store.copy key w)

  abbrev pub compared :
      Str
      → V
      → (W → Result DnsError (Unit {0}) × W)
      → Result DnsError (Option V) × W
      → Result DnsError (Unit {0}) × W
  compared key expected go (err e, w) = (err e, w)
  compared key expected go (ok none, w) = (err (mismatch key), w)
  compared key expected go (ok (some value), w) =
      let later = go w in if store.same value expected then later else (err (mismatch key), w)

  -- The loop of `set_values` over what was set
  unfoldable pub compare_each : List (Str × V) → W → Result DnsError (Unit {0}) × W
  unfolding copy_value
  compare_each [] w = (ok tt, w)
  compare_each ((key, expected) ∷ values) w =
      compared key expected (compare_each values) (copy_value key w)

  abbrev pub after_set : List (Str × V) → Result ℕ (Unit {0}) × W → Result DnsError (Unit {0}) × W
  after_set values (ok u, w) = compare_each values w
  after_set values (err status, w) = (err (set_failed status), w)

  unfoldable pub set_values : List (Str × V) → W → Result DnsError (Unit {0}) × W
  unfolding compare_each
  set_values values w = after_set values (store.set_multiple values w)

  abbrev pub checked_gone : Str → Result DnsError (Option V) × W → Result DnsError (Unit {0}) × W
  checked_gone key (err e, w) = (err e, w)
  checked_gone key (ok none, w) = (ok tt, w)
  checked_gone key (ok (some value), w) = (err (still_exists key), w)

  abbrev pub after_remove : Str → Result ℕ (Unit {0}) × W → Result DnsError (Unit {0}) × W
  after_remove key (ok u, w) = checked_gone key (copy_value key w)
  after_remove key (err status, w) =
      let gone = checked_gone key (copy_value key w) in
      if status == sc_status_no_key then gone else (err (remove_failed key status), w)

  abbrev pub before_remove : Str → Result DnsError (Option V) × W → Result DnsError (Unit {0}) × W
  before_remove key (err e, w) = (err e, w)
  before_remove key (ok none, w) = (ok tt, w)
  before_remove key (ok (some value), w) = after_remove key (store.remove key w)

  unfoldable pub remove_value : Str → W → Result DnsError (Unit {0}) × W
  remove_value key w = before_remove key (copy_value key w)

  -- The loop of `remove_values`; it goes on after an error.
  unfoldable pub remove_each : List Str → List DnsError → W → List DnsError × W
  remove_each [] errors w = (errors, w)
  remove_each (key ∷ keys) errors w =
      let (r, w') = remove_value key w in remove_each keys (noted r errors) w'

  unfoldable pub remove_values : List Str → W → Done
  unfolding remove_each
  remove_values keys w =
      let (errors, w') = remove_each keys [] w in
      (if is_empty errors then ok tt else err errors, w')

  abbrev pub dns_values : Str → List Str → List Str → List (Str × V)
  dns_values interface servers domains =
      (dns_key interface, store.strings servers domains)
      ∷ (root_key interface, store.named interface)
      ∷ []

  abbrev pub opened_set : List (Str × V) → Result ℕ (Unit {0}) × W → Result DnsError (Unit {0}) × W
  unfolding set_values
  opened_set values (ok u, w) = set_values values w
  opened_set values (err status, w) = (err (open_failed status), w)

  unfoldable pub set_dns_entries : Str → List Str → List Str → W → Result DnsError (Unit {0}) × W
  unfolding opened_set
  set_dns_entries interface servers domains w =
      opened_set (dns_values interface servers domains) (store.create w)

  abbrev pub opened_clear : List Str → Result ℕ (Unit {0}) × W → Done
  unfolding remove_values
  opened_clear keys (ok u, w) = remove_values keys w
  opened_clear keys (err status, w) = (err (open_failed status ∷ []), w)

  unfoldable pub clear_dns_entries : Str → W → Done
  unfolding opened_clear
  clear_dns_entries interface w = opened_clear (resolver_keys interface) (store.create w)
