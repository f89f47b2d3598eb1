-- ===== src/MacRoutes.antt =====
-- The route transaction of wg-kotlin-daemon-rust/daemon/src/platform/routes_macos.rs. The trait
-- `RouteTable` is a record of its two methods over a system state `W`. Snapshots of routes are read
-- through `Snapshots`. The head of the list of changes is the end of the source's `Vec`.
pub mod Table
pub mod Install
pub mod Restore
pub mod Address
pub mod Snapshot
pub mod Backup
pub mod Dump
pub mod System
pub mod Search
pub mod Tun
use wg_kotlin.Base.{
  ℕ, zero, suc, ◌+◌, ◌-◌, ◌*◌, ◌/◌, ◌%◌, ◌^◌, ◌≤◌, ◌<◌, min, max, String, ◌≡◌, refl, sym, ap, ◌∙◌,
  subst, ◌≢◌, ◌↔◌, ◌⊎◌, inl, inr, Bool, true, false, not, ◌&&◌, ◌||◌, Option, none, some, List, [],
  ◌∷◌, ◌++◌, map, reverse, append-nil, append_assoc, reverse-append, reverse-reverse, arith, ltb,
  leb, ◌==◌, if◌then◌else◌, ltb→lt, lt→ltb, leb→le, ==_iff, tests, Bool-cases, Option-cases,
  and_iff, length, take, drop, replicate, all, any, keep, is_empty, is_empty_iff, length-append,
  length-take, length-keep-le, take-append-drop, take-append, drop-append, All, All-append,
  All-left, All-right, All-reverse, all_iff, Result, ok, err, ok_or, map_err, Result-cases,
}
use wg_kotlin.Base.Eff.{Eff, ◌>>=◌, ◌>>◌, pure, fail, lift}
use wg_kotlin.Frame.{os_error}
use wg_kotlin.RoutingMessage.{RouteError, io, changed_outside}

-- `libc::RTM_ADD` and `libc::RTM_DELETE`
pub data Operation : Type 0 where
  rtm_add rtm_delete : Operation

-- `libc::ESRCH` on macOS: there is no such route.
abbrev pub esrch : ℕ
esrch = 3

pub record Snapshots (K S : Type 0) : Type 0 where
  pub key : S → Result RouteError K
  pub message : S → Operation → Result RouteError (List ℕ)
  pub same_path : S → S → Result RouteError Bool
  pub key_eq : K → K → Bool

pub record RouteTable (W K S : Type 0) : Type 0 where
  pub find : K → Eff W RouteError (Option S)
  pub request : S → Operation → Eff W RouteError (Unit {0})

pub record RouteChange (K S : Type 0) : Type 0 where
  pub key : K
  pub route : S
  pub previous : Option S
  pub add_attempted : Bool

abbrev pub Changes : Type 0 → Type 0 → Type 0
Changes K S = List (RouteChange K S)

abbrev is_esrch : RouteError → Bool
is_esrch (io (os_error code)) = code == esrch
is_esrch _ = false

abbrev pub noted : Result RouteError (Unit {0}) → List RouteError → List RouteError
noted (ok u) errors = errors
noted (err e) errors = errors ++ e ∷ []

module _ {W K S : Type 0} (snapshots : Snapshots K S) (table : RouteTable W K S) where
  open table use {find, request}

  -- `change.add_attempted = true; table.request(&change.route, RTM_ADD)`
  unfoldable pub attempt_add :
      RouteChange K S → Changes K S → W → Result RouteError (Unit {0}) × (Changes K S × W)
  attempt_add change changes w =
      let (r, w') = request change.route rtm_add w in
      (r, (record change { add_attempted = true } ∷ changes, w'))

  abbrev pub after_delete :
      RouteChange K S
      → Changes K S
      → Result RouteError (Unit {0}) × W
      → Result RouteError (Unit {0}) × (Changes K S × W)
  after_delete change changes (err e, w) = (err e, (change ∷ changes, w))
  after_delete change changes (ok u, w) = attempt_add change changes w

  -- The change is recorded before the previous route is deleted.
  unfoldable pub replace :
      K → S → Option S → Changes K S → W → Result RouteError (Unit {0}) × (Changes K S × W)
  unfolding attempt_add
  replace k route none changes w =
      attempt_add (record { key = k; route = route; previous = none; add_attempted = false })
        changes w
  replace k route (some previous) changes w =
      after_delete
        (record { key = k; route = route; previous = some previous; add_attempted = false }) changes
        (request previous rtm_delete w)

  -- `if let Some(previous) = &previous { previous.message(libc::RTM_ADD)?; }`
  abbrev pub backup_check : Option S → Result RouteError (Unit {0})
  backup_check none = ok tt
  backup_check (some previous) = elim (snapshots.message previous rtm_add) [
    | ok bytes ↦ ok tt
    | err e ↦ err e
  ]

  abbrev pub checked :
      K
      → S
      → Option S
      → Result RouteError (Unit {0})
      → Changes K S
      → W
      → Result RouteError (Unit {0}) × (Changes K S × W)
  checked k route previous (err e) changes w = (err e, (changes, w))
  checked k route previous (ok u) changes w = replace k route previous changes w

  abbrev pub found :
      K
      → S
      → Changes K S
      → Result RouteError (Option S) × W
      → Result RouteError (Unit {0}) × (Changes K S × W)
  found k route changes (err e, w) = (err e, (changes, w))
  found k route changes (ok previous, w) =
      checked k route previous (backup_check previous) changes w

  abbrev pub keyed :
      Result RouteError K → S → Changes K S → W → Result RouteError (Unit {0}) × (Changes K S × W)
  keyed (err e) route changes w = (err e, (changes, w))
  keyed (ok k) route changes w =
      if any (λ (c : RouteChange K S). snapshots.key_eq c.key k) changes
      then (ok tt, (changes, w))
      else found k route changes (find k w)

  unfoldable pub add : S → Eff (Changes K S × W) RouteError (Unit {0})
  unfolding replace
  add route (changes, w) = keyed (snapshots.key route) route changes w

  -- The loop of `install` over the requested routes, each of which may have failed to be built.
  unfoldable pub install : List (Result RouteError S) → Eff (Changes K S × W) RouteError (Unit {0})
  unfolding add
  install [] = pure tt
  install (request ∷ requests) = do route ← lift request; add route; install requests

  unfoldable pub put_back : Option S → Eff W RouteError (Unit {0})
  put_back none = pure tt
  put_back (some previous) = request previous rtm_add

  -- A route that is gone by now is as good as deleted.
  abbrev after_removal :
      Option S → Result RouteError (Unit {0}) × W → Result RouteError (Unit {0}) × W
  after_removal previous (ok u, w) = put_back previous w
  after_removal previous (err e, w) = if is_esrch e then put_back previous w else (err e, w)

  abbrev remove_ours : RouteChange K S → S → Bool → Eff W RouteError (Unit {0})
  remove_ours change current false w = (err changed_outside, w)
  remove_ours change current true w = after_removal change.previous (request current rtm_delete w)

  unfoldable pub restore_found : RouteChange K S → Option S → Eff W RouteError (Unit {0})
  unfolding put_back
  restore_found change none = put_back change.previous
  restore_found change (some current) = if not change.add_attempted then pure tt else do
    same ← lift (snapshots.same_path current change.route)
    remove_ours change current same

  -- `RouteChange::restore`
  unfoldable pub restore_change : RouteChange K S → Eff W RouteError (Unit {0})
  unfolding restore_found
  restore_change change = do current ← find change.key; restore_found change current

  -- The loop of `restore_with`, newest change first; it goes on after an error.
  unfoldable pub restore_all : Changes K S → List RouteError → W → List RouteError × W
  unfolding restore_change
  restore_all [] errors w = (errors, w)
  restore_all (change ∷ changes) errors w =
      let (r, w') = restore_change change w in restore_all changes (noted r errors) w'

  -- `restore_with`; the changes are taken, so that none is restored twice.
  unfoldable pub restore_with : Eff (Changes K S × W) (List RouteError) (Unit {0})
  unfolding restore_all
  restore_with (changes, w) =
      let (errors, w') = restore_all changes [] w in
      (if is_empty errors then ok tt else err errors, ([], w'))
