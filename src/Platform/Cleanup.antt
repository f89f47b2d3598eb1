-- ===== src/Platform/Cleanup.antt =====
-- `cleanup_routes` and `into_cleanup_hook`, on Linux and Windows.
use wg_kotlin.Base.{Option, none, some, List, [], ◌∷◌, reverse, Result, ok, err, map_err}
use wg_kotlin.Base.Eff.{Eff, map_fail}
use wg_kotlin.Frame.{IoError}
use wg_kotlin.Platform.Host.{Host, PlatformError, plain, both, cleanup_failed}

-- `capture_error`
abbrev pub capture : Option PlatformError → Result PlatformError (Unit {0}) → Option PlatformError
capture error (ok u) = error
capture none (err e) = some e
capture (some first) (err e) = some (both first e)

-- A `CleanupHook`: what is run once, at the end of the session.
abbrev pub CleanupHook : Type 0 → Type 0
CleanupHook W = Eff W PlatformError (Unit {0})

abbrev pub conclude : Option PlatformError → Result PlatformError (Unit {0})
conclude none = ok tt
conclude (some error) = err error

-- The loops that delete the routes and the endpoint routes.
unfoldable pub delete_each :
    {W A : Type 0}
    → (A → Eff W IoError (Unit {0}))
    → Option PlatformError
    → List A
    → W
    → Option PlatformError × W
delete_each delete error [] w = (error, w)
delete_each delete error (item ∷ items) w =
    let (r, w') = delete item w in delete_each delete (capture error (map_err plain r)) items w'

module _ {W R E : Type 0} (host : Host W R E) where
  abbrev pub managed : List R → Result PlatformError (Unit {0}) × W → Option PlatformError × W
  managed routes (ok u, w) = delete_each host.delete none (reverse routes) w
  managed routes (err e, w) = (some e, w)

  -- The clean-up goes on after an error, and reports all of them.
  unfoldable pub cleanup_routes :
      List R → List E → Eff W PlatformError (Unit {0}) → Eff W PlatformError (Unit {0})
  unfolding delete_each
  cleanup_routes filtered endpoints dns_teardown w =
      let (e₁, w₁) = managed filtered (map_fail plain host.open_manager w) in
      let (e₂, w₂) = delete_each host.delete_endpoint e₁ (reverse endpoints) w₁ in
      let (r, w₃) = dns_teardown w₂ in (conclude (capture e₂ r), w₃)

  abbrev pub reported : PlatformError → Result PlatformError (Unit {0}) → PlatformError
  reported setup (ok u) = setup
  reported setup (err e) = cleanup_failed setup e

  unfoldable pub into_cleanup_hook :
      Result PlatformError (Unit {0})
      → List R
      → List E
      → Eff W PlatformError (Unit {0})
      → Eff W PlatformError (CleanupHook W)
  unfolding cleanup_routes
  into_cleanup_hook (ok u) filtered endpoints dns_teardown w =
      (ok (cleanup_routes filtered endpoints dns_teardown), w)
  into_cleanup_hook (err setup) filtered endpoints dns_teardown w =
      let (r, w') = cleanup_routes filtered endpoints dns_teardown w in (err (reported setup r), w')
