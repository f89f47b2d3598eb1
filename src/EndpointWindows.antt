-- ===== src/EndpointWindows.antt =====
-- wg-kotlin-daemon-rust/daemon/src/platform/endpoint_windows.rs
pub mod Attributes
use wg_kotlin.Base.{
  ℕ, zero, suc, ◌+◌, ◌-◌, ◌*◌, ◌/◌, ◌%◌, ◌^◌, ◌≤◌, ◌<◌, min, max, String, ◌≡◌, refl, sym, ap, ◌∙◌,
  subst, ◌≢◌, ◌↔◌, ◌⊎◌, inl, inr, Bool, true, false, not, ◌&&◌, ◌||◌, Option, none, some, List, [],
  ◌∷◌, ◌++◌, map, reverse, append-nil, append_assoc, reverse-append, reverse-reverse, arith, ltb,
  leb, ◌==◌, if◌then◌else◌, ltb→lt, lt→ltb, leb→le, ==_iff, tests, Bool-cases, Option-cases,
  and_iff, length, take, drop, replicate, all, any, keep, is_empty, is_empty_iff, length-append,
  length-take, length-drop, length-keep-le, take-append-drop, take-append, drop-append, All,
  All-append, All-left, All-right, All-reverse, All-unreverse, All-map, all_iff, Result, ok, err,
  ok_or, map_err, Result-cases, bound, ok-injective, unguarded,
}
use wg_kotlin.Base.Eff.{Eff, ◌>>=◌, ◌>>◌, pure, ignore}
use wg_kotlin.Text.{Str}
use wg_kotlin.Protocol.{IpAddr, is_ipv4}
use wg_kotlin.Frame.{IoError}

-- `route_manager::Route`, by its constructor, its builder methods and the getters that are used.
pub record RouteBuilder (R : Type 0) : Type 0 where
  pub new : IpAddr → (prefix : ℕ) → R
  pub with_gateway : IpAddr → R → R
  pub with_if_name : Str → R → R
  pub with_if_index : ℕ → R → R
  pub with_metric : ℕ → R → R
  pub with_luid : ℕ → R → R
  pub destination : R → IpAddr
  pub prefix : R → ℕ
  pub gateway : R → Option IpAddr
  pub if_name : R → Option Str
  pub if_index : R → Option ℕ
  pub metric : R → Option ℕ
  pub luid : R → Option ℕ

-- `RouteManager`, with managers `M`, and `io::Error::other("no route to endpoint")`.
pub record Manager (W M R : Type 0) : Type 0 where
  pub new : Eff W IoError M
  pub find_route : M → IpAddr → Eff W IoError (Option R)
  pub delete : M → R → Eff W IoError (Unit {0})
  pub add : M → R → Eff W IoError (Unit {0})
  pub no_route : IoError

-- `if let Some(value) = found { route = with(route, value) }`
abbrev pub set : {A R : Type 0} → (A → R → R) → Option A → R → R
set with none route = route
set with (some value) route = with value route

module _ {R : Type 0} (api : RouteBuilder R) where
  unfoldable pub from_route : IpAddr → R → R
  from_route ip found = set api.with_luid (api.luid found) (
      set api.with_metric (api.metric found) (
        set api.with_if_index (api.if_index found) (
          set api.with_if_name (api.if_name found) (
            set api.with_gateway (api.gateway found)
              (api.new ip (if is_ipv4 ip then 32 else 128))))))

module _ {W M R : Type 0} (api : RouteBuilder R) (manager : Manager W M R) where
  abbrev pub found_route : Option R → Eff W IoError R
  found_route none w = (err manager.no_route, w)
  found_route (some found) w = (ok found, w)

  unfoldable pub lookup : IpAddr → Eff W IoError R
  unfolding from_route
  lookup ip = do
    m ← manager.new
    route ← manager.find_route m ip
    found ← found_route route
    pure (from_route api ip found)

module _ {W M R : Type 0} (manager : Manager W M R) where
  unfoldable pub replace : R → Eff W IoError (Unit {0})
  replace route = do m ← manager.new; ignore (manager.delete m route); manager.add m route

  unfoldable pub delete : R → Eff W IoError (Unit {0})
  delete route = do m ← manager.new; manager.delete m route
