-- ===== src/Platform/Host.antt =====
-- What the platform code calls and does not implement, and the errors that it composes.
use wg_kotlin.Base.{ℕ, ◌≡◌, Bool, Option, List}
use wg_kotlin.Base.Eff.{Eff}
use wg_kotlin.Text.{Str}
use wg_kotlin.Protocol.{IpAddr}
use wg_kotlin.Frame.{IoError}

-- The messages, by the text around the values that they show.
pub data PlatformError : Type 0 where
  -- the bare text of a system error
  plain : IoError → PlatformError
  manager_failed add_failed add_endpoint_failed : IoError → PlatformError
  invalid_endpoint : PlatformError
  lookup_failed : IpAddr → IoError → PlatformError
  binary_missing : Str → PlatformError
  command_error : (label program detail : Str) → PlatformError
  command_failed : (label program : Str) (code : Option ℕ) (stdout stderr : Str) → PlatformError
  owner_unknown : IoError → PlatformError
  routes_failed : IoError → PlatformError
  -- no message: the worker panicked
  panicked : PlatformError
  -- "{first}; {second}" and "{setup}; cleanup failed: {cleanup}"
  both : PlatformError → PlatformError → PlatformError
  cleanup_failed : (setup cleanup : PlatformError) → PlatformError

-- `route_manager::Route`, by its constructor, a builder method and the getters that are used.
pub record RouteApi (R : Type 0) : Type 0 where
  pub new : IpAddr → ℕ → R
  pub with_if_name : Str → R → R
  pub destination : R → IpAddr
  pub prefix : R → ℕ

-- The getters give what the constructor was given, and naming the interface changes neither.
pub record RouteLaws {R : Type 0} (api : RouteApi R) : Type 0 where
  pub destination-new :
      (ip : IpAddr) (n : ℕ) (name : Str)
      → api.destination (api.with_if_name name (api.new ip n)) ≡ ip
  pub prefix-new :
      (ip : IpAddr) (n : ℕ) (name : Str) → api.prefix (api.with_if_name name (api.new ip n)) ≡ n

-- A child process: what it is started with, and what it leaves.
pub record Invocation : Type 0 where
  pub program : Str
  pub arguments : List Str
  pub stdin : Option Str
  pub environment : List (Str × Str)

pub record Output : Type 0 where
  pub success : Bool
  pub code : Option ℕ
  pub stdout : Str
  pub stderr : Str

-- The system's side of a session, with routes `R` and endpoint routes `E`.
pub record Host (W R E : Type 0) : Type 0 where
  pub open_manager : Eff W IoError (Unit {0})
  pub delete : R → Eff W IoError (Unit {0})
  pub add : R → Eff W IoError (Unit {0})
  pub lookup : IpAddr → Eff W IoError E
  pub replace_endpoint : E → Eff W IoError (Unit {0})
  pub delete_endpoint : E → Eff W IoError (Unit {0})
  pub which : Str → W → Bool
  -- `command_output`, which may fail with a detail
  pub command_output : Invocation → Eff W Str Output
  pub to_lowercase : Str → Str
  pub display_ip : IpAddr → Str
