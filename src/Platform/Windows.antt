-- ===== src/Platform/Windows.antt =====
-- wg-kotlin-daemon-rust/daemon/src/platform/windows.rs
pub mod Scripts
pub mod Rules
pub mod Settled
use wg_kotlin.Base.{
  ℕ, zero, suc, ◌+◌, ◌-◌, ◌*◌, ◌/◌, ◌%◌, ◌^◌, ◌≤◌, ◌<◌, min, max, String, ◌≡◌, refl, sym, ap, ◌∙◌,
  subst, ◌≢◌, ◌↔◌, ◌⊎◌, inl, inr, Bool, true, false, not, ◌&&◌, ◌||◌, Option, none, some, List, [],
  ◌∷◌, ◌++◌, map, reverse, append-nil, append_assoc, reverse-append, reverse-reverse, arith, ltb,
  leb, ◌==◌, if◌then◌else◌, ltb→lt, lt→ltb, leb→le, ==_iff, tests, Bool-cases, Option-cases,
  and_iff, length, take, drop, replicate, all, any, keep, is_empty, is_empty_iff, length-append,
  length-take, length-drop, length-keep-le, take-append-drop, take-append, drop-append, All,
  All-append, All-left, All-right, All-reverse, All-unreverse, All-map, all_iff, Result, ok, err,
  ok_or, map_err, Result-cases, bound, ok-injective, unguarded,
}
use wg_kotlin.Base.Eff.{Eff, ◌>>=◌, ◌>>◌, pure, map_fail}
use wg_kotlin.Text.{Str, codes}
use wg_kotlin.Text.Laws.{join}
use wg_kotlin.Text.Decimal.{decimal}
use wg_kotlin.Logging.{newline}
use wg_kotlin.Frame.{IoError}
use wg_kotlin.Protocol.{TunSessionConfig}
use wg_kotlin.Validation.{Os, linux, macos, windows, dns_or_default}
use wg_kotlin.Platform.Host.{Host, RouteApi, Invocation, PlatformError, panicked, owner_unknown}
use wg_kotlin.Platform.Commands.{run_command, ips_to_args, normalize_domains}
use wg_kotlin.Platform.Routes.{build_and_filter_routes, add_routes_with_predelete}
use wg_kotlin.Platform.Cleanup.{CleanupHook, into_cleanup_hook}
use wg_kotlin.Platform.Windows.Scripts.{
  set_nrpt_rule_script, clear_nrpt_rules_script, clear_stale_nrpt_rules_script,
}

-- `FILETIME`, the halves of a count of 100 ns steps.
pub record FileTime : Type 0 where
  pub high : ℕ
  pub low : ℕ

-- `(high as u64) << 32 | low as u64`, where `low` has 32 bits.
abbrev pub ticks : FileTime → ℕ
ticks t = t.high * 2 ^ 32 + t.low

-- The process of the daemon: its number, and the creation time that `GetProcessTimes` gives.
pub record CurrentProcess (W : Type 0) : Type 0 where
  pub id : ℕ
  pub creation : Eff W IoError FileTime

abbrev pub nrpt_comment_prefix : Str
nrpt_comment_prefix = codes "kmpvpn-daemon:"

-- The text of the comment.
abbrev pub comment : (id created_at : ℕ) → Str → Str
comment id created_at name =
    nrpt_comment_prefix ++ (decimal id ++ b':' ∷ (decimal created_at ++ b':' ∷ name))

-- `powershell` that runs a script with these variables.
abbrev pub powershell : Str → List (Str × Str) → Invocation
powershell script environment = record {
  program = codes "powershell";
  arguments = codes "-NoProfile" ∷ codes "-NonInteractive" ∷ codes "-Command" ∷ script ∷ [];
  stdin = none;
  environment = environment;
}

-- `format!(".{domain}")` of each search domain.
abbrev pub namespaces : List Str → List Str
namespaces domains = map (λ domain. b'.' ∷ domain) (normalize_domains domains)

module _ {W : Type 0} (process : CurrentProcess W) where
  unfoldable pub rule_comment : Str → Eff W PlatformError Str
  rule_comment name = do
    creation ← map_fail owner_unknown process.creation
    pure (comment process.id (ticks creation) name)

module _ {W R E : Type 0} (host : Host W R E) (process : CurrentProcess W) where
  unfoldable pub clear_nrpt_rules : Str → Eff W PlatformError (Unit {0})
  unfolding rule_comment
  clear_nrpt_rules name = do
    owner ← rule_comment process name
    run_command host (codes "clear-nrpt-rules")
        (powershell clear_nrpt_rules_script ((codes "WG_KOTLIN_NRPT_COMMENT", owner) ∷ [])) []
    pure tt

  unfoldable pub set_nrpt_rules : Str → List Str → List Str → Eff W PlatformError (Unit {0})
  unfolding rule_comment
  set_nrpt_rules name servers domains =
      if not (is_empty domains) && not (is_empty servers)
      then (do
        owner ← rule_comment process name
        run_command host (codes "set-nrpt-rules")
            (powershell set_nrpt_rule_script (
              (codes "WG_KOTLIN_DNS_NAMESPACES", join newline domains)
              ∷ (codes "WG_KOTLIN_DNS_SERVERS", join newline servers)
              ∷ (codes "WG_KOTLIN_NRPT_COMMENT", owner)
              ∷ []))
            []
        pure tt)
      else pure tt

  -- The closure whose outcome is `setup_result`.
  unfoldable pub setup :
      Str → List R → List E → List Str → List Str → Eff W PlatformError (Unit {0})
  unfolding clear_nrpt_rules set_nrpt_rules
  setup name filtered endpoints servers domains = do
    add_routes_with_predelete host filtered endpoints
    clear_nrpt_rules name
    set_nrpt_rules name servers domains

  abbrev pub configure_with :
      Str → List R × List E → Option (List Str) → List Str → Eff W PlatformError (CleanupHook W)
  configure_with name routes none domains w = (err panicked, w)
  configure_with name (filtered, endpoints) (some servers) domains w =
      let (setup_result, w') = setup name filtered endpoints servers domains w in
      into_cleanup_hook host setup_result filtered endpoints (clear_nrpt_rules name) w'

  unfoldable pub configure_session :
      RouteApi R → TunSessionConfig → Str → List E → Eff W PlatformError (CleanupHook W)
  unfolding setup
  configure_session api config name endpoint_routes = do
    routes ← build_and_filter_routes api host config name endpoint_routes
    configure_with name routes (ips_to_args host.display_ip (dns_or_default config.dns).servers)
        (namespaces (dns_or_default config.dns).search_domains)

abbrev pub noted :
    {W : Type 0} → Result PlatformError Str → W → Result PlatformError (Unit {0}) × (Bool × W)
noted (ok output) w = (ok tt, (true, w))
noted (err e) w = (err e, (false, w))

module _ {W R E : Type 0} (host : Host W R E) where
  -- `clear_stale_nrpt_rules_once`, where the first part of the state is the flag behind the lock.
  unfoldable pub clear_stale_nrpt_rules_once : Eff (Bool × W) PlatformError (Unit {0})
  clear_stale_nrpt_rules_once (true, w) = (ok tt, (true, w))
  clear_stale_nrpt_rules_once (false, w) =
      let (r, w') =
        run_command host (codes "clear-stale-nrpt-rules")
          (powershell clear_stale_nrpt_rules_script
            ((codes "WG_KOTLIN_NRPT_COMMENT_PREFIX", nrpt_comment_prefix) ∷ []))
          [] w in
      noted r w'

  -- `prepare_session_start` of daemon/src/platform/mod.rs.
  unfoldable pub prepare_session_start : Os → Eff (Bool × W) PlatformError (Unit {0})
  unfolding clear_stale_nrpt_rules_once
  prepare_session_start windows s = clear_stale_nrpt_rules_once s
  prepare_session_start linux s = (ok tt, s)
  prepare_session_start macos s = (ok tt, s)
