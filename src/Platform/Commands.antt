-- ===== src/Platform/Commands.antt =====
-- Commands, and the helpers that prepare their arguments.
use wg_kotlin.Base.{
  ℕ, ◌-◌, ◌*◌, min, max, Bool, true, false, ◌||◌, Option, none, some, List, [], ◌∷◌, ◌++◌, ltb,
  if◌then◌else◌, length, take, any, is_empty, Result, ok, err,
}
use wg_kotlin.Base.Eff.{Eff, ◌>>=◌, lift, map_fail}
use wg_kotlin.Text.{Str, codes, str_eq, strip_prefix}
use wg_kotlin.Protocol.{Ip, IpAddr, parse_proto_ip}
use wg_kotlin.Frame.{IoError}
use wg_kotlin.Validation.{Os, linux, macos, windows, trimmed_domain}
use wg_kotlin.Platform.Host.{
  Host, Invocation, Output, PlatformError, binary_missing, command_error, command_failed,
}

-- `seen.contains(&text)`
unfoldable pub contains : List Str → Str → Bool
contains [] s = false
contains (t ∷ ts) s = str_eq t s || contains ts s

-- `if !seen.contains(&text) { seen.push(text) }`
abbrev pub push_new : List Str → Str → List Str
push_new seen s = if contains seen s then seen else seen ++ s ∷ []

-- `haystack.contains(pattern)` for texts
unfoldable pub contains_str : Str → Str → Bool
contains_str pattern [] = is_empty pattern
contains_str pattern (c ∷ s) =
    (elim (strip_prefix pattern (c ∷ s)) [ none ↦ false | some rest ↦ true ])
    || contains_str pattern s

-- `proto_ip_to_string`, which panics (`none`) on an address that does not parse.
unfoldable pub proto_ip_to_string : (IpAddr → Str) → Ip → Option Str
proto_ip_to_string display addr = elim (parse_proto_ip addr) [
  | none ↦ none
  | some ip ↦ some (display ip)
]

unfoldable pub ips_from : (IpAddr → Str) → List Str → List Ip → Option (List Str)
ips_from display seen [] = some seen
ips_from display seen (addr ∷ values) = elim (proto_ip_to_string display addr) [
  | none ↦ none
  | some ip ↦ ips_from display (push_new seen ip) values
]

-- The texts of the addresses, each once, in the order in which they come first.
unfoldable pub ips_to_args : (IpAddr → Str) → List Ip → Option (List Str)
unfolding ips_from
ips_to_args display values = ips_from display [] values

unfoldable pub normalize_from : List Str → List Str → List Str
normalize_from normalized [] = normalized
normalize_from normalized (value ∷ values) =
    normalize_from
      (if is_empty (trimmed_domain value)
        then normalized
        else push_new normalized (trimmed_domain value))
      values

-- The set `seen` of the source holds the entries of `normalized`.
unfoldable pub normalize_domains : List Str → List Str
unfolding normalize_from
normalize_domains values = normalize_from [] values

unfoldable pub required_binaries : Os → List Str
required_binaries linux = codes "resolvectl" ∷ []
required_binaries macos = []
required_binaries windows = codes "powershell" ∷ []

module _ {W R E : Type 0} (host : Host W R E) where
  unfoldable pub ensure_required_binaries : List Str → Eff W PlatformError (Unit {0})
  ensure_required_binaries [] w = (ok tt, w)
  ensure_required_binaries (binary ∷ binaries) w =
      if host.which binary w
      then ensure_required_binaries binaries w
      else (err (binary_missing binary), w)

  abbrev concluded : Str → Str → List Str → Output → Result PlatformError Str
  concluded label program patterns output =
      if output.success
      then ok output.stdout
      else if any
          (λ pattern.
            contains_str pattern
              (host.to_lowercase output.stdout ++ codes "\n" ++ host.to_lowercase output.stderr))
          patterns
      then ok output.stdout
      else err (command_failed label program output.code output.stdout output.stderr)

  unfoldable pub run_command : Str → Invocation → List Str → Eff W PlatformError Str
  run_command label invocation patterns = do
    output ← map_fail (command_error label invocation.program) (host.command_output invocation)
    lift (concluded label invocation.program patterns output)

-- `read_capped`, where the list is what each `read` of the pipe gives. All of it is read to the end,
-- an empty chunk, and at most `max` bytes are kept.
unfoldable pub read_capped :
    ℕ → List ℕ → List (Result IoError (List ℕ)) → Result IoError (Unit {0}) × List ℕ
read_capped max output [] = (ok tt, output)
read_capped max output (err e ∷ reads) = (err e, output)
read_capped max output (ok [] ∷ reads) = (ok tt, output)
read_capped max output (ok (b ∷ bytes) ∷ reads) =
    let chunk : List ℕ = b ∷ bytes in
    let remaining = max - length output in
    read_capped max
      (if ltb 0 remaining then output ++ take (min remaining (length chunk)) chunk else output)
      reads

abbrev pub max_command_output_bytes : ℕ
max_command_output_bytes = 1024 * 1024
