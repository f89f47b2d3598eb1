-- ===== src/Platform/Windows/Rules.antt =====
-- wg-kotlin-daemon-rust/daemon/src/platform/windows.rs: whose the DNS rules are, and when stale
-- ones are cleared.
use wg_kotlin.Base.{
  ℕ, zero, suc, ◌^◌, ◌<◌, ◌≡◌, refl, ◌≢◌, ◌↔◌, Bool, true, false, List, [], ◌∷◌, ◌++◌, map, arith,
  All, All-append, All-map, Result, ok, err,
}
use wg_kotlin.Text.{Str, codes, is_ascii_digit, split}
use wg_kotlin.Text.Laws.{Without, append-Without, append-injective, join, split-join}
use wg_kotlin.Text.Decimal.{decimal, Digits, decimal-Digits, decimal-injective}
use wg_kotlin.Logging.{newline}
use wg_kotlin.Validation.Dns.{IsSearchDomain}
use wg_kotlin.Validation.Hostname.{IsHostname, IsLabel, is_ldh}
use wg_kotlin.Platform.Host.{Host, PlatformError}
use wg_kotlin.Platform.Windows.Scripts.{clear_stale_nrpt_rules_script}
use wg_kotlin.Platform.Commands.{run_command, normalize_domains}
use wg_kotlin.Platform.Arguments.{In, Unique, trimmed, normalize_domains_lem}
use wg_kotlin.Platform.Windows.{
  clear_stale_nrpt_rules_once, noted, powershell, comment, nrpt_comment_prefix, namespaces,
}

Digits-Without : (s : Str) → Digits s → Without b':' s
Digits-Without s ds =
    All-map (λ c. is_ascii_digit c ≡ true) (λ c. c ≢ b':') (λ c d. ground arith) s ds

decimal-Without : (n : ℕ) → Without b':' (decimal n)
decimal-Without n = Digits-Without (decimal n) (decimal-Digits n)

-- Two sessions whose rules have the same comment are of the same process, by its number and its
-- creation time, and of the same interface, if the numbers and the times are of 64 bits.
pub comment-injective :
    (id₁ id₂ at₁ at₂ : ℕ) (name₁ name₂ : Str)
    → id₁ < 2 ^ 64
    → id₂ < 2 ^ 64
    → at₁ < 2 ^ 64
    → at₂ < 2 ^ 64
    → comment id₁ at₁ name₁ ≡ comment id₂ at₂ name₂
    → (id₁ ≡ id₂) × (at₁ ≡ at₂) × (name₁ ≡ name₂)
comment-injective id₁ id₂ at₁ at₂ name₁ name₂ i j s t e =
    let (ids, rest) =
      append-Without b':' (decimal id₁) (decimal id₂) (decimal at₁ ++ b':' ∷ name₁)
        (decimal at₂ ++ b':' ∷ name₂) (decimal-Without id₁) (decimal-Without id₂)
        (append-injective nrpt_comment_prefix (decimal id₁ ++ b':' ∷ (decimal at₁ ++ b':' ∷ name₁))
          (decimal id₂ ++ b':' ∷ (decimal at₂ ++ b':' ∷ name₂)) e) in
    let (times, names) =
      append-Without b':' (decimal at₁) (decimal at₂) name₁ name₂ (decimal-Without at₁)
        (decimal-Without at₂) rest in
    (decimal-injective id₁ id₂ i j ids, decimal-injective at₁ at₂ s t times, names)

ldh-ne-newline : (c : ℕ) → is_ldh c ≡ true → c ≢ newline
ldh-ne-newline c h = ground arith

label-Without : (label : Str) → IsLabel label → Without newline label
label-Without label h =
    All-map (λ c. is_ldh c ≡ true) (λ c. c ≢ newline) ldh-ne-newline label h.chars

join-Without : (labels : List Str) → All IsLabel labels → Without newline (join b'.' labels)
join-Without [] h = tt
join-Without (label ∷ []) h = label-Without label h.0
join-Without (label ∷ next ∷ labels) h =
    All-append (λ c. c ≢ newline) label (b'.' ∷ join b'.' (next ∷ labels)) (label-Without label h.0)
      (ground arith, join-Without (next ∷ labels) h.1)

hostname-Without : (domain : Str) → IsHostname domain → Without newline (b'.' ∷ domain)
hostname-Without domain h = (ground arith, rw h.shape (join-Without (h.first ∷ h.rest) h.labels))

dotted-Without :
    (domains : List Str)
    → All IsHostname domains
    → All (Without newline) (map (λ domain. b'.' ∷ domain) domains)
dotted-Without [] h = tt
dotted-Without (domain ∷ domains) h = (hostname-Without domain h.0, dotted-Without domains h.1)

split_joined :
    (pieces : List Str)
    → pieces ≢ []
    → All (Without newline) pieces
    → split newline (join newline pieces) ≡ pieces
split_joined [] some_piece h = absurd (some_piece refl)
split_joined (piece ∷ pieces) some_piece h = split-join newline piece pieces h

-- The script splits `WG_KOTLIN_DNS_NAMESPACES` at its line breaks, and finds the namespaces of the
-- session in it, one for each different search domain, when the domains are ones that the validator
-- accepts and there is one at least.
pub split-namespaces :
    (domains : List Str)
    → All IsSearchDomain domains
    → namespaces domains ≢ []
    → (split newline (join newline (namespaces domains)) ≡ namespaces domains)
      × Unique (normalize_domains domains)
      × ((s : Str) → In s (normalize_domains domains) ↔ In s (trimmed domains))
split-namespaces domains h some_domain =
    let (unique, hosts, members) = normalize_domains_lem domains h in
    (
      split_joined (namespaces domains) some_domain
          (dotted-Without (normalize_domains domains) hosts),
      unique,
      members,
    )

module _ {W R E : Type 0} (host : Host W R E) where
  -- The state after some calls.
  abbrev pub after : ℕ → Bool × W → Bool × W
  unfolding clear_stale_nrpt_rules_once
  after zero s = s
  after (suc n) s = after n (clear_stale_nrpt_rules_once host s).1

  cleared_idle : (n : ℕ) (w : W) → after n (true, w) ≡ (true, w)
  unfolding clear_stale_nrpt_rules_once
  cleared_idle zero w = refl
  cleared_idle (suc n) w = cleared_idle n w

  noted_once :
      (r : Result PlatformError Str) (w : W)
      → ((noted r w).0 ≡ ok tt
          → (n : ℕ)
          → (after n (noted r w).1 ≡ (noted r w).1)
            × ((clear_stale_nrpt_rules_once host (after n (noted r w).1)).0 ≡ ok tt))
        × ((noted r w).0 ≢ ok tt → ((noted r w).1).0 ≡ false)
  unfolding clear_stale_nrpt_rules_once
  noted_once (ok output) w =
      (λ _ n. (cleared_idle n w, rw (cleared_idle n w) refl), λ failed. absurd (failed refl))
  noted_once (err e) w = (λ succeeds. cc, λ _. refl)

  -- A call that succeeds is the last one to do anything, and one that fails leaves the clearing to the
  -- next call.
  pub clear_stale_nrpt_rules_once_lem :
      (s : Bool × W)
      → let (r, s') = clear_stale_nrpt_rules_once host s in
        (r ≡ ok tt
          → (n : ℕ)
          → (after n s' ≡ s') × ((clear_stale_nrpt_rules_once host (after n s')).0 ≡ ok tt))
        × ((r ≢ ok tt) → s'.0 ≡ false)
  unfolding clear_stale_nrpt_rules_once
  clear_stale_nrpt_rules_once_lem (true, w) =
      (λ _ n. (cleared_idle n w, rw (cleared_idle n w) refl), λ failed. absurd (failed refl))
  clear_stale_nrpt_rules_once_lem (false, w) =
      let (r, w') =
        run_command host (codes "clear-stale-nrpt-rules")
          (powershell clear_stale_nrpt_rules_script
            ((codes "WG_KOTLIN_NRPT_COMMENT_PREFIX", nrpt_comment_prefix) ∷ []))
          [] w in
      noted_once r w'
