-- ===== src/Platform/Arguments.antt =====
-- What the helpers of `Platform.Commands` do.
use wg_kotlin.Base.{
  ℕ, zero, suc, ◌-◌, ◌≤◌, min, max, ◌≡◌, refl, sym, ap, ◌∙◌, subst, ◌↔◌, ◌⊎◌, inl, inr, true,
  Option, none, some, List, [], ◌∷◌, ◌++◌, append-nil, append_assoc, arith, ltb, if◌then◌else◌,
  Bool-cases, length, take, is_empty, length-append, length-take, All, Result, ok, err,
}
use wg_kotlin.Text.{Str}
use wg_kotlin.Text.Laws.{str_eq_iff}
use wg_kotlin.Protocol.{Ip, IpAddr, parse_proto_ip, IsIp, parse_proto_ip_iff}
use wg_kotlin.Frame.{IoError}
use wg_kotlin.Validation.{trimmed_domain}
use wg_kotlin.Validation.Dns.{IsSearchDomain}
use wg_kotlin.Validation.Hostname.{IsHostname}
use wg_kotlin.Platform.Commands.{
  push_new, contains, proto_ip_to_string, ips_from, ips_to_args, normalize_from, normalize_domains,
  read_capped,
}

-- One of the texts.
abbrev pub In : Str → List Str → Type 0
In s [] = ⊥
In s (t ∷ ts) = (t ≡ s) ⊎ In s ts

-- No text twice.
abbrev pub Unique : List Str → Type 0
Unique [] = Unit
Unique (t ∷ ts) = (¬ In t ts) × Unique ts

contains_iff : (ts : List Str) (s : Str) → (contains ts s ≡ true) ↔ In s ts
unfolding contains
contains_iff [] s = (λ e. cc, λ h. absurd h)
contains_iff (t ∷ ts) s = (
  λ e. ground (arith, (str_eq_iff t s).0, (contains_iff ts s).0),
  λ h. ground (arith, (str_eq_iff t s).1, (contains_iff ts s).1),
)

In-append : (s : Str) (ts us : List Str) → In s (ts ++ us) ↔ (In s ts ⊎ In s us)
In-append s [] us = (λ h. inr h, λ h. ground arith)
In-append s (t ∷ ts) us =
    (λ h. ground (arith, (In-append s ts us).0), λ h. ground (arith, (In-append s ts us).1))

Unique-append : (ts : List Str) (s : Str) → Unique ts → ¬ In s ts → Unique (ts ++ s ∷ [])
Unique-append [] s u h = (λ e. e, tt)
Unique-append (t ∷ ts) s u h = (
  λ e. ground (arith, u.0, h, (In-append t ts (s ∷ [])).0 e),
  Unique-append ts s u.1 (λ m. h (inr m)),
)

push_new-Unique : (seen : List Str) (s : Str) → Unique seen → Unique (push_new seen s)
push_new-Unique seen s u = elim (Bool-cases (contains seen s)) [
  | inl old ↦ rw old u
  | inr new ↦ rw new (Unique-append seen s u (λ m. ground (arith, (contains_iff seen s).1 m)))
]

In-push_new : (seen : List Str) (s t : Str) → In t (push_new seen s) ↔ (In t seen ⊎ (s ≡ t))
In-push_new seen s t = elim (Bool-cases (contains seen s)) [
  | inl old ↦ rw old (λ m. inl m, λ h. keep_old old h)
  | inr new ↦ rw new (
    λ m. ground (arith, (In-append t seen (s ∷ [])).0 m),
    λ h. ground (arith, (In-append t seen (s ∷ [])).1),
  )
]
  where
    keep_old : contains seen s ≡ true → (In t seen ⊎ (s ≡ t)) → In t seen
    keep_old old (inl m) = m
    keep_old old (inr e) = subst (λ x. In x seen) e ((contains_iff seen s).0 old)

-- Each of the texts in turn, unless it is there already.
abbrev push_all : List Str → List Str → List Str
push_all seen [] = seen
push_all seen (s ∷ ts) = push_all (push_new seen s) ts

push_all-Unique : (seen ts : List Str) → Unique seen → Unique (push_all seen ts)
push_all-Unique seen [] u = u
push_all-Unique seen (s ∷ ts) u = push_all-Unique (push_new seen s) ts (push_new-Unique seen s u)

In-push_all : (seen ts : List Str) (t : Str) → In t (push_all seen ts) ↔ (In t seen ⊎ In t ts)
In-push_all seen [] t = (λ m. inl m, λ m. ground arith)
In-push_all seen (s ∷ ts) t = (
  λ m. ground (arith, (In-push_all (push_new seen s) ts t).0 m, (In-push_new seen s t).0),
  λ m. ground (arith, (In-push_all (push_new seen s) ts t).1, (In-push_new seen s t).1),
)

abbrev text_of : (IpAddr → Str) → Option IpAddr → List Str → List Str
text_of display none ts = ts
text_of display (some ip) ts = display ip ∷ ts

-- The texts of the addresses that parse, in order.
abbrev pub texts : (IpAddr → Str) → List Ip → List Str
texts display [] = []
texts display (addr ∷ values) = text_of display (parse_proto_ip addr) (texts display values)

ips_from-texts :
    (display : IpAddr → Str) (seen : List Str) (vs : List Ip)
    → All IsIp vs
    → ips_from display seen vs ≡ some (push_all seen (texts display vs))
unfolding ips_from proto_ip_to_string
ips_from-texts display seen [] h = refl
ips_from-texts display seen (addr ∷ vs) h =
    let (ip, e) = (parse_proto_ip_iff addr).1 h.0 in
    rw (e, ips_from, proto_ip_to_string)
      (ips_from-texts display (push_new seen (display ip)) vs h.1)

-- Well-formed addresses never make `ips_to_args` panic. The arguments are the texts of the
-- addresses, all of them and no others, each once.
pub ips_to_args_lem :
    (display : IpAddr → Str) (values : List Ip)
    → All IsIp values
    → (out : List Str) × (ips_to_args display values ≡ some out)
      × Unique out
      × ((s : Str) → In s out ↔ In s (texts display values))
unfolding ips_to_args
ips_to_args_lem display values h = (
  push_all [] (texts display values),
  ips_from-texts display [] values h,
  push_all-Unique [] (texts display values) tt,
  λ s. (
    λ m. ground (arith, (In-push_all [] (texts display values) s).0 m),
    λ m. (In-push_all [] (texts display values) s).1 (inr m),
  ),
)

-- The domains that are not empty once trimmed, trimmed, in order.
abbrev pub trimmed : List Str → List Str
trimmed [] = []
trimmed (value ∷ values) =
    if is_empty (trimmed_domain value)
    then trimmed values
    else trimmed_domain value ∷ trimmed values

normalize_from-trimmed : (seen vs : List Str) → normalize_from seen vs ≡ push_all seen (trimmed vs)
unfolding normalize_from
normalize_from-trimmed seen [] = refl
normalize_from-trimmed seen (value ∷ vs) = elim (Bool-cases (is_empty (trimmed_domain value))) [
  | inl gone ↦ rw (gone) (normalize_from-trimmed seen vs)
  | inr kept ↦ rw (kept) (normalize_from-trimmed (push_new seen (trimmed_domain value)) vs)
]

trimmed_hostnames :
    (values : List Str) → All IsSearchDomain values → All IsHostname (trimmed values)
trimmed_hostnames [] h = tt
trimmed_hostnames (value ∷ values) h = elim (Bool-cases (is_empty (trimmed_domain value))) [
  | inl gone ↦ rw gone (trimmed_hostnames values h.1)
  | inr kept ↦ rw kept (h.0.1, trimmed_hostnames values h.1)
]

All-In :
    (P : Str → Type 0) (ts us : List Str) → ((s : Str) → In s us → In s ts) → All P ts → All P us
All-In P ts [] sub h = tt
All-In P ts (u ∷ us) sub h = (at u ts (sub u (inl refl)) h, All-In P ts us (λ s m. sub s (inr m)) h)
  where
    at : (s : Str) (ts : List Str) → In s ts → All P ts → P s
    at s [] m h = absurd m
    at s (t ∷ ts) (inl e) h = subst P e h.0
    at s (t ∷ ts) (inr m) h = at s ts m h.1

-- The search domains that the validator accepts are passed on as host names, each once: all that
-- are not empty once trimmed, and no others.
pub normalize_domains_lem :
    (values : List Str)
    → All IsSearchDomain values
    → Unique (normalize_domains values)
      × All IsHostname (normalize_domains values)
      × ((s : Str) → In s (normalize_domains values) ↔ In s (trimmed values))
unfolding normalize_domains
normalize_domains_lem values h = rw (normalize_from-trimmed [] values) (
  push_all-Unique [] (trimmed values) tt,
  All-In IsHostname (trimmed values) (push_all [] (trimmed values)) (λ s m. (members s).0 m)
      (trimmed_hostnames values h),
  members,
)
  where
    members : (s : Str) → In s (push_all [] (trimmed values)) ↔ In s (trimmed values)
    members s = (
      λ m. ground (arith, (In-push_all [] (trimmed values) s).0 m),
      λ m. (In-push_all [] (trimmed values) s).1 (inr m),
    )

-- The bytes that come before the end of the pipe or an error.
abbrev pub received : List (Result IoError (List ℕ)) → List ℕ
received [] = []
received (err e ∷ reads) = []
received (ok [] ∷ reads) = []
received (ok (b ∷ bytes) ∷ reads) = (b ∷ bytes) ++ received reads

take_nil : (n : ℕ) → take {A = ℕ} n [] ≡ []
take_nil zero = refl
take_nil (suc n) = refl

take_over :
    (n : ℕ) (xs ys : List ℕ) → length xs ≤ n → take n (xs ++ ys) ≡ xs ++ take (n - length xs) ys
take_over n [] ys h = let e : n - 0 ≡ n = omega arith in rw e
take_over zero (x ∷ xs) ys h = absurd (omega arith)
take_over (suc n) (x ∷ xs) ys h =
    let e : suc n - suc (length xs) ≡ n - length xs = omega arith in
    rw e (ap (◌∷◌ x) (take_over n xs ys (omega arith)))

take-min : (n : ℕ) (ys zs : List ℕ) → take n (take (min n (length ys)) ys ++ zs) ≡ take n (ys ++ zs)
take-min zero ys zs = refl
take-min (suc n) [] zs = rw (take_nil (min (suc n) 0))
take-min (suc n) (y ∷ ys) zs =
    let e : min (suc n) (suc (length ys)) ≡ suc (min n (length ys)) = omega arith in
    rw e (ap (◌∷◌ y) (take-min n ys zs))

-- Cutting a part down to the room that is left changes nothing of the first `n`.
take_cut :
    (n : ℕ) (xs ys zs : List ℕ)
    → length xs ≤ n
    → take n ((xs ++ take (min (n - length xs) (length ys)) ys) ++ zs) ≡ take n (xs ++ (ys ++ zs))
take_cut n xs ys zs h = rw (append_assoc xs (take (min (n - length xs) (length ys)) ys) zs) (
    take_over n xs (take (min (n - length xs) (length ys)) ys ++ zs) h
    ∙ ap (◌++◌ xs) (take-min (n - length xs) ys zs)
    ∙ sym (take_over n xs (ys ++ zs) h))

take_full : (n : ℕ) (xs : List ℕ) → length xs ≤ n → take n xs ≡ xs
take_full n xs h =
    rw (← append-nil xs) (take_over n xs [] h ∙ ap (◌++◌ xs) (take_nil (n - length xs)))

kept_eq :
    (max : ℕ) (output chunk : List ℕ)
    → length output ≤ max
    → (if ltb 0 (max - length output)
        then output ++ take (min (max - length output) (length chunk)) chunk
        else output)
      ≡ output ++ take (min (max - length output) (length chunk)) chunk
kept_eq max output chunk h = elim (Bool-cases (ltb 0 (max - length output))) [
  | inl room ↦ rw room
  | inr full ↦
      let none_left : min (max - length output) (length chunk) ≡ 0 = ground arith in
      rw (full, none_left, append-nil)
]

read_capped_from :
    (max : ℕ) (output : List ℕ) (reads : List (Result IoError (List ℕ)))
    → length output ≤ max
    → (read_capped max output reads).1 ≡ take max (output ++ received reads)
unfolding read_capped
read_capped_from max output [] h = sym (rw append-nil (take_full max output h))
read_capped_from max output (err e ∷ reads) h = sym (rw append-nil (take_full max output h))
read_capped_from max output (ok [] ∷ reads) h = sym (rw append-nil (take_full max output h))
read_capped_from max output (ok (b ∷ bytes) ∷ reads) h =
    let chunk : List ℕ = b ∷ bytes in
    ap (λ o. (read_capped max o reads).1) (kept_eq max output chunk h)
    ∙ (read_capped_from max (output ++ take (min (max - length output) (length chunk)) chunk) reads
          (omega (
            arith,
            length-append output (take (min (max - length output) (length chunk)) chunk),
            length-take (min (max - length output) (length chunk)) chunk,
          ))
        ∙ take_cut max output chunk (received reads) h)

-- Whatever the sizes of the reads, what is kept is the first `max` bytes of what is received.
pub read_capped_lem :
    (max : ℕ) (reads : List (Result IoError (List ℕ)))
    → (read_capped max [] reads).1 ≡ take max (received reads)
read_capped_lem max reads = read_capped_from max [] reads (omega arith)
