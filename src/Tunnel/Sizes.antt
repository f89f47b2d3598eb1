-- ===== src/Tunnel/Sizes.antt =====
-- The slices handed to BoringTun are large enough and lie in the buffer, so that no call panics.
use wg_kotlin.Base.{
  ℕ, ◌+◌, ◌≤◌, ◌<◌, max, ◌≡◌, refl, ◌⊎◌, inl, inr, true, false, Option, none, some, List, [], ◌∷◌,
  arith, ltb, leb, if◌then◌else◌, ltb→lt, leb→le, Bool-cases, Option-cases, length, is_empty, ok,
  err,
}
use wg_kotlin.Text.{Str}
use wg_kotlin.Protocol.{IpAddr}
use wg_kotlin.Tunnel.{
  Boring, TunnResult, TunnelSession, TunnelError, packet_too_large, buffer_too_large, internal,
  invalid_source_ip, Call, decrypt_to_raw_packet, run_periodic_task, map_tunn_result,
  max_packet_buffer_size,
}

-- BoringTun's requirements on the slice: 32 bytes more than the packet and at least 148 to encrypt;
-- to decrypt as much as the packet and at least 148; 148 for the timers.
pub record Answers {T : Type 0} (boring : Boring T) : Type 0 where
  pub encapsulates :
      (t : T) (src : List ℕ) (n : ℕ)
      → length src + 32 ≤ n
      → 148 ≤ n
      → (r : TunnResult) × (t' : T) × (boring.encapsulate t src n ≡ some (r, t'))
  pub decapsulates :
      (t : T) (ip : IpAddr) (src : List ℕ) (n : ℕ)
      → length src ≤ n
      → 148 ≤ n
      → (r : TunnResult) × (t' : T) × (boring.decapsulate t ip src n ≡ some (r, t'))
  pub updates :
      (t : T) (n : ℕ)
      → 148 ≤ n
      → (r : TunnResult) × (t' : T) × (boring.update_timers t n ≡ some (r, t'))

module _ {T : Type 0} (boring : Boring T) (answers : Answers boring) where
  -- What a call may do: refuse with one of some errors and leave the session alone, or pass on the
  -- answer that BoringTun gave to `call` for a slice of `n` bytes, at least the required ones and within
  -- the buffer, and keep the mutex as it was.
  pub data Answered (s : TunnelSession T) (call : ℕ → Option (TunnResult × T)) (required : ℕ)
      (Refusal : TunnelError → Type 0) : Call T → Type 0 where
    refused :
        {c : Call T} (e : TunnelError)
        → Refusal e
        → c ≡ some (err e, s)
        → Answered s call required Refusal c
    answered :
        {c : Call T} (n : ℕ) (r : TunnResult) (t : T)
        → s.poisoned ≡ false
        → required ≤ n
        → 148 ≤ n
        → n ≤ 65567
        → call n ≡ some (r, t)
        → c ≡ some (ok (map_tunn_result r), record s { tunnel = t })
        → Answered s call required Refusal c

  abbrev pub EncryptRefusal : TunnelSession T → List ℕ → ℕ → TunnelError → Type 0
  EncryptRefusal s src dst_size e =
      ((e ≡ packet_too_large) × (65535 < length src))
      ⊎ (((e ≡ buffer_too_large) × (65567 < dst_size)) ⊎ ((e ≡ internal) × (s.poisoned ≡ true)))

  abbrev pub DecryptRefusal : TunnelSession T → List ℕ → ℕ → Str → TunnelError → Type 0
  DecryptRefusal s src dst_size source_ip e =
      ((e ≡ packet_too_large) × (65567 < length src))
      ⊎ (((e ≡ invalid_source_ip) × (boring.parse_ip source_ip ≡ none))
          ⊎ (((e ≡ buffer_too_large) × (65567 < dst_size))
              ⊎ ((e ≡ internal) × (s.poisoned ≡ true))))

  -- BoringTun's answer to decapsulating a packet from a source.
  abbrev pub decapsulated : T → List ℕ → Option IpAddr → ℕ → Option (TunnResult × T)
  decapsulated t src none n = none
  decapsulated t src (some ip) n = boring.decapsulate t ip src n

  -- What is asked of the buffer for an input packet, when draining included.
  abbrev decrypt_minimum : List ℕ → ℕ
  decrypt_minimum src = if is_empty src then max_packet_buffer_size else max (length src) 148

  decrypt_minimum_bounds :
      (src : List ℕ)
      → length src ≤ 65567
      → (length src ≤ decrypt_minimum src)
        × (148 ≤ decrypt_minimum src)
        × (decrypt_minimum src ≤ 65567)
  decrypt_minimum_bounds [] h = (omega arith, omega arith, omega arith)
  decrypt_minimum_bounds (b ∷ src) h = (omega arith, omega arith, omega arith)

  -- If BoringTun answers whenever its slice has the size that it requires, decrypting never panics: a packet over 65567 bytes, a source that is no IP address, a size hint
  -- over 65567 and a poisoned mutex are refused with their errors and nothing changed, and any other
  -- call, of an empty packet too, passes on what BoringTun answers to decapsulating that packet from that
  -- source in a slice as large as the packet, 148 bytes at least, that lies in the buffer.
  pub decrypt_to_raw_packet-Answered :
      (s : TunnelSession T) (src : List ℕ) (dst_size : ℕ) (source_ip : Str)
      → Answered s
          (decapsulated s.tunnel src (boring.parse_ip source_ip))
          (length src)
          (DecryptRefusal s src dst_size source_ip)
          (decrypt_to_raw_packet boring s src dst_size source_ip)
  unfolding decrypt_to_raw_packet
  decrypt_to_raw_packet-Answered s src dst_size source_ip =
      elim (Bool-cases (ltb 65567 (length src))) [
        | inl large ↦ refused packet_too_large (inl (refl, ltb→lt _ _ large)) (rw large)
        | inr fits ↦ elim (Option-cases (boring.parse_ip source_ip)) [
          | inl bad ↦ refused invalid_source_ip (inr (inl (refl, bad))) (rw (fits, bad))
          | inr (ip, good) ↦ elim (Bool-cases (ltb max_packet_buffer_size dst_size)) [
            | inl big ↦
                refused buffer_too_large (inr (inr (inl (refl, ltb→lt _ _ big)))) (ground arith)
            | inr room ↦ elim (Bool-cases s.poisoned) [
              | inl dead ↦ refused internal (inr (inr (inr (refl, dead)))) (ground arith)
              | inr alive ↦
                  let (enough, timers, small) = decrypt_minimum_bounds src (ground arith) in
                  let n : ℕ = max dst_size (decrypt_minimum src) in
                  let (r, t, e) =
                    answers.decapsulates s.tunnel ip src n (omega arith) (omega arith) in
                  let inside : leb n max_packet_buffer_size ≡ true = ground arith in
                  answered n r t alive (omega arith) (omega arith) (leb→le _ _ inside) (rw good e)
                    (rw (fits, good, room, alive, inside, e))
            ]
          ]
        ]
      ]

  -- The timers never panic: a size hint over 65567 and a poisoned mutex are refused, and any other
  -- call passes on BoringTun's answer for a slice of at least 148 bytes that lies in the buffer.
  pub run_periodic_task-Answered :
      (s : TunnelSession T) (dst_size : ℕ)
      → Answered s
          (boring.update_timers s.tunnel)
          148
          (λ e.
            ((e ≡ buffer_too_large) × (65567 < dst_size)) ⊎ ((e ≡ internal) × (s.poisoned ≡ true)))
          (run_periodic_task boring s dst_size)
  unfolding run_periodic_task
  run_periodic_task-Answered s dst_size = elim (Bool-cases (ltb max_packet_buffer_size dst_size)) [
    | inl big ↦ refused buffer_too_large (inl (refl, ltb→lt _ _ big)) (ground arith)
    | inr room ↦ elim (Bool-cases s.poisoned) [
      | inl dead ↦ refused internal (inr (refl, dead)) (ground arith)
      | inr alive ↦
          let n : ℕ = max dst_size 148 in
          let (r, t, e) = answers.updates s.tunnel n (omega arith) in
          let inside : leb n max_packet_buffer_size ≡ true = ground arith in
          answered n r t alive (omega arith) (omega arith) (leb→le _ _ inside) e
            (rw (room, alive, inside, e))
    ]
  ]
