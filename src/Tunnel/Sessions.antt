-- ===== src/Tunnel/Sessions.antt =====
-- Which sessions can be created.
use wg_kotlin.Base.{
  ℕ, ◌*◌, ◌^◌, ◌≤◌, ◌<◌, ◌≡◌, inl, inr, false, Option, none, some, List, arith, ltb, ◌==◌,
  if◌then◌else◌, Bool-cases, Option-cases, length, ok, Result-cases,
}
use wg_kotlin.Text.{Str, len}
use wg_kotlin.Tunnel.{
  Boring, TunnelSession, create_new_tunnel, parse_key_bytes, max_peer_index, parse_preshared,
}

module _ {T : Type 0} (boring : Boring T) where
  -- What the decoder of the keys promises: its buffer has 32 bytes.
  abbrev pub FillsKeys : Type 0
  FillsKeys =
      (encoded : Str) (key : List ℕ) (size : ℕ)
      → boring.decode_slice encoded ≡ some (key, size)
      → length key ≡ 32

  -- A text of 43 or 44 bytes that decodes to exactly 32.
  abbrev pub IsKey : Str → List ℕ → Type 0
  IsKey encoded key =
      (43 ≤ len encoded)
      × (len encoded ≤ 44)
      × (boring.decode_slice encoded ≡ some (key, 32))
      × (length key ≡ 32)

  parse_key_bytes_sound :
      FillsKeys
      → (encoded : Str) (key : List ℕ) → parse_key_bytes boring encoded ≡ some key
      → IsKey encoded key
  unfolding parse_key_bytes
  parse_key_bytes_sound fills encoded key h = elim (Option-cases (boring.decode_slice encoded)) [
    | inl missing ↦ absurd (ground arith)
    | inr ((k, size), e) ↦ ground (arith, fills encoded k size e)
  ]

  abbrev pub IsPreshared : Option Str → Option (List ℕ) → Type 0
  IsPreshared none none = Unit
  IsPreshared (some encoded) (some key) = IsKey encoded key
  IsPreshared _ _ = ⊥

  IsPreshared-sound :
      FillsKeys
      → (o : Option Str) (k : Option (List ℕ)) → parse_preshared boring o ≡ ok k
      → IsPreshared o k
  IsPreshared-sound fills none none h = tt
  IsPreshared-sound fills none (some k) h = absurd (ground arith)
  IsPreshared-sound fills (some encoded) k h =
      elim (Option-cases (parse_key_bytes boring encoded)) [
        | inl missing ↦ absurd (ground arith)
        | inr (key, e) ↦ go key e (ground arith)
      ]
    where
      go :
          (key : List ℕ)
          → parse_key_bytes boring encoded ≡ some key
          → k ≡ some key
          → IsPreshared (some encoded) k
      go key e same = rw same (parse_key_bytes_sound fills encoded key e)

  -- If the decoder fills a buffer of 32 bytes, a created session has an index whose eight-bit shift fits 32 bits, keys that are 32 bytes in 43
  -- or 44 bytes of base64, a preshared key exactly if one was given, a keep-alive unless it was 0,
  -- and a mutex that is not poisoned.
  pub create_new_tunnel_sound :
      FillsKeys
      → (secret_key public_key : Str) (preshared_key : Option Str) (keep_alive index : ℕ)
        (s : TunnelSession T)
      → create_new_tunnel boring secret_key public_key preshared_key keep_alive index ≡ ok s
      → (index * 2 ^ 8 < 2 ^ 32)
        × ((private public : List ℕ) × (preshared : Option (List ℕ)) × IsKey secret_key private
            × IsKey public_key public
            × IsPreshared preshared_key preshared
            × (s ≡ record {
              tunnel =
                  boring.new private public preshared
                    (if keep_alive == 0 then none else some keep_alive)
                    index;
              poisoned = false;
            }))
  unfolding create_new_tunnel
  create_new_tunnel_sound fills secret_key public_key preshared_key keep_alive index s h =
      elim (Bool-cases (ltb max_peer_index index)) [
        | inl far ↦ absurd (ground arith)
        | inr near ↦ elim (Option-cases (parse_key_bytes boring secret_key)) [
          | inl missing ↦ absurd (ground arith)
          | inr (private, e) ↦ elim (Option-cases (parse_key_bytes boring public_key)) [
            | inl missing ↦ absurd (ground arith)
            | inr (public, e') ↦ elim (Result-cases (parse_preshared boring preshared_key)) [
              | inr (bad, b) ↦ absurd (ground arith)
              | inl (preshared, b) ↦ (
                ground arith,
                (
                  private,
                  public,
                  preshared,
                  parse_key_bytes_sound fills secret_key private e,
                  parse_key_bytes_sound fills public_key public e',
                  IsPreshared-sound fills preshared_key preshared b,
                  ground arith,
                ),
              )
            ]
          ]
        ]
      ]
