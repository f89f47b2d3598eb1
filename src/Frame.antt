-- ===== src/Frame.antt =====
-- wg-kotlin-daemon-rust/daemon/src/ipc/mod.rs: messages in frames of a four-byte big-endian length
-- and that many bytes. Protobuf's coding is `Codec`, an argument. A stream is the bytes that are
-- still to come and how it ends; a sink is what was written and where it starts to fail.
mod Streams
pub mod RoundTrip
pub mod Errors
unfoldable pub use Streams.{read_byte, read_exact, write_all}
pub use Streams.{
  IoError, unexpected_eof, invalid_data, interrupted, os_error, Ending, eof, fault, Stream, Sink,
}
use wg_kotlin.Base.Eff.{Eff, ◌>>=◌, ◌>>◌, pure, fail, lift}
use wg_kotlin.Base.{
  ℕ, zero, suc, ◌+◌, ◌-◌, ◌*◌, ◌/◌, ◌%◌, ◌^◌, ◌≤◌, ◌<◌, min, max, String, ◌≡◌, refl, sym, ap, ◌∙◌,
  subst, ◌≢◌, ◌↔◌, ◌⊎◌, inl, inr, Bool, true, false, not, ◌&&◌, ◌||◌, Option, none, some, List, [],
  ◌∷◌, ◌++◌, map, reverse, append-nil, append_assoc, reverse-append, reverse-reverse, arith, ltb,
  leb, ◌==◌, if◌then◌else◌, ltb→lt, lt→ltb, leb→le, ==_iff, tests, Bool-cases, Option-cases,
  and_iff, length, take, drop, replicate, all, any, keep, is_empty, is_empty_iff, length-append,
  length-take, length-keep-le, take-append, drop-append, All, All-append, All-left, All-right,
  All-reverse, all_iff, Result, ok, err, ok_or, map_err, Result-cases,
}

abbrev pub max_frame_size : ℕ
max_frame_size = 4 * 1024 * 1024

-- prost's `encode_to_vec` and `decode` for one message type.
pub record Codec (M : Type 0) : Type 0 where
  pub encode : M → List ℕ
  pub decode : List ℕ → Option M

-- Decoding reads back what encoding wrote.
abbrev pub Decodes : {M : Type 0} → Codec M → Type 0
Decodes {M} codec = (m : M) → codec.decode (codec.encode m) ≡ some m

abbrev pub to_be_bytes : ℕ → List ℕ
to_be_bytes n = (n / 2 ^ 24 % 256) ∷ (n / 2 ^ 16 % 256) ∷ (n / 2 ^ 8 % 256) ∷ (n % 256) ∷ []

abbrev pub from_be_bytes : List ℕ → ℕ
from_be_bytes (a ∷ b ∷ c ∷ d ∷ []) = a * 2 ^ 24 + b * 2 ^ 16 + c * 2 ^ 8 + d
from_be_bytes _ = 0

module _ {M : Type 0} (codec : Codec M) where
  open codec use {encode, decode}

  abbrev decoded : Option M → Result IoError (Option M)
  decoded none = err invalid_data
  decoded (some m) = ok (some m)

  -- The body, once the length is known.
  unfoldable pub read_body : ℕ → Eff Stream IoError (Option M)
  read_body size =
      if size == 0 || ltb max_frame_size size
      then fail invalid_data
      else do bytes ← read_exact size; lift (decoded (decode bytes))

  -- The rest of the header, unless the stream ended before its first byte.
  unfoldable pub read_header : Option ℕ → Eff Stream IoError (Option M)
  unfolding read_body
  read_header none = pure none
  read_header (some first) = do rest ← read_exact 3; read_body (from_be_bytes (first ∷ rest))

  unfoldable pub read_frame : Eff Stream IoError (Option M)
  unfolding read_header
  read_frame = do first ← read_byte; read_header first

  unfoldable pub write_frame : M → Eff Sink IoError (Unit {0})
  write_frame message =
      if is_empty (encode message) || ltb max_frame_size (length (encode message))
      then fail invalid_data
      else do write_all (to_be_bytes (length (encode message) % 2 ^ 32)); write_all (encode message)

  -- The messages that `write_frame` accepts.
  abbrev pub Fits : M → Type 0
  Fits message = (0 < length (encode message)) × (length (encode message) ≤ max_frame_size)
