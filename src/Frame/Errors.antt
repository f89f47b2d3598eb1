-- ===== src/Frame/Errors.antt =====
-- Which frames are refused, and what a refusal leaves behind.
use wg_kotlin.Base.{
  ℕ, zero, suc, ◌/◌, ◌%◌, ◌^◌, ◌≤◌, ◌<◌, ◌≡◌, refl, sym, ap, ◌∙◌, ◌⊎◌, true, false, ◌||◌, some,
  List, [], ◌∷◌, ◌++◌, arith, ltb, leb, ◌==◌, length, take, drop, is_empty, length-take,
  take-append-drop, ok, err,
}
use wg_kotlin.Frame.Streams.{Stream, Sink, Ending, read_exact, read_byte, short_read}
use wg_kotlin.Frame.{
  Codec, Fits, from_be_bytes, max_frame_size, read_body, read_frame, write_frame, invalid_data,
}
use wg_kotlin.Frame.RoundTrip.{stream, frame, read_frame-header, from_be_bytes-to_be_bytes}

module _ {M : Type 0} (codec : Codec M) where
  open codec use {encode, decode}

  -- A message of no bytes, or of more than the limit, is refused with nothing written.
  pub write_frame_refused :
      (m : M) (output : Sink)
      → ¬ Fits codec m
      → write_frame codec m output ≡ (err invalid_data, output)
  unfolding write_frame
  write_frame_refused m output h = rw (size (encode m) h)
    where
      size :
          (bytes : List ℕ)
          → ¬ ((0 < length bytes) × (length bytes ≤ max_frame_size))
          → (is_empty bytes || ltb max_frame_size (length bytes)) ≡ true
      size [] h = refl
      size (b ∷ bytes) h = ground arith

  -- A header that announces no bytes, or more than the limit, is refused before any of the body is
  -- read.
  pub read_frame_bad_length :
      (a b c d : ℕ) (rest : List ℕ) (ending : Ending)
      → (from_be_bytes (a ∷ b ∷ c ∷ d ∷ []) ≡ 0)
        ⊎ (max_frame_size < from_be_bytes (a ∷ b ∷ c ∷ d ∷ []))
      → read_frame codec (stream (a ∷ b ∷ c ∷ d ∷ rest) ending)
        ≡ (err invalid_data, stream rest ending)
  unfolding read_body
  read_frame_bad_length a b c d rest ending h =
      let size : (from_be_bytes (a ∷ b ∷ c ∷ d ∷ []) == 0
            || ltb max_frame_size (from_be_bytes (a ∷ b ∷ c ∷ d ∷ [])))
          ≡ true =
        ground arith in
      read_frame-header codec a b c d rest ending ∙ rw size

  -- A frame that is cut short is an error, that of the stream if it has one, and no message.
  pub read_frame_truncated :
      (m : M) (k : ℕ) (ending : Ending)
      → Fits codec m
      → 0 < k
      → k < length (frame codec m)
      → read_frame codec (stream (take k (frame codec m)) ending)
        ≡ (err (short_read ending), stream [] ending)
  unfolding read_frame read_byte read_exact read_body
  read_frame_truncated m zero ending fits lo hi = absurd (omega arith)
  read_frame_truncated m (suc zero) ending fits lo hi = refl
  read_frame_truncated m (suc (suc zero)) ending fits lo hi = refl
  read_frame_truncated m (suc (suc (suc zero))) ending fits lo hi = refl
  read_frame_truncated m (suc (suc (suc (suc j)))) ending fits lo hi =
      let n : ℕ = length (encode m) in
      read_frame-header codec (n / 2 ^ 24 % 256) (n / 2 ^ 16 % 256) (n / 2 ^ 8 % 256) (n % 256)
        (take j (encode m)) ending
      ∙ rw (from_be_bytes-to_be_bytes n (omega arith)) (cut j fits (omega arith))
    where
      cut :
          (j : ℕ)
          → Fits codec m
          → j < length (encode m)
          → read_body codec (length (encode m)) (stream (take j (encode m)) ending)
            ≡ (err (short_read ending), stream [] ending)
      cut j fits hi =
          let size : (length (encode m) == 0 || ltb max_frame_size (length (encode m))) ≡ false =
            ground arith in
          let short : leb (length (encode m)) (length (take j (encode m))) ≡ false =
            ground (arith, length-take j (encode m)) in
          rw (size, short)

  body_sound :
      (n : ℕ) (rest : List ℕ) (ending : Ending) (m : M) (s : Stream)
      → read_body codec n (stream rest ending) ≡ (ok (some m), s)
      → (0 < n)
        × (n ≤ max_frame_size)
        × (n ≤ length rest)
        × (decode (take n rest) ≡ some m)
        × (s.bytes ≡ drop n rest)
        × (s.ending ≡ ending)
  unfolding read_body read_exact
  body_sound n rest ending m s e = ground arith

  -- A message that is read stands at the front of the stream as a header and a body of the announced
  -- length, one byte to the limit, which decodes to it; only those bytes are consumed.
  pub read_frame_sound :
      (bytes : List ℕ) (ending : Ending) (m : M) (s : Stream)
      → read_frame codec (stream bytes ending) ≡ (ok (some m), s)
      → (header body : List ℕ) × (bytes ≡ header ++ body ++ s.bytes)
        × (length header ≡ 4)
        × (length body ≡ from_be_bytes header)
        × (0 < length body)
        × (length body ≤ max_frame_size)
        × (decode body ≡ some m)
        × (s.ending ≡ ending)
  unfolding read_frame read_byte read_exact read_body
  read_frame_sound [] ending m s e = absurd (ground arith)
  read_frame_sound (a ∷ []) ending m s e = absurd (ground arith)
  read_frame_sound (a ∷ b ∷ []) ending m s e = absurd (ground arith)
  read_frame_sound (a ∷ b ∷ c ∷ []) ending m s e = absurd (ground arith)
  read_frame_sound (a ∷ b ∷ c ∷ d ∷ rest) ending m s e =
      let n : ℕ = from_be_bytes (a ∷ b ∷ c ∷ d ∷ []) in
      let parts =
        body_sound n rest ending m s (sym (read_frame-header codec a b c d rest ending) ∙ e) in
      let split : rest ≡ take n rest ++ s.bytes = rw (parts.4, take-append-drop n rest) in
      let size : length (take n rest) ≡ n = omega (arith, length-take n rest, parts.2) in
      (
        a ∷ b ∷ c ∷ d ∷ [],
        take n rest,
        ap (λ (r : List ℕ). a ∷ b ∷ c ∷ d ∷ r) split,
        refl,
        size,
        omega (arith, size, parts.0),
        omega (arith, size, parts.1),
        parts.3,
        parts.5,
      )
