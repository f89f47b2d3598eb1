-- ===== src/Frame/RoundTrip.antt =====
-- What was written as frames is read back.
use wg_kotlin.Base.{
  ℕ, zero, suc, ◌/◌, ◌%◌, ◌^◌, ◌≤◌, ◌<◌, ◌≡◌, refl, ap, ◌∙◌, false, ◌||◌, none, some, List, [], ◌∷◌,
  ◌++◌, append-nil, append_assoc, arith, ltb, ◌==◌, length, is_empty, length-append, take-append,
  drop-append, All, Result, ok,
}
use wg_kotlin.Base.Eff.{Eff, ◌>>=◌, ◌>>◌, pure}
use wg_kotlin.Frame.Streams.{Stream, Sink, Ending, eof, IoError, read_exact, read_byte, write_all}
use wg_kotlin.Frame.{
  Codec, Decodes, Fits, to_be_bytes, from_be_bytes, max_frame_size, read_body, read_frame,
  write_frame,
}

-- A sink that never fails, and a stream of given bytes.
abbrev pub open_sink : List ℕ → Sink
open_sink written = record { written = written; room = none }

abbrev pub stream : List ℕ → Ending → Stream
stream bytes ending = record { bytes = bytes; ending = ending }

read_exact-append :
    (xs ys : List ℕ) (ending : Ending)
    → read_exact (length xs) (stream (xs ++ ys) ending) ≡ (ok xs, stream ys ending)
unfolding read_exact
read_exact-append xs ys ending =
    ground (arith, length-append xs ys, take-append xs ys, drop-append xs ys)

pub from_be_bytes-to_be_bytes : (n : ℕ) → n < 2 ^ 32 → from_be_bytes (to_be_bytes n) ≡ n
from_be_bytes-to_be_bytes n h = omega arith

module _ {M : Type 0} (codec : Codec M) where
  open codec use {encode, decode}

  -- The bytes of a message's frame.
  abbrev pub frame : M → List ℕ
  frame m = to_be_bytes (length (encode m)) ++ encode m

  accepted_size :
      (m : M)
      → Fits codec m
      → (is_empty (encode m) || ltb max_frame_size (length (encode m))) ≡ false
  accepted_size m h = size (encode m) h
    where
      size :
          (bytes : List ℕ)
          → (0 < length bytes) × (length bytes ≤ max_frame_size)
          → (is_empty bytes || ltb max_frame_size (length bytes)) ≡ false
      size [] h = absurd (omega arith)
      size (b ∷ bytes) h = ground arith

  -- An accepted message adds its frame to what was written.
  pub write_frame-Fits :
      (m : M) (written : List ℕ)
      → Fits codec m
      → write_frame codec m (open_sink written) ≡ (ok tt, open_sink (written ++ frame m))
  unfolding write_frame write_all
  write_frame-Fits m written h =
      let size : length (encode m) % 2 ^ 32 ≡ length (encode m) = omega arith in
      rw (accepted_size m h, size, append_assoc)

  read_body-encode :
      Decodes codec
      → (m : M) (rest : List ℕ) (ending : Ending) → Fits codec m
      → read_body codec (length (encode m)) (stream (encode m ++ rest) ending)
        ≡ (ok (some m), stream rest ending)
  unfolding read_body
  read_body-encode laws m rest ending h =
      let size : (length (encode m) == 0 || ltb max_frame_size (length (encode m))) ≡ false =
        ground arith in
      rw (size, read_exact-append (encode m) rest ending, laws m)

  -- After a whole header the body is read.
  pub read_frame-header :
      (a b c d : ℕ) (rest : List ℕ) (ending : Ending)
      → read_frame codec (stream (a ∷ b ∷ c ∷ d ∷ rest) ending)
        ≡ read_body codec (from_be_bytes (a ∷ b ∷ c ∷ d ∷ [])) (stream rest ending)
  unfolding read_frame read_byte
  read_frame-header a b c d rest ending = rw (read_exact-append (b ∷ c ∷ d ∷ []) rest ending)

  -- A frame at the front of a stream is read as its message, and what follows it stays.
  pub read_frame-frame :
      Decodes codec
      → (m : M) (rest : List ℕ) (ending : Ending) → Fits codec m
      → read_frame codec (stream (frame m ++ rest) ending) ≡ (ok (some m), stream rest ending)
  read_frame-frame laws m rest ending h =
      let n : ℕ = length (encode m) in
      read_frame-header (n / 2 ^ 24 % 256) (n / 2 ^ 16 % 256) (n / 2 ^ 8 % 256) (n % 256)
        (encode m ++ rest) ending
      ∙ rw (from_be_bytes-to_be_bytes n (omega arith)) (read_body-encode laws m rest ending h)

  -- `write_frame` for each message, until one fails.
  abbrev pub write_all_frames : List M → Eff Sink IoError (Unit {0})
  write_all_frames [] = pure tt
  write_all_frames (m ∷ ms) = do write_frame codec m; write_all_frames ms

  -- `read_frame` until the stream ends, for at most so many frames.
  abbrev pub read_all_frames : ℕ → Eff Stream IoError (List M)
  read_all_frames zero = pure []
  read_all_frames (suc n) = do
    o ← read_frame codec
    elim o [ none ↦ pure [] | some m ↦ (do ms ← read_all_frames n; pure (m ∷ ms)) ]

  abbrev pub frames : List M → List ℕ
  frames [] = []
  frames (m ∷ ms) = frame m ++ frames ms

  frames_written :
      (ms : List M) (written : List ℕ)
      → All (Fits codec) ms
      → write_all_frames ms (open_sink written) ≡ (ok tt, open_sink (written ++ frames ms))
  frames_written [] written h = rw append-nil
  frames_written (m ∷ ms) written h = rw (write_frame-Fits m written h.0) (
      frames_written ms (written ++ frame m) h.1
      ∙ ap {B = Result IoError (Unit {0}) × Sink} (λ bytes. (ok tt, open_sink bytes))
          (append_assoc written (frame m) (frames ms)))

  frames_read :
      Decodes codec
      → (ms : List M) → All (Fits codec) ms
      → read_all_frames (suc (length ms)) (stream (frames ms) eof) ≡ (ok ms, stream [] eof)
  unfolding read_frame read_byte
  frames_read laws [] h = refl
  frames_read laws (m ∷ ms) h =
      rw (read_frame-frame laws m (frames ms) eof h.0) (rw (frames_read laws ms h.1))

  -- If decoding reads back what encoding wrote, messages that `write_frame` accepts are all written, and reading what was written until the end
  -- of the stream gives the same messages in the same order and leaves nothing.
  pub read_all_frames-write_all_frames :
      Decodes codec
      → (ms : List M) → All (Fits codec) ms
      → let (r, output) = write_all_frames ms (open_sink []) in
        (r ≡ ok tt)
        × (read_all_frames (suc (length ms)) (stream output.written eof) ≡ (ok ms, stream [] eof))
  read_all_frames-write_all_frames laws ms h =
      rw (frames_written ms [] h) (refl, frames_read laws ms h)
