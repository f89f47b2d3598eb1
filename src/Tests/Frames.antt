-- ===== src/Tests/Frames.antt =====
-- Frames of one byte each.
use wg_kotlin.Base.{
  ℕ, ◌≤◌, ◌<◌, ◌≡◌, refl, Option, none, some, List, [], ◌∷◌, ◌++◌, arith, length, take, Result, ok,
  err,
}
use wg_kotlin.Frame.{
  Codec, IoError, unexpected_eof, interrupted, Ending, eof, Sink, Stream, Fits, max_frame_size,
  read_frame, write_frame, from_be_bytes, invalid_data, os_error,
}
use wg_kotlin.Frame.RoundTrip.{
  open_sink, stream, frame, write_all_frames, read_all_frames, read_all_frames-write_all_frames,
}
use wg_kotlin.Frame.Errors.{read_frame_sound, read_frame_truncated}

abbrev decode_bytes : List ℕ → Option (List ℕ)
decode_bytes [] = none
decode_bytes (b ∷ bytes) = some bytes

-- A byte and the message, so that no message is empty on the wire.
abbrev codec : Codec (List ℕ)
codec = record { encode = λ m. 0 ∷ m; decode = decode_bytes }

short-Fits : (b : ℕ) → Fits codec (b ∷ [])
short-Fits b = (ground arith, ground arith)

read_all_frames-write_all_frames_example :
    let (r, output) = write_all_frames codec ((7 ∷ []) ∷ (8 ∷ []) ∷ []) (open_sink []) in
    (r ≡ ok tt)
    × (read_all_frames codec 3 (stream output.written eof)
        ≡ (ok ((7 ∷ []) ∷ (8 ∷ []) ∷ []), stream [] eof))
read_all_frames-write_all_frames_example =
    read_all_frames-write_all_frames codec (λ m. refl) ((7 ∷ []) ∷ (8 ∷ []) ∷ [])
      (short-Fits 7, (short-Fits 8, tt))

abbrev wire : List ℕ
wire = 0 ∷ 0 ∷ 0 ∷ 2 ∷ 0 ∷ 7 ∷ 9 ∷ []

reads_wire : read_frame codec (stream wire eof) ≡ (ok (some (7 ∷ [])), stream (9 ∷ []) eof)
unfolding read_frame wg_kotlin.Frame.read_byte wg_kotlin.Frame.read_exact
reads_wire = refl

read_frame_sound_example :
    (header body : List ℕ) × (wire ≡ header ++ body ++ 9 ∷ [])
    × (length header ≡ 4)
    × (length body ≡ from_be_bytes header)
    × (0 < length body)
    × (length body ≤ max_frame_size)
    × (decode_bytes body ≡ some (7 ∷ []))
    × (eof ≡ eof)
read_frame_sound_example = read_frame_sound codec wire eof (7 ∷ []) (stream (9 ∷ []) eof) reads_wire

read_frame_truncated_example :
    read_frame codec (stream (take 5 (frame codec (7 ∷ []))) eof)
    ≡ (err unexpected_eof, stream [] eof)
read_frame_truncated_example =
    read_frame_truncated codec (7 ∷ []) 5 eof (short-Fits 7) (omega arith) (omega arith)

-- A coding that leaves the empty message empty.
abbrev bare : Codec (List ℕ)
bare = record { encode = λ m. m; decode = λ bytes. some bytes }

abbrev reads : List (Result IoError (List ℕ))
reads = ok (1 ∷ 2 ∷ []) ∷ ok (3 ∷ []) ∷ err interrupted ∷ []
