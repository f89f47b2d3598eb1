-- ===== src/Frame/Streams.antt =====
-- `AsyncRead` and `AsyncWrite` as the framing uses them.
use wg_kotlin.Base.{
  ℕ, ◌-◌, Option, none, some, List, [], ◌∷◌, ◌++◌, leb, if◌then◌else◌, length, take, drop, Result,
  ok, err,
}

-- `std::io::Error` by its kind, or by the system's code.
pub data IoError : Type 0 where
  unexpected_eof invalid_data interrupted : IoError
  os_error : ℕ → IoError

pub data Ending : Type 0 where
  eof : Ending
  fault : IoError → Ending

pub record Stream : Type 0 where
  pub bytes : List ℕ
  pub ending : Ending

abbrev first_byte : List ℕ → Ending → Result IoError (Option ℕ) × Stream
first_byte [] eof = (ok none, record { bytes = []; ending = eof })
first_byte [] (fault e) = (err e, record { bytes = []; ending = fault e })
first_byte (b ∷ bytes) ending = (ok (some b), record { bytes = bytes; ending = ending })

-- `read` into a buffer of one byte; 0 bytes, here `none`, is the end of the stream.
unfoldable pub read_byte : Stream → Result IoError (Option ℕ) × Stream
read_byte s = first_byte s.bytes s.ending

abbrev pub short_read : Ending → IoError
short_read eof = unexpected_eof
short_read (fault e) = e

unfoldable pub read_exact : ℕ → Stream → Result IoError (List ℕ) × Stream
read_exact n s =
    if leb n (length s.bytes)
    then (ok (take n s.bytes), record s { bytes = drop n s.bytes })
    else (err (short_read s.ending), record s { bytes = [] })

pub record Sink : Type 0 where
  pub written : List ℕ
  -- how many more bytes it takes before it fails, if it ever does
  pub room : Option ℕ

abbrev pub into : Option ℕ → List ℕ → List ℕ → Result IoError (Unit {0}) × Sink
into none bytes written = (ok tt, record { written = written ++ bytes; room = none })
into (some n) bytes written =
    if leb (length bytes) n
    then (ok tt, record { written = written ++ bytes; room = some (n - length bytes) })
    else (err (os_error 32), record { written = written ++ take n bytes; room = some 0 })

unfoldable pub write_all : List ℕ → Sink → Result IoError (Unit {0}) × Sink
write_all bytes output = into output.room bytes output.written
