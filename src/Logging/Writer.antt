-- ===== src/Logging/Writer.antt =====
-- wg-kotlin-daemon-rust/daemon/src/logging.rs: the queue of messages and the thread that writes them.
use wg_kotlin.Base.{
  ℕ, ◌≡◌, refl, sym, ap, ◌∙◌, List, [], ◌∷◌, ◌++◌, append-nil, append_assoc, ltb, if◌then◌else◌,
  length, Result, ok, err,
}
use wg_kotlin.Base.Eff.{Eff}
use wg_kotlin.Text.{Str}
use wg_kotlin.Frame.{IoError}
use wg_kotlin.Logging.{log_line}

-- A flush has the number of the caller that waits for it.
pub data Message : Type 0 where
  line : Str → Message
  flush : ℕ → Message

pub record Writer (W : Type 0) : Type 0 where
  pub writeln : Str → Eff W IoError (Unit {0})
  pub flush_writer : Eff W IoError (Unit {0})

abbrev pub channel_capacity : ℕ
channel_capacity = 256

-- `try_send`, which drops a message that finds the channel full.
unfoldable pub try_send : Message → List Message → List Message
try_send message queue =
    if ltb (length queue) channel_capacity then queue ++ message ∷ [] else queue

unfoldable pub log : (prefix message : Str) → List Message → List Message
unfolding try_send
log prefix message queue = try_send (line (log_line prefix message)) queue

module _ {W : Type 0} (writer : Writer W) where
  abbrev pub wrote : (W → List ℕ × W) → Result IoError (Unit {0}) × W → List ℕ × W
  wrote rest (ok u, w) = rest w
  wrote rest (err e, w) = ([], w)

  abbrev pub woken : ℕ → List ℕ × W → List ℕ × W
  woken caller (callers, w) = (caller ∷ callers, w)

  -- The loop of the thread `daemon-logs`: the callers that it wakes, and the state. It ends when a line
  -- cannot be written.
  unfoldable pub write_messages : List Message → W → List ℕ × W
  write_messages [] w = ([], w)
  write_messages (line text ∷ messages) w = wrote (write_messages messages) (writer.writeln text w)
  write_messages (flush caller ∷ messages) w =
      let (_, w') = writer.flush_writer w in woken caller (write_messages messages w')

  abbrev pub lines_of : List Message → List Str
  lines_of [] = []
  lines_of (line text ∷ messages) = text ∷ lines_of messages
  lines_of (flush caller ∷ messages) = lines_of messages

  abbrev pub callers_of : List Message → List ℕ
  callers_of [] = []
  callers_of (line text ∷ messages) = callers_of messages
  callers_of (flush caller ∷ messages) = caller ∷ callers_of messages

-- What the log holds: a line that is written is added to it whole, one that cannot be written and a flush
-- leave it.
pub record WriterLaws {W : Type 0} (writer : Writer W) (contents : W → List Str) : Type 0 where
  pub added :
      (text : Str) (w w' : W)
      → writer.writeln text w ≡ (ok tt, w')
      → contents w' ≡ contents w ++ text ∷ []
  pub refused :
      (text : Str) (e : IoError) (w w' : W)
      → writer.writeln text w ≡ (err e, w')
      → contents w' ≡ contents w
  pub flushed : (w : W) → contents (writer.flush_writer w).1 ≡ contents w

module _ {W : Type 0} (writer : Writer W) (contents : W → List Str)
    (laws : WriterLaws writer contents) where
  -- The log gains the first ones of the lines, in their order.
  abbrev pub Written : List Message → W → List ℕ × W → Type 0
  Written messages w (callers, w') =
      (done rest : List Str) × (lines_of writer messages ≡ done ++ rest)
      × (contents w' ≡ contents w ++ done)

  write-line :
      (text : Str) (messages : List Message) (w : W) (p : Result IoError (Unit {0}) × W)
      → writer.writeln text w ≡ p
      → ((u : W) → Written messages u (write_messages writer messages u))
      → Written (line text ∷ messages) w (wrote writer (write_messages writer messages) p)
  write-line text messages w (ok u, v) run keeps =
      let (done, rest, shape, log) = keeps v in
      (
        text ∷ done,
        rest,
        ap (◌∷◌ text) shape,
        log
            ∙ ap (λ l. l ++ done) (laws.added text w v run)
            ∙ append_assoc (contents w) (text ∷ []) done,
      )
  write-line text messages w (err e, v) run keeps = (
    [],
    text ∷ lines_of writer messages,
    refl,
    laws.refused text e w v run ∙ sym (append-nil (contents w)),
  )

  -- Whatever fails, the log gains lines that were sent, each whole and in the order in which they were sent, and none
  -- behind one that is missing.
  pub write_messages-Written :
      (messages : List Message) (w : W) → Written messages w (write_messages writer messages w)
  unfolding write_messages
  write_messages-Written [] w = ([], [], refl, sym (append-nil (contents w)))
  write_messages-Written (line text ∷ messages) w =
      write-line text messages w (writer.writeln text w) refl (write_messages-Written messages)
  write_messages-Written (flush caller ∷ messages) w =
      let v = (writer.flush_writer w).1 in
      let (done, rest, shape, log) = write_messages-Written messages v in
      (done, rest, shape, log ∙ ap (λ l. l ++ done) (laws.flushed w))
