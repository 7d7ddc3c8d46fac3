-- ===== src/Wire/Writer.antt =====
-- `write_loop` (src/wire/mod.rs), and the reading of what it wrote (src/wire/read_loop.rs). The encoding
-- is a parameter, as flate2 is.
pub mod Delivery
use iscp_rs.Base.{ℕ, ◌≡◌, Bool, true, false, Option, none, some, List, [], ◌∷◌, if◌then◌else◌}
use iscp_rs.Errors.{Outcome, ok, err, panic}
use iscp_rs.Message.Types.{Bytes}
use iscp_rs.Message.Messages.{Message}
use iscp_rs.Transport.Compression.Codec.{Flate2, Compressor, Extractor, compress, extract}

-- prost: what was encoded is decoded as it was.
pub record Encoding : Type 0 where
  pub encode : Message → Option Bytes
  pub decode : Bytes → Option Message
  pub decodes : (m : Message) (bytes : Bytes) → encode m ≡ some bytes → decode bytes ≡ some m

-- What comes to the loop: a message, which the transport will take or refuse; the end of the queue; or
-- the cancellation of the connection.
pub data WriteEvent : Type 0 where
  queued : Message → Bool → WriteEvent
  queue_closed : WriteEvent
  cancelled : WriteEvent

-- How the loop stands: it waits, it returned with the queue written, it returned at an error, or the
-- fuel of the compression was short.
pub data WriteEnd : Type 0 where
  waiting : WriteEnd
  drained : WriteEnd
  failed : WriteEnd
  starved : WriteEnd

pub data WriteStep : Type 0 where
  skip : WriteStep
  wrote : Bytes → Compressor → WriteStep
  quit : WriteEnd → WriteStep

module _ {C D : Type 0} (f : Flate2 C D) (enc : Encoding) (fuel : ℕ) where
  unfoldable pub write_packed : Option (Outcome Bytes) × Compressor → Bool → WriteStep
  write_packed (none, c) accepted = quit starved
  write_packed (some (err e), c) accepted = quit failed
  write_packed (some panic, c) accepted = quit failed
  write_packed (some (ok frame), c) accepted = if accepted then wrote frame c else quit failed

  -- The body of both loops.
  unfoldable pub write_one : Compressor → Message → Bool → WriteStep
  write_one c m accepted = elim (enc.encode m) [
    | none ↦ skip
    | some bytes ↦ write_packed (compress f fuel c bytes) accepted
  ]

  -- The rest of the loop, behind one message: `rest` is what it does with the compressor it has.
  unfoldable pub go_on_with :
      WriteStep → Compressor → (Compressor → List Bytes × WriteEnd) → List Bytes × WriteEnd
  go_on_with skip c rest = rest c
  go_on_with (quit e) c rest = ([], e)
  go_on_with (wrote frame c') c rest = let (frames, e) = rest c' in (frame ∷ frames, e)

  -- The messages that are left when the connection is cancelled.
  unfoldable pub drain : List WriteEvent → Compressor → List Bytes × WriteEnd
  drain [] c = ([], drained)
  drain (queued m accepted ∷ es) c = go_on_with (write_one c m accepted) c (drain es)
  drain (queue_closed ∷ es) c = ([], drained)
  drain (cancelled ∷ es) c = drain es c

  unfoldable pub write_loop : List WriteEvent → Compressor → List Bytes × WriteEnd
  write_loop [] c = ([], waiting)
  write_loop (queued m accepted ∷ es) c = go_on_with (write_one c m accepted) c (write_loop es)
  write_loop (queue_closed ∷ es) c = ([], drained)
  write_loop (cancelled ∷ es) c = drain es c

-- The extraction and the decoding of one frame by `read_loop`; `none` ends the loop, or says that the
-- fuel was short.
unfoldable pub read_frame :
    {C D : Type 0} → Flate2 C D → Encoding → ℕ → Extractor → Bytes → Option Message × Extractor
read_frame f enc fuel x frame =
    let (o, x') = extract f fuel x frame in
    (
      elim o [
        | none ↦ none
        | some (err e) ↦ none
        | some panic ↦ none
        | some (ok bytes) ↦ enc.decode bytes
      ],
      x',
    )
