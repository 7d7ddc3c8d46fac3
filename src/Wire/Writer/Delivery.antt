-- ===== src/Wire/Writer/Delivery.antt =====
-- What the other end reads of the messages that were queued (src/wire/mod.rs, src/wire/read_loop.rs).
use iscp_rs.Base.{ℕ, ◌≡◌, some, List, [], ◌∷◌, ◌++◌, if◌then◌else◌, is_some}
use iscp_rs.Message.Types.{Bytes}
use iscp_rs.Message.Messages.{Message}
use iscp_rs.Transport.Compression.{Compression}
use iscp_rs.Transport.Compression.Codec.{Flate2, Extractor}
use iscp_rs.Wire.Writer.{
  Encoding, WriteEvent, queued, queue_closed, cancelled, WriteEnd, waiting, drained, failed,
  starved, read_frame,
}

-- The messages that can be encoded, up to the end of the queue.
unfoldable pub sendable : Encoding → List WriteEvent → List Message
sendable enc [] = []
sendable enc (queued m accepted ∷ es) =
    let rest = sendable enc es in if is_some (enc.encode m) then m ∷ rest else rest
sendable enc (queue_closed ∷ es) = []
sendable enc (cancelled ∷ es) = sendable enc es

-- The loop has not returned early.
abbrev pub IsClean : WriteEnd → Type 0
IsClean waiting = Unit {0}
IsClean drained = Unit {0}
IsClean failed = ⊥
IsClean starved = ⊥

module _ {C D : Type 0} (f : Flate2 C D) (enc : Encoding) where
  -- The frames are read as the messages, one after the other.
  abbrev pub Reads : Extractor → List Bytes → List Message → Type 0
  Reads x [] [] = Unit {0}
  Reads x (frame ∷ frames) (m ∷ ms) =
      (fuel : ℕ) × ((read_frame f enc fuel x frame).0 ≡ some m)
      × Reads (read_frame f enc fuel x frame).1 frames ms
  Reads x _ _ = ⊥

  pub record Delivered (x : Extractor) (all : List Message) (result : List Bytes × WriteEnd)
      : Type 0 where
    pub received : List Message
    pub lost : List Message
    pub whole : received ++ lost ≡ all
    pub reads : Reads x result.0 received
    pub complete : IsClean result.1 → lost ≡ []
