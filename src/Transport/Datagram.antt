-- ===== src/Transport/Datagram.antt =====
-- src/transport/datagram.rs: messages cut into datagrams (`Splitter`) and put together again
-- (`FrameBuf`). Bytes are numbers below 256, a `usize` never wraps (lengths of slices), an `Instant`
-- is a number of nanoseconds.
pub mod Frames
pub mod Sort
pub mod Reassembly
pub mod Splits
pub mod RoundTrip
mod Tests
use iscp_rs.Base.{
  ℕ, zero, suc, ◌+◌, ◌-◌, ◌*◌, ◌/◌, ◌%◌, ◌≡◌, Bool, true, false, not, ◌&&◌, Option, none, some,
  List, [], ◌∷◌, ◌++◌, if◌then◌else◌, leb, ltb, ◌==◌, nat_eq, Eq, Map, get, insert, remove, length,
  take, drop, wrapping_add, u32_mod, u16_mod,
}
use iscp_rs.Message.Types.{Bytes}

pub record Splitter : Type 0 where
  pub sequence_number : ℕ
  pub max_segment_size : ℕ
  pub max_message_size : ℕ

-- `none` is the panic of the `assert!`.
unfoldable pub new_splitter : ℕ → Option Splitter
new_splitter max_datagram_size =
    if ltb 8 max_datagram_size
    then some (record {
      sequence_number = 0;
      max_segment_size = max_datagram_size - 8;
      max_message_size = (max_datagram_size - 8) * 65535;
    })
    else none

-- `put_u32` and `put_u16`, big-endian; `read_u32` and `read_u16` of `BigEndian`.
abbrev pub u32_bytes : ℕ → Bytes
u32_bytes n = (n / 0x1000000 % 256) ∷ (n / 0x10000 % 256) ∷ (n / 0x100 % 256) ∷ (n % 256) ∷ []

abbrev pub u16_bytes : ℕ → Bytes
u16_bytes n = (n / 0x100 % 256) ∷ (n % 256) ∷ []

unfoldable pub read_u32 : Bytes → ℕ
read_u32 (a ∷ b ∷ c ∷ d ∷ rest) = a * 0x1000000 + b * 0x10000 + c * 0x100 + d
read_u32 _ = 0

unfoldable pub read_u16 : Bytes → ℕ
read_u16 (a ∷ b ∷ rest) = a * 0x100 + b
read_u16 _ = 0

-- The index of the last segment.
unfoldable pub max_segment : ℕ → ℕ → ℕ
max_segment len segment_size =
    let i = len / segment_size in if (len % segment_size == 0) && ltb 0 i then i - 1 else i

-- One frame: the header, then the bytes of segment `i`.
unfoldable pub frame : ℕ → ℕ → ℕ → ℕ → Bytes → Bytes
frame sequence_number segment_size max_i i content =
    let segment =
      if i == max_i
      then drop (i * segment_size) content
      else take ((i + 1) * segment_size - i * segment_size) (drop (i * segment_size) content) in
    u32_bytes sequence_number ++ (u16_bytes max_i ++ (u16_bytes (i % u16_mod) ++ segment))

-- `for i in 0..(max_segment_i + 1)`: `count` rounds from `i` on.
unfoldable pub frames_from : ℕ → ℕ → ℕ → Bytes → ℕ → ℕ → List Bytes
frames_from sequence_number segment_size max_i content zero i = []
frames_from sequence_number segment_size max_i content (suc count) i =
    frame sequence_number segment_size max_i i content
    ∷ frames_from sequence_number segment_size max_i content count (i + 1)

-- `split` returns the frames that it appends to the queue.
pub data SplitResult : Type 0 where
  ok : List Bytes → SplitResult
  too_long : SplitResult
  panic : SplitResult

unfoldable pub split : Splitter → Bytes → SplitResult × Splitter
split s content =
    if leb s.max_message_size (length content)
    then (too_long, s)
    else let max_i = max_segment (length content) s.max_segment_size in
      let s' = record s { sequence_number = wrapping_add s.sequence_number 1 } in
      if ltb max_i u16_mod
      then (ok (frames_from s.sequence_number s.max_segment_size max_i content (max_i + 1) 0), s')
      else (panic, s')

-- An entry of `FrameBuf::frames`: when it began, how many frames it needs, those it has.
pub record Pending : Type 0 where
  pub since : ℕ
  pub needed : ℕ
  pub parts : List Bytes

pub record FrameBuf : Type 0 where
  pub expire : ℕ
  pub checked_at : ℕ
  pub frames : Map ℕ Pending

unfoldable pub new_frame_buf : ℕ → FrameBuf
new_frame_buf now = record { expire = 20_000_000_000; checked_at = now; frames = [] }

-- `retain`.
unfoldable pub retain : ℕ → ℕ → Map ℕ Pending → Map ℕ Pending
retain now expire [] = []
retain now expire ((k, p) ∷ m) =
    if leb (now - p.since) expire then (k, p) ∷ retain now expire m else retain now expire m

-- The expiry check at the start of `push`.
unfoldable pub expire_old : FrameBuf → ℕ → FrameBuf
expire_old b now =
    if ltb b.expire (now - b.checked_at)
    then record b { frames = retain now b.expire b.frames; checked_at = now }
    else b

abbrev pub segment_index : Bytes → ℕ
segment_index f = read_u16 (drop 6 f)

-- `sort_unstable_by_key` over the segment index.
unfoldable pub insert_frame : Bytes → List Bytes → List Bytes
insert_frame f [] = f ∷ []
insert_frame f (g ∷ gs) =
    if leb (segment_index f) (segment_index g) then f ∷ g ∷ gs else g ∷ insert_frame f gs

unfoldable pub sort_frames : List Bytes → List Bytes
sort_frames [] = []
sort_frames (f ∷ fs) = insert_frame f (sort_frames fs)

unfoldable pub concat_segments : List Bytes → Bytes
concat_segments [] = []
concat_segments (f ∷ fs) = drop 8 f ++ concat_segments fs

unfoldable pub join_frames : List Bytes → Bytes
join_frames fs = concat_segments (sort_frames fs)

-- The part of `push` behind the expiry check.
unfoldable pub collect : FrameBuf → ℕ → Bytes → Option Bytes × FrameBuf
collect b now f =
    let sequence_number = read_u32 f in
    let max_segment_index = read_u16 (drop 4 f) in
    if max_segment_index == 0 then (some (drop 8 f), b) else elim (get sequence_number b.frames) [
      | some p ↦
          let parts = p.parts ++ f ∷ [] in
          if p.needed == length parts
          then (some (join_frames parts), record b { frames = remove sequence_number b.frames })
          else (
            none,
            record b { frames = insert sequence_number (record p { parts = parts }) b.frames },
          )
      | none ↦ (
        none,
        record b {
          frames =
              insert sequence_number
                (record { since = now; needed = max_segment_index + 1; parts = f ∷ [] }) b.frames;
        },
      )
    ]

-- `push` at time `now` (both calls of `Instant::now` read it).
unfoldable pub push : FrameBuf → ℕ → Bytes → Option Bytes × FrameBuf
push b now f = if ltb (length f) 9 then (none, b) else collect (expire_old b now) now f
