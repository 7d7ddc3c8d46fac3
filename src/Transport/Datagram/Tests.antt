-- ===== src/Transport/Datagram/Tests.antt =====
-- The datagram theorems at concrete messages, and runs of `split` and `push`.
use mathlib.Core.List.{Perm}
use mathlib.Core.List.Perm
use iscp_rs.Base.{ℕ, ◌≡◌, refl, ◌≤◌, ◌<◌, ◌⊎◌, List, [], ◌∷◌, ◌++◌, none, get, nat_eq, arith}
use iscp_rs.Message.Types.{Bytes}
use iscp_rs.Transport.Datagram.{
  Splitter, split, SplitResult.ok, SplitResult.too_long, new_frame_buf, push, frame, max_segment,
  frames_from, read_u32, u32_bytes, u16_bytes,
}
use iscp_rs.Transport.Datagram.Splits.{IsValid, Framed, split-Framed}
use iscp_rs.Transport.Datagram.Reassembly.{Arrival, push_all, messages_of, of_number, Within}
use iscp_rs.Transport.Datagram.RoundTrip.{split-push_all}

-- `Splitter::new(10)`, seven messages later.
abbrev splitter : Splitter
splitter = record { sequence_number = 7; max_segment_size = 2; max_message_size = 131070 }

abbrev content : Bytes
content = 1 ∷ 2 ∷ 3 ∷ 4 ∷ 5 ∷ []

abbrev frame_of : ℕ → Bytes → Bytes
frame_of i segment = u32_bytes 7 ++ (u16_bytes 2 ++ (u16_bytes i ++ segment))

abbrev frames : List Bytes
frames = frame_of 0 (1 ∷ 2 ∷ []) ∷ frame_of 1 (3 ∷ 4 ∷ []) ∷ frame_of 2 (5 ∷ []) ∷ []

-- Out of order, with a frame of message 3 and a short frame between them.
abbrev arriving : List Arrival
arriving =
    (5, frame_of 2 (5 ∷ []))
    ∷ (6, u32_bytes 3 ++ (u16_bytes 1 ++ (u16_bytes 0 ++ 9 ∷ [])))
    ∷ (7, 1 ∷ 2 ∷ [])
    ∷ (8, frame_of 0 (1 ∷ 2 ∷ []))
    ∷ (9, frame_of 1 (3 ∷ 4 ∷ []))
    ∷ []

split_test : (split splitter content).0 ≡ ok frames
unfolding split max_segment frames_from frame
split_test = refl

arriving_perm : Perm (of_number 7 arriving) frames
unfolding of_number read_u32
arriving_perm =
    let a = frame_of 0 (1 ∷ 2 ∷ []) in
    let b = frame_of 1 (3 ∷ 4 ∷ []) in
    let c = frame_of 2 (5 ∷ []) in
    Perm.trans (Perm.swap a c (b ∷ [])) (Perm.cons a (Perm.swap b c []))

no_entry : get 7 (new_frame_buf 5).frames ≡ none
unfolding new_frame_buf get
no_entry = refl

arriving-Within : Within 5 (new_frame_buf 5).expire arriving
unfolding new_frame_buf
arriving-Within = (
  (omega arith, omega arith),
  (
    (omega arith, omega arith),
    ((omega arith, omega arith), ((omega arith, omega arith), ((omega arith, omega arith), tt))),
  ),
)

splitter-IsValid : IsValid splitter
splitter-IsValid = record { seg_pos = omega arith; limit = refl; in_range = omega arith }

split-push_all_example : messages_of 7 (push_all (new_frame_buf 5) arriving) ≡ content ∷ []
split-push_all_example =
    split-push_all splitter content frames (new_frame_buf 5) 5 arriving splitter-IsValid
      (omega arith) split_test no_entry arriving-Within arriving_perm

split-Framed_example :
    IsValid (split splitter content).1
    × (((131070 ≤ 5) × (split splitter content ≡ (too_long, splitter)))
        ⊎ ((5 < 131070)
            × ((fs : List Bytes) × ((split splitter content).0 ≡ ok fs) × Framed splitter fs)))
split-Framed_example = split-Framed splitter content splitter-IsValid (omega arith)

-- An empty message makes one frame of eight bytes, and a receiver drops it.
empty_message_test : (split splitter []).0 ≡ ok ((u32_bytes 7 ++ (u16_bytes 0 ++ u16_bytes 0)) ∷ [])
unfolding split max_segment frames_from frame
empty_message_test = refl

empty_frame_test : (push (new_frame_buf 5) 6 (u32_bytes 7 ++ (u16_bytes 0 ++ u16_bytes 0))).0 ≡ none
unfolding push
empty_frame_test = refl
