-- ===== src/Transport/Datagram/Splits.antt =====
-- What `Splitter::split` returns (src/transport/datagram.rs).
use mathlib.Core.List.{Perm}
use mathlib.Core.List.Perm
use iscp_rs.Base.{
  ℕ, zero, suc, ◌+◌, ◌-◌, ◌*◌, ◌≤◌, ◌<◌, ◌≡◌, refl, ap, sym, ◌∙◌, true, false, some, List, arith,
  length, drop, leb, ltb, nat_eq, ◌==◌, inl, inr, Bool-cases, All, length-take, length-drop,
  u32_mod, u16_mod, wrapping_add, subst, some_inj, ◌⊎◌,
}
use iscp_rs.Message.Types.{Bytes}
use iscp_rs.Transport.Datagram.{
  Splitter, new_splitter, split, SplitResult.ok, SplitResult.too_long, read_u32, read_u16,
  join_frames, max_segment, frames_from, frame, segment_index, concat_segments,
}
use iscp_rs.Transport.Datagram.Frames.{
  frame_header, length-frame, max_segment_bounds, concat_segments-frames_from,
}
use iscp_rs.Transport.Datagram.Sort.{Rising, sort_frames-Rising, Rising-Nodup, sort_frames-perm}

-- What `Splitter::new` sets up and `split` keeps.
pub record IsValid (s : Splitter) : Type 0 where
  pub seg_pos : 0 < s.max_segment_size
  pub limit : s.max_message_size ≡ s.max_segment_size * 65535
  pub in_range : s.sequence_number < u32_mod

pub new_splitter-IsValid : (n : ℕ) (s : Splitter) → new_splitter n ≡ some s → IsValid s
unfolding new_splitter
new_splitter-IsValid n s h = elim (Bool-cases (ltb 8 n)) [
  | inl fits ↦
      let made = some_inj (rw fits at h) in
      subst IsValid made (record { seg_pos = ground arith; limit = refl; in_range = omega arith })
  | inr small ↦ cc
]

-- A frame of message `q`, cut into `max_i + 1` frames of at most `size` bytes and a header.
abbrev pub Fits : ℕ → ℕ → ℕ → Bytes → Type 0
Fits q size max_i f =
    (read_u32 f ≡ q) × (read_u16 (drop 4 f) ≡ max_i) × (8 < length f) × (length f ≤ size + 8)

module _ (q size max_i : ℕ) (content : Bytes) where
  -- A frame is at most eight bytes longer than a segment.
  length-frame_le :
      (i : ℕ)
      → i ≤ max_i
      → length content ≤ (max_i + 1) * size
      → length (frame q size max_i i content) ≤ size + 8
  unfolding frame
  length-frame_le i h k = elim (Bool-cases (i == max_i)) [
    | inl e ↦
        let same : i ≡ max_i = ground arith in
        rw (e, same) (omega (arith, length-drop (max_i * size) content))
    | inr e ↦
        rw e (omega (arith, length-take ((i + 1) * size - i * size) (drop (i * size) content)))
  ]

  module _ (hq : q < u32_mod) (hm : max_i < u16_mod) where
    pub frames_from-Fits :
        (count i : ℕ)
        → 0 < size
        → i + count ≡ max_i + 1
        → max_i * size < length content
        → length content ≤ (max_i + 1) * size
        → All (Fits q size max_i) (frames_from q size max_i content count i)
    unfolding frames_from
    frames_from-Fits zero i h e lo hi = tt
    frames_from-Fits (suc count) i h e lo hi =
        let header = frame_header q size max_i content i hq hm (omega arith) in
        (
          (
            header.0,
            header.1,
            length-frame q size max_i content i h (omega arith) lo,
            length-frame_le i (omega arith) hi,
          ),
          frames_from-Fits count (i + 1) h (omega arith) lo hi,
        )

    frames_from-Rising :
        (count i : ℕ) → i + count ≡ max_i + 1 → Rising i (frames_from q size max_i content count i)
    unfolding frames_from
    frames_from-Rising zero i e = tt
    frames_from-Rising (suc count) i e =
        let at = (frame_header q size max_i content i hq hm (omega arith)).2 in
        (
          omega (arith, at),
          subst (λ k. Rising k (frames_from q size max_i content count (i + 1)))
              (ap (λ k. k + 1) (sym at)) (frames_from-Rising count (i + 1) (omega arith)),
        )

    -- Sorted by index, the frames hold the message, in whatever order they are given.
    pub join_frames-perm :
        (fs : List Bytes)
        → Perm fs (frames_from q size max_i content (max_i + 1) 0)
        → join_frames fs ≡ content
    unfolding join_frames
    join_frames-perm fs p =
        let all = frames_from q size max_i content (max_i + 1) 0 in
        let rising = frames_from-Rising (max_i + 1) 0 (omega arith) in
        let start : 0 * size ≡ 0 = omega arith in
        ap concat_segments (
          sort_frames-perm p
            (Perm.nodup (Perm.map segment_index (Perm.symm p)) (Rising-Nodup 0 all rising))
          ∙ sort_frames-Rising 0 all rising)
        ∙ concat_segments-frames_from q size max_i content (max_i + 1) 0 (omega arith) (omega arith)
        ∙ ap (λ n. drop n content) start

  pub length-frames_from : (count i : ℕ) → length (frames_from q size max_i content count i) ≡ count
  unfolding frames_from
  length-frames_from zero i = refl
  length-frames_from (suc count) i = ap suc (length-frames_from count (i + 1))

few_segments : (i size len : ℕ) → i * size < len → len < size * 65535 → i < 65535
few_segments i size len h k = grind arith

-- `split` in one equation, for a splitter that `Splitter::new` made: no panic.
pub split_lem :
    (s : Splitter) (content : Bytes)
    → IsValid s
    → 0 < length content
    → length content < s.max_message_size
    → let max_i = max_segment (length content) s.max_segment_size in
      (max_i < u16_mod)
      × (split s content ≡ (
        ok (frames_from s.sequence_number s.max_segment_size max_i content (max_i + 1) 0),
        record s { sequence_number = wrapping_add s.sequence_number 1 },
      ))
unfolding split
split_lem s content v some_byte short =
    let max_i = max_segment (length content) s.max_segment_size in
    let bounds = max_segment_bounds (length content) s.max_segment_size some_byte v.seg_pos in
    let few : max_i < 65535 =
      few_segments max_i s.max_segment_size (length content) bounds.0
        (subst (λ n. length content < n) v.limit short) in
    let accepted : leb s.max_message_size (length content) ≡ false = ground arith in
    let no_panic : ltb max_i u16_mod ≡ true = ground arith in
    (omega (arith, few), rw (accepted, no_panic) refl)

-- The frames of a message: at most 65535, each with its header and at least one byte behind it,
-- and none longer than the datagram size that the splitter was made for.
pub record Framed (s : Splitter) (fs : List Bytes) : Type 0 where
  pub max_i : ℕ
  pub count : length fs ≡ max_i + 1
  pub few : length fs ≤ 65535
  pub fits : All (Fits s.sequence_number s.max_segment_size max_i) fs

pub split-Framed_ok :
    (s : Splitter) (content : Bytes)
    → IsValid s
    → 0 < length content
    → length content < s.max_message_size
    → (fs : List Bytes) × ((split s content).0 ≡ ok fs) × Framed s fs
split-Framed_ok s content v some_byte short =
    let q = s.sequence_number in
    let size = s.max_segment_size in
    let max_i = max_segment (length content) size in
    let bounds = max_segment_bounds (length content) size some_byte v.seg_pos in
    let run = split_lem s content v some_byte short in
    let count = length-frames_from q size max_i content (max_i + 1) 0 in
    (
      frames_from q size max_i content (max_i + 1) 0,
      ap (λ r. r.0) run.1,
      record {
        max_i = max_i;
        count = count;
        few = omega (
          arith,
          count,
          few_segments max_i size (length content) bounds.0
              (subst (λ n. length content < n) v.limit short),
        );
        fits =
            frames_from-Fits q size max_i content v.in_range run.0 (max_i + 1) 0 v.seg_pos
              (omega arith) bounds.0 bounds.1;
      },
    )

pub split_too_long :
    (s : Splitter) (content : Bytes)
    → leb s.max_message_size (length content) ≡ true
    → split s content ≡ (too_long, s)
unfolding split
split_too_long s content long = rw long refl

next-IsValid :
    (s : Splitter)
    → IsValid s
    → IsValid (record s { sequence_number = wrapping_add s.sequence_number 1 })
next-IsValid s v = record { seg_pos = v.seg_pos; limit = v.limit; in_range = omega arith }

pub split-IsValid : (s : Splitter) (content : Bytes) → IsValid s → IsValid (split s content).1
unfolding split
split-IsValid s content v = elim (Bool-cases (leb s.max_message_size (length content))) [
  | inl long ↦ rw long v
  | inr short ↦ elim (Bool-cases (ltb (max_segment (length content) s.max_segment_size) u16_mod)) [
    | inl few ↦ rw (short, few) (next-IsValid s v)
    | inr many ↦ rw (short, many) (next-IsValid s v)
  ]
]

-- A splitter that `Splitter::new` made, and any message but the empty one: a message of
-- `max_message_size` bytes or more is refused and changes nothing; any other is cut, without a
-- panic, into at most 65535 frames that carry the splitter's number and the same last index, each
-- with a byte behind its header and none longer than a segment and a header. The splitter stays one
-- that `Splitter::new` could have made, up to its number.
pub split-Framed :
    (s : Splitter) (content : Bytes)
    → IsValid s
    → 0 < length content
    → IsValid (split s content).1
      × (((s.max_message_size ≤ length content) × (split s content ≡ (too_long, s)))
          ⊎ ((length content < s.max_message_size)
              × ((fs : List Bytes) × ((split s content).0 ≡ ok fs) × Framed s fs)))
split-Framed s content v some_byte = (
  split-IsValid s content v,
  elim (Bool-cases (leb s.max_message_size (length content))) [
    | inl long ↦ inl (ground arith, split_too_long s content long)
    | inr short ↦
        let less : length content < s.max_message_size = ground arith in
        inr (less, split-Framed_ok s content v some_byte less)
  ],
)
