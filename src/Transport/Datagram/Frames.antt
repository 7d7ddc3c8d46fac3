-- ===== src/Transport/Datagram/Frames.antt =====
-- The frames of one message: their headers, their number and what their segments hold.
use iscp_rs.Base.{
  ℕ, zero, suc, ◌+◌, ◌-◌, ◌*◌, ◌/◌, ◌%◌, ◌≤◌, ◌<◌, ◌≡◌, refl, ap, ◌∙◌, true, false, ◌++◌, arith,
  length, take, drop, u32_mod, u16_mod, ◌==◌, nat_eq, ltb, length-drop, length-take,
  take-append-drop, Bool-cases, inl, inr, ◌&&◌, ◌⊎◌, if◌then◌else◌, append-nil, drop-add,
}
use native.Mathlib.Nat.{div-add-mod', mod-lt}
use iscp_rs.Message.Types.{Bytes}
use iscp_rs.Transport.Datagram.{
  read_u32, read_u16, u32_bytes, u16_bytes, max_segment, frame, frames_from, segment_index,
  concat_segments,
}

pub read_u32-bytes : (n : ℕ) (rest : Bytes) → n < u32_mod → read_u32 (u32_bytes n ++ rest) ≡ n
unfolding read_u32
read_u32-bytes n rest h = omega arith

pub read_u16-bytes : (n : ℕ) (rest : Bytes) → n < u16_mod → read_u16 (u16_bytes n ++ rest) ≡ n
unfolding read_u16
read_u16-bytes n rest h = omega arith

exact_bounds :
    (len size i : ℕ)
    → 0 < size
    → 0 < i
    → i * size ≡ len
    → ((i - 1) * size < len) × (len ≤ (i - 1 + 1) * size)
exact_bounds len size zero h k e = absurd (omega arith)
exact_bounds len size (suc i) h k e =
    let same : suc i - 1 ≡ i = omega arith in rw same (omega arith)

-- Segment `max_segment` is the one that ends the message.
pub max_segment_bounds :
    (len size : ℕ)
    → 0 < len
    → 0 < size
    → (max_segment len size * size < len) × (len ≤ (max_segment len size + 1) * size)
unfolding max_segment
max_segment_bounds len size h k = elim (Bool-cases ((len % size == 0) && ltb 0 (len / size))) [
  | inl exact ↦
      let no_rest : len % size ≡ 0 = ground arith in
      let some_full : 0 < len / size = ground arith in
      rw exact
        (exact_bounds len size (len / size) k some_full (omega (arith, div-add-mod' len size)))
  | inr other ↦
      let rest : (0 < len % size) ⊎ (len / size ≡ 0) = ground arith in
      rw other (elim rest [
        | inl r ↦ omega (arith, div-add-mod' len size, mod-lt len k)
        | inr z ↦
            let whole : 0 * size + len % size ≡ len = rw z at (div-add-mod' len size) in
            rw z (omega (arith, whole, mod-lt len k))
      ])
]

module _ (q size max_i : ℕ) (content : Bytes) where
  -- The header of frame `i`, and the bytes behind it.
  pub frame_header :
      (i : ℕ)
      → q < u32_mod
      → max_i < u16_mod
      → i < u16_mod
      → let f = frame q size max_i i content in
        (read_u32 f ≡ q) × (read_u16 (drop 4 f) ≡ max_i) × (segment_index f ≡ i)
  unfolding frame read_u32 read_u16
  frame_header i hq hm hi = (omega arith, omega arith, omega arith)

  -- The segment that frame `i` carries, behind the eight bytes of the header.
  pub segment : ℕ → Bytes
  segment i =
      if i == max_i
      then drop (i * size) content
      else take ((i + 1) * size - i * size) (drop (i * size) content)

  pub drop-frame : (i : ℕ) → drop 8 (frame q size max_i i content) ≡ segment i
  unfolding frame segment
  drop-frame i = refl

  segment-length :
      (i : ℕ) → 0 < size → i ≤ max_i → max_i * size < length content → 0 < length (segment i)
  unfolding segment
  segment-length i h k last = elim (Bool-cases (i == max_i)) [
    | inl e ↦
        let same : i ≡ max_i = ground arith in
        rw e (rw (length-drop (i * size) content, same) (omega arith))
    | inr e ↦
        let before : i * size ≤ max_i * size = grind arith in
        rw e (
          rw
            (
              length-take ((i + 1) * size - i * size) (drop (i * size) content),
              length-drop (i * size) content,
            )
            (omega arith))
  ]

  -- Each frame carries at least one byte.
  pub length-frame :
      (i : ℕ)
      → 0 < size
      → i ≤ max_i
      → max_i * size < length content
      → 8 < length (frame q size max_i i content)
  unfolding frame segment
  length-frame i h k last = omega (arith, segment-length i h k last)

  -- The segments from `i` on are the message from byte `i * size` on.
  pub concat_segments-frames_from :
      (count i : ℕ)
      → 0 < count
      → i + count ≡ max_i + 1
      → concat_segments (frames_from q size max_i content count i) ≡ drop (i * size) content
  unfolding concat_segments frames_from segment
  concat_segments-frames_from zero i h e = absurd (omega arith)
  concat_segments-frames_from (suc zero) i h e =
      let at_end : (i == max_i) ≡ true = ground arith in
      rw (drop-frame i, at_end) (append-nil (drop (i * size) content))
  concat_segments-frames_from (suc (suc count)) i h e =
      let before : (i == max_i) ≡ false = ground arith in
      let step = (i + 1) * size - i * size in
      let next : (i + 1) * size ≡ i * size + step = omega arith in
      rw (drop-frame i, before)
        (ap (◌++◌ (take step (drop (i * size) content))) (
            concat_segments-frames_from (suc count) (i + 1) (omega arith) (omega arith)
            ∙ (ap (λ k. drop k content) next ∙ drop-add (i * size) step content))
          ∙ take-append-drop step (drop (i * size) content))
