-- ===== src/Transport/Datagram/RoundTrip.antt =====
-- From `Splitter::split` to `FrameBuf::push` (src/transport/datagram.rs).
use mathlib.Core.List.{Perm}
use iscp_rs.Base.{
  ℕ, zero, suc, ◌+◌, ◌≤◌, ◌<◌, ◌≡◌, refl, ap, sym, ◌∙◌, true, Option, none, some, List, [], ◌∷◌,
  ◌++◌, append_assoc, append-nil, arith, get, length, drop, leb, nat_eq, ◌==◌, inl, inr, Bool-cases,
  All, length-append, subst, length-perm, All-perm, All-map,
}
use iscp_rs.Message.Types.{Bytes}
use iscp_rs.Transport.Datagram.{
  Splitter, split, SplitResult.ok, concat_segments, sort_frames, insert_frame, FrameBuf, Pending,
  read_u32, read_u16, push, join_frames, max_segment, frames_from,
}
use iscp_rs.Transport.Datagram.Reassembly.{
  Arrival, push_all, messages_of, is_of, of_number, Within, expire-push, push_other,
  push_other_none, push_other_keeps, push_single, push_first, push_more, push_last,
}
use native.Mathlib.Nat.{ℕ_set}
use iscp_rs.Transport.Datagram.Frames.{max_segment_bounds}
use iscp_rs.Transport.Datagram.Splits.{
  IsValid, split_lem, split_too_long, frames_from-Fits, length-frames_from, join_frames-perm,
}

module _ (q : ℕ) where
  messages_of-none :
      (k : ℕ) (o : Option Bytes) (rs : List (ℕ × Option Bytes))
      → o ≡ none
      → messages_of q ((k, o) ∷ rs) ≡ messages_of q rs
  unfolding messages_of
  messages_of-none k o rs e = rw e refl

  messages_of-some :
      (k : ℕ) (o : Option Bytes) (m : Bytes) (rs : List (ℕ × Option Bytes))
      → k ≡ q
      → o ≡ some m
      → messages_of q ((k, o) ∷ rs) ≡ m ∷ messages_of q rs
  unfolding messages_of
  messages_of-some k o m rs h e = let same : (k == q) ≡ true = ground arith in rw e (rw same refl)

  number : (f : Bytes) → is_of q f ≡ true → read_u32 f ≡ q
  number f own = ground arith

  length_zero : (fs : List Bytes) → length fs ≡ 0 → fs ≡ []
  length_zero [] h = refl
  length_zero (f ∷ fs) h = absurd (omega arith)

  -- No frame of `q`, no message of `q`.
  idle :
      (b : FrameBuf) (arr : List Arrival)
      → of_number q arr ≡ []
      → messages_of q (push_all b arr) ≡ []
  unfolding of_number push_all messages_of
  idle b [] e = refl
  idle b ((now, f) ∷ arr) e = elim (Bool-cases (is_of q f)) [
    | inl own ↦ absurd (ground arith)
    | inr other ↦
        let rest : of_number q arr ≡ [] = ground arith in
        push_other b now q f other (push_all (push b now f).1 arr) ∙ idle (push b now f).1 arr rest
  ]

  -- A message in one frame.
  single :
      (b : FrameBuf) (arr : List Arrival) (g : Bytes)
      → of_number q arr ≡ g ∷ []
      → read_u16 (drop 4 g) ≡ 0
      → messages_of q (push_all b arr) ≡ drop 8 g ∷ []
  unfolding of_number push_all
  single b [] g e h = cc
  single b ((now, f) ∷ arr) g e h = elim (Bool-cases (is_of q f)) [
    | inl own ↦
        let same : f ≡ g = ground arith in
        let rest : of_number q arr ≡ [] = ground arith in
        let whole =
          ap (λ r. r.0) (push_single b now q f own (ap (λ x. read_u16 (drop 4 x)) same ∙ h)) in
        messages_of-some (read_u32 f) (push b now f).0 (drop 8 f) (push_all (push b now f).1 arr)
          (number f own) whole
        ∙ (ap (◌∷◌ (drop 8 f)) (idle (push b now f).1 arr rest) ∙ ap (λ x. drop 8 x ∷ []) same)
    | inr other ↦
        let rest : of_number q arr ≡ g ∷ [] = ground arith in
        push_other b now q f other (push_all (push b now f).1 arr)
        ∙ single (push b now f).1 arr g rest h
  ]

  module _ (m expire : ℕ) where
    -- An entry takes in the frames that arrive.
    gather :
        (b : FrameBuf) (p : Pending) (start : ℕ) (arr : List Arrival) (fs : List Bytes)
        → of_number q arr ≡ fs
        → 0 < length fs
        → All (λ f. read_u16 (drop 4 f) ≡ suc m) fs
        → b.expire ≡ expire
        → get q b.frames ≡ some p
        → start ≤ p.since
        → Within start expire arr
        → p.needed ≡ length p.parts + length fs
        → messages_of q (push_all b arr) ≡ join_frames (p.parts ++ fs) ∷ []
    unfolding of_number push_all
    gather b p start [] fs e some_left header limit entry since within needed =
        absurd (ground arith)
    gather b p start ((now, f) ∷ arr) fs e some_left header limit entry since within needed =
        let young : now ≤ p.since + b.expire = omega (arith, within.0.1) in
        elim (Bool-cases (is_of q f)) [
          | inl own ↦
              let gs = of_number q arr in
              let all : f ∷ gs ≡ fs = ground arith in
              let header' = subst (All (λ g. read_u16 (drop 4 g) ≡ suc m)) (sym all) header in
              let count : p.needed ≡ length p.parts + suc (length gs) =
                needed ∙ ap (λ l. length p.parts + length l) (sym all) in
              let b' = (push b now f).1 in
              let rs = push_all b' arr in
              subst
                (λ l.
                  messages_of q ((read_u32 f, (push b now f).0) ∷ rs)
                  ≡ join_frames (p.parts ++ l) ∷ [])
                all
                (elim (Bool-cases (length gs == 0)) [
                  | inl over ↦
                      let zero_left : length gs ≡ 0 = ground arith in
                      let no_more : gs ≡ [] = length_zero gs zero_left in
                      let last =
                        push_last b now q f m p own header'.0 entry young
                          (omega (arith, count, zero_left)) in
                      messages_of-some (read_u32 f) (push b now f).0
                        (join_frames (p.parts ++ f ∷ [])) rs (number f own) last.0
                      ∙ (ap (◌∷◌ (join_frames (p.parts ++ f ∷ []))) (idle b' arr no_more)
                          ∙ ap (λ l. join_frames (p.parts ++ f ∷ l) ∷ []) (sym no_more))
                  | inr more ↦
                      let some_more : 0 < length gs = ground arith in
                      let step =
                        push_more b now q f m p own header'.0 entry young
                          (omega (arith, count, some_more)) in
                      messages_of-none (read_u32 f) (push b now f).0 rs step.0
                      ∙ (gather b' (record p { parts = p.parts ++ f ∷ [] }) start arr gs refl
                            some_more header'.1 (expire-push b now q f ∙ limit) step.1 since
                            within.1 (count ∙ omega (arith, length-append p.parts (f ∷ [])))
                          ∙ ap (λ l. join_frames l ∷ []) (append_assoc p.parts (f ∷ []) gs))
                ])
          | inr other ↦
              let rest : of_number q arr ≡ fs = ground arith in
              push_other b now q f other (push_all (push b now f).1 arr)
              ∙ gather (push b now f).1 p start arr fs rest some_left header
                  (expire-push b now q f ∙ limit) (push_other_keeps b now q f p other entry young)
                  since within.1 needed
        ]

    -- The first frame opens the entry.
    begin :
        (b : FrameBuf) (start : ℕ) (arr : List Arrival) (fs : List Bytes)
        → of_number q arr ≡ fs
        → length fs ≡ suc m + 1
        → All (λ f. read_u16 (drop 4 f) ≡ suc m) fs
        → b.expire ≡ expire
        → get q b.frames ≡ none
        → Within start expire arr
        → messages_of q (push_all b arr) ≡ join_frames fs ∷ []
    unfolding of_number push_all
    begin b start [] fs e count header limit entry within = absurd (ground arith)
    begin b start ((now, f) ∷ arr) fs e count header limit entry within =
        elim (Bool-cases (is_of q f)) [
          | inl own ↦
              let gs = of_number q arr in
              let all : f ∷ gs ≡ fs = ground arith in
              let header' = subst (All (λ g. read_u16 (drop 4 g) ≡ suc m)) (sym all) header in
              let left : suc (length gs) ≡ suc m + 1 = ap length all ∙ count in
              let b' = (push b now f).1 in
              let first = push_first b now q f m own header'.0 entry in
              messages_of-none (read_u32 f) (push b now f).0 (push_all b' arr) first.0
              ∙ (gather b' (record { since = now; needed = suc m + 1; parts = f ∷ [] }) start arr gs
                    refl (omega (arith, left)) header'.1 (expire-push b now q f ∙ limit) first.1
                    within.0.0 within.1 (omega (arith, left))
                  ∙ ap (λ l. join_frames l ∷ []) all)
          | inr other ↦
              let rest : of_number q arr ≡ fs = ground arith in
              push_other b now q f other (push_all (push b now f).1 arr)
              ∙ begin (push b now f).1 start arr fs rest count header
                  (expire-push b now q f ∙ limit) (push_other_none b now q f other entry) within.1
        ]

one_frame : (fs : List Bytes) → length fs ≡ 1 → (f : Bytes) × (fs ≡ f ∷ [])
one_frame [] h = absurd (omega arith)
one_frame (f ∷ []) h = (f, refl)
one_frame (f ∷ g ∷ fs) h = absurd (omega arith)

join_one : (f : Bytes) → join_frames (f ∷ []) ∷ [] ≡ drop 8 f ∷ []
unfolding join_frames sort_frames concat_segments insert_frame
join_one f = ap (λ x. x ∷ []) (append-nil (drop 8 f))

-- The frames of one message, in any order: `join_frames` and the messages agree.
arrivals :
    (q max_i : ℕ) (b : FrameBuf) (start : ℕ) (arr : List Arrival)
    → get q b.frames ≡ none
    → Within start b.expire arr
    → length (of_number q arr) ≡ max_i + 1
    → All (λ f. read_u16 (drop 4 f) ≡ max_i) (of_number q arr)
    → messages_of q (push_all b arr) ≡ join_frames (of_number q arr) ∷ []
arrivals q zero b start arr entry within count header =
    let only = one_frame (of_number q arr) (omega (arith, count)) in
    let header' = subst (All (λ f. read_u16 (drop 4 f) ≡ 0)) only.1 header in
    single q b arr only.0 only.1 header'.0
    ∙ (sym (join_one only.0) ∙ ap (λ l. join_frames l ∷ []) (sym only.1))
arrivals q (suc m) b start arr entry within count header =
    begin q m b.expire b start arr (of_number q arr) refl count header refl entry within

ok_inj : {fs gs : List Bytes} → ok fs ≡ ok gs → fs ≡ gs
ok_inj e = cc

not_refused :
    (s : Splitter) (content : Bytes) (fs : List Bytes)
    → leb s.max_message_size (length content) ≡ true
    → ¬ ((split s content).0 ≡ ok fs)
not_refused s content fs long cut =
    let refused = ap (λ r. r.0) (split_too_long s content long) in cc

frames_of_last :
    (s : Splitter) (content : Bytes)
    → IsValid s
    → 0 < length content
    → length content < s.max_message_size
    → let max_i = max_segment (length content) s.max_segment_size in
      All
        (λ f. read_u16 (drop 4 f) ≡ max_i)
        (frames_from s.sequence_number s.max_segment_size max_i content (max_i + 1) 0)
frames_of_last s content v some_byte short =
    let size = s.max_segment_size in
    let max_i = max_segment (length content) size in
    let bounds = max_segment_bounds (length content) size some_byte v.seg_pos in
    let run = split_lem s content v some_byte short in
    All-map (λ f h. h.1) (frames_from s.sequence_number size max_i content (max_i + 1) 0)
      (frames_from-Fits s.sequence_number size max_i content v.in_range run.0 (max_i + 1) 0
        v.seg_pos (omega arith) bounds.0 bounds.1)

-- A message that `split` cuts, in a splitter that `Splitter::new` made, and whose frames all arrive
-- within the expiry limit from `start` on, each once, in any order and among any other frames that
-- do not bear its number, at a receiver that holds no frame of this number: `push` gives back
-- exactly this message for that number, once.
pub split-push_all :
    (s : Splitter) (content : Bytes) (fs : List Bytes) (b : FrameBuf) (start : ℕ)
    (arr : List Arrival)
    → IsValid s
    → 0 < length content
    → (split s content).0 ≡ ok fs
    → get s.sequence_number b.frames ≡ none
    → Within start b.expire arr
    → Perm (of_number s.sequence_number arr) fs
    → messages_of s.sequence_number (push_all b arr) ≡ content ∷ []
split-push_all s content fs b start arr v some_byte cut entry within p =
    elim (Bool-cases (leb s.max_message_size (length content))) [
      | inl long ↦ absurd (not_refused s content fs long cut)
      | inr short ↦
          let q = s.sequence_number in
          let size = s.max_segment_size in
          let less : length content < s.max_message_size = ground arith in
          let max_i = max_segment (length content) size in
          let run = split_lem s content v some_byte less in
          let all = frames_from q size max_i content (max_i + 1) 0 in
          let same : fs ≡ all = ok_inj (sym cut ∙ ap (λ r. r.0) run.1) in
          let p' = subst (Perm (of_number q arr)) same p in
          let framed = frames_of_last s content v some_byte less in
          let header =
            All-perm (λ f. read_u16 (drop 4 f) ≡ max_i) (λ f. ℕ_set (read_u16 (drop 4 f)) max_i) p'
              framed in
          let count = length-perm p' ∙ length-frames_from q size max_i content (max_i + 1) 0 in
          arrivals q max_i b start arr entry within count header
          ∙ ap (λ m. m ∷ [])
              (join_frames-perm q size max_i content v.in_range run.0 (of_number q arr) p')
    ]
