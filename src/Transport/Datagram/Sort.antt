-- ===== src/Transport/Datagram/Sort.antt =====
-- The sort of frames by segment index in `join_frames` (src/transport/datagram.rs).
use mathlib.Core.List.{Perm, Permᴰ, Nodup, Nodup-cons, mem-cons, Nodup-nil, Mem, not-mem-nil}
use mathlib.Core.Logic.Or
use mathlib.Core.HLevel.{⊥_prop}
use mathlib.Core.List.Perm
use mathlib.Core.Logic.{∥∥₁_elim}
use iscp_rs.Base.{ℕ, ◌+◌, ◌≤◌, ◌<◌, ◌≡◌, ◌≢◌, refl, ap, ap₂, ◌∙◌, List, [], ◌∷◌, map, arith, nat_eq}
use iscp_rs.Message.Types.{Bytes}
use iscp_rs.Transport.Datagram.{segment_index, insert_frame, sort_frames}

-- Two frames of different index may be inserted in either order.
insert_frame_comm :
    (f g : Bytes) (hs : List Bytes)
    → segment_index f ≢ segment_index g
    → insert_frame f (insert_frame g hs) ≡ insert_frame g (insert_frame f hs)
unfolding insert_frame
insert_frame_comm f g [] ne = ground arith
insert_frame_comm f g (h ∷ hs) ne = ground (arith, insert_frame_comm f g hs ne)

frames_set : (x y : List Bytes) (p q : x ≡ y) → p ≡ q
frames_set = hlevel

sort_frames-permᴰ :
    {fs gs : List Bytes}
    → Permᴰ fs gs
    → Nodup (map segment_index fs)
    → sort_frames fs ≡ sort_frames gs
unfolding sort_frames
sort_frames-permᴰ Permᴰ.nil d = refl
sort_frames-permᴰ (Permᴰ.cons {l₁ = xs} e p) d =
    ap₂ insert_frame e (sort_frames-permᴰ p (Nodup-cons.0 d).1)
sort_frames-permᴰ (Permᴰ.swap {a = f} {b = g} {l = hs} e e') d =
    insert_frame_comm f g (sort_frames hs) (λ same. (Nodup-cons.0 d).0 (mem-cons.1 (Or.inl same)))
    ∙ ap₂ (λ x y. insert_frame x (insert_frame y (sort_frames hs))) e' e
sort_frames-permᴰ (Permᴰ.trans p q) d =
    sort_frames-permᴰ p d ∙ sort_frames-permᴰ q (Perm.nodup (Perm.map segment_index ∣ p ∣₁) d)

pub sort_frames-perm :
    {fs gs : List Bytes}
    → Perm fs gs
    → Nodup (map segment_index fs)
    → sort_frames fs ≡ sort_frames gs
sort_frames-perm {fs} {gs} p d =
    ∥∥₁_elim p (frames_set (sort_frames fs) (sort_frames gs)) (λ q. sort_frames-permᴰ q d)

-- The indices rise from `n` on.
abbrev pub Rising : ℕ → List Bytes → Type 0
Rising n [] = Unit {0}
Rising n (f ∷ fs) = (n ≤ segment_index f) × Rising (segment_index f + 1) fs

Rising-mono : (m n : ℕ) (fs : List Bytes) → m ≤ n → Rising n fs → Rising m fs
Rising-mono m n [] h r = tt
Rising-mono m n (f ∷ fs) h r = (omega arith, r.1)

insert_frame-Rising :
    (f : Bytes) (fs : List Bytes) → Rising (segment_index f + 1) fs → insert_frame f fs ≡ f ∷ fs
unfolding insert_frame
insert_frame-Rising f [] r = refl
insert_frame-Rising f (g ∷ gs) r = ground arith

-- Frames whose indices rise are sorted.
pub sort_frames-Rising : (n : ℕ) (fs : List Bytes) → Rising n fs → sort_frames fs ≡ fs
unfolding sort_frames
sort_frames-Rising n [] r = refl
sort_frames-Rising n (f ∷ fs) r =
    ap (insert_frame f) (sort_frames-Rising (segment_index f + 1) fs r.1)
    ∙ insert_frame-Rising f fs r.1

Rising-not_mem : (n k : ℕ) (fs : List Bytes) → k < n → Rising n fs → ¬ Mem k (map segment_index fs)
Rising-not_mem n k [] h r m = not-mem-nil m
Rising-not_mem n k (f ∷ fs) h r m =
    Or.elim ⊥_prop (mem-cons.0 m) (λ e. omega arith)
      (Rising-not_mem (segment_index f + 1) k fs (omega arith) r.1)

pub Rising-Nodup : (n : ℕ) (fs : List Bytes) → Rising n fs → Nodup (map segment_index fs)
Rising-Nodup n [] r = Nodup-nil
Rising-Nodup n (f ∷ fs) r = Nodup-cons.1 (
  Rising-not_mem (segment_index f + 1) (segment_index f) fs (omega arith) r.1,
  Rising-Nodup (segment_index f + 1) fs r.1,
)
