-- ===== src/Transport/Datagram/Reassembly.antt =====
-- `FrameBuf::push` over the frames that arrive (src/transport/datagram.rs).
use iscp_rs.Base.{
  ℕ, suc, ◌+◌, ◌-◌, ◌≤◌, ◌≡◌, ◌≢◌, refl, ap, ◌∙◌, Bool, true, false, not, ◌&&◌, Option, none, some,
  List, [], ◌∷◌, ◌++◌, arith, get, insert, remove, length, drop, leb, ltb, nat_eq, ◌==◌,
  if◌then◌else◌, inl, inr, ◌⊎◌, Bool-cases, Option-cases, All, Map, length-append, get-insert_self,
  get-insert_ne, get-remove,
}
use iscp_rs.Message.Types.{Bytes}
use iscp_rs.Transport.Datagram.{
  Pending, FrameBuf, read_u32, read_u16, retain, expire_old, collect, push, join_frames,
}

-- A frame, and the time when it arrives.
abbrev pub Arrival : Type 0
Arrival = ℕ × Bytes

-- The results of `push`, each with the number of its frame.
unfoldable pub push_all : FrameBuf → List Arrival → List (ℕ × Option Bytes)
push_all b [] = []
push_all b ((now, f) ∷ arr) = let (out, b') = push b now f in (read_u32 f, out) ∷ push_all b' arr

-- The messages that frames of number `q` complete.
unfoldable pub messages_of : ℕ → List (ℕ × Option Bytes) → List Bytes
messages_of q [] = []
messages_of q ((k, none) ∷ rs) = messages_of q rs
messages_of q ((k, some m) ∷ rs) = if k == q then m ∷ messages_of q rs else messages_of q rs

abbrev pub is_of : ℕ → Bytes → Bool
is_of q f = not (ltb (length f) 9) && (read_u32 f == q)

-- The frames of number `q` that `push` looks at.
unfoldable pub of_number : ℕ → List Arrival → List Bytes
of_number q [] = []
of_number q ((now, f) ∷ arr) = if is_of q f then f ∷ of_number q arr else of_number q arr

-- The frame arrives within `expire` from `start` on.
abbrev pub Within : ℕ → ℕ → List Arrival → Type 0
Within start expire = All (λ (a : Arrival). (start ≤ a.0) × (a.0 ≤ start + expire))

get-retain :
    (q now expire : ℕ) (m : Map ℕ Pending) (p : Pending)
    → get q m ≡ some p
    → now ≤ p.since + expire
    → get q (retain now expire m) ≡ some p
unfolding get retain
get-retain q now expire [] p h k = h
get-retain q now expire ((j, w) ∷ m) p h k = elim (Bool-cases (j == q)) [
  | inl hit ↦
      let same : w ≡ p = ground arith in
      let young : leb (now - w.since) expire ≡ true = ground arith in
      rw young (rw hit (ap some same))
  | inr miss ↦ ground (arith, get-retain q now expire m p)
]

get-retain-none :
    (q now expire : ℕ) (m : Map ℕ Pending) → get q m ≡ none → get q (retain now expire m) ≡ none
unfolding get retain
get-retain-none q now expire [] h = h
get-retain-none q now expire ((j, w) ∷ m) h = ground (arith, get-retain-none q now expire m)

get-remove_ne : (k q : ℕ) (m : Map ℕ Pending) → k ≢ q → get q (remove k m) ≡ get q m
get-remove_ne k q m ne = ground (arith, get-remove k q m)

module _ (b : FrameBuf) (now q : ℕ) where
  -- The expiry check keeps an entry that is young enough, makes none, and keeps the limit.
  expire_old_keeps :
      (p : Pending)
      → get q b.frames ≡ some p
      → now ≤ p.since + b.expire
      → get q (expire_old b now).frames ≡ some p
  unfolding expire_old
  expire_old_keeps p h k = ground (arith, get-retain q now b.expire b.frames p)

  expire_old-none : get q b.frames ≡ none → get q (expire_old b now).frames ≡ none
  unfolding expire_old
  expire_old-none h = ground (arith, get-retain-none q now b.expire b.frames)

  expire-expire_old : (expire_old b now).expire ≡ b.expire
  unfolding expire_old
  expire-expire_old = ground arith

-- `collect`, case by case.
module _ (e : FrameBuf) (now q : ℕ) (f : Bytes) where
  collect_other : read_u32 f ≢ q → get q (collect e now f).1.frames ≡ get q e.frames
  unfolding collect
  collect_other ne = elim (Bool-cases (read_u16 (drop 4 f) == 0)) [
    | inl z ↦ rw z refl
    | inr nz ↦ elim (Option-cases (get (read_u32 f) e.frames)) [
      | inl h ↦ rw (nz, h) (get-insert_ne (read_u32 f) q _ e.frames ne)
      | inr (p, h) ↦ elim (Bool-cases (p.needed == length (p.parts ++ f ∷ []))) [
        | inl l ↦ rw (nz, h, l) (get-remove_ne (read_u32 f) q e.frames ne)
        | inr l ↦ rw (nz, h, l) (get-insert_ne (read_u32 f) q _ e.frames ne)
      ]
    ]
  ]

  collect_first :
      (m : ℕ)
      → read_u32 f ≡ q
      → read_u16 (drop 4 f) ≡ suc m
      → get q e.frames ≡ none
      → collect e now f ≡ (
        none,
        record e {
          frames = insert q (record { since = now; needed = suc m + 1; parts = f ∷ [] }) e.frames;
        },
      )
  unfolding collect
  collect_first m own header h =
      let long : (read_u16 (drop 4 f) == 0) ≡ false = ground arith in
      let found : get (read_u32 f) e.frames ≡ none = rw own h in
      rw (long, found) (rw (own, header) refl)

  collect_more :
      (m : ℕ) (p : Pending)
      → read_u32 f ≡ q
      → read_u16 (drop 4 f) ≡ suc m
      → get q e.frames ≡ some p
      → collect e now f ≡ (
          if p.needed == length (p.parts ++ f ∷ [])
          then (some (join_frames (p.parts ++ f ∷ [])), record e { frames = remove q e.frames })
          else (
            none,
            record e { frames = insert q (record p { parts = p.parts ++ f ∷ [] }) e.frames },
          ))
  unfolding collect
  collect_more m p own header h =
      let long : (read_u16 (drop 4 f) == 0) ≡ false = ground arith in
      let found : get (read_u32 f) e.frames ≡ some p = rw own h in rw (long, found) (rw own refl)

module _ (b : FrameBuf) (now q : ℕ) (f : Bytes) where
  -- `push` never changes the expiry limit.
  pub expire-push : (push b now f).1.expire ≡ b.expire
  unfolding push collect
  expire-push = ground (arith, expire-expire_old b now q)

  -- A frame of another number completes no message of `q`, and leaves the entry of `q`.
  pub push_other :
      is_of q f ≡ false
      → (rs : List (ℕ × Option Bytes))
      → messages_of q ((read_u32 f, (push b now f).0) ∷ rs) ≡ messages_of q rs
  unfolding push messages_of
  push_other other rs = ground arith

  push_short : ltb (length f) 9 ≡ true → push b now f ≡ (none, b)
  unfolding push
  push_short h = rw h refl

  push-collect : ltb (length f) 9 ≡ false → push b now f ≡ collect (expire_old b now) now f
  unfolding push
  push-collect h = rw h refl

  -- A frame of another number leaves the entry of `q`, as the expiry check leaves it.
  push_other_get :
      is_of q f ≡ false
      → (push b now f ≡ (none, b))
        ⊎ (get q (push b now f).1.frames ≡ get q (expire_old b now).frames)
  push_other_get other = elim (Bool-cases (ltb (length f) 9)) [
    | inl short ↦ inl (push_short short)
    | inr long ↦
        let ne : read_u32 f ≢ q = ground arith in
        inr (rw (push-collect long) (collect_other (expire_old b now) now q f ne))
  ]

  pub push_other_none :
      is_of q f ≡ false → get q b.frames ≡ none → get q (push b now f).1.frames ≡ none
  push_other_none other h = elim (push_other_get other) [
    | inl e ↦ rw e h
    | inr e ↦ e ∙ expire_old-none b now q h
  ]

  pub push_other_keeps :
      (p : Pending)
      → is_of q f ≡ false
      → get q b.frames ≡ some p
      → now ≤ p.since + b.expire
      → get q (push b now f).1.frames ≡ some p
  push_other_keeps p other h k = elim (push_other_get other) [
    | inl e ↦ rw e h
    | inr e ↦ e ∙ expire_old_keeps b now q p h k
  ]

  -- The frame of a message that needs one frame.
  pub push_single :
      is_of q f ≡ true
      → read_u16 (drop 4 f) ≡ 0
      → push b now f ≡ (some (drop 8 f), expire_old b now)
  unfolding push collect
  push_single own header = ground arith

  -- The first frame of a longer message opens an entry.
  pub push_first :
      (m : ℕ)
      → is_of q f ≡ true
      → read_u16 (drop 4 f) ≡ suc m
      → get q b.frames ≡ none
      → ((push b now f).0 ≡ none)
        × (get q (push b now f).1.frames
            ≡ some (record { since = now; needed = suc m + 1; parts = f ∷ [] }))
  push_first m own header h =
      let e = expire_old b now in
      let long : ltb (length f) 9 ≡ false = ground arith in
      let number : read_u32 f ≡ q = ground arith in
      rw (push-collect long) (
        rw (collect_first e now q f m number header (expire_old-none b now q h))
          (refl, get-insert_self q _ e.frames))

  -- A further frame joins the entry, and the last one completes the message.
  pub push_more :
      (m : ℕ) (p : Pending)
      → is_of q f ≡ true
      → read_u16 (drop 4 f) ≡ suc m
      → get q b.frames ≡ some p
      → now ≤ p.since + b.expire
      → p.needed ≢ length p.parts + 1
      → ((push b now f).0 ≡ none)
        × (get q (push b now f).1.frames ≡ some (record p { parts = p.parts ++ f ∷ [] }))
  push_more m p own header h k more =
      let e = expire_old b now in
      let long : ltb (length f) 9 ≡ false = ground arith in
      let number : read_u32 f ≡ q = ground arith in
      let pending : (p.needed == length (p.parts ++ f ∷ [])) ≡ false =
        ground (arith, length-append p.parts (f ∷ [])) in
      rw (push-collect long) (
        rw (collect_more e now q f m p number header (expire_old_keeps b now q p h k))
          (rw pending (refl, get-insert_self q _ e.frames)))

  pub push_last :
      (m : ℕ) (p : Pending)
      → is_of q f ≡ true
      → read_u16 (drop 4 f) ≡ suc m
      → get q b.frames ≡ some p
      → now ≤ p.since + b.expire
      → p.needed ≡ length p.parts + 1
      → ((push b now f).0 ≡ some (join_frames (p.parts ++ f ∷ [])))
        × (get q (push b now f).1.frames ≡ none)
  push_last m p own header h k last =
      let e = expire_old b now in
      let long : ltb (length f) 9 ≡ false = ground arith in
      let number : read_u32 f ≡ q = ground arith in
      let full : (p.needed == length (p.parts ++ f ∷ [])) ≡ true =
        ground (arith, length-append p.parts (f ∷ [])) in
      rw (push-collect long) (
        rw (collect_more e now q f m p number header (expire_old_keeps b now q p h k))
          (rw full (refl, ground (arith, get-remove q q e.frames))))
