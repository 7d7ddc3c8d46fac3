-- ===== src/Iscp/Reorder/Deliver.antt =====
-- What the arrival of one chunk does to a valid reorderer.
use iscp_rs.Base.{
  ℕ, ◌+◌, ◌≤◌, ◌<◌, ◌≡◌, refl, ap, sym, Bool, true, false, not, ◌&&◌, none, some, List, [], arith,
  get, insert, length, leb, nat_eq, ◌==◌, ◌⊎◌, inl, inr, get-insert_self, get-insert_ne, Bool-cases,
  All, subst₂, if◌then◌else◌,
}
use iscp_rs.Base.BTree
use iscp_rs.Message.Types.{Uuid}
use iscp_rs.Iscp.Types.{DownstreamChunk}
use iscp_rs.Iscp.Reorder.{
  Store, Reorderer, register, accept, iter, delivered, failed, deliver, reordering_error, ok,
  reordered, not_reordered,
}
use iscp_rs.Iscp.Reorder.Slot.{drain_slot, insert-IsKeyed, Waits}
use iscp_rs.Iscp.Reorder.Order.{
  IsStored, Stored, insert-Stored, drain_slot_done, drain_slot_perm, drain_slot-IsKeyed,
  drain_slot_le, drain_slot_lt, drain_slot-All,
}
use iscp_rs.Iscp.Reorder.Streams.{
  Holds, SameElse, SameElse-refl, SameElse-trans, with_entries, with_entries-Holds,
  with_entries-SameElse, Drained, drain_lem,
}

abbrev pub IsOf : Uuid → DownstreamChunk → Type 0
IsOf u c = c.upstream.stream_id ≡ u

-- The entries of stream `u` between two arrivals: sorted, under their own numbers, within the
-- limit, and without the number that comes next.
pub record Settled (u : Uuid) (limit n : ℕ) (s : Store) : Type 0 where
  pub stored : IsStored s
  pub missing : get n s ≡ none
  pub room : length s ≤ limit
  pub own : Stored (IsOf u) s

abbrev pub Absent : Reorderer → Uuid → Type 0
Absent r u = (get u r.next ≡ none) × (get u r.store ≡ none)

abbrev pub Present : Reorderer → Uuid → Type 0
Present r u = (n : ℕ) × (s : Store) × Holds r u n s × Settled u r.limit n s

-- Each stream has both entries, and they are settled, or none.
abbrev pub IsValid : Reorderer → Type 0
IsValid r = (u : Uuid) → Absent r u ⊎ Present r u

-- The number from which an arriving chunk's stream is read.
abbrev pub Starts : Reorderer → DownstreamChunk → ℕ → Type 0
Starts r c n =
    (get c.upstream.stream_id r.next ≡ some n)
    ⊎ ((get c.upstream.stream_id r.next ≡ none) × (n ≡ c.sequence_number))

pub record Entered (r : Reorderer) (c : DownstreamChunk) : Type 0 where
  pub n : ℕ
  pub s : Store
  pub holds : Holds (register r c) c.upstream.stream_id n s
  pub settled : Settled c.upstream.stream_id r.limit n s
  pub starts : Starts r c n
  pub same : SameElse r (register r c) c.upstream.stream_id

pub register_known :
    (r : Reorderer) (c : DownstreamChunk) (n : ℕ)
    → get c.upstream.stream_id r.next ≡ some n
    → register r c ≡ r
unfolding register
register_known r c n e = rw e

register_unknown :
    (r : Reorderer) (c : DownstreamChunk)
    → get c.upstream.stream_id r.next ≡ none
    → register r c ≡ with_entries r c.upstream.stream_id c.sequence_number []
unfolding register
register_unknown r c e = rw e

-- The entries of a stream that is known.
abbrev pub known_entry :
    (r : Reorderer) (c : DownstreamChunk) (n : ℕ) (s : Store)
    → Holds r c.upstream.stream_id n s
    → Settled c.upstream.stream_id r.limit n s
    → Entered r c
known_entry r c n s h settled = record {
  n = n;
  s = s;
  holds = rw (register_known r c n h.0) h;
  settled = settled;
  starts = inl h.0;
  same = rw (register_known r c n h.0) (SameElse-refl r c.upstream.stream_id);
}

-- After `register` the stream of the chunk has settled entries.
pub register_lem : (r : Reorderer) (c : DownstreamChunk) → IsValid r → Entered r c
unfolding get
register_lem r c v = elim (v c.upstream.stream_id) [
  | inl (e, e') ↦
      let u = c.upstream.stream_id in
      record {
        n = c.sequence_number;
        s = [];
        holds = rw (register_unknown r c e) (with_entries-Holds r u c.sequence_number []);
        settled = record { stored = (tt, tt); missing = refl; room = omega arith; own = tt };
        starts = inr (e, refl);
        same = rw (register_unknown r c e) (with_entries-SameElse r u c.sequence_number []);
      }
  | inr (n, s, h, settled) ↦ known_entry r c n s h settled
]

-- The guard of a strict reorderer.
abbrev pub refuses : Reorderer → ℕ → Store → DownstreamChunk → Bool
refuses r n s c = r.is_strict && leb r.limit (length s) && not (n == c.sequence_number)

accept_refused :
    (r : Reorderer) (c : DownstreamChunk) (n : ℕ) (s : Store)
    → Holds r c.upstream.stream_id n s
    → refuses r n s c ≡ true
    → accept r c ≡ some (reordering_error c.upstream.stream_id, r)
unfolding accept
accept_refused r c n s h full = simp (h.0, h.1, full, accept)

-- The reorderer with the chunk in its stream's store.
abbrev pub stored_with : Reorderer → DownstreamChunk → Store → Reorderer
stored_with r c s = record r {
  store = insert c.upstream.stream_id (BTree.insert c.sequence_number c s) r.store;
}

accept_accepted :
    (r : Reorderer) (c : DownstreamChunk) (n : ℕ) (s : Store)
    → Holds r c.upstream.stream_id n s
    → refuses r n s c ≡ false
    → accept r c ≡ some (ok (reordered c.upstream.stream_id), stored_with r c s)
unfolding accept
accept_accepted r c n s h room = simp (h.0, h.1, room, accept)

iter_enabled :
    (r : Reorderer) (c : DownstreamChunk) → r.enabled ≡ true → iter r c ≡ accept (register r c) c
unfolding iter
iter_enabled r c e =
    ap (λ b. if b then accept (register r c) c else some (ok (not_reordered c), r)) e

module _ (fuel : ℕ) (r : Reorderer) (c : DownstreamChunk) (enabled : r.enabled ≡ true) where
  pub deliver_refused :
      (n : ℕ) (s : Store)
      → Holds (register r c) c.upstream.stream_id n s
      → refuses (register r c) n s c ≡ true
      → deliver fuel r c ≡ some (failed c.upstream.stream_id, register r c)
  unfolding deliver
  deliver_refused n s h full =
      simp (iter_enabled r c enabled, accept_refused (register r c) c n s h full, deliver)

  pub deliver_accepted :
      (n n' : ℕ) (s s' : Store) (out : List DownstreamChunk)
      → Holds (register r c) c.upstream.stream_id n s
      → refuses (register r c) n s c ≡ false
      → (d : Drained (stored_with (register r c) c s) c.upstream.stream_id out n' s' fuel)
      → deliver fuel r c ≡ some (delivered out, d.state)
  unfolding deliver
  deliver_accepted n n' s s' out h room d =
      simp (iter_enabled r c enabled, accept_accepted (register r c) c n s h room, d.runs, deliver)

-- The drain after an insertion leaves settled entries, unless the guard refused the chunk.
module _ (r : Reorderer) (c : DownstreamChunk) (fuel n : ℕ) (s : Store)
    (settled : Settled c.upstream.stream_id r.limit n s) (admitted : refuses r n s c ≡ false)
    (enough : r.limit + 1 < fuel) where
  abbrev pub inserted : Store
  inserted = BTree.insert c.sequence_number c s

  pub inserted_lt : length inserted < fuel
  inserted_lt = omega (arith, BTree.length-insert_le c.sequence_number c s, settled.room)

  pub inserted-IsStored : IsStored inserted
  inserted-IsStored = (
    BTree.insert-IsSorted c.sequence_number c s settled.stored.0,
    insert-IsKeyed c.sequence_number c s refl settled.stored.1,
  )

  -- A strict store that is full takes the next chunk only.
  strict_room : r.is_strict ≡ true → (length s < r.limit) ⊎ (n ≡ c.sequence_number)
  strict_room strict = grind arith

  drained_room :
      let (cs, n', s') = drain_slot fuel r.is_strict r.limit n inserted in
      Waits r.is_strict r.limit s' ⊎ (s' ≡ []) → length s' ≤ r.limit
  drained_room (inr e) = omega (arith, ap length e)
  drained_room (inl (inr h)) = omega arith
  drained_room (inl (inl strict)) = elim (strict_room strict) [
    | inl space ↦ omega (
      arith,
      drain_slot_le r.is_strict r.limit fuel n inserted inserted_lt,
      BTree.length-insert_le c.sequence_number c s,
    )
    | inr e ↦
        let here : get n inserted ≡ some c =
          ground (arith, BTree.get-insert c.sequence_number n c s) in
        omega (
          arith,
          drain_slot_lt r.is_strict r.limit fuel n inserted inserted_lt c here,
          BTree.length-insert_le c.sequence_number c s,
          settled.room,
        )
  ]

  pub drained-Settled :
      let (cs, n', s') = drain_slot fuel r.is_strict r.limit n inserted in
      Settled c.upstream.stream_id r.limit n' s' × All (IsOf c.upstream.stream_id) cs
  drained-Settled =
      let u = c.upstream.stream_id in
      let done = drain_slot_done r.is_strict r.limit fuel n inserted inserted_lt in
      let kept =
        drain_slot_perm r.is_strict r.limit fuel n inserted inserted_lt inserted-IsStored.0 in
      let own =
        drain_slot-All r.is_strict r.limit fuel n inserted inserted_lt (IsOf u)
          (insert-Stored (IsOf u) c.sequence_number c s refl settled.own) in
      (
        record {
          stored = (
            kept.1,
            drain_slot-IsKeyed r.is_strict r.limit fuel n inserted inserted_lt inserted-IsStored.1,
          );
          missing = done.0;
          room = drained_room done.1;
          own = own.1;
        },
        own.0,
      )

-- What `deliver` did: the stream was refused, or its chunk went in and a drain came out.
pub data Delivered (fuel : ℕ) (r : Reorderer) (c : DownstreamChunk) (e : Entered r c) : Type 0 where
  refused :
      refuses r e.n e.s c ≡ true
      → deliver fuel r c ≡ some (failed c.upstream.stream_id, register r c)
      → Delivered fuel r c e
  drained :
      (r' : Reorderer)
      → refuses r e.n e.s c ≡ false
      → (let (cs, n', s') =
            drain_slot fuel r.is_strict r.limit e.n (BTree.insert c.sequence_number c e.s) in
          (deliver fuel r c ≡ some (delivered cs, r'))
          × Holds r' c.upstream.stream_id n' s'
          × Settled c.upstream.stream_id r.limit n' s'
          × All (IsOf c.upstream.stream_id) cs)
      → SameElse r r' c.upstream.stream_id
      → Delivered fuel r c e

stored_with-SameElse :
    (r : Reorderer) (c : DownstreamChunk) (s : Store)
    → SameElse r (stored_with r c s) c.upstream.stream_id
stored_with-SameElse r c s = record {
  enabled = refl;
  strict = refl;
  limit = refl;
  next = λ v h. refl;
  store =
      λ v h. get-insert_ne c.upstream.stream_id v (BTree.insert c.sequence_number c s) r.store h;
}

-- A reorderer with enough fuel does one of the two at a stream with settled entries.
module _ (fuel : ℕ) (r : Reorderer) (c : DownstreamChunk) (e : Entered r c)
    (enough : r.limit + 1 < fuel) where
  -- The drain, under the flags of `r`.
  served :
      let (cs, n', s') =
        drain_slot fuel r.is_strict r.limit e.n (BTree.insert c.sequence_number c e.s) in
      Drained (stored_with (register r c) c e.s) c.upstream.stream_id cs n' s' fuel
  served =
      let u = c.upstream.stream_id in
      subst₂
        (λ b l.
          let (cs, n', s') = drain_slot fuel b l e.n (BTree.insert c.sequence_number c e.s) in
          Drained (stored_with (register r c) c e.s) u cs n' s' fuel)
        e.same.strict e.same.limit
        (drain_lem fuel (stored_with (register r c) c e.s) u e.n
          (BTree.insert c.sequence_number c e.s)
          (e.holds.0, get-insert_self u _ (register r c).store)
          (omega (arith, BTree.length-insert_le c.sequence_number c e.s, e.settled.room)))

  registered_refuses : (b : Bool) → refuses r e.n e.s c ≡ b → refuses (register r c) e.n e.s c ≡ b
  registered_refuses b h =
      subst₂ (λ p l. (p && leb l (length e.s) && not (e.n == c.sequence_number)) ≡ b)
        (sym e.same.strict) (sym e.same.limit) h

  pub deliver_lem : r.enabled ≡ true → Delivered fuel r c e
  deliver_lem enabled = elim (Bool-cases (refuses r e.n e.s c)) [
    | inl full ↦
        refused full
          (deliver_refused fuel r c enabled e.n e.s e.holds (registered_refuses true full))
    | inr room ↦
        let u = c.upstream.stream_id in
        let (settled, own) = drained-Settled r c fuel e.n e.s e.settled room enough in
        drained served.state room
          (
            deliver_accepted fuel r c enabled e.n _ e.s _ _ e.holds (registered_refuses false room)
                served,
            served.holds,
            settled,
            own,
          )
          (SameElse-trans u e.same
            (SameElse-trans u (stored_with-SameElse (register r c) c e.s) served.same))
  ]
