-- ===== src/Iscp/Upstream/Grouping.antt =====
-- What `take_chunk` gathers under a key, and its sort (src/iscp/upstream.rs).
use mathlib.Core.List.{Perm}
use mathlib.Core.List.Perm
use iscp_rs.Base.{
  ◌≡◌, refl, ap, sym, ◌∙◌, Bool, true, false, Option, none, some, List, [], ◌∷◌, ◌++◌, arith,
  append-nil, append_assoc, if◌then◌else◌, ◌==◌, nat_eq, Eq, Map, get, get-insert, insert, inl, inr,
  Bool-cases, Option-cases, subst,
}
use iscp_rs.Base.Int.{ℤ, pos, negsuc, leb_int}
use iscp_rs.Message.Types.{DataPoint}
use iscp_rs.Iscp.Upstream.{insert_point, sort_points, add_points, gather}

abbrev pub or_empty : Option (List DataPoint) → List DataPoint
or_empty none = []
or_empty (some dps) = dps

module _ {K : Type 0} ⦃e : Eq K⦄ where
  -- The data points written under a key, in the order of writing.
  unfoldable pub points_for : K → List (K × List DataPoint) → List DataPoint
  points_for k [] = []
  points_for k ((j, dps) ∷ rest) = if j == k then dps ++ points_for k rest else points_for k rest

  abbrev pub points_in : K → Map K (List DataPoint) → List DataPoint
  points_in k m = or_empty (get k m)

  points_in-add_points :
      (k j : K) (dps : List DataPoint) (m : Map K (List DataPoint))
      → points_in k (add_points m j dps) ≡ (if j == k then points_in k m ++ dps else points_in k m)
  unfolding add_points
  points_in-add_points k j dps m = elim (Option-cases (get j m)) [
    | inl h ↦
        let same = e.equal_iff j k in
        let put : points_in k (add_points m j dps)
            ≡ or_empty (if j == k then some dps else get k m) =
          rw (h, add_points) (ap or_empty (get-insert j k dps m)) in
        put ∙ elim (Bool-cases (j == k)) [
          | inl hit ↦
              let there : get k m ≡ none = subst (λ x. get x m ≡ none) (same.0 hit) h in
              rw (hit, there) refl
          | inr miss ↦ rw miss refl
        ]
    | inr (old, h) ↦
        let same = e.equal_iff j k in
        let put : points_in k (add_points m j dps)
            ≡ or_empty (if j == k then some (old ++ dps) else get k m) =
          rw (h, add_points) (ap or_empty (get-insert j k (old ++ dps) m)) in
        put ∙ elim (Bool-cases (j == k)) [
          | inl hit ↦
              let there : get k m ≡ some old = subst (λ x. get x m ≡ some old) (same.0 hit) h in
              rw (hit, there) refl
          | inr miss ↦ rw miss refl
        ]
  ]

  pub points_in-gather :
      (k : K) (xs : List (K × List DataPoint)) (m : Map K (List DataPoint))
      → points_in k (gather m xs) ≡ points_in k m ++ points_for k xs
  unfolding gather points_for
  points_in-gather k [] m = sym (append-nil (points_in k m))
  points_in-gather k ((j, dps) ∷ xs) m =
      points_in-gather k xs (add_points m j dps)
      ∙ (ap (λ p. p ++ points_for k xs) (points_in-add_points k j dps m)
          ∙ spread (j == k) (points_in k m) dps (points_for k xs))
    where
      spread :
          (b : Bool) (p d r : List DataPoint)
          → (if b then p ++ d else p) ++ r ≡ p ++ (if b then d ++ r else r)
      spread true p d r = append_assoc p d r
      spread false p d r = refl

  -- No key stands twice.
  abbrev pub AreDistinct : Map K (List DataPoint) → Type 0
  AreDistinct [] = Unit {0}
  AreDistinct ((k, dps) ∷ m) = (get k m ≡ none) × AreDistinct m

  insert-AreDistinct :
      (k : K) (dps : List DataPoint) (m : Map K (List DataPoint))
      → AreDistinct m
      → AreDistinct (insert k dps m)
  unfolding insert get
  insert-AreDistinct k dps [] d = (refl, tt)
  insert-AreDistinct k dps ((i, old) ∷ m) d = elim (Bool-cases (i == k)) [
    | inl h ↦
        let same : i ≡ k = (e.equal_iff i k).0 h in rw h (subst (λ j. get j m ≡ none) same d.0, d.1)
    | inr h ↦
        let apart : get i (insert k dps m) ≡ none =
          ground (arith, get-insert k i dps m, e.equal_iff i k, e.equal_iff k i, h, d.0) in
        rw h (apart, insert-AreDistinct k dps m d.1)
  ]

  pub gather-AreDistinct :
      (xs : List (K × List DataPoint)) (m : Map K (List DataPoint))
      → AreDistinct m
      → AreDistinct (gather m xs)
  unfolding gather add_points
  gather-AreDistinct [] m d = d
  gather-AreDistinct ((k, dps) ∷ xs) m d =
      gather-AreDistinct xs (add_points m k dps) (added (get k m))
    where
      added :
          (o : Option (List DataPoint))
          → AreDistinct (elim o [ some old ↦ insert k (old ++ dps) m | none ↦ insert k dps m ])
      added none = insert-AreDistinct k dps m d
      added (some old) = insert-AreDistinct k (old ++ dps) m d

-- Elapsed times rise.
abbrev pub IsSorted : List DataPoint → Type 0
IsSorted [] = Unit {0}
IsSorted (p ∷ []) = Unit {0}
IsSorted (p ∷ q ∷ ps) = (leb_int p.elapsed_time q.elapsed_time ≡ true) × IsSorted (q ∷ ps)

leb_int_total : (a b : ℤ) → leb_int a b ≡ false → leb_int b a ≡ true
leb_int_total (pos a) (pos b) h = ground arith
leb_int_total (pos a) (negsuc b) h = refl
leb_int_total (negsuc a) (pos b) h = cc
leb_int_total (negsuc a) (negsuc b) h = ground arith

insert_point-IsSorted :
    (p : DataPoint) (ps : List DataPoint) → IsSorted ps → IsSorted (insert_point p ps)
unfolding insert_point
insert_point-IsSorted p [] s = tt
insert_point-IsSorted p (q ∷ []) s = elim (Bool-cases (leb_int p.elapsed_time q.elapsed_time)) [
  | inl h ↦ rw h (h, tt)
  | inr h ↦ rw h (leb_int_total p.elapsed_time q.elapsed_time h, tt)
]
insert_point-IsSorted p (q ∷ r ∷ ps) s = elim (Bool-cases (leb_int p.elapsed_time q.elapsed_time)) [
  | inl h ↦ rw h (h, s)
  | inr h ↦
      let rest = insert_point-IsSorted p (r ∷ ps) s.1 in
      elim (Bool-cases (leb_int p.elapsed_time r.elapsed_time)) [
        | inl k ↦ rw (h, k) (leb_int_total p.elapsed_time q.elapsed_time h, (k, s.1))
        | inr k ↦ rw (h, k) (s.0, rw k at rest)
      ]
]

pub sort_points-IsSorted : (ps : List DataPoint) → IsSorted (sort_points ps)
unfolding sort_points
sort_points-IsSorted [] = tt
sort_points-IsSorted (p ∷ ps) = insert_point-IsSorted p (sort_points ps) (sort_points-IsSorted ps)

insert_point-perm : (p : DataPoint) (ps : List DataPoint) → Perm (insert_point p ps) (p ∷ ps)
unfolding insert_point
insert_point-perm p [] = Perm.refl (p ∷ [])
insert_point-perm p (q ∷ ps) = elim (Bool-cases (leb_int p.elapsed_time q.elapsed_time)) [
  | inl h ↦ rw h (Perm.refl (p ∷ q ∷ ps))
  | inr h ↦ rw h (Perm.trans (Perm.cons q (insert_point-perm p ps)) (Perm.swap p q ps))
]

pub sort_points-perm : (ps : List DataPoint) → Perm (sort_points ps) ps
unfolding sort_points
sort_points-perm [] = Perm.refl []
sort_points-perm (p ∷ ps) =
    Perm.trans (insert_point-perm p (sort_points ps)) (Perm.cons p (sort_points-perm ps))
