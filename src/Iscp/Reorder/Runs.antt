-- ===== src/Iscp/Reorder/Runs.antt =====
-- A strict reorderer over all the arrivals of a downstream.
use iscp_rs.Base.{
  ℕ, ◌+◌, ◌<◌, ◌≡◌, ◌≢◌, refl, sym, ◌∙◌, true, false, Option, none, some, List, [], ◌∷◌, ◌++◌,
  arith, get, nat_eq, ◌==◌, inl, inr, Bool-cases, subst, nat_equal_iff, if◌then◌else◌, All,
  wrapping_add,
}
use iscp_rs.Base.BTree
use iscp_rs.Message.Types.{Uuid, reliable}
use iscp_rs.Iscp.Types.{DownstreamChunk, DownstreamConfig, strict}
use iscp_rs.Iscp.Reorder.{Reorderer, new, register, delivered, failed, deliver, run}
use iscp_rs.Iscp.Reorder.Order.{Consecutive, advance, drain_slot-Consecutive}
use iscp_rs.Iscp.Reorder.Streams.{SameElse}
use iscp_rs.Iscp.Reorder.Deliver.{
  IsValid, IsOf, Entered, register_lem, refused, drained, deliver_lem, inserted_lt,
  inserted-IsStored,
}
use iscp_rs.Iscp.Reorder.Laws.{new-IsValid, keep-IsValid}

-- The chunks of stream `u`, in order.
pub of_stream : Uuid → List DownstreamChunk → List DownstreamChunk
of_stream u [] = []
of_stream u (c ∷ cs) = if c.upstream.stream_id == u then c ∷ of_stream u cs else of_stream u cs

-- The number of the first chunk of stream `u` that arrives, 0 if none does.
pub first_number : Uuid → List DownstreamChunk → ℕ
first_number u [] = 0
first_number u (c ∷ cs) = if c.upstream.stream_id == u then c.sequence_number else first_number u cs

-- Where the delivery of stream `u` goes on.
abbrev number_from : Option ℕ → ℕ → ℕ
number_from none d = d
number_from (some n) d = n

abbrev next_number : Reorderer → Uuid → List DownstreamChunk → ℕ
next_number r u cs = number_from (get u r.next) (first_number u cs)

of_stream-append :
    (u : Uuid) (xs ys : List DownstreamChunk)
    → of_stream u (xs ++ ys) ≡ of_stream u xs ++ of_stream u ys
unfolding of_stream
of_stream-append u [] ys = refl
of_stream-append u (c ∷ cs) ys = ground (arith, of_stream-append u cs ys)

of_stream_same : (u : Uuid) (cs : List DownstreamChunk) → All (IsOf u) cs → of_stream u cs ≡ cs
unfolding of_stream
of_stream_same u [] h = refl
of_stream_same u (c ∷ cs) h =
    ground (arith, of_stream_same u cs h.1, nat_equal_iff c.upstream.stream_id u)

of_stream_other :
    (u w : Uuid) (cs : List DownstreamChunk) → w ≢ u → All (IsOf w) cs → of_stream u cs ≡ []
unfolding of_stream
of_stream_other u w [] ne h = refl
of_stream_other u w (c ∷ cs) ne h =
    ground (arith, of_stream_other u w cs ne h.1, nat_equal_iff c.upstream.stream_id u)

Consecutive-append :
    (n : ℕ) (xs ys : List DownstreamChunk)
    → Consecutive n xs
    → Consecutive (advance n xs) ys
    → Consecutive n (xs ++ ys)
Consecutive-append n [] ys h k = k
Consecutive-append n (c ∷ cs) ys h k = (h.0, Consecutive-append (wrapping_add n 1) cs ys h.1 k)

run_refused :
    (fuel : ℕ) (r r' : Reorderer) (c : DownstreamChunk) (cs : List DownstreamChunk) (u : Uuid)
    → deliver fuel r c ≡ some (failed u, r')
    → run fuel r (c ∷ cs) ≡ some ([], some u, r')
unfolding run
run_refused fuel r r' c cs u e = simp (e, run)

run_delivered :
    (fuel : ℕ) (r r' r'' : Reorderer) (c : DownstreamChunk) (cs out rest : List DownstreamChunk)
    (e : Option Uuid)
    → deliver fuel r c ≡ some (delivered out, r')
    → run fuel r' cs ≡ some (rest, e, r'')
    → run fuel r (c ∷ cs) ≡ some (out ++ rest, e, r'')
unfolding run
run_delivered fuel r r' r'' c cs out rest e d h = simp (d, h, run)

-- A run that ends, and what it hands over of stream `u`, from number `n` on.
record Ran (fuel : ℕ) (r : Reorderer) (cs : List DownstreamChunk) (u : Uuid) (n : ℕ) : Type 0 where
  out : List DownstreamChunk
  error : Option Uuid
  last : Reorderer
  runs : run fuel r cs ≡ some (out, error, last)
  in_order : Consecutive n (of_stream u out)

number_known :
    (r : Reorderer) (u : Uuid) (cs : List DownstreamChunk) (n : ℕ)
    → get u r.next ≡ some n
    → next_number r u cs ≡ n
number_known r u cs n e = rw e

number_unknown :
    (r : Reorderer) (u : Uuid) (cs : List DownstreamChunk)
    → get u r.next ≡ none
    → next_number r u cs ≡ first_number u cs
number_unknown r u cs e = rw e

number_entered :
    (r : Reorderer) (c : DownstreamChunk) (cs : List DownstreamChunk) (e : Entered r c)
    → next_number r c.upstream.stream_id (c ∷ cs) ≡ e.n
unfolding first_number
number_entered r c cs e = elim e.starts [
  | inl known ↦ number_known r c.upstream.stream_id (c ∷ cs) e.n known
  | inr (unknown, at) ↦
      number_unknown r c.upstream.stream_id (c ∷ cs) unknown
      ∙ rw ((nat_equal_iff c.upstream.stream_id c.upstream.stream_id).1 refl) (sym at)
]

-- What is handed over of stream `u` goes on where it stopped.
abbrev Continues :
    Reorderer
    → Reorderer
    → DownstreamChunk
    → List DownstreamChunk
    → List DownstreamChunk
    → List DownstreamChunk
    → Uuid
    → Type 0
Continues r r' c cs out rest u =
    Consecutive (next_number r' u cs) (of_stream u rest)
    → Consecutive (next_number r u (c ∷ cs)) (of_stream u (out ++ rest))

continue_same :
    (r r' : Reorderer) (c : DownstreamChunk) (cs out rest : List DownstreamChunk) (e : Entered r c)
    (n' : ℕ)
    → get c.upstream.stream_id r'.next ≡ some n'
    → Consecutive e.n out
    → n' ≡ advance e.n out
    → All (IsOf c.upstream.stream_id) out
    → Continues r r' c cs out rest c.upstream.stream_id
continue_same r r' c cs out rest e n' held first last own h =
    let u = c.upstream.stream_id in
    rw (number_entered r c cs e, of_stream-append u out rest, of_stream_same u out own)
      (Consecutive-append e.n out (of_stream u rest) first
        (subst (λ k. Consecutive k (of_stream u rest)) (number_known r' u cs n' held ∙ last) h))

continue_other :
    (r r' : Reorderer) (c : DownstreamChunk) (cs out rest : List DownstreamChunk) (u : Uuid)
    → c.upstream.stream_id ≢ u
    → SameElse r r' c.upstream.stream_id
    → All (IsOf c.upstream.stream_id) out
    → Continues r r' c cs out rest u
unfolding first_number
continue_other r r' c cs out rest u other same own h =
    let miss : (c.upstream.stream_id == u) ≡ false = ground arith in
    let number : next_number r u (c ∷ cs) ≡ next_number r' u cs = rw (same.next u other, miss) in
    rw (of_stream-append u out rest, of_stream_other u c.upstream.stream_id out other own)
      (subst (λ k. Consecutive k (of_stream u rest)) (sym number) h)

run-Ran :
    (fuel : ℕ) (r : Reorderer) (cs : List DownstreamChunk) (u : Uuid)
    → IsValid r
    → r.enabled ≡ true
    → r.is_strict ≡ true
    → r.limit + 1 < fuel
    → Ran fuel r cs u (next_number r u cs)
unfolding run of_stream
run-Ran fuel r [] u v enabled is_strict enough = record {
  out = [];
  error = none;
  last = r;
  runs = refl;
  in_order = tt;
}
run-Ran fuel r (c ∷ cs) u v enabled is_strict enough =
    elim (deliver_lem fuel r c (register_lem r c v) enough enabled) [
      | refused full done ↦ record {
        out = [];
        error = some c.upstream.stream_id;
        last = register r c;
        runs = run_refused fuel r (register r c) c cs c.upstream.stream_id done;
        in_order = tt;
      }
      | drained r' room facts same ↦
          let e = register_lem r c v in
          let w = c.upstream.stream_id in
          let v' = keep-IsValid r r' w _ _ v same facts.1 facts.2 in
          let rest =
            run-Ran fuel r' cs u v' (same.enabled ∙ enabled) (same.strict ∙ is_strict)
              (subst (λ l. l + 1 < fuel) (sym same.limit) enough) in
          let (first, last) =
            drain_slot-Consecutive r.is_strict r.limit fuel e.n
              (BTree.insert c.sequence_number c e.s) is_strict
              (inserted_lt r c fuel e.n e.s e.settled room enough)
              (inserted-IsStored r c fuel e.n e.s e.settled room enough).1 in
          record {
            out = _ ++ rest.out;
            error = rest.error;
            last = rest.last;
            runs = run_delivered fuel r r' rest.last c cs _ rest.out rest.error facts.0 rest.runs;
            in_order = elim (Bool-cases (w == u)) [
              | inl hit ↦
                  subst (Continues r r' c cs _ rest.out) ((nat_equal_iff w u).0 hit)
                    (continue_same r r' c cs _ rest.out e _ facts.1.0 first last facts.3)
                    rest.in_order
              | inr miss ↦
                  continue_other r r' c cs _ rest.out u (λ p. cc ((nat_equal_iff w u).1 p)) same
                    facts.3 rest.in_order
            ];
          }
    ]

-- A strict reorderer that starts empty, with more fuel than its limit and one, ends every run, and
-- hands over of each stream consecutive numbers (round at 2^32) from that of the stream's first
-- arrival on: no gap, no repetition and no other order.
pub run-Consecutive :
    (fuel : ℕ) (config : DownstreamConfig) (arrivals : List DownstreamChunk) (u : Uuid)
    → config.qos ≡ reliable
    → config.reordering ≡ strict
    → config.reordering_chunks + 1 < fuel
    → (out : List DownstreamChunk) × (error : Option Uuid) × (last : Reorderer) × (run fuel
          (new config)
          arrivals
        ≡ some (out, error, last))
      × Consecutive (first_number u arrivals) (of_stream u out)
unfolding new get
run-Consecutive fuel config arrivals u reliable_qos is_strict enough =
    let ran =
      run-Ran fuel (new config) arrivals u (new-IsValid config) (rw (reliable_qos, is_strict))
        (rw is_strict) enough in
    (ran.out, ran.error, ran.last, ran.runs, ran.in_order)
