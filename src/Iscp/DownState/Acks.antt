-- ===== src/Iscp/DownState/Acks.antt =====
-- Runs of the operations of src/iscp/down_state.rs, and the acknowledgements that they send.
use iscp_rs.Base.{
  ℕ, ◌≡◌, refl, ap, ap₂, sym, ◌∙◌, true, ◌&&◌, Option, none, some, List, [], ◌∷◌, ◌++◌, map, arith,
  Map, is_empty, wrapping_add, append-nil, append_assoc, map-append, inl, inr, Bool-cases, subst,
}
use iscp_rs.Message.Types.{DataId, Uuid}
use iscp_rs.Message.Chunks as Msg
use iscp_rs.Iscp.Types.{UpstreamInfo}
use iscp_rs.Iscp.DownState.{
  State, UuidLib, new, next_ack_id, add_upstream_info, add_sequence_number, take_ack, result,
}
use iscp_rs.Iscp.DownState.Aliases.{IsValid, add-Grown, new-IsValid, announce}

-- The operations that change the state.
pub data Event : Type 0 where
  received : Uuid → ℕ → Event
  informed : Msg.UpstreamInfo → Event
  ack_due : ℕ → Event

abbrev pub to_list {ℓ} : {A : Type ℓ} → Option A → List A
to_list none = []
to_list (some a) = a ∷ []

-- What the acknowledgements carry.
abbrev pub acked_results : List Msg.DownstreamChunkAck → List Msg.DownstreamChunkResult
acked_results [] = []
acked_results (a ∷ acks) = a.results ++ acked_results acks

abbrev pub acked_aliases : List Msg.DownstreamChunkAck → Map ℕ Msg.UpstreamInfo
acked_aliases [] = []
acked_aliases (a ∷ acks) = a.upstream_aliases ++ acked_aliases acks

joined_aliases :
    (xs ys : List Msg.DownstreamChunkAck)
    → acked_aliases (xs ++ ys) ≡ acked_aliases xs ++ acked_aliases ys
joined_aliases [] ys = refl
joined_aliases (x ∷ xs) ys =
    ap (◌++◌ x.upstream_aliases) (joined_aliases xs ys)
    ∙ sym (append_assoc x.upstream_aliases (acked_aliases xs) (acked_aliases ys))

joined_results :
    (xs ys : List Msg.DownstreamChunkAck)
    → acked_results (xs ++ ys) ≡ acked_results xs ++ acked_results ys
joined_results [] ys = refl
joined_results (x ∷ xs) ys =
    ap (◌++◌ x.results) (joined_results xs ys)
    ∙ sym (append_assoc x.results (acked_results xs) (acked_results ys))

-- Their numbers are `n`, the next one, and so on, round at 2^32.
abbrev pub IdsFrom : ℕ → List Msg.DownstreamChunkAck → Type 0
IdsFrom n [] = Unit {0}
IdsFrom n (a ∷ acks) = (a.ack_id ≡ n) × IdsFrom (wrapping_add n 1) acks

-- What one `take_ack` sends, and what it leaves.
record Took (s : State) (alias : ℕ) : Type 0 where
  pub results : acked_results (to_list (take_ack s alias).0) ≡ s.results
  pub aliases : acked_aliases (to_list (take_ack s alias).0) ≡ s.for_ack
  pub no_results : (take_ack s alias).1.results ≡ []
  pub no_aliases : (take_ack s alias).1.for_ack ≡ []
  pub infos : (take_ack s alias).1.infos ≡ s.infos
  pub valid : IsValid (take_ack s alias).1
  pub ids :
      (acks : List Msg.DownstreamChunkAck)
      → IdsFrom (next_ack_id (take_ack s alias).1.last_issued_chunk_ack_id) acks
      → IdsFrom (next_ack_id s.last_issued_chunk_ack_id) (to_list (take_ack s alias).0 ++ acks)

empty_nil {ℓ} : {A : Type ℓ} (xs : List A) → is_empty xs ≡ true → [] ≡ xs
empty_nil [] h = refl
empty_nil (x ∷ xs) h = cc

take_ack_lem : (s : State) (alias : ℕ) → IsValid s → Took s alias
unfolding next_ack_id take_ack
take_ack_lem s alias v = elim (Bool-cases (is_empty s.results && is_empty s.for_ack)) [
  | inl nothing ↦
      let r : is_empty s.results ≡ true = ground arith in
      let f : is_empty s.for_ack ≡ true = ground arith in
      record {
        results = rw (nothing, take_ack) (empty_nil s.results r);
        aliases = rw (nothing, take_ack) (empty_nil s.for_ack f);
        no_results = rw (nothing, take_ack) refl;
        no_aliases = rw (nothing, take_ack) refl;
        infos = rw (nothing, take_ack) refl;
        valid = rw (nothing, take_ack) (record { infos = v.infos; for_ack = tt });
        ids = rw (nothing, take_ack) (λ acks h. h);
      }
  | inr something ↦ record {
    results = rw (something, take_ack) (append-nil s.results);
    aliases = rw (something, take_ack) (append-nil s.for_ack);
    no_results = rw (something, take_ack) refl;
    no_aliases = rw (something, take_ack) refl;
    infos = rw (something, take_ack) refl;
    valid = rw (something, take_ack) (record { infos = v.infos; for_ack = tt });
    ids = rw (something, take_ack) (λ acks h. (refl, h));
  }
]

module _ (uuid : UuidLib) where
  -- The acknowledgements that a run sends, and the last state.
  unfoldable pub run : State → List Event → List Msg.DownstreamChunkAck × State
  run s [] = ([], s)
  run s (received stream_id sequence_number ∷ es) =
      run (add_sequence_number uuid s stream_id sequence_number) es
  run s (informed info ∷ es) = run (add_upstream_info uuid s info).1 es
  run s (ack_due alias ∷ es) =
      let (ack, s') = take_ack s alias in
      let (acks, last) = run s' es in (to_list ack ++ acks, last)

  -- The results that the received chunks of a run call for.
  unfoldable pub results_of : List Event → List Msg.DownstreamChunkResult
  results_of [] = []
  results_of (received stream_id sequence_number ∷ es) =
      result uuid stream_id sequence_number ∷ results_of es
  results_of (informed info ∷ es) = results_of es
  results_of (ack_due alias ∷ es) = results_of es

  pub record Sent (s : State) (es : List Event) : Type 0 where
    pub added : Map ℕ UpstreamInfo
    pub infos : (run s es).1.infos ≡ s.infos ++ added
    pub aliases :
        acked_aliases (run s es).0 ++ (run s es).1.for_ack ≡ s.for_ack ++ map (announce uuid) added
    pub results : acked_results (run s es).0 ++ (run s es).1.results ≡ s.results ++ results_of es
    pub ids : IdsFrom (next_ack_id s.last_issued_chunk_ack_id) (run s es).0
    pub valid : IsValid (run s es).1

  pub run-Sent : (s : State) (es : List Event) → IsValid s → Sent s es
  unfolding run results_of add_sequence_number
  run-Sent s [] v = record {
    added = [];
    infos = sym (append-nil s.infos);
    aliases = sym (append-nil s.for_ack);
    results = sym (append-nil s.results);
    ids = tt;
    valid = v;
  }
  run-Sent s (received stream_id n ∷ es) v =
      let t = add_sequence_number uuid s stream_id n in
      let rest = run-Sent t es (record { infos = v.infos; for_ack = v.for_ack }) in
      record {
        added = rest.added;
        infos = rest.infos;
        aliases = rest.aliases;
        results =
            rest.results ∙ append_assoc s.results (result uuid stream_id n ∷ []) (results_of es);
        ids = rest.ids;
        valid = rest.valid;
      }
  run-Sent s (informed info ∷ es) v =
      let g = add-Grown uuid s info v in
      let rest = run-Sent (add_upstream_info uuid s info).1 es g.valid in
      record {
        added = g.added ++ rest.added;
        infos =
            rest.infos
            ∙ (ap (λ m. m ++ rest.added) g.infos ∙ append_assoc s.infos g.added rest.added);
        aliases =
            rest.aliases
            ∙ (ap (λ m. m ++ map (announce uuid) rest.added) g.for_ack
                ∙ (append_assoc s.for_ack (map (announce uuid) g.added)
                      (map (announce uuid) rest.added)
                    ∙ ap (◌++◌ s.for_ack) (sym (map-append (announce uuid) g.added rest.added))));
        results = rest.results ∙ ap (λ r. r ++ results_of es) g.results;
        ids =
            subst (λ i. IdsFrom (next_ack_id i) (run (add_upstream_info uuid s info).1 es).0)
              g.ack_id rest.ids;
        valid = rest.valid;
      }
  run-Sent s (ack_due alias ∷ es) v =
      let took = take_ack_lem s alias v in
      let rest = run-Sent (take_ack s alias).1 es took.valid in
      record {
        added = rest.added;
        infos = rest.infos ∙ ap (λ m. m ++ rest.added) took.infos;
        aliases =
            ap (λ m. m ++ (run (take_ack s alias).1 es).1.for_ack)
              (joined_aliases (to_list (take_ack s alias).0) (run (take_ack s alias).1 es).0)
            ∙ (append_assoc (acked_aliases (to_list (take_ack s alias).0))
                  (acked_aliases (run (take_ack s alias).1 es).0)
                  (run (take_ack s alias).1 es).1.for_ack
                ∙ ap₂ (λ x y. x ++ y) took.aliases
                    (rest.aliases ∙ ap (λ m. m ++ map (announce uuid) rest.added) took.no_aliases));
        results =
            ap (λ m. m ++ (run (take_ack s alias).1 es).1.results)
              (joined_results (to_list (take_ack s alias).0) (run (take_ack s alias).1 es).0)
            ∙ (append_assoc (acked_results (to_list (take_ack s alias).0))
                  (acked_results (run (take_ack s alias).1 es).0)
                  (run (take_ack s alias).1 es).1.results
                ∙ ap₂ (λ x y. x ++ y) took.results
                    (rest.results ∙ ap (λ m. m ++ results_of es) took.no_results));
        ids = took.ids (run (take_ack s alias).1 es).0 rest.ids;
        valid = rest.valid;
      }

  -- Over any run from the first state: the acknowledgements and what is still to be sent carry,
  -- in order and each once, the result of every received chunk and an announcement of every alias
  -- that was registered, and the acknowledgements are numbered 0, 1, 2 and so on, round at 2^32.
  pub run-Acked :
      (data_ids : Map ℕ DataId) (es : List Event)
      → (acked_results (run (new data_ids) es).0 ++ (run (new data_ids) es).1.results
          ≡ results_of es)
        × (acked_aliases (run (new data_ids) es).0 ++ (run (new data_ids) es).1.for_ack
            ≡ map (announce uuid) (run (new data_ids) es).1.infos)
        × IdsFrom 0 (run (new data_ids) es).0
  unfolding new next_ack_id
  run-Acked data_ids es =
      let sent = run-Sent (new data_ids) es (new-IsValid data_ids) in
      (sent.results, sent.aliases ∙ ap (map (announce uuid)) (sym sent.infos), sent.ids)
