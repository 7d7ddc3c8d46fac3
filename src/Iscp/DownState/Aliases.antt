-- ===== src/Iscp/DownState/Aliases.antt =====
-- The aliases of upstreams (src/iscp/down_state.rs): which are taken and which are to be announced.
use iscp_rs.Base.{
  ℕ, ◌+◌, ◌<◌, ◌≡◌, refl, sym, Option, none, some, [], ◌∷◌, ◌++◌, map, arith, nat_eq, string_eq,
  Map, get, insert, All, insert-append, inl, inr, Option-cases, subst, append-nil,
}
use iscp_rs.Message.Types.{DataId}
use iscp_rs.Message.Chunks as Msg
use iscp_rs.Iscp.Types.{UpstreamInfo}
use iscp_rs.Iscp.DownState.{State, UuidLib, new, next_alias, find_info, add_upstream_info}

-- The alias that comes next, without the overflow.
abbrev pub bound : Option ℕ → ℕ
bound none = 0
bound (some alias) = alias + 1

abbrev pub Below {ℓ} : {V : Type ℓ} → ℕ → Map ℕ V → Type 0
Below n = All (λ e. e.0 < n)

get-Below {ℓ} : {V : Type ℓ} (n : ℕ) (m : Map ℕ V) → Below n m → get n m ≡ none
unfolding get
get-Below n [] b = refl
get-Below n ((k, v) ∷ m) b = ground (arith, b.0, get-Below n m b.1)

Below-append {ℓ} :
    {V : Type ℓ} (k n : ℕ) (v : V) (m : Map ℕ V) → Below k m → k < n → Below n (m ++ (k, v) ∷ [])
Below-append k n v [] b h = (h, tt)
Below-append k n v ((j, w) ∷ m) b h = (omega (arith, b.0), Below-append k n v m b.1 h)

-- How the message of an acknowledgement announces an alias.
abbrev pub announce : UuidLib → ℕ × UpstreamInfo → ℕ × Msg.UpstreamInfo
announce uuid (alias, info) = (
  alias,
  record {
    session_id = info.session_id;
    stream_id = uuid.into_bytes info.stream_id;
    source_node_id = info.source_node_id;
  },
)

-- Every alias is below the one that comes next.
pub record IsValid (s : State) : Type 0 where
  pub infos : Below (bound s.last_issued_upstream_info_alias) s.infos
  pub for_ack : Below (bound s.last_issued_upstream_info_alias) s.for_ack

pub new-IsValid : (m : Map ℕ DataId) → IsValid (new m)
unfolding new
new-IsValid m = record { infos = tt; for_ack = tt }

-- From `s` to `t` some aliases were registered, and are to be announced.
pub record Grown (uuid : UuidLib) (s t : State) : Type 0 where
  pub added : Map ℕ UpstreamInfo
  pub infos : t.infos ≡ s.infos ++ added
  pub for_ack : t.for_ack ≡ s.for_ack ++ map (announce uuid) added
  pub results : t.results ≡ s.results
  pub ack_id : t.last_issued_chunk_ack_id ≡ s.last_issued_chunk_ack_id
  pub data_ids : t.data_id_aliases ≡ s.data_id_aliases
  pub valid : IsValid t

pub same-Grown : (uuid : UuidLib) (s : State) → IsValid s → Grown uuid s s
same-Grown uuid s v = record {
  added = [];
  infos = sym (append-nil s.infos);
  for_ack = sym (append-nil s.for_ack);
  results = refl;
  ack_id = refl;
  data_ids = refl;
  valid = v;
}

next_alias-bound : (last : Option ℕ) (alias : ℕ) → next_alias last ≡ some alias → alias ≡ bound last
unfolding next_alias
next_alias-bound none alias h = ground arith
next_alias-bound (some n) alias h = ground arith

-- What `add_upstream_info` registers under `alias`.
abbrev registered : UuidLib → State → UpstreamInfo → ℕ → State
registered uuid s info alias = record s {
  last_issued_upstream_info_alias = some alias;
  infos = insert alias info s.infos;
  for_ack = insert alias (announce uuid (alias, info)).1 s.for_ack;
}

registered-Grown :
    (uuid : UuidLib) (s : State) (info : UpstreamInfo) (alias : ℕ)
    → IsValid s
    → alias ≡ bound s.last_issued_upstream_info_alias
    → Grown uuid s (registered uuid s info alias)
registered-Grown uuid s info alias v h =
    let below_infos : Below alias s.infos = subst (λ n. Below n s.infos) (sym h) v.infos in
    let below_ack : Below alias s.for_ack = subst (λ n. Below n s.for_ack) (sym h) v.for_ack in
    let message = (announce uuid (alias, info)).1 in
    let new_infos = insert-append alias info s.infos (get-Below alias s.infos below_infos) in
    let new_ack = insert-append alias message s.for_ack (get-Below alias s.for_ack below_ack) in
    record {
      added = (alias, info) ∷ [];
      infos = new_infos;
      for_ack = new_ack;
      results = refl;
      ack_id = refl;
      data_ids = refl;
      valid = record {
        infos =
            subst (Below (alias + 1)) (sym new_infos)
              (Below-append alias (alias + 1) info s.infos below_infos (omega arith));
        for_ack =
            subst (Below (alias + 1)) (sym new_ack)
              (Below-append alias (alias + 1) message s.for_ack below_ack (omega arith));
      };
    }

-- `add_upstream_info` in a valid state: what it returns, and what it registers.
pub add-Grown :
    (uuid : UuidLib) (s : State) (m : Msg.UpstreamInfo)
    → IsValid s
    → Grown uuid s (add_upstream_info uuid s m).1
unfolding add_upstream_info
add-Grown uuid s m v = elim (Option-cases (uuid.from_slice m.stream_id)) [
  | inl bad ↦ rw (bad, add_upstream_info) (same-Grown uuid s v)
  | inr (id, good) ↦
      let info : UpstreamInfo = record {
        session_id = m.session_id;
        stream_id = id;
        source_node_id = m.source_node_id;
      } in
      elim (Option-cases (find_info info s.infos)) [
        | inr (w, known) ↦ rw (good, known, add_upstream_info) (same-Grown uuid s v)
        | inl fresh ↦ elim (Option-cases (next_alias s.last_issued_upstream_info_alias)) [
          | inl full ↦ rw (good, fresh, full, add_upstream_info) (same-Grown uuid s v)
          | inr (alias, room) ↦
              rw (good, fresh, room, add_upstream_info)
                (registered-Grown uuid s info alias v
                  (next_alias-bound s.last_issued_upstream_info_alias alias room))
        ]
      ]
]
