-- ===== src/Iscp/Opening/Aliases.antt =====
-- The aliases of an open downstream (src/iscp/downstream.rs).
use iscp_rs.Base.{
  ℕ, zero, suc, ◌+◌, ◌/◌, ◌<◌, ◌≡◌, refl, sym, ap, ◌∙◌, subst, false, Option, none, some, List, [],
  ◌∷◌, ◌==◌, nat_eq, arith, get, inl, inr, Bool-cases,
}
use iscp_rs.Errors.{Error, Outcome, ok, err, and_then, and_then-ok}
use iscp_rs.Message.Types.{DataId}
use iscp_rs.Message.Streams.{DownstreamOpenRequest, DownstreamOpenResponse}
use iscp_rs.Iscp.Types.{DownstreamConfig}
use iscp_rs.Iscp.DownState as DownState
use iscp_rs.Iscp.DownState.{UuidLib, get_data_id}
use iscp_rs.Iscp.Opening.{alias_from, downstream_request, Opened, open_downstream, as_u32}
use iscp_rs.Iscp.Misc.{parse_stream_id, unix_epoch_to_system_time}
use iscp_rs.Wire.Requests.{downstream_stream_id_alias}

-- The element at a place.
abbrev pub nth : {A : Type 0} → ℕ → List A → Option A
nth n [] = none
nth zero (x ∷ xs) = some x
nth (suc n) (x ∷ xs) = nth n xs

get-alias_from_lt : (j k : ℕ) (ds : List DataId) → j < k → get j (alias_from k ds) ≡ none
unfolding get alias_from
get-alias_from_lt j k [] h = refl
get-alias_from_lt j k (d ∷ ds) h = ground (arith, get-alias_from_lt j (k + 1) ds)

get-alias_from : (k n : ℕ) (ds : List DataId) → get (k + n) (alias_from k ds) ≡ nth n ds
unfolding get alias_from
get-alias_from k n [] = refl
get-alias_from k zero (d ∷ ds) = ground arith
get-alias_from k (suc n) (d ∷ ds) =
    let other : (k == k + suc n) ≡ false = ground arith in
    let place : k + suc n ≡ k + 1 + n = omega arith in
    rw (other) (ap (λ j. get j (alias_from (k + 1) ds)) place ∙ get-alias_from (k + 1) n ds)

-- The request that opened a downstream, and what both ends know of it.
pub record IsAgreed (c : DownstreamConfig) (counter : ℕ)
    (answer : DownstreamOpenRequest → Outcome DownstreamOpenResponse) (o : Opened) : Type 0 where
  pub request : DownstreamOpenRequest
  pub asked : downstream_request c counter ≡ ok request
  pub response : DownstreamOpenResponse
  pub answered : answer request ≡ ok response
  pub drawn : (counter ≡ 0 → ⊥) × (o.stream_id_alias ≡ counter)
  pub under : request.desired_stream_id_alias ≡ counter
  pub told : request.data_id_aliases ≡ o.state.data_id_aliases
  pub known : (n : ℕ) → get_data_id o.state (1 + n) ≡ nth n c.data_ids
  pub unknown : get_data_id o.state 0 ≡ none

request_inj : {a b : DownstreamOpenRequest} → ok a ≡ ok b → a ≡ b
request_inj h = cc

opened_inj : {a b : Opened} → ok a ≡ ok b → a ≡ b
opened_inj h = cc

failed : {e : Error} {a : ℕ} → err e ≡ ok a → ⊥
failed h = cc

alias_inj : {a b : ℕ} → ok a ≡ ok b → a ≡ b
alias_inj h = cc

drawn_alias :
    (counter alias : ℕ)
    → (downstream_stream_id_alias counter).0 ≡ ok alias
    → (counter ≡ 0 → ⊥) × (alias ≡ counter)
unfolding downstream_stream_id_alias
drawn_alias counter alias h = elim (Bool-cases (counter == 0)) [
  | inl e ↦ absurd (failed (rw (e, downstream_stream_id_alias) at h))
  | inr e ↦ (
    λ z. absurd (ground (arith, e, z)),
    sym (alias_inj (rw (e, downstream_stream_id_alias) at h)),
  )
]

told_aliases :
    (c : DownstreamConfig) (alias : ℕ) (r : DownstreamOpenRequest)
    → downstream_request c alias ≡ ok r
    → r.data_id_aliases ≡ alias_from 1 c.data_ids
unfolding downstream_request
told_aliases c alias r h =
    let (secs, e, k) =
      and_then-ok (as_u32 "expiry_interval overflow" (c.expiry_interval / 1_000_000_000)) _ r h in
    ap (λ q. q.data_id_aliases) (sym (request_inj k))

asked_alias :
    (c : DownstreamConfig) (alias : ℕ) (r : DownstreamOpenRequest)
    → downstream_request c alias ≡ ok r
    → r.desired_stream_id_alias ≡ alias
unfolding downstream_request
asked_alias c alias r h =
    let (secs, e, k) =
      and_then-ok (as_u32 "expiry_interval overflow" (c.expiry_interval / 1_000_000_000)) _ r h in
    ap (λ q. q.desired_stream_id_alias) (sym (request_inj k))

-- A downstream that opened had asked under the alias that the connection drew for it, which is not 0;
-- in its state, as in that request, the alias n + 1 stands for the n-th data id of the
-- settings, counted from 0, an alias greater than their number for none, and 0 for none.
pub open_downstream-IsAgreed :
    (uuid : UuidLib) (c : DownstreamConfig) (counter : ℕ)
    (answer : DownstreamOpenRequest → Outcome DownstreamOpenResponse) (o : Opened)
    → open_downstream uuid c counter answer ≡ ok o
    → IsAgreed c counter answer o
unfolding open_downstream get_data_id DownState.new
open_downstream-IsAgreed uuid c counter answer o h =
    let (secs, e0, h0) =
      and_then-ok (as_u32 "expiry_interval overflow" (c.expiry_interval / 1_000_000_000)) _ o h in
    let (alias, e1, h1) = and_then-ok (downstream_stream_id_alias counter).0 _ o h0 in
    let (nonzero, same) = drawn_alias counter alias e1 in
    let (r, e2, h2) = and_then-ok (and_then (downstream_request c alias) answer) _ o h1 in
    let (q, e3, h3) = and_then-ok (downstream_request c alias) answer r e2 in
    let (id, e4, h4) = and_then-ok (parse_stream_id uuid r.assigned_stream_id) _ o h2 in
    let (time, e5, h5) = and_then-ok (unix_epoch_to_system_time r.server_time) _ o h4 in
    let opened = opened_inj h5 in
    let state : alias_from 1 c.data_ids ≡ o.state.data_id_aliases =
      ap (λ x. x.state.data_id_aliases) opened in
    record {
      request = q;
      asked = subst (λ a. downstream_request c a ≡ ok q) same e3;
      response = r;
      answered = h3;
      drawn = (nonzero, sym (ap (λ x. x.stream_id_alias) opened) ∙ same);
      under = asked_alias c alias q e3 ∙ same;
      told = told_aliases c alias q e3 ∙ state;
      known = λ n. ap (get (1 + n)) (sym state) ∙ get-alias_from 1 n c.data_ids;
      unknown = ap (get 0) (sym state) ∙ get-alias_from_lt 0 1 c.data_ids (omega arith);
    }
