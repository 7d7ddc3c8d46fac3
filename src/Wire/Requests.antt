-- ===== src/Wire/Requests.antt =====
-- src/wire/mod.rs: the numbers of requests and the aliases of downstreams.
use iscp_rs.Base.{
  ℕ, zero, suc, ◌+◌, ◌*◌, ◌≤◌, ◌≡◌, refl, List, [], ◌∷◌, arith, wrapping_add, u32_mod,
  if◌then◌else◌, ◌==◌, nat_eq,
}
use iscp_rs.Errors.{Outcome, ok, err, unexpected}

-- `RequestIdCounter::get`: the number, and the next state of the counter.
unfoldable pub next_request_id : ℕ → ℕ × ℕ
next_request_id counter = (counter, wrapping_add counter 2)

-- The numbers of `n` requests in turn.
unfoldable pub request_ids : ℕ → ℕ → List ℕ
request_ids zero counter = []
request_ids (suc n) counter =
    let (id, counter') = next_request_id counter in id ∷ request_ids n counter'

unfoldable pub downstream_stream_id_alias : ℕ → Outcome ℕ × ℕ
downstream_stream_id_alias counter = (
  if counter == 0 then err (unexpected "stream id alias max reached") else ok counter,
  wrapping_add counter 1,
)

-- Every number is even, none is below `bound`, and each is greater than the one before.
abbrev pub EvenRising : ℕ → List ℕ → Type 0
EvenRising bound [] = Unit {0}
EvenRising bound (id ∷ ids) =
    (bound ≤ id) × ((half : ℕ) × (id ≡ 2 * half)) × EvenRising (id + 1) ids

rising_from :
    (n half bound : ℕ)
    → 2 * (half + n) ≤ u32_mod
    → bound ≤ 2 * half
    → EvenRising bound (request_ids n (2 * half))
unfolding request_ids next_request_id
rising_from zero half bound room low = tt
rising_from (suc zero) half bound room low = (low, (half, refl), tt)
rising_from (suc (suc n)) half bound room low =
    let next : wrapping_add (2 * half) 2 ≡ 2 * (half + 1) = omega (arith, room) in
    (
      low,
      (half, refl),
      rw next (rising_from (suc n) (half + 1) (2 * half + 1) (omega (arith, room)) (omega arith)),
    )

-- Up to 2^31 requests of one connection bear even numbers, and each a greater one than those before
-- it: no two share a number.
pub request_ids-EvenRising : (n : ℕ) → n ≤ 2147483648 → EvenRising 0 (request_ids n 0)
request_ids-EvenRising n h = rising_from n 0 0 (omega (arith, h)) (omega arith)
