-- ===== src/Errors.antt =====
-- src/error.rs: the errors of the crate. A wrapped error of another library is its text.
use iscp_rs.Base.{◌≡◌, refl, String, Bool, true, false, ◌||◌, Option, none, some}
use iscp_rs.Message.ResultCode.{ResultCode}
use iscp_rs.Message.Types.{Uuid}

pub data Error : Type 0 where
  transport : String → Error
  token_source : String → Error
  failed_message : ResultCode → String → Error
  timeout : String → Error
  connection_closed : Error
  cancelled_by_close : Error
  stream_closed : Error
  unexpected : String → Error
  invalid_value : String → Error
  reordering : Uuid → Error

-- What a fallible operation returns; `panic` stands for a failed `unwrap` or `expect`.
pub data Outcome {ℓ} (A : Type ℓ) : Type ℓ where
  ok : A → Outcome A
  err : Error → Outcome A
  panic : Outcome A

-- `?`: the next step, unless the one before it failed.
abbrev pub and_then {ℓ κ} : {A : Type ℓ} {B : Type κ} → Outcome A → (A → Outcome B) → Outcome B
and_then (ok a) f = f a
and_then (err e) f = err e
and_then panic f = panic

unfoldable pub can_retry : Error → Bool
can_retry (transport e) = true
can_retry connection_closed = true
can_retry cancelled_by_close = true
can_retry _ = false

abbrev pub is_internal : Error → Bool
is_internal (timeout e) = true
is_internal (unexpected e) = true
is_internal _ = false

unfoldable pub can_retry_resume : Error → Bool
can_retry_resume e = can_retry e || is_internal e

unfoldable pub error_result_code : Error → Option ResultCode
error_result_code (failed_message code detail) = some code
error_result_code _ = none

abbrev pub IsInvalid : Error → Type 0
IsInvalid (invalid_value e) = Unit {0}
IsInvalid _ = ⊥

-- A result with `P`, or the error of an invalid value.
abbrev pub Yields : {A : Type 0} → (A → Type 0) → Outcome A → Type 0
Yields P (ok a) = P a
Yields P (err e) = IsInvalid e
Yields P panic = ⊥

pub and_then-Yields :
    {A B : Type 0} {P : A → Type 0} (Q : B → Type 0) (f : A → Outcome B) (o : Outcome A)
    → Yields P o
    → ((a : A) → P a → Yields Q (f a))
    → Yields Q (and_then o f)
and_then-Yields Q f (ok a) p h = h a p
and_then-Yields Q f (err e) p h = p
and_then-Yields Q f panic p h = absurd p

-- The steps of a result that did not fail.
pub and_then-ok :
    {A B : Type 0} (o : Outcome A) (f : A → Outcome B) (b : B)
    → and_then o f ≡ ok b
    → (a : A) × (o ≡ ok a) × (f a ≡ ok b)
and_then-ok (ok a) f b h = (a, refl, h)
and_then-ok (err e) f b h = cc
and_then-ok panic f b h = cc
