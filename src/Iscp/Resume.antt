-- ===== src/Iscp/Resume.antt =====
-- The loops that bring a stream back on a connection: `get_conn_and_resume` in src/iscp/upstream.rs, and
-- the resume loop of `downstream_loop` in src/iscp/downstream.rs. A turn is one round of the loop.
pub mod Tokens
mod Tests
use iscp_rs.Base.{
  ℕ, ◌≡◌, String, Bool, true, false, Option, none, some, List, [], ◌∷◌, ◌++◌, if◌then◌else◌, ◌==◌,
  string_eq, is_some,
}
use iscp_rs.Errors.{Error, Outcome, ok, err, panic, can_retry_resume, error_result_code}

-- A round finds the wire connection down and gets a new one, or learns that there will be none; or it
-- finds the connection up, where a resume request is answered thus, if one is made, and the read
-- loop takes the stream or not, if it is asked.
pub data Turn : Type 0 where
  renewed : Turn
  no_connection : Turn
  up : Outcome (ℕ × String) → Bool → Turn

-- `token` is the variable of the loop, `stored_token` that of the stream; `sent` are the tokens of the
-- resume requests.
pub record Resume : Type 0 where
  pub need_resume : Bool
  pub token : String
  pub stored_token : String
  pub stream_id_alias : ℕ
  pub sent : List String

-- The loop goes on, or ends with the stream on the connection or without.
pub data Result : Type 0 where
  again : Resume → Result
  attached : Resume → Result
  given_up : Resume → Result

-- An empty token is taken from the stream, which keeps an empty one.
unfoldable pub take_token : Resume → Resume
take_token r = if r.token == "" then record r { token = r.stored_token; stored_token = "" } else r

unfoldable pub failed_resume : Resume → Error → Result
failed_resume r e =
    if is_some (error_result_code e)
    then given_up r
    else if can_retry_resume e
    then again r
    else given_up r

-- The answer to the resume request that was sent with the token of `r`.
unfoldable pub answered : Resume → Outcome (ℕ × String) → Result
answered r (ok (alias, resume_token)) =
    again (record r { stream_id_alias = alias; stored_token = resume_token; need_resume = false })
answered r (err e) = failed_resume r e
answered r panic = given_up r

abbrev pub send_resume : Resume → Outcome (ℕ × String) → Result
send_resume r answer = answered (record r { sent = r.sent ++ r.token ∷ [] }) answer

-- One round for an upstream; `no_expiry` tells that its expiry interval is zero.
unfoldable pub upstream_turn : Bool → Resume → Turn → Result
upstream_turn no_expiry r renewed = again (record r { need_resume = true })
upstream_turn no_expiry r no_connection = given_up r
upstream_turn no_expiry r (up answer taken) =
    if r.need_resume
    then if no_expiry then given_up (take_token r) else send_resume (take_token r) answer
    else if taken
    then attached r
    else again r

-- One round for a downstream.
unfoldable pub downstream_turn : Bool → Resume → Turn → Result
downstream_turn no_expiry r renewed = again (record r { need_resume = true })
downstream_turn no_expiry r no_connection = given_up r
downstream_turn no_expiry r (up answer taken) =
    if r.need_resume
    then if no_expiry then given_up r else send_resume (take_token r) answer
    else if taken
    then attached r
    else again r

-- The rounds of a loop: `again` as the result says that it has not ended.
unfoldable pub turns : (Resume → Turn → Result) → Resume → List Turn → Result
turns turn r [] = again r
turns turn r (t ∷ ts) = elim (turn r t) [
  | again r' ↦ turns turn r' ts
  | attached r' ↦ attached r'
  | given_up r' ↦ given_up r'
]

-- The loop as it begins.
abbrev pub start : Bool → String → ℕ → Resume
start need_resume stored_token alias = record {
  need_resume = need_resume;
  token = "";
  stored_token = stored_token;
  stream_id_alias = alias;
  sent = [];
}
