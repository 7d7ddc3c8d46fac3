-- ===== src/Wire/Conn/Response.antt =====
-- What a request returns (src/wire/mod.rs).
use iscp_rs.Base.{
  ◌≡◌, ◌≢◌, refl, sym, ◌∙◌, Bool, true, false, Option, none, some, ◌==◌, nat_eq, get,
  get-insert_self, inl, inr, Bool-cases, false-true,
}
use iscp_rs.Errors.{Outcome, ok, err, and_then, failed_message}
use iscp_rs.Message.Messages.{Message}
use iscp_rs.Message.ResultCode.{ResultCode, succeeded}
use iscp_rs.Message.ResultCode.Codes.{result_code_eq}
use iscp_rs.Message.RequestId.{request_id}
use iscp_rs.Message.Requests.{RequestMessage}
use iscp_rs.Wire.Requests.{next_request_id}
use iscp_rs.Wire.Conn.{
  Waited, finished, elapsed, cancelled, timeout_with_ct, send_message, Conn, register, convert_body,
  check_code, check_type, check_response, request_message_need_response,
}

module _ {Req Resp : Type 0} (r : RequestMessage Req Resp) where
  -- The message was queued in time, and a response of the right type with this code came in time.
  abbrev pub Came : Waited Bool → Waited (Option Message) → Resp → ResultCode → Type 0
  Came queued waited response code =
      (queued ≡ finished true)
      × ((m : Message) × (waited ≡ finished (some m)) × (convert_body r m ≡ some response))
      × (r.result_code response ≡ some code)

  -- What a code makes of a response.
  abbrev pub Judged : Resp → ResultCode → Outcome Resp → Type 0
  Judged response code (ok answer) = (answer ≡ response) × (code ≡ succeeded)
  Judged response code (err (failed_message c text)) =
      (c ≡ code) × (code ≢ succeeded) × (text ≡ r.result_string response)
  Judged response code _ = ⊥

  -- A result that speaks of a response.
  abbrev pub Speaks : Outcome Resp → Type 0
  Speaks (ok answer) = Unit {0}
  Speaks (err (failed_message c text)) = Unit {0}
  Speaks _ = ⊥

  pub record Answered (c : Conn) (queued : Waited Bool) (waited : Waited (Option Message))
      (sent : Message) (o : Outcome Resp) (c' : Conn) : Type 0 where
    pub numbered : request_id sent ≡ some c.request_id_counter
    pub registered : get c.request_id_counter c'.loop.response_senders ≡ some c.next_channel
    pub judged :
        (response : Resp) (code : ResultCode)
        → Came queued waited response code
        → Judged response code o
    pub only : Speaks o → (response : Resp) × (code : ResultCode) × Came queued waited response code

  check_code-Judged :
      (response : Resp) (code : ResultCode)
      → Judged response code (check_code r response (some code))
  unfolding check_code
  check_code-Judged response code = elim (Bool-cases (code == succeeded)) [
    | inl e ↦ rw (e, check_code) (refl, (result_code_eq.equal_iff code succeeded).0 e)
    | inr e ↦
        rw (e, check_code)
          (
            refl,
            (λ s. absurd (false-true (sym e ∙ (result_code_eq.equal_iff code succeeded).1 s))),
            refl,
          )
  ]

  Came-Judged :
      (queued : Waited Bool) (waited : Waited (Option Message)) (response : Resp)
      (code : ResultCode)
      → Came queued waited response code
      → Judged response code (
          and_then
            (send_message queued)
            (λ _. and_then (timeout_with_ct waited) (check_response r)))
  unfolding send_message timeout_with_ct check_response check_type check_code
  Came-Judged queued waited response code (q, (m, w, b), s) =
      rw (q, send_message, timeout_with_ct)
        (rw (w, timeout_with_ct) (rw (b, check_type) (rw (s) (check_code-Judged response code))))

  only-Came :
      (queued : Waited Bool) (waited : Waited (Option Message))
      → Speaks (
          and_then
            (send_message queued)
            (λ _. and_then (timeout_with_ct waited) (check_response r)))
      → (response : Resp) × (code : ResultCode) × Came queued waited response code
  unfolding send_message timeout_with_ct check_response check_type check_code
  only-Came elapsed waited h = absurd h
  only-Came cancelled waited h = absurd h
  only-Came (finished false) waited h = absurd h
  only-Came (finished true) elapsed h = absurd h
  only-Came (finished true) cancelled h = absurd h
  only-Came (finished true) (finished none) h = absurd h
  only-Came (finished true) (finished (some m)) h = go (convert_body r m) refl h
    where
      coded :
          (response : Resp) (c : Option ResultCode)
          → convert_body r m ≡ some response
          → r.result_code response ≡ c
          → Speaks (check_code r response c)
          → (response : Resp) × (code : ResultCode) × Came
              (finished true)
              (finished (some m))
              response
              code
      coded response none e f s = absurd s
      coded response (some code) e f s = (response, code, (refl, (m, refl, e), f))

      go :
          (b : Option Resp)
          → convert_body r m ≡ b
          → Speaks (check_type r b)
          → (response : Resp) × (code : ResultCode) × Came
              (finished true)
              (finished (some m))
              response
              code
      go none e s = absurd s
      go (some response) e s = coded response (r.result_code response) e refl s

  -- A request goes out under its own number, for which its channel is registered. If it was queued and
  -- a response of the right type with a known code came in time, then it returns that response when
  -- the code is success, and otherwise the error with that code and the text of the response; and
  -- it returns a response or such an error in no other case.
  pub request_message_need_response-Answered :
      (c : Conn) (request : Req) (queued : Waited Bool) (waited : Waited (Option Message))
      → let (sent, o, c') = request_message_need_response r c request queued waited in
        Answered c queued waited sent o c'
  unfolding request_message_need_response register next_request_id
  request_message_need_response-Answered c request queued waited = record {
    numbered = r.numbered c.request_id_counter request;
    registered = get-insert_self c.request_id_counter c.next_channel c.loop.response_senders;
    judged = Came-Judged queued waited;
    only = only-Came queued waited;
  }
