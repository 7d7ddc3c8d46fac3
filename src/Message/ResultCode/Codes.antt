-- ===== src/Message/ResultCode/Codes.antt =====
-- `TryFrom<i32>` and `as i32` of `ResultCode` (src/message/proto/iscp2.v1.rs).
use iscp_rs.Base.{
  ℕ, ◌≡◌, refl, ap, sym, ◌∙◌, some, [], ◌∷◌, ◌↔◌, Map, get, nat_eq, arith, All, Bool-cases, inl,
  inr, ◌==◌, Eq, Bool, true, some_inj,
}
use iscp_rs.Base.Int.{pos}
use iscp_rs.Message.ResultCode.{
  ResultCode, code_value, codes, code_of, succeeded, incompatible_version, maximum_data_id_alias,
  maximum_upstream_alias, unspecified_error, no_node_id, auth_failed, connect_timeout,
  malformed_message, protocol_error, ack_timeout, invalid_payload, invalid_data_id,
  invalid_data_id_alias, invalid_data_filter, stream_not_found, resume_request_conflict,
  process_failed, desired_qos_not_supported, ping_timeout, too_large_message_size,
  too_many_data_id_aliases, too_many_streams, too_long_ack_interval, too_many_downstream_filters,
  too_many_data_filters, too_long_expiry_interval, too_long_ping_timeout, too_short_ping_interval,
  too_short_ping_timeout, rate_limit_reached, too_large_feed_id, too_many_target_nodes,
  feed_not_found, invalid_resume_token, node_id_mismatch, session_not_found, session_already_closed,
  session_cannot_closed,
}

code_of-code_value : (c : ResultCode) → code_of (pos (code_value c)) ≡ some c
unfolding code_of get
code_of-code_value succeeded = refl
code_of-code_value incompatible_version = refl
code_of-code_value maximum_data_id_alias = refl
code_of-code_value maximum_upstream_alias = refl
code_of-code_value unspecified_error = refl
code_of-code_value no_node_id = refl
code_of-code_value auth_failed = refl
code_of-code_value connect_timeout = refl
code_of-code_value malformed_message = refl
code_of-code_value protocol_error = refl
code_of-code_value ack_timeout = refl
code_of-code_value invalid_payload = refl
code_of-code_value invalid_data_id = refl
code_of-code_value invalid_data_id_alias = refl
code_of-code_value invalid_data_filter = refl
code_of-code_value stream_not_found = refl
code_of-code_value resume_request_conflict = refl
code_of-code_value process_failed = refl
code_of-code_value desired_qos_not_supported = refl
code_of-code_value ping_timeout = refl
code_of-code_value too_large_message_size = refl
code_of-code_value too_many_data_id_aliases = refl
code_of-code_value too_many_streams = refl
code_of-code_value too_long_ack_interval = refl
code_of-code_value too_many_downstream_filters = refl
code_of-code_value too_many_data_filters = refl
code_of-code_value too_long_expiry_interval = refl
code_of-code_value too_long_ping_timeout = refl
code_of-code_value too_short_ping_interval = refl
code_of-code_value too_short_ping_timeout = refl
code_of-code_value rate_limit_reached = refl
code_of-code_value too_large_feed_id = refl
code_of-code_value too_many_target_nodes = refl
code_of-code_value feed_not_found = refl
code_of-code_value invalid_resume_token = refl
code_of-code_value node_id_mismatch = refl
code_of-code_value session_not_found = refl
code_of-code_value session_already_closed = refl
code_of-code_value session_cannot_closed = refl

abbrev Coded : ℕ × ResultCode → Type 0
Coded e = code_value e.1 ≡ e.0

codes-Coded : All Coded codes
codes-Coded = (
  refl,
  (
    refl,
    (
      refl,
      (
        refl,
        (
          refl,
          (
            refl,
            (
              refl,
              (
                refl,
                (
                  refl,
                  (
                    refl,
                    (
                      refl,
                      (
                        refl,
                        (
                          refl,
                          (
                            refl,
                            (
                              refl,
                              (
                                refl,
                                (
                                  refl,
                                  (
                                    refl,
                                    (
                                      refl,
                                      (
                                        refl,
                                        (
                                          refl,
                                          (
                                            refl,
                                            (
                                              refl,
                                              (
                                                refl,
                                                (
                                                  refl,
                                                  (
                                                    refl,
                                                    (
                                                      refl,
                                                      (
                                                        refl,
                                                        (
                                                          refl,
                                                          (
                                                            refl,
                                                            (
                                                            refl,
                                                            (
                                                            refl,
                                                            (
                                                            refl,
                                                            (
                                                            refl,
                                                            (
                                                            refl,
                                                            (refl, (refl, (refl, (refl, tt)))),
                                                            ),
                                                            ),
                                                            ),
                                                            ),
                                                            ),
                                                          ),
                                                        ),
                                                      ),
                                                    ),
                                                  ),
                                                ),
                                              ),
                                            ),
                                          ),
                                        ),
                                      ),
                                    ),
                                  ),
                                ),
                              ),
                            ),
                          ),
                        ),
                      ),
                    ),
                  ),
                ),
              ),
            ),
          ),
        ),
      ),
    ),
  ),
)

get-Coded :
    (n : ℕ) (m : Map ℕ ResultCode) (c : ResultCode)
    → All Coded m
    → get n m ≡ some c
    → n ≡ code_value c
unfolding get
get-Coded n [] c a h = cc
get-Coded n ((k, d) ∷ m) c a h = elim (Bool-cases (k == n)) [
  | inl e ↦
      let key : k ≡ n = ground arith in
      let found : d ≡ c = ground arith in sym key ∙ (sym a.0 ∙ ap code_value found)
  | inr e ↦ let rest : get n m ≡ some c = ground arith in get-Coded n m c a.1 rest
]

-- `PartialEq`.
abbrev pub code_beq : ResultCode → ResultCode → Bool
code_beq a b = code_value a == code_value b

code_value_inj : (a b : ResultCode) → code_value a ≡ code_value b → a ≡ b
code_value_inj a b h =
    some_inj (sym (code_of-code_value a) ∙ (ap (λ n. code_of (pos n)) h ∙ code_of-code_value b))

pub code_equal_iff : (a b : ResultCode) → (code_beq a b ≡ true) ↔ (a ≡ b)
code_equal_iff a b = (
  λ h. code_value_inj a b ((nat_eq.equal_iff (code_value a) (code_value b)).0 h),
  λ h. (nat_eq.equal_iff (code_value a) (code_value b)).1 (ap code_value h),
)

instance abbrev pub result_code_eq : Eq ResultCode
result_code_eq = record { equal = code_beq; equal_iff = code_equal_iff }
