-- ===== src/Transport/Negotiation/Tests.antt =====
-- The bytes of the negotiation at concrete parameters.
use iscp_rs.Base.{◌≡◌, refl, none, some, [], ◌∷◌, ◌++◌}
use iscp_rs.Errors.{ok}
use iscp_rs.Message.Types.{Bytes}
use iscp_rs.Transport.Negotiation.{
  protobuf, context_takeover, NegotiationParams, Texts, put_entry, put_all, entries, entry_bytes,
  to_bytes,
}

-- Every text is one byte, every number the text of one digit.
abbrev texts : Texts
texts = record { bytes_of = λ s. 7 ∷ []; number = λ n. "6" }

abbrev params : NegotiationParams
params = record {
  encoding_name = protobuf;
  compression_type = some context_takeover;
  compression_level = none;
  compression_window_bits = some 6;
}

abbrev field : Bytes
field = 0 ∷ 1 ∷ 7 ∷ []

abbrev out : Bytes
out = field ++ (field ++ (field ++ (field ++ (field ++ field))))

written : to_bytes texts params ≡ ok out
unfolding to_bytes put_all put_entry entries entry_bytes
written = refl
