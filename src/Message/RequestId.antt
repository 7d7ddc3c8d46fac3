-- ===== src/Message/RequestId.antt =====
-- `Message::request_id` (src/message/mod.rs).
use iscp_rs.Base.{ℕ, Option, none, some}
use iscp_rs.Message.Messages.{
  MessageBody, Message, connect_request, connect_response, downstream_close_request,
  downstream_close_response, downstream_metadata, downstream_metadata_ack, downstream_open_request,
  downstream_open_response, downstream_resume_request, downstream_resume_response, ping, pong,
  upstream_close_request, upstream_close_response, upstream_metadata, upstream_metadata_ack,
  upstream_open_request, upstream_open_response, upstream_resume_request, upstream_resume_response,
}

abbrev pub body_request_id : MessageBody → Option ℕ
body_request_id (connect_request a) = some a.request_id
body_request_id (connect_response a) = some a.request_id
body_request_id (downstream_close_request a) = some a.request_id
body_request_id (downstream_close_response a) = some a.request_id
body_request_id (downstream_metadata a) = some a.request_id
body_request_id (downstream_metadata_ack a) = some a.request_id
body_request_id (downstream_open_request a) = some a.request_id
body_request_id (downstream_open_response a) = some a.request_id
body_request_id (downstream_resume_request a) = some a.request_id
body_request_id (downstream_resume_response a) = some a.request_id
body_request_id (ping a) = some a.request_id
body_request_id (pong a) = some a.request_id
body_request_id (upstream_close_request a) = some a.request_id
body_request_id (upstream_close_response a) = some a.request_id
body_request_id (upstream_metadata a) = some a.request_id
body_request_id (upstream_metadata_ack a) = some a.request_id
body_request_id (upstream_open_request a) = some a.request_id
body_request_id (upstream_open_response a) = some a.request_id
body_request_id (upstream_resume_request a) = some a.request_id
body_request_id (upstream_resume_response a) = some a.request_id
body_request_id _ = none

unfoldable pub request_id : Message → Option ℕ
request_id m = elim m.message [ none ↦ none | some body ↦ body_request_id body ]
