-- ===== src/Message/Requests.antt =====
-- The traits `RequestMessage`, `HasRequestId` and `HasResultCode` (src/message/mod.rs): a request, its
-- number, and the response that answers it.
use iscp_rs.Base.{ℕ, String, ◌≡◌, refl, Option, none, some}
use iscp_rs.Message.ResultCode.{ResultCode, code_of}
use iscp_rs.Message.Connections.{ConnectRequest, ConnectResponse}
use iscp_rs.Message.Streams.{
  DownstreamCloseRequest, DownstreamCloseResponse, DownstreamOpenRequest, DownstreamOpenResponse,
  DownstreamResumeRequest, DownstreamResumeResponse, UpstreamCloseRequest, UpstreamCloseResponse,
  UpstreamOpenRequest, UpstreamOpenResponse, UpstreamResumeRequest, UpstreamResumeResponse,
}
use iscp_rs.Message.Metadata.{DownstreamMetadata, DownstreamMetadataAck, UpstreamMetadataAck}
use iscp_rs.Message.UpMetadata.{UpstreamMetadata}
use iscp_rs.Message.Messages.{
  Message, MessageBody, downstream_metadata, downstream_metadata_ack, upstream_metadata,
  upstream_metadata_ack, connect_request, connect_response, downstream_close_request,
  downstream_close_response, downstream_open_request, downstream_open_response,
  downstream_resume_request, downstream_resume_response, upstream_close_request,
  upstream_close_response, upstream_open_request, upstream_open_response, upstream_resume_request,
  upstream_resume_response,
}
use iscp_rs.Message.RequestId.{request_id}

pub record RequestMessage (Req Resp : Type 0) : Type 0 where
  pub set_request_id : ℕ → Req → Req
  pub into : Req → Message
  pub try_into : MessageBody → Option Resp
  pub result_code : Resp → Option ResultCode
  pub result_string : Resp → String
  -- A request that was given a number bears it.
  pub numbered : (id : ℕ) (r : Req) → request_id (into (set_request_id id r)) ≡ some id

abbrev pub connect_response_of : MessageBody → Option ConnectResponse
connect_response_of (connect_response a) = some a
connect_response_of _ = none

abbrev pub connect_message : RequestMessage ConnectRequest ConnectResponse
unfolding request_id
connect_message = record {
  set_request_id = λ id r. record r { request_id = id };
  into = λ r. record { message = some (connect_request r) };
  try_into = connect_response_of;
  result_code = λ r. code_of r.result_code;
  result_string = λ r. r.result_string;
  numbered = λ id r. refl;
}

abbrev pub downstream_close_response_of : MessageBody → Option DownstreamCloseResponse
downstream_close_response_of (downstream_close_response a) = some a
downstream_close_response_of _ = none

abbrev pub downstream_close_message : RequestMessage DownstreamCloseRequest DownstreamCloseResponse
unfolding request_id
downstream_close_message = record {
  set_request_id = λ id r. record r { request_id = id };
  into = λ r. record { message = some (downstream_close_request r) };
  try_into = downstream_close_response_of;
  result_code = λ r. code_of r.result_code;
  result_string = λ r. r.result_string;
  numbered = λ id r. refl;
}

abbrev pub downstream_open_response_of : MessageBody → Option DownstreamOpenResponse
downstream_open_response_of (downstream_open_response a) = some a
downstream_open_response_of _ = none

abbrev pub downstream_open_message : RequestMessage DownstreamOpenRequest DownstreamOpenResponse
unfolding request_id
downstream_open_message = record {
  set_request_id = λ id r. record r { request_id = id };
  into = λ r. record { message = some (downstream_open_request r) };
  try_into = downstream_open_response_of;
  result_code = λ r. code_of r.result_code;
  result_string = λ r. r.result_string;
  numbered = λ id r. refl;
}

abbrev pub downstream_resume_response_of : MessageBody → Option DownstreamResumeResponse
downstream_resume_response_of (downstream_resume_response a) = some a
downstream_resume_response_of _ = none

abbrev pub downstream_resume_message :
    RequestMessage DownstreamResumeRequest DownstreamResumeResponse
unfolding request_id
downstream_resume_message = record {
  set_request_id = λ id r. record r { request_id = id };
  into = λ r. record { message = some (downstream_resume_request r) };
  try_into = downstream_resume_response_of;
  result_code = λ r. code_of r.result_code;
  result_string = λ r. r.result_string;
  numbered = λ id r. refl;
}

abbrev pub upstream_close_response_of : MessageBody → Option UpstreamCloseResponse
upstream_close_response_of (upstream_close_response a) = some a
upstream_close_response_of _ = none

abbrev pub upstream_close_message : RequestMessage UpstreamCloseRequest UpstreamCloseResponse
unfolding request_id
upstream_close_message = record {
  set_request_id = λ id r. record r { request_id = id };
  into = λ r. record { message = some (upstream_close_request r) };
  try_into = upstream_close_response_of;
  result_code = λ r. code_of r.result_code;
  result_string = λ r. r.result_string;
  numbered = λ id r. refl;
}

abbrev pub upstream_open_response_of : MessageBody → Option UpstreamOpenResponse
upstream_open_response_of (upstream_open_response a) = some a
upstream_open_response_of _ = none

abbrev pub upstream_open_message : RequestMessage UpstreamOpenRequest UpstreamOpenResponse
unfolding request_id
upstream_open_message = record {
  set_request_id = λ id r. record r { request_id = id };
  into = λ r. record { message = some (upstream_open_request r) };
  try_into = upstream_open_response_of;
  result_code = λ r. code_of r.result_code;
  result_string = λ r. r.result_string;
  numbered = λ id r. refl;
}

abbrev pub upstream_resume_response_of : MessageBody → Option UpstreamResumeResponse
upstream_resume_response_of (upstream_resume_response a) = some a
upstream_resume_response_of _ = none

abbrev pub upstream_resume_message : RequestMessage UpstreamResumeRequest UpstreamResumeResponse
unfolding request_id
upstream_resume_message = record {
  set_request_id = λ id r. record r { request_id = id };
  into = λ r. record { message = some (upstream_resume_request r) };
  try_into = upstream_resume_response_of;
  result_code = λ r. code_of r.result_code;
  result_string = λ r. r.result_string;
  numbered = λ id r. refl;
}

abbrev pub downstream_metadata_ack_of : MessageBody → Option DownstreamMetadataAck
downstream_metadata_ack_of (downstream_metadata_ack a) = some a
downstream_metadata_ack_of _ = none

abbrev pub downstream_metadata_message : RequestMessage DownstreamMetadata DownstreamMetadataAck
unfolding request_id
downstream_metadata_message = record {
  set_request_id = λ id r. record r { request_id = id };
  into = λ r. record { message = some (downstream_metadata r) };
  try_into = downstream_metadata_ack_of;
  result_code = λ r. code_of r.result_code;
  result_string = λ r. r.result_string;
  numbered = λ id r. refl;
}

abbrev pub upstream_metadata_ack_of : MessageBody → Option UpstreamMetadataAck
upstream_metadata_ack_of (upstream_metadata_ack a) = some a
upstream_metadata_ack_of _ = none

abbrev pub upstream_metadata_message : RequestMessage UpstreamMetadata UpstreamMetadataAck
unfolding request_id
upstream_metadata_message = record {
  set_request_id = λ id r. record r { request_id = id };
  into = λ r. record { message = some (upstream_metadata r) };
  try_into = upstream_metadata_ack_of;
  result_code = λ r. code_of r.result_code;
  result_string = λ r. r.result_string;
  numbered = λ id r. refl;
}
