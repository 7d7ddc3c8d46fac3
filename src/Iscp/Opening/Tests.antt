-- ===== src/Iscp/Opening/Tests.antt =====
-- A downstream that opens at concrete settings.
use iscp_rs.Base.{◌≡◌, refl, none, List, [], ◌∷◌}
use iscp_rs.Base.Int.{pos}
use iscp_rs.Errors.{Outcome, ok}
use iscp_rs.Message.Types.{DataId}
use iscp_rs.Message.Streams.{DownstreamOpenRequest, DownstreamOpenResponse}
use iscp_rs.Iscp.Types.{DownstreamConfig, default_downstream_config}
use iscp_rs.Iscp.DownState as DownState
use iscp_rs.Iscp.SmallUuid.{small, pad, strip}
use iscp_rs.Iscp.Misc.{parse_stream_id, unix_epoch_to_system_time}
use iscp_rs.Iscp.Opening.{Opened, as_u32, alias_from, downstream_request, open_downstream}
use iscp_rs.Iscp.Opening.Aliases.{IsAgreed, open_downstream-IsAgreed}
use iscp_rs.Wire.Requests.{downstream_stream_id_alias}

abbrev ids : List DataId
ids = record { name = "speed"; type_ = "can" } ∷ record { name = "image"; type_ = "jpeg" } ∷ []

abbrev config : DownstreamConfig
config = record default_downstream_config { data_ids = ids }

abbrev answer : DownstreamOpenRequest → Outcome DownstreamOpenResponse
answer r = ok (record {
  request_id = 0;
  assigned_stream_id = 0 ∷ 0 ∷ 0 ∷ 0 ∷ 0 ∷ 0 ∷ 0 ∷ 0 ∷ 0 ∷ 0 ∷ 0 ∷ 0 ∷ 0 ∷ 0 ∷ 0 ∷ 7 ∷ [];
  server_time = pos 5;
  result_code = pos 0;
  result_string = "OK";
  extension_fields = none;
  resume_token = "t";
})

abbrev opened : Opened
unfolding alias_from
opened = record {
  stream_id = 7;
  stream_id_alias = 1;
  resume_token = "t";
  server_time = pos 5;
  state = DownState.new (alias_from 1 ids);
}

opens : open_downstream small config 1 answer ≡ ok opened
unfolding open_downstream downstream_request as_u32 downstream_stream_id_alias parse_stream_id
    unix_epoch_to_system_time small pad strip opened
opens = refl

open_downstream-IsAgreed_example : IsAgreed config 1 answer opened
open_downstream-IsAgreed_example = open_downstream-IsAgreed small config 1 answer opened opens
