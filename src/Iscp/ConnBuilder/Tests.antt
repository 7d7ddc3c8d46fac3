-- ===== src/Iscp/ConnBuilder/Tests.antt =====
-- The request of a connection at concrete settings.
use iscp_rs.Base.{String, true, Option, some}
use iscp_rs.Errors.{Outcome, ok}
use iscp_rs.Message.Types.{Uuid}
use iscp_rs.Iscp.ConnBuilder.{ConnBuilder, new, set_node_id, set_project_uuid, set_token_source}

abbrev show : Uuid → String
show u = "00000000-0000-0000-0000-000000000007"

abbrev builder : ConnBuilder
unfolding set_node_id set_project_uuid set_token_source
builder = set_token_source (set_project_uuid (set_node_id new "edge") (some 7)) true

abbrev token : Option (Outcome String)
token = some (ok "t")
