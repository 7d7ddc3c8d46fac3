-- ===== src/Iscp/ConnBuilder/Connect.antt =====
-- The request that a connection begins with (src/iscp/mod.rs).
use iscp_rs.Base.{
  ℕ, ◌+◌, ◌*◌, ◌≤◌, ◌<◌, ◌≡◌, ◌≢◌, String, true, false, Option, none, some, nat_eq, ◌⊎◌, u32_mod,
}
use iscp_rs.Errors.{Outcome, ok, err, panic, invalid_value}
use iscp_rs.Message.Types.{Uuid}
use iscp_rs.Message.Connections.{ConnectRequest, ConnectRequestExtensionFields}
use iscp_rs.Iscp.Types.{Duration}
use iscp_rs.Iscp.ConnBuilder.{ConnBuilder, intdash_fields, extension_fields}

-- A duration of one second or more whose whole seconds are a `u32`.
abbrev pub IsPing : Duration → Type 0
IsPing d = (1_000_000_000 ≤ d) × (d < u32_mod * 1_000_000_000)

abbrev pub Pinged : String → Duration → Outcome ℕ → Type 0
Pinged text d (ok secs) =
    IsPing d × (secs * 1_000_000_000 ≤ d) × (d < secs * 1_000_000_000 + 1_000_000_000)
Pinged text d (err e) = (e ≡ invalid_value text) × (IsPing d → ⊥)
Pinged text d panic = ⊥

module _ (show : Uuid → String) where
  -- The access token is that of the source, if there is one.
  abbrev pub Fielded :
      ConnBuilder → Option (Outcome String) → Option ConnectRequestExtensionFields → Type 0
  Fielded b token none = (b.has_token_source ≡ false) × (b.project_uuid ≡ none)
  Fielded b token (some f) =
      (f.intdash ≡ intdash_fields show b.project_uuid)
      × (((b.has_token_source ≡ true) × (token ≡ some (ok f.access_token)))
          ⊎ ((b.has_token_source ≡ false) × (f.access_token ≡ "")))

  pub record Asked (b : ConnBuilder) (token : Option (Outcome String)) (r : ConnectRequest)
      : Type 0 where
    pub interval : Pinged "invalid ping_interval" b.ping_interval (ok r.ping_interval)
    pub limit : Pinged "invalid ping_timeout" b.ping_timeout (ok r.ping_timeout)
    pub node : r.node_id ≡ b.node_id
    pub fields : Fielded b token r.extension_fields

  -- The request of `b`, or why there is none.
  abbrev pub Begun : ConnBuilder → Option (Outcome String) → Outcome ConnectRequest → Type 0
  Begun b token (ok r) = Asked b token r
  Begun b token o =
      (IsPing b.ping_interval → ⊥)
      ⊎ (IsPing b.ping_timeout → ⊥)
      ⊎ ((b.has_token_source ≡ true) × ((access_token : String) → token ≢ some (ok access_token)))
