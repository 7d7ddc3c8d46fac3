-- ===== src/Iscp/Metadata/Send.antt =====
-- src/iscp/metadata.rs: metadata that a node sends.
use iscp_rs.Base.{ℕ, Bool, Option, none, some, if◌then◌else◌, ltb, u64_mod, ◌^◌}
use iscp_rs.Base.Int.{pos, negsuc}
use iscp_rs.Errors.{Outcome, ok, err, invalid_value, and_then}
use iscp_rs.Message.UpMetadata as Up
use iscp_rs.Iscp.Misc.{SystemTime}
use iscp_rs.Iscp.Metadata.{BaseTime}

pub data SendableMetadata : Type 0 where
  base_time : BaseTime → SendableMetadata

-- `u128::try_into::<u64>`, then `u128::try_into::<i64>`.
abbrev pub to_u64 : ℕ → Option ℕ
to_u64 n = if ltb n u64_mod then some n else none

abbrev pub to_i64 : ℕ → Option ℕ
to_i64 n = if ltb n (2 ^ 63) then some n else none

-- `duration_since(UNIX_EPOCH)`.
abbrev pub since_epoch : SystemTime → Outcome ℕ
since_epoch (pos nanos) = ok nanos
since_epoch (negsuc n) = err (invalid_value "second time provided was later than self")

unfoldable pub with_base_time : BaseTime → ℕ → Option ℕ → Outcome Up.UpstreamMetadata
with_base_time b elapsed_time none = err (invalid_value "elapsed_time overflow")
with_base_time b elapsed_time (some base_time_nsec) = ok (record {
  request_id = 0;
  extension_fields = none;
  metadata = some (
      Up.base_time (record {
        session_id = b.session_id;
        name = b.name;
        priority = b.priority;
        elapsed_time = elapsed_time;
        base_time = pos base_time_nsec;
      }));
})

unfoldable pub with_elapsed_time : BaseTime → Option ℕ → Outcome Up.UpstreamMetadata
with_elapsed_time b none = err (invalid_value "elapsed_time overflow")
with_elapsed_time b (some elapsed_time) =
    and_then (since_epoch b.base_time) (λ nanos. with_base_time b elapsed_time (to_i64 nanos))

unfoldable pub convert_to_upstream_metadata : SendableMetadata → Outcome Up.UpstreamMetadata
convert_to_upstream_metadata (base_time b) = with_elapsed_time b (to_u64 b.elapsed_time)

pub record MetadataSender : Type 0 where
  pub metadata : SendableMetadata
  pub persist : Option Bool

unfoldable pub metadata_sender : SendableMetadata → MetadataSender
metadata_sender m = record { metadata = m; persist = none }

unfoldable pub set_persist : MetadataSender → Bool → MetadataSender
set_persist s persist = record s { persist = some persist }

unfoldable pub with_persist : Option Bool → Up.UpstreamMetadata → Outcome Up.UpstreamMetadata
with_persist none r = ok r
with_persist (some persist) r =
    ok (record r { extension_fields = some (record { persist = persist }) })

-- The request that `send` makes.
unfoldable pub request : MetadataSender → Outcome Up.UpstreamMetadata
request s = and_then (convert_to_upstream_metadata s.metadata) (with_persist s.persist)
