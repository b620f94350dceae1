-- ===== src/Wire/Adapter.antt =====
-- `AuthenticatedHeartbeatAdapter` of src/hermes_sentinel/wire.py, in front of the ingestion.
use hermes_sentinel.Base.{
  String, Bool, true, false, not, ◌&&◌, ◌||◌, List, Option, none, some, str_eq,
}
use hermes_sentinel.Result.{
  Result, ok, err, malformed_payload_error, authentication_error, guard, ◌>>=◌, ◌>>◌,
}
use hermes_sentinel.Json.{Json, object, Members, has_key, get}
use hermes_sentinel.Domain.{HostTelemetry}
use hermes_sentinel.Config.{SentinelConfig, host}
use hermes_sentinel.Ingestion.{HeartbeatRecord, HeartbeatReceipt, IngestEnv, ingest}
use hermes_sentinel.Wire.{Conversions}
use hermes_sentinel.Wire.Credentials.{NodeCredentials, token_for}
use hermes_sentinel.Wire.Decode.{require_node, decode_members}

-- `_snapshot_payload`: a payload that is no mapping, or that cannot be read, is malformed.
unfoldable pub snapshot_payload : Option Json → Result Members
snapshot_payload (some (object m)) = ok m
snapshot_payload _ = err malformed_payload_error

module _ (convert : Conversions) (config : SentinelConfig) (credentials : NodeCredentials) where
  unfoldable pub claimed_node : Members → Result String
  claimed_node m = do
    guard (has_key "node" m) malformed_payload_error
    raw ← get "node" m
    require_node convert raw

  -- The presented token against the expected one; none is a token that is no `str`.
  abbrev pub matches : Option String → Option String → Bool
  matches none token = false
  matches (some expected) none = false
  matches (some expected) (some token) =
      not (str_eq token "" || str_eq (convert.strip token) "") && str_eq token expected

  abbrev pub is_known : String → Bool
  is_known node = elim (host config node) [ none ↦ false | some _ ↦ true ]

  -- steps 1 to 5 of `handle`: the telemetry that is handed to the ingestion
  unfoldable pub authenticate : Option Json → Option String → Result HostTelemetry
  authenticate payload token = do
    m ← snapshot_payload payload
    node ← claimed_node m
    guard (is_known node) authentication_error
    guard (matches (token_for credentials node) token) authentication_error
    telemetry ← decode_members convert m
    guard (str_eq telemetry.host node) malformed_payload_error
    ok telemetry

  unfoldable pub ingest_authenticated :
      IngestEnv
      → Result HostTelemetry
      → List HeartbeatRecord
      → Result HeartbeatReceipt × List HeartbeatRecord
  ingest_authenticated env (err e) rows = (err e, rows)
  ingest_authenticated env (ok telemetry) rows = ingest env config telemetry rows

  -- `AuthenticatedHeartbeatAdapter.handle`
  unfoldable pub handle :
      IngestEnv
      → Option Json
      → Option String
      → List HeartbeatRecord
      → Result HeartbeatReceipt × List HeartbeatRecord
  unfolding authenticate ingest_authenticated
  handle env payload token rows = ingest_authenticated env (authenticate payload token) rows
