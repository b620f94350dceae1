-- ===== src/Tests/Front.antt =====
-- A heartbeat that arrives over HTTP, and the probe of the dead man.
use hermes_sentinel.Base.{
  true, ℕ, ◌+◌, ◌≡◌, ◌↔◌, refl, String, not, ◌&&◌, ◌||◌, List, [], ◌∷◌, map, none, some, leb, ltb,
  ◌==◌, if◌then◌else◌,
}
use hermes_sentinel.Result.{ok, err, framing_error}
use hermes_sentinel.Float.{finite, hundred}
use hermes_sentinel.Json.{
  Json, int, text, object, Members, end, member, exact_keys, keys_within, keys_cover, listed,
  has_key, get,
}
use hermes_sentinel.Config.{host, find_host}
use hermes_sentinel.Domain.{
  check_load, check_usage, check_telemetry, require_non_negative, require_percent,
  require_non_empty,
}
use hermes_sentinel.Ingestion.{
  HeartbeatReceipt, IngestEnv, ingest, accept, insert_checked, check_record,
}
use hermes_sentinel.Wire.{Conversions}
use hermes_sentinel.Wire.Credentials.{
  NodeCredentials, token_for, is_owned, validate_tokens, create_credentials,
}
use hermes_sentinel.Wire.Decode.{
  require_fields, finite_or_malformed, aware_or_malformed, require_node, require_number,
  require_reported_at, decode_load, decode_resource, decode_measures, decode_members,
  decode_heartbeat_payload,
}
use hermes_sentinel.Wire.Adapter as Wire
use hermes_sentinel.Wire.Adapter.{
  snapshot_payload, claimed_node, authenticate, ingest_authenticated,
}
use hermes_sentinel.Wire.Telemetry.{Malformed}
use hermes_sentinel.Wire.Transcribed.{Decoded, decode_heartbeat_payload-Decoded}
use hermes_sentinel.Result.Ensures.{Ensures}
use hermes_sentinel.Wire.Authenticated.{OwnNode, handle-OwnNode}
use hermes_sentinel.Http.{HttpRequest, HttpFormats, heartbeat_path}
use hermes_sentinel.Http.Codes.{codes, any, is_empty}
use hermes_sentinel.Http.ContentType.{content_type_rejection}
use hermes_sentinel.Http.Accepted.{AcceptedValue, content_type_rejection_lem}
use hermes_sentinel.Http.Adapter as Http
use hermes_sentinel.Http.Adapter.{has_malformed_structure}
use hermes_sentinel.Http.Order.{first_failed, checks, Decided, handle-Decided}
use hermes_sentinel.Server.{Connection, max_content_length}
use hermes_sentinel.Server.Length.{is_digit, int_of, declared_length}
use hermes_sentinel.Server.Digits.{declared_length_lem}
use hermes_sentinel.Server.Dispatch.{dispatch}
use hermes_sentinel.Server.Serves.{dispatch_stores}
use hermes_sentinel.Domain.{ResourceUsage, HostTelemetry}
use hermes_sentinel.Server.Dispatch.{resolve_body}
use hermes_sentinel.Ingestion.Accepts.{is_acceptable}
use hermes_sentinel.Server.Stored.{Dispatched, dispatch-Dispatched}
use hermes_sentinel.Server.Liveness.{seen, dispatch-healthy}
use hermes_sentinel.Deadman.Prober.{probe}
use hermes_sentinel.Deadman.Types.{healthy}
use hermes_sentinel.Tests.Samples.{at, from_unary}
use hermes_sentinel.Tests.Monitor.{config}

abbrev conversions : Conversions
conversions = record {
  strip = λ s. s;
  float_of_int = λ n. some (finite n);
  float_of_negative = λ n. none;
  fromisoformat = λ s. some (at (from_unary s));
}

abbrev env : IngestEnv
env = record { strip = λ s. s; now = at 9; insert = λ r. ok 1 }

abbrev credentials : NodeCredentials
credentials = ("node", "secret") ∷ []

abbrev load_members : Members
load_members = member "one" (int 1) (member "five" (int 2) (member "fifteen" (int 3) end))

abbrev half : Json
half = object (member "used" (int 5) (member "total" (int 10) (member "percent" (int 50) end)))

abbrev payload : Json
payload = object (
    member "node" (text "node") (
      member "reported_at" (text "uuu") (
        member "uptime_seconds" (int 7) (
          member "load" (object load_members) (
            member "cpu_percent" (int 12) (
              member "ram" half
                (member "swap" half (member "root_fs" half (member "root_inodes" half end)))))))))

-- the ASCII letters in lower case
abbrev lower_code : ℕ → ℕ
lower_code c = if leb 65 c && leb c 90 then c + 32 else c

abbrev formats : HttpFormats
formats = record {
  Text = List ℕ;
  decode_utf8 = λ body. some body;
  loads = λ t. some payload;
  is_space = λ c. c == 32;
  lower = map lower_code;
}

abbrev headers : List (String × String)
headers =
    ("Content-Length", "3")
    ∷ ("Content-Type", "application/json")
    ∷ ("X-Sentinel-Token", "secret")
    ∷ []

abbrev posted : Connection
posted = record {
  command = "POST";
  path = heartbeat_path;
  headers = headers;
  stream = 1 ∷ 2 ∷ 3 ∷ 4 ∷ [];
}

abbrev asked : Connection
asked = record { command = "GET"; path = heartbeat_path; headers = []; stream = [] }

abbrev request : HttpRequest
request = record {
  method = "POST";
  path = heartbeat_path;
  headers = headers;
  body = 1 ∷ 2 ∷ 3 ∷ [];
}

dispatch-Dispatched_example :
    let x = dispatch formats conversions config credentials env (λ n. "0") posted [] in
    Dispatched formats conversions config credentials env (λ n. "0") posted [] x.0 x.1
dispatch-Dispatched_example =
    dispatch-Dispatched formats conversions config credentials env (λ n. "0") posted []

dispatch-healthy_example :
    let x = dispatch formats conversions config credentials env (λ n. "0") asked [] in
    (probe (seen formats x.0) ≡ (healthy, 1)) × (x.1 ≡ [])
unfolding codes has_malformed_structure
dispatch-healthy_example =
    dispatch-healthy formats conversions config credentials env (λ n. "0") asked []
      (refl, refl, refl) refl refl refl

handle-Decided_example :
    Decided formats conversions config credentials env request []
      (first_failed (checks formats request))
      (Http.handle formats conversions config credentials env request [])
handle-Decided_example = handle-Decided formats conversions config credentials env request []

content_type_rejection_lem_example :
    (content_type_rejection formats (codes "application/json; charset=utf-8") ≡ none)
    ↔ AcceptedValue formats (codes "application/json; charset=utf-8")
content_type_rejection_lem_example =
    content_type_rejection_lem formats (codes "application/json; charset=utf-8")

declared_length_lem_example : declared_length (codes "00016385") ≡ (
    if is_empty (codes "00016385") || any (λ c. not (is_digit c)) (codes "00016385")
    then err (framing_error 400)
    else (if ltb max_content_length (int_of (codes "00016385"))
        then err (framing_error 413)
        else ok (int_of (codes "00016385"))))
declared_length_lem_example = declared_length_lem (codes "00016385")

abbrev answered : HeartbeatReceipt
answered = record { node = "node"; observation_id = 1; received_at = at 9 }

-- The token of the node is accepted, and the record is stored.
answer_own_node :
    (Wire.handle conversions config credentials env (some payload) (some "secret") []).0
    ≡ ok answered
unfolding create_credentials validate_tokens is_owned token_for Wire.handle authenticate
    ingest_authenticated snapshot_payload claimed_node require_node decode_members decode_measures
    decode_load decode_resource require_number require_reported_at finite_or_malformed
    aware_or_malformed require_fields exact_keys keys_within keys_cover listed has_key get host
    find_host check_load check_usage check_telemetry require_non_negative require_percent
    require_non_empty ingest accept insert_checked check_record hundred
answer_own_node = refl

handle-OwnNode_example :
    let x = Wire.handle conversions config credentials env (some payload) (some "secret") [] in
    OwnNode conversions config credentials env (some payload) "node" [] x.0 x.1
unfolding create_credentials validate_tokens is_owned token_for require_non_empty
handle-OwnNode_example =
    handle-OwnNode conversions config credentials env credentials (some payload) "node" "secret" []
      refl refl

abbrev usage : ResourceUsage
usage = record { used = finite 5; total = finite 10; percent = finite 50 }

abbrev telemetry : HostTelemetry
telemetry = record {
  host = "node";
  timestamp = at 3;
  uptime_seconds = finite 7;
  load = record { one = finite 1; five = finite 2; fifteen = finite 3 };
  cpu_percent = finite 12;
  ram = usage;
  swap = usage;
  root_filesystem = usage;
  root_inodes = usage;
}

-- each layer accepts the request
posted_body : resolve_body formats posted ≡ ok (1 ∷ 2 ∷ 3 ∷ [])
unfolding resolve_body Http.header_values hermes_sentinel.Http.Codes.same codes
    hermes_sentinel.Server.Length.content_length_or_none hermes_sentinel.Http.Codes.strip
    hermes_sentinel.Http.Codes.lstrip hermes_sentinel.Http.Codes.rstrip any
    hermes_sentinel.Server.Dispatch.read hermes_sentinel.Server.Dispatch.read_body declared_length
    hermes_sentinel.Server.Length.exceeds_maximum hermes_sentinel.Server.Length.int_from int_of
    hermes_sentinel.Server.Length.text_gt
posted_body = refl

posted_checks : first_failed (checks formats request) ≡ none
unfolding Http.header_values hermes_sentinel.Http.Codes.same codes hermes_sentinel.Http.Codes.strip
    hermes_sentinel.Http.Codes.lstrip hermes_sentinel.Http.Codes.rstrip any has_malformed_structure
    content_type_rejection hermes_sentinel.Http.Codes.split hermes_sentinel.Http.Codes.count
    hermes_sentinel.Http.ContentType.check_parameters
    hermes_sentinel.Http.ContentType.is_malformed_media_type Http.decode_strict_json
    hermes_sentinel.Json.is_acceptable has_key
posted_checks = refl

posted_token : Http.header_values formats headers "x-sentinel-token" ≡ "secret" ∷ []
unfolding Http.header_values hermes_sentinel.Http.Codes.same codes
posted_token = refl

posted_payload : Http.decode_strict_json formats (1 ∷ 2 ∷ 3 ∷ []) ≡ some payload
unfolding Http.decode_strict_json hermes_sentinel.Json.is_acceptable has_key
posted_payload = refl

posted_telemetry :
    authenticate conversions config credentials (some payload) (some "secret") ≡ ok telemetry
unfolding authenticate snapshot_payload claimed_node get require_node find_host host check_load
    check_telemetry check_usage require_non_empty require_non_negative require_percent hundred
    exact_keys has_key keys_cover keys_within listed token_for aware_or_malformed decode_load
    decode_measures decode_members decode_resource finite_or_malformed require_fields require_number
    require_reported_at
posted_telemetry = refl

posted_acceptable : is_acceptable env config telemetry ≡ true
unfolding host find_host
posted_acceptable = refl

dispatch_stores_example :
    let x = dispatch formats conversions config credentials env (λ n. "0") posted [] in
    (x.0.status ≡ 204) × (x.1 ≡ record { telemetry = telemetry; received_at = at 9 } ∷ [])
dispatch_stores_example =
    dispatch_stores conversions config credentials env formats (λ n. "0") posted [] (1 ∷ 2 ∷ 3 ∷ [])
      "secret" payload telemetry 1 posted_body posted_checks posted_token posted_payload
      posted_telemetry posted_acceptable refl

decode_heartbeat_payload-Decoded_example :
    Ensures (Decoded conversions payload) Malformed (decode_heartbeat_payload conversions payload)
decode_heartbeat_payload-Decoded_example = decode_heartbeat_payload-Decoded conversions payload
