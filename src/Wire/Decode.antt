-- ===== src/Wire/Decode.antt =====
-- `decode_heartbeat_payload` of src/hermes_sentinel/wire.py.
use hermes_sentinel.Base.{String, not, List, Option, none, some, str_eq}
use hermes_sentinel.Result.{
  Result, ok, err, value_error, malformed_payload_error, guard, construct, ◌>>=◌, ◌>>◌,
}
use hermes_sentinel.Float.{Float, is_finite}
use hermes_sentinel.DateTime.{DateTime, is_aware}
use hermes_sentinel.Json.{Json, int, negative, real, text, object, Members, exact_keys, get}
use hermes_sentinel.Domain.{
  LoadAverage, check_load, ResourceUsage, check_usage, HostTelemetry, check_telemetry,
}
use hermes_sentinel.Wire.{Conversions, top_level_fields, load_fields, resource_fields}

-- `_require_exact_keys` of wire.py
unfoldable pub require_fields : List String → Members → Result (Unit {0})
require_fields fields m = guard (exact_keys fields m) malformed_payload_error

-- `except ValueError as error: raise MalformedHeartbeatPayloadError(...)`
abbrev pub as_malformed {ℓ} : {A : Type ℓ} → Result A → Result A
as_malformed (ok a) = ok a
as_malformed (err value_error) = err malformed_payload_error
as_malformed (err e) = err e

unfoldable pub finite_or_malformed : Option Float → Result Float
finite_or_malformed none = err malformed_payload_error
finite_or_malformed (some v) = guard (is_finite v) malformed_payload_error >> ok v

unfoldable pub aware_or_malformed : Option DateTime → Result DateTime
aware_or_malformed none = err malformed_payload_error
aware_or_malformed (some d) = guard (is_aware d) malformed_payload_error >> ok d

module _ (convert : Conversions) where
  open convert use {strip, float_of_int, float_of_negative, fromisoformat}

  unfoldable pub require_node : Json → Result String
  require_node (text s) = guard (not (str_eq (strip s) "")) malformed_payload_error >> ok s
  require_node _ = err malformed_payload_error

  unfoldable pub require_number : Json → Result Float
  require_number (int n) = finite_or_malformed (float_of_int n)
  require_number (negative n) = finite_or_malformed (float_of_negative n)
  require_number (real v) = finite_or_malformed (some v)
  require_number _ = err malformed_payload_error

  unfoldable pub require_reported_at : Json → Result DateTime
  require_reported_at (text s) = aware_or_malformed (fromisoformat s)
  require_reported_at _ = err malformed_payload_error

  unfoldable pub decode_load : Json → Result LoadAverage
  decode_load (object m) = do
    require_fields load_fields m
    raw_one ← get "one" m
    one ← require_number raw_one
    raw_five ← get "five" m
    five ← require_number raw_five
    raw_fifteen ← get "fifteen" m
    fifteen ← require_number raw_fifteen
    construct check_load (record { one = one; five = five; fifteen = fifteen })
  decode_load _ = err malformed_payload_error

  unfoldable pub decode_resource : Json → Result ResourceUsage
  decode_resource (object m) = do
    require_fields resource_fields m
    raw_used ← get "used" m
    used ← require_number raw_used
    raw_total ← get "total" m
    total ← require_number raw_total
    raw_percent ← get "percent" m
    percent ← require_number raw_percent
    construct check_usage (record { used = used; total = total; percent = percent })
  decode_resource _ = err malformed_payload_error

  -- the `try` block
  unfoldable pub decode_measures :
      String → DateTime → Float → Float → Members → Result HostTelemetry
  decode_measures node reported_at uptime_seconds cpu_percent m = do
    raw_load ← get "load" m
    load ← decode_load raw_load
    raw_ram ← get "ram" m
    ram ← decode_resource raw_ram
    raw_swap ← get "swap" m
    swap ← decode_resource raw_swap
    raw_filesystem ← get "root_fs" m
    root_filesystem ← decode_resource raw_filesystem
    raw_inodes ← get "root_inodes" m
    root_inodes ← decode_resource raw_inodes
    construct check_telemetry (record {
      host = node;
      timestamp = reported_at;
      uptime_seconds = uptime_seconds;
      load = load;
      cpu_percent = cpu_percent;
      ram = ram;
      swap = swap;
      root_filesystem = root_filesystem;
      root_inodes = root_inodes;
    })

  unfoldable pub decode_members : Members → Result HostTelemetry
  decode_members m = do
    require_fields top_level_fields m
    raw_node ← get "node" m
    node ← require_node raw_node
    raw_reported ← get "reported_at" m
    reported_at ← require_reported_at raw_reported
    raw_uptime ← get "uptime_seconds" m
    uptime_seconds ← require_number raw_uptime
    raw_cpu ← get "cpu_percent" m
    cpu_percent ← require_number raw_cpu
    as_malformed (decode_measures node reported_at uptime_seconds cpu_percent m)

  unfoldable pub decode_heartbeat_payload : Json → Result HostTelemetry
  decode_heartbeat_payload (object m) = decode_members m
  decode_heartbeat_payload _ = err malformed_payload_error
