-- ===== src/Settings/Hosts.antt =====
-- The host entries of src/hermes_sentinel/settings.py: `_parse_heartbeat` to `_parse_host`, with the
-- defaults of src/hermes_sentinel/config.py.
use hermes_sentinel.Base.{String, List, [], ◌∷◌, none}
use hermes_sentinel.Result.{Result, ok, construct, ◌>>=◌, ◌>>◌}
use hermes_sentinel.Float.{finite}
use hermes_sentinel.Json.{Json, Elements, nil, cons, get}
use hermes_sentinel.Config.{
  HeartbeatSettings, check_heartbeat, ExternalCheckSettings, check_external, Thresholds,
  check_thresholds, HostConfig, check_host,
}
use hermes_sentinel.Settings.{units}
use hermes_sentinel.Settings.Fields.{
  accepted, json_object, json_array, json_string, json_number, json_int, require_known_keys,
  optional_field, number_or_null,
}

abbrev pub heartbeat_fields : List String
heartbeat_fields = "expected_interval_seconds" ∷ "stale_after_seconds" ∷ []

abbrev pub external_required_fields : List String
external_required_fields = "tcp_host" ∷ "tcp_port" ∷ []

abbrev pub external_optional_fields : List String
external_optional_fields = "timeout_seconds" ∷ "down_confirmations" ∷ "recovery_confirmations" ∷ []

abbrev pub thresholds_fields : List String
thresholds_fields =
    "cpu_percent" ∷ "ram_percent" ∷ "swap_percent" ∷ "disk_percent" ∷ "inode_percent" ∷ "load5_max"
    ∷ []

abbrev pub host_required_fields : List String
host_required_fields = "name" ∷ "heartbeat" ∷ "external" ∷ []

abbrev pub host_optional_fields : List String
host_optional_fields = "thresholds" ∷ "services" ∷ []

-- the defaults of `Thresholds`
abbrev pub default_thresholds : Thresholds
default_thresholds = record {
  cpu_percent = finite (units 90);
  ram_percent = finite (units 90);
  swap_percent = finite (units 80);
  disk_percent = finite (units 85);
  inode_percent = finite (units 90);
  load5_max = none;
}

unfoldable pub parse_heartbeat : Json → Result HeartbeatSettings
parse_heartbeat value = do
  m ← json_object value
  require_known_keys heartbeat_fields [] m
  raw_expected ← get "expected_interval_seconds" m
  expected ← json_number raw_expected
  raw_stale ← get "stale_after_seconds" m
  stale_after ← json_number raw_stale
  accepted (
      construct check_heartbeat
        (record { expected_interval_seconds = expected; stale_after_seconds = stale_after }))

unfoldable pub parse_external : Json → Result ExternalCheckSettings
parse_external value = do
  m ← json_object value
  require_known_keys external_required_fields external_optional_fields m
  raw_host ← get "tcp_host" m
  tcp_host ← json_string raw_host
  raw_port ← get "tcp_port" m
  tcp_port ← json_int raw_port
  timeout ← optional_field json_number "timeout_seconds" (finite (units 5)) m
  down ← optional_field json_int "down_confirmations" 3 m
  recovery ← optional_field json_int "recovery_confirmations" 2 m
  accepted (
      construct check_external (record {
        tcp_host = tcp_host;
        tcp_port = tcp_port;
        timeout_seconds = timeout;
        down_confirmations = down;
        recovery_confirmations = recovery;
      }))

unfoldable pub parse_thresholds : Json → Result Thresholds
parse_thresholds value = do
  m ← json_object value
  require_known_keys [] thresholds_fields m
  cpu ← optional_field json_number "cpu_percent" default_thresholds.cpu_percent m
  ram ← optional_field json_number "ram_percent" default_thresholds.ram_percent m
  swap ← optional_field json_number "swap_percent" default_thresholds.swap_percent m
  disk ← optional_field json_number "disk_percent" default_thresholds.disk_percent m
  inode ← optional_field json_number "inode_percent" default_thresholds.inode_percent m
  load ← optional_field number_or_null "load5_max" none m
  accepted (
      construct check_thresholds (record {
        cpu_percent = cpu;
        ram_percent = ram;
        swap_percent = swap;
        disk_percent = disk;
        inode_percent = inode;
        load5_max = load;
      }))

unfoldable pub parse_strings : Elements → Result (List String)
parse_strings nil = ok []
parse_strings (cons x xs) = do s ← json_string x; rest ← parse_strings xs; ok (s ∷ rest)

unfoldable pub parse_services : Json → Result (List String)
unfolding parse_strings
parse_services value = json_array value >>= parse_strings

unfoldable pub parse_host : Json → Result HostConfig
parse_host value = do
  m ← json_object value
  require_known_keys host_required_fields host_optional_fields m
  raw_name ← get "name" m
  name ← json_string raw_name
  raw_heartbeat ← get "heartbeat" m
  heartbeat ← parse_heartbeat raw_heartbeat
  raw_external ← get "external" m
  external ← parse_external raw_external
  thresholds ← optional_field parse_thresholds "thresholds" default_thresholds m
  services ← optional_field parse_services "services" [] m
  accepted (
      construct check_host (record {
        name = name;
        heartbeat = heartbeat;
        external = external;
        thresholds = thresholds;
        services = services;
      }))

-- the entries of the host array
unfoldable pub parse_hosts : Elements → Result (List HostConfig)
unfolding parse_host
parse_hosts nil = ok []
parse_hosts (cons x xs) = do host ← parse_host x; hosts ← parse_hosts xs; ok (host ∷ hosts)
