-- ===== src/Config.antt =====
-- The configuration shapes of src/hermes_sentinel/config.py with their `__post_init__` checks, and
-- the lookup of a host.
use hermes_sentinel.Base.{
  ℕ, String, Bool, true, false, not, ◌&&◌, ◌||◌, List, [], ◌∷◌, Option, none, some, leb, str_eq,
  if◌then◌else◌,
}
use hermes_sentinel.Result.{Result, ok, value_error, guard, ◌>>◌}
use hermes_sentinel.Float.{Float, le, lt, is_finite, zero_float, hundred}
use hermes_sentinel.Domain.{require_non_empty}

-- `_require_positive`, `_require_percent` and `_require_positive_int` of config.py
unfoldable pub require_positive : Float → Result (Unit {0})
require_positive v = do guard (is_finite v) value_error; guard (not (le v zero_float)) value_error

unfoldable pub require_threshold : Float → Result (Unit {0})
require_threshold v = do
  guard (is_finite v) value_error
  guard (lt zero_float v && le v hundred) value_error

unfoldable pub require_positive_int : ℕ → Result (Unit {0})
require_positive_int n = guard (leb 1 n) value_error

pub record HeartbeatSettings : Type 0 where
  pub expected_interval_seconds : Float
  pub stale_after_seconds : Float

unfoldable pub check_heartbeat : HeartbeatSettings → Result (Unit {0})
check_heartbeat h = do
  require_positive h.expected_interval_seconds
  require_positive h.stale_after_seconds

pub record ExternalCheckSettings : Type 0 where
  pub tcp_host : String
  pub tcp_port : ℕ
  pub timeout_seconds : Float
  pub down_confirmations : ℕ
  pub recovery_confirmations : ℕ

unfoldable pub check_external : ExternalCheckSettings → Result (Unit {0})
check_external e = do
  require_non_empty e.tcp_host
  guard (leb 1 e.tcp_port && leb e.tcp_port 65535) value_error
  require_positive e.timeout_seconds
  require_positive_int e.down_confirmations
  require_positive_int e.recovery_confirmations

pub record Thresholds : Type 0 where
  pub cpu_percent : Float
  pub ram_percent : Float
  pub swap_percent : Float
  pub disk_percent : Float
  pub inode_percent : Float
  pub load5_max : Option Float

unfoldable pub check_thresholds : Thresholds → Result (Unit {0})
check_thresholds t = do
  require_threshold t.cpu_percent
  require_threshold t.ram_percent
  require_threshold t.swap_percent
  require_threshold t.disk_percent
  require_threshold t.inode_percent
  elim t.load5_max [ none ↦ ok tt | some limit ↦ require_positive limit ]

pub record HostConfig : Type 0 where
  pub name : String
  pub heartbeat : HeartbeatSettings
  pub external : ExternalCheckSettings
  pub thresholds : Thresholds
  pub services : List String

abbrev pub occurs : String → List String → Bool
occurs s [] = false
occurs s (t ∷ ts) = str_eq t s || occurs s ts

-- `len(set(names)) == len(names)`
abbrev pub distinct : List String → Bool
distinct [] = true
distinct (s ∷ ss) = not (occurs s ss) && distinct ss

abbrev pub all_non_empty : List String → Result (Unit {0})
all_non_empty [] = ok tt
all_non_empty (s ∷ ss) = require_non_empty s >> all_non_empty ss

unfoldable pub check_host : HostConfig → Result (Unit {0})
check_host h = do
  require_non_empty h.name
  all_non_empty h.services
  guard (distinct h.services) value_error

pub record SentinelConfig : Type 0 where
  pub hosts : List HostConfig

abbrev pub names : List HostConfig → List String
names [] = []
names (h ∷ hs) = h.name ∷ names hs

unfoldable pub check_sentinel : SentinelConfig → Result (Unit {0})
check_sentinel c = guard (distinct (names c.hosts)) value_error

unfoldable pub find_host : String → List HostConfig → Option HostConfig
find_host name [] = none
find_host name (h ∷ hs) = if str_eq h.name name then some h else find_host name hs

-- `SentinelConfig.host`
unfoldable pub host : SentinelConfig → String → Option HostConfig
unfolding find_host
host c name = find_host name c.hosts
