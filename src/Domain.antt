-- ===== src/Domain.antt =====
-- The data shapes of src/hermes_sentinel/domain.py with their `__post_init__` checks. An empty text
-- is the only one that `_require_non_empty` refuses.
use hermes_sentinel.Base.{String, Bool, true, false, not, ◌&&◌, str_eq, if◌then◌else◌}
use hermes_sentinel.Result.{Result, value_error, guard, construct, ◌>>◌}
use hermes_sentinel.DateTime.{DateTime, has_tzinfo}
use hermes_sentinel.Float.{Float, le, lt, is_finite, zero_float, hundred}

-- `_require_non_negative` and `_require_percent`, with `_require_finite`
unfoldable pub require_non_negative : Float → Result (Unit {0})
require_non_negative v = do
  guard (is_finite v) value_error
  guard (not (lt v zero_float)) value_error

unfoldable pub require_percent : Float → Result (Unit {0})
require_percent v = do
  guard (is_finite v) value_error
  guard (le zero_float v && le v hundred) value_error

unfoldable pub require_non_empty : String → Result (Unit {0})
require_non_empty s = guard (not (str_eq s "")) value_error

pub data HostState : Type 0 where
  healthy degraded down : HostState

abbrev pub is_down : HostState → Bool
is_down down = true
is_down _ = false

pub record LoadAverage : Type 0 where
  pub one : Float
  pub five : Float
  pub fifteen : Float

unfoldable pub check_load : LoadAverage → Result (Unit {0})
check_load l = do
  require_non_negative l.one
  require_non_negative l.five
  require_non_negative l.fifteen

pub record ResourceUsage : Type 0 where
  pub used : Float
  pub total : Float
  pub percent : Float

-- `a == b` of two floats
abbrev equals : Float → Float → Bool
equals a b = le a b && le b a

unfoldable pub check_usage : ResourceUsage → Result (Unit {0})
check_usage r = do
  require_non_negative r.used
  require_non_negative r.total
  require_percent r.percent
  if equals r.total zero_float
      then (guard (equals r.used zero_float) value_error
          >> guard (equals r.percent zero_float) value_error)
      else guard (not (lt r.total r.used)) value_error

pub record HostTelemetry : Type 0 where
  pub host : String
  pub timestamp : DateTime
  pub uptime_seconds : Float
  pub load : LoadAverage
  pub cpu_percent : Float
  pub ram : ResourceUsage
  pub swap : ResourceUsage
  pub root_filesystem : ResourceUsage
  pub root_inodes : ResourceUsage

unfoldable pub check_telemetry : HostTelemetry → Result (Unit {0})
check_telemetry t = do
  require_non_empty t.host
  guard (has_tzinfo t.timestamp) value_error
  require_non_negative t.uptime_seconds
  require_percent t.cpu_percent

pub record HostTransition : Type 0 where
  pub host : String
  pub from_state : HostState
  pub to_state : HostState
  pub at : DateTime

abbrev pub same_state : HostState → HostState → Bool
same_state healthy healthy = true
same_state degraded degraded = true
same_state down down = true
same_state _ _ = false

unfoldable pub check_transition : HostTransition → Result (Unit {0})
check_transition t = do
  require_non_empty t.host
  guard (has_tzinfo t.at) value_error
  guard (not (same_state t.from_state t.to_state)) value_error

unfoldable pub create_transition : HostTransition → Result HostTransition
create_transition = construct check_transition

abbrev pub is_down_event : HostTransition → Bool
is_down_event t = is_down t.to_state

abbrev pub is_recovery_event : HostTransition → Bool
is_recovery_event t = is_down t.from_state && not (is_down t.to_state)
