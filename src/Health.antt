-- ===== src/Health.antt =====
-- The health signals of src/hermes_sentinel/health.py and the probe of
-- src/hermes_sentinel/reachability.py. `timedelta.total_seconds` is a parameter; what
-- `socket.create_connection` does is an argument.
pub mod Signals
pub mod Aging
use hermes_sentinel.Base.{
  ℕ, ◌-◌, ◌≤◌, ◌≡◌, Bool, true, false, not, ◌&&◌, ◌||◌, List, [], ◌∷◌, ◌++◌, map, Option, none,
  some, ltb, leb, ◌==◌, if◌then◌else◌,
}
use hermes_sentinel.Result.{
  Result, ok, err, Error, value_error, probe_defect, guard, construct, ◌>>=◌, ◌>>◌,
}
use hermes_sentinel.DateTime.{DateTime, is_aware, before}
use hermes_sentinel.Float.{Float, le, lt, is_finite, zero_float}
use hermes_sentinel.Domain.{HostTelemetry}
use hermes_sentinel.Config.{HeartbeatSettings, Thresholds}

pub data HeartbeatFreshness : Type 0 where
  missing fresh stale : HeartbeatFreshness

pub data ResourceMetric : Type 0 where
  cpu ram swap disk inodes load5 : ResourceMetric

-- the place in `_CANONICAL_METRIC_ORDER`
abbrev pub rank : ResourceMetric → ℕ
rank cpu = 0
rank ram = 1
rank swap = 2
rank disk = 3
rank inodes = 4
rank load5 = 5

pub record HeartbeatFreshnessResult : Type 0 where
  pub status : HeartbeatFreshness
  pub age_seconds : Option Float

abbrev check_age : HeartbeatFreshness → Option Float → Result (Unit {0})
check_age missing none = ok tt
check_age missing (some age) = err value_error
check_age _ none = err value_error
check_age _ (some age) = do
  guard (is_finite age) value_error
  guard (not (lt age zero_float)) value_error

unfoldable pub create_freshness :
    HeartbeatFreshness → Option Float → Result HeartbeatFreshnessResult
create_freshness status age =
    construct (λ r. check_age r.status r.age_seconds)
      (record { status = status; age_seconds = age })

pub record ResourceAssessment : Type 0 where
  pub breaches : List ResourceMetric

-- `positions == sorted(positions)`: no place is above the next one
abbrev pub in_order : List ResourceMetric → Bool
in_order [] = true
in_order (m ∷ []) = true
in_order (m ∷ n ∷ ms) = leb (rank m) (rank n) && in_order (n ∷ ms)

abbrev pub reports : ResourceMetric → List ResourceMetric → Bool
reports m [] = false
reports m (n ∷ ns) = rank n == rank m || reports m ns

-- `len(set(positions)) == len(positions)`
abbrev pub no_duplicates : List ResourceMetric → Bool
no_duplicates [] = true
no_duplicates (m ∷ ms) = not (reports m ms) && no_duplicates ms

unfoldable pub create_assessment : List ResourceMetric → Result ResourceAssessment
create_assessment breaches =
    construct
      (λ a. guard (in_order a.breaches) value_error >> guard (no_duplicates a.breaches) value_error)
      (record { breaches = breaches })

abbrev pub is_breached : ResourceAssessment → Bool
is_breached a = elim a.breaches [ [] ↦ false | _ ∷ _ ↦ true ]

-- `if value >= threshold: breaches.append(metric)`
abbrev pub breach : ResourceMetric → Float → Float → List ResourceMetric
breach metric value threshold = if le threshold value then metric ∷ [] else []

abbrev pub load_breach : Float → Option Float → List ResourceMetric
load_breach value none = []
load_breach value (some limit) = breach load5 value limit

unfoldable pub evaluate_resource_thresholds : HostTelemetry → Thresholds → Result ResourceAssessment
evaluate_resource_thresholds t h = create_assessment (
    breach cpu t.cpu_percent h.cpu_percent
    ++ (breach ram t.ram.percent h.ram_percent
        ++ (breach swap t.swap.percent h.swap_percent
            ++ (breach disk t.root_filesystem.percent h.disk_percent
                ++ (breach inodes t.root_inodes.percent h.inode_percent
                    ++ load_breach t.load.five h.load5_max)))))

unfoldable pub require_aware : DateTime → Result (Unit {0})
require_aware d = guard (is_aware d) value_error

-- `timedelta(microseconds=n).total_seconds()` of a non-negative duration
pub record Seconds : Type 0 where
  pub total_seconds : ℕ → Float
  pub total_seconds_finite : (n : ℕ) → is_finite (total_seconds n) ≡ true
  pub total_seconds_nonneg : (n : ℕ) → lt (total_seconds n) zero_float ≡ false
  pub total_seconds_mono : (m n : ℕ) → m ≤ n → le (total_seconds m) (total_seconds n) ≡ true

module _ (seconds : Seconds) where
  open seconds use {total_seconds}

  freshness_at : DateTime → Option DateTime → HeartbeatSettings → Result HeartbeatFreshnessResult
  freshness_at now none settings = create_freshness missing none
  freshness_at now (some latest) settings = do
    require_aware latest
    guard (not (before now latest)) value_error
    let age = total_seconds (now.instant - latest.instant)
    create_freshness (if le age settings.stale_after_seconds then fresh else stale) (some age)

  unfoldable pub evaluate_heartbeat_freshness :
      DateTime → Option DateTime → HeartbeatSettings → Result HeartbeatFreshnessResult
  unfolding freshness_at create_freshness require_aware
  evaluate_heartbeat_freshness now latest settings =
      require_aware now >> freshness_at now latest settings

pub data TcpReachability : Type 0 where
  reachable unreachable : TcpReachability

-- what `socket.create_connection` does: connect, raise an `OSError`, or raise anything else
pub data Connection : Type 0 where
  connected : Connection
  os_error : Connection
  defect : Connection

unfoldable pub probe_tcp_reachability : Connection → Result TcpReachability
probe_tcp_reachability connected = ok reachable
probe_tcp_reachability os_error = ok unreachable
probe_tcp_reachability defect = err probe_defect
