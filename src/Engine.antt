-- ===== src/Engine.antt =====
-- The health engine of src/hermes_sentinel/health_engine.py. What the clock, the repository and TCP
-- answer during one evaluation is an argument; the memory of previous resolutions is the state.
pub mod Memory
pub mod Evaluation
pub mod Completes
use hermes_sentinel.Base.{
  ℕ, ◌-◌, String, Bool, true, false, not, ◌&&◌, ◌||◌, List, [], ◌∷◌, Option, none, some, str_eq,
  if◌then◌else◌,
}
use hermes_sentinel.Result.{
  Result, ok, err, value_error, unknown_host_error, invalid_clock_result_error, guard, construct,
  ◌>>=◌, ◌>>◌,
}
use hermes_sentinel.DateTime.{DateTime, is_aware}
use hermes_sentinel.Domain.{
  HostState, HostTransition, create_transition, is_down, require_non_empty,
}
use hermes_sentinel.Config.{SentinelConfig, HostConfig, Thresholds, host}
use hermes_sentinel.Health.{
  HeartbeatFreshnessResult, ResourceAssessment, TcpReachability, Connection, Seconds,
  evaluate_heartbeat_freshness, evaluate_resource_thresholds, probe_tcp_reachability,
}
use hermes_sentinel.Resolver.{HostStateResolution, resolve_host_state}
use hermes_sentinel.Ingestion.{HeartbeatRecord}

pub record HostHealthEvaluation : Type 0 where
  pub host : String
  pub evaluated_at : DateTime
  pub freshness : HeartbeatFreshnessResult
  pub resources : Option ResourceAssessment
  pub reachability : TcpReachability
  pub resolution : HostStateResolution
  pub transition : Option HostTransition

unfoldable pub check_evaluation : HostHealthEvaluation → Result (Unit {0})
check_evaluation e = do require_non_empty e.host; guard (is_aware e.evaluated_at) value_error

-- `_NEUTRAL_RESOURCES`
abbrev pub neutral_resources : ResourceAssessment
neutral_resources = record { breaches = [] }

abbrev pub or_neutral : Option ResourceAssessment → ResourceAssessment
or_neutral none = neutral_resources
or_neutral (some a) = a

abbrev pub received : Option HeartbeatRecord → Option DateTime
received none = none
received (some r) = some r.received_at

-- the public assessment: none without a heartbeat
unfoldable pub assess : Thresholds → Option HeartbeatRecord → Result (Option ResourceAssessment)
assess thresholds none = ok none
assess thresholds (some r) = do a ← evaluate_resource_thresholds r.telemetry thresholds; ok (some a)

abbrev pub entering_down : HostState → HostState → Bool
entering_down old new = not (is_down old) && is_down new

abbrev pub leaving_down : HostState → HostState → Bool
leaving_down old new = is_down old && not (is_down new)

-- `_build_transition`; a transition constructed and returned where the answer is an optional one
unfoldable pub build_transition :
    String
    → Option HostStateResolution
    → HostStateResolution
    → DateTime
    → Result (Option HostTransition)
build_transition name none resolution at = ok none
build_transition name (some previous) resolution at =
    if entering_down previous.state resolution.state || leaving_down previous.state resolution.state
    then (do
      t ← create_transition (record {
        host = name;
        from_state = previous.state;
        to_state = resolution.state;
        at = at;
      })
      ok (some t))
    else ok none

-- The remembered resolutions by host, a dict: storing replaces the entry of that host.
abbrev pub Memory : Type 0
Memory = List (String × HostStateResolution)

unfoldable pub recall : String → Memory → Option HostStateResolution
recall name [] = none
recall name ((n, r) ∷ m) = if str_eq n name then some r else recall name m

unfoldable pub remember : String → HostStateResolution → Memory → Memory
remember name r [] = (name, r) ∷ []
remember name r ((n, s) ∷ m) =
    let rest = remember name r m in if str_eq n name then (n, r) ∷ m else (n, s) ∷ rest

-- what the outside answers during one evaluation
pub record EngineEnv : Type 0 where
  pub now : DateTime
  pub latest : Result (Option HeartbeatRecord)
  pub connection : Connection

module _ (seconds : Seconds) (config : SentinelConfig) (env : EngineEnv) where
  -- the part of `evaluate_host` that has a host's settings and its latest heartbeat
  unfoldable pub evaluate_with :
      HostConfig
      → String
      → Option HostStateResolution
      → Option HeartbeatRecord
      → Result HostHealthEvaluation
  evaluate_with c name previous latest = do
    freshness ← evaluate_heartbeat_freshness seconds env.now (received latest) c.heartbeat
    resources ← assess c.thresholds latest
    reachability ← probe_tcp_reachability env.connection
    resolution ←
        resolve_host_state previous freshness.status (or_neutral resources) reachability c.external
    transition ← build_transition name previous resolution env.now
    construct check_evaluation (record {
      host = name;
      evaluated_at = env.now;
      freshness = freshness;
      resources = resources;
      reachability = reachability;
      resolution = resolution;
      transition = transition;
    })

  unfoldable pub evaluate_configured :
      Option HostConfig → String → Option HostStateResolution → Result HostHealthEvaluation
  evaluate_configured none name previous = err unknown_host_error
  evaluate_configured (some c) name previous = do
    guard (is_aware env.now) invalid_clock_result_error
    latest ← env.latest
    evaluate_with c name previous latest

  -- the commit point: the resolution is remembered only when the evaluation exists
  unfoldable pub commit :
      String → Result HostHealthEvaluation → Memory → Result HostHealthEvaluation × Memory
  commit name (err e) m = (err e, m)
  commit name (ok e) m = (ok e, remember name e.resolution m)

  -- `HealthEngine.evaluate_host`
  unfoldable pub evaluate_host : String → Memory → Result HostHealthEvaluation × Memory
  evaluate_host name m = commit name (evaluate_configured (host config name) name (recall name m)) m
