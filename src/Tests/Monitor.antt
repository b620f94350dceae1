-- ===== src/Tests/Monitor.antt =====
-- One monitored host that goes down, and a heartbeat of it.
use hermes_sentinel.Base.{◌≡◌, ◌⊎◌, refl, List, [], ◌∷◌, ◌++◌, true, false, none, some, arith}
use hermes_sentinel.Result.{Result, Error, ok, err, value_error}
use hermes_sentinel.Float.{finite}
use hermes_sentinel.Domain.{degraded, down, HostTelemetry, ResourceUsage, HostTransition}
use hermes_sentinel.Config.{
  ExternalCheckSettings, Thresholds, HostConfig, SentinelConfig, find_host, host,
}
use hermes_sentinel.Health.Aging.{is_consistent, Older, Decays, evaluate_heartbeat_freshness_aging}
use hermes_sentinel.Health.{
  HeartbeatFreshnessResult, missing, fresh, stale, cpu, ResourceAssessment, reachable, unreachable,
  os_error, evaluate_heartbeat_freshness, evaluate_resource_thresholds, reports, in_order,
  no_duplicates,
}
use hermes_sentinel.Health.Signals.{
  exceeds, observed, threshold, evaluate_resource_thresholds-reports,
}
use hermes_sentinel.Resolver.{HostStateResolution, base_state, is_down_observation}
use hermes_sentinel.Resolver.Hysteresis.{Evidence, resolved, resolved-host_state}
use hermes_sentinel.Incidents.{
  Incident, IncidentKind, notify_transition, deliver, incident_from_transition, create_incident,
  check_incident,
}
use hermes_sentinel.Incidents.Events.{event_of, one, notify_transition-event}
use hermes_sentinel.Ingestion.{HeartbeatRecord, IngestEnv, ingest}
use hermes_sentinel.Ingestion.Accepts.{is_acceptable, Stored, Refused, ingest_cases}
use hermes_sentinel.Engine.{HostHealthEvaluation, Memory, recall, EngineEnv, evaluate_host}
use hermes_sentinel.Engine.Evaluation.{crossing, evaluate_host-commits}
use hermes_sentinel.Monitoring.{HostMonitoringResult, MonitorState, run}
use hermes_sentinel.Monitoring.Cycle.{Outcomes, incidents, run-Outcomes}
use hermes_sentinel.Monitoring.Completes.{run_total}
use hermes_sentinel.Tests.Samples.{at, sample_seconds}

abbrev pub external : ExternalCheckSettings
external = record {
  tcp_host = "node.example";
  tcp_port = 22;
  timeout_seconds = finite 5;
  down_confirmations = 2;
  recovery_confirmations = 2;
}

abbrev pub limits : Thresholds
limits = record {
  cpu_percent = finite 90;
  ram_percent = finite 90;
  swap_percent = finite 90;
  disk_percent = finite 90;
  inode_percent = finite 90;
  load5_max = some (finite 4);
}

abbrev pub node : HostConfig
node = record {
  name = "node";
  heartbeat = record { expected_interval_seconds = finite 60; stale_after_seconds = finite 180 };
  external = external;
  thresholds = limits;
  services = [];
}

abbrev pub config : SentinelConfig
config = record { hosts = node ∷ [] }

abbrev half : ResourceUsage
half = record { used = finite 5; total = finite 10; percent = finite 50 }

abbrev telemetry : HostTelemetry
telemetry = record {
  host = "node";
  timestamp = at 900;
  uptime_seconds = finite 5000;
  load = record { one = finite 1; five = finite 5; fifteen = finite 1 };
  cpu_percent = finite 95;
  ram = half;
  swap = half;
  root_filesystem = half;
  root_inodes = half;
}

abbrev heartbeat : HeartbeatRecord
heartbeat = record { telemetry = telemetry; received_at = at 901 }

-- the heartbeat is lost, and TCP refuses the connection
abbrev lost : EngineEnv
lost = record { now = at 2000; latest = ok (some heartbeat); connection = os_error }

abbrev one_failure : HostStateResolution
one_failure = record { state = degraded; down_failures = 1; recovery_successes = 0 }

abbrev memory : Memory
memory = ("node", one_failure) ∷ []

abbrev before_cycle : MonitorState
before_cycle = record { memory = memory; sent = [] }

abbrev loss : Evidence
loss = record {
  freshness = missing;
  resources = record { breaches = [] };
  reachability = unreachable;
}

abbrev contact : Evidence
contact = record {
  freshness = fresh;
  resources = record { breaches = [] };
  reachability = reachable;
}

resolved-host_state_example :
    (r : HostStateResolution) × (resolved external (contact ∷ loss ∷ loss ∷ []) ≡ ok (some r))
    × (r.state ≡ down)
unfolding base_state is_down_observation
resolved-host_state_example =
    resolved-host_state external (omega arith) (omega arith) contact (loss ∷ loss ∷ [])

evaluate_host-commits_example :
    let x = evaluate_host sample_seconds config lost "node" memory in
    ((e : HostHealthEvaluation) × (x.0 ≡ ok e)
      × (e.host ≡ "node")
      × (e.evaluated_at ≡ at 2000)
      × (e.transition ≡ crossing "node" (some one_failure) e.resolution (at 2000))
      × (recall "node" x.1 ≡ some e.resolution)
      × (recall "other" x.1 ≡ none))
    ⊎ ((e : Error) × (x.0 ≡ err e) × (x.1 ≡ memory))
unfolding recall
evaluate_host-commits_example =
    evaluate_host-commits sample_seconds config lost "node" memory "other" refl

node_is_known : host config "node" ≡ some node
unfolding host find_host
node_is_known = refl

abbrev accepting : Incident → Result (Unit {0})
accepting i = ok tt

run_total_example :
    (rs : List HostMonitoringResult) × (t : MonitorState) × (run sample_seconds config
        (λ name. lost)
        accepting
        before_cycle
      ≡ (ok rs, t))
run_total_example =
    run_total sample_seconds config (λ name. lost) accepting (λ i. refl)
      ((refl, some heartbeat, refl, refl), tt) before_cycle

cycle_ran :
    (rs : List HostMonitoringResult) × (t : MonitorState) × (run sample_seconds config
        (λ name. lost)
        accepting
        before_cycle
      ≡ (ok rs, t))
cycle_ran =
    run_total sample_seconds config (λ name. lost) accepting (λ i. refl)
      ((refl, some heartbeat, refl, refl), tt) before_cycle

run-Outcomes_example :
    Outcomes (λ name. lost) memory cycle_ran.1.memory config.hosts cycle_ran.0
    × (cycle_ran.1.sent ≡ [] ++ incidents cycle_ran.0)
run-Outcomes_example =
    run-Outcomes sample_seconds config (λ name. lost) accepting before_cycle cycle_ran.0 cycle_ran.1
      refl cycle_ran.2

abbrev ingest_env : IngestEnv
ingest_env = record { strip = λ s. s; now = at 1000; insert = λ r. ok 7 }

ingest_cases_example :
    let x = ingest ingest_env config telemetry [] in
    ((is_acceptable ingest_env config telemetry ≡ true)
      × Stored ingest_env telemetry [] x.0 x.1 (ok 7))
    ⊎ ((is_acceptable ingest_env config telemetry ≡ false) × Refused [] x.0 x.1)
ingest_cases_example = ingest_cases ingest_env config telemetry []

abbrev gone_down : HostTransition
gone_down = record { host = "node"; from_state = degraded; to_state = down; at = at 2000 }

abbrev down_incident : Incident
down_incident = record { kind = IncidentKind.down; transition = gone_down }

sent_quietly : (notify_transition accepting (some gone_down) []).0 ≡ ok (some down_incident)
unfolding notify_transition deliver incident_from_transition create_incident check_incident
sent_quietly = refl

notify_transition-event_example :
    (some down_incident ≡ event_of (some gone_down))
    × ((notify_transition accepting (some gone_down) []).1 ≡ [] ++ one (event_of (some gone_down)))
notify_transition-event_example =
    notify_transition-event accepting (some gone_down) [] (some down_incident) sent_quietly

evaluate_resource_thresholds-reports_example :
    (a : ResourceAssessment) × (evaluate_resource_thresholds telemetry limits ≡ ok a)
    × (reports cpu a.breaches ≡ exceeds (observed cpu telemetry) (threshold cpu limits))
    × (in_order a.breaches ≡ true)
    × (no_duplicates a.breaches ≡ true)
evaluate_resource_thresholds-reports_example =
    evaluate_resource_thresholds-reports telemetry limits cpu

abbrev judged : HeartbeatFreshnessResult
judged = record { status = stale; age_seconds = some (finite 1099) }

judged_stale :
    evaluate_heartbeat_freshness sample_seconds (at 2000) (some (at 901)) node.heartbeat ≡ ok judged
unfolding evaluate_heartbeat_freshness
judged_stale = refl

evaluate_heartbeat_freshness_aging_example :
    ((is_consistent (at 901) (at 2000) ≡ false)
      × (evaluate_heartbeat_freshness sample_seconds (at 2000) (some (at 901)) node.heartbeat
          ≡ err value_error))
    ⊎ ((is_consistent (at 901) (at 2000) ≡ true)
        × (r : HeartbeatFreshnessResult) × (s : HeartbeatFreshnessResult)
        × (evaluate_heartbeat_freshness sample_seconds (at 2000) (some (at 901)) node.heartbeat
            ≡ ok r)
        × (evaluate_heartbeat_freshness sample_seconds (at 2500) (some (at 901)) node.heartbeat
            ≡ ok s)
        × Older r.age_seconds s.age_seconds
        × Decays r.status s.status)
evaluate_heartbeat_freshness_aging_example =
    evaluate_heartbeat_freshness_aging sample_seconds (at 901) node.heartbeat (at 2000) (at 2500)
      refl (omega arith)
