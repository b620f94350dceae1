-- ===== src/Monitoring.antt =====
-- The one-shot monitoring cycle of src/hermes_sentinel/monitoring.py. What the outside answers is an
-- argument by host name; the engine's memory and the sender's calls are the state.
pub mod Passes
pub mod Cycle
pub mod Completes
use hermes_sentinel.Base.{String, List, [], ◌∷◌, Option, none, some}
use hermes_sentinel.Result.{Result, ok, err}
use hermes_sentinel.Config.{SentinelConfig, HostConfig}
use hermes_sentinel.Health.{Seconds}
use hermes_sentinel.Engine.{HostHealthEvaluation, Memory, EngineEnv, evaluate_host}
use hermes_sentinel.Incidents.{Incident, Sent, notify_transition}

pub record HostMonitoringResult : Type 0 where
  pub evaluation : HostHealthEvaluation
  pub incident : Option Incident

pub record MonitorState : Type 0 where
  pub memory : Memory
  pub sent : Sent

abbrev pub Run : Type 0
Run = Result (List HostMonitoringResult) × MonitorState

-- `results.append(...)`, the results of the later hosts given
unfoldable pub with_results : HostMonitoringResult → Run → Run
with_results r (ok rs, s) = (ok (r ∷ rs), s)
with_results r (err e, s) = (err e, s)

unfoldable pub with_incident :
    HostHealthEvaluation → Memory → Result (Option Incident) × Sent → (MonitorState → Run) → Run
unfolding with_results
with_incident e m (err x, sent) rest = (err x, record { memory = m; sent = sent })
with_incident e m (ok i, sent) rest =
    with_results (record { evaluation = e; incident = i })
      (rest (record { memory = m; sent = sent }))

module _ (seconds : Seconds) (config : SentinelConfig) (env : String → EngineEnv)
    (send : Incident → Result (Unit {0})) where
  unfoldable pub with_evaluation :
      Result HostHealthEvaluation × Memory → Sent → (MonitorState → Run) → Run
  unfolding with_incident
  with_evaluation (err x, m) sent rest = (err x, record { memory = m; sent = sent })
  with_evaluation (ok e, m) sent rest =
      with_incident e m (notify_transition send e.transition sent) rest

  unfoldable pub run_hosts : List HostConfig → MonitorState → Run
  run_hosts [] s = (ok [], s)
  run_hosts (c ∷ cs) s =
      with_evaluation (evaluate_host seconds config (env c.name) c.name s.memory) s.sent
        (λ after. run_hosts cs after)

  -- `MonitoringCycle.run`
  unfoldable pub run : MonitorState → Run
  unfolding run_hosts
  run s = run_hosts config.hosts s
