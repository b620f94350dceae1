-- ===== src/Monitoring/Passes.antt =====
-- The steps of a pass of src/hermes_sentinel/monitoring.py that reaches its end.
use hermes_sentinel.Base.{
  ◌≡◌, refl, ap, subst, ◌∙◌, String, Bool, false, ◌||◌, List, [], ◌∷◌, Option, some, str_eq, arith,
  inl, inr,
}
use hermes_sentinel.Result.{Result, ok, err}
use hermes_sentinel.DateTime.{DateTime}
use hermes_sentinel.Config.{SentinelConfig, HostConfig, occurs, names}
use hermes_sentinel.Health.{Seconds}
use hermes_sentinel.Engine.{HostHealthEvaluation, Memory, recall, EngineEnv, evaluate_host}
use hermes_sentinel.Engine.Evaluation.{crossing, evaluate_host_cases}
use hermes_sentinel.Incidents.{Incident, Sent, notify_transition}
use hermes_sentinel.Incidents.Events.{event_of, notify_transition-event}
use hermes_sentinel.Monitoring.{
  HostMonitoringResult, MonitorState, Run, with_results, with_incident, with_evaluation, run_hosts,
}

pub neither : (a b : Bool) → (a || b) ≡ false → (a ≡ false) × (b ≡ false)
neither a b h = ground arith

pub record Committed (name : String) (now : DateTime) (m : Memory) (e : HostHealthEvaluation)
    (after : Memory) : Type 0 where
  pub host : e.host ≡ name
  pub transition : e.transition ≡ crossing name (recall name m) e.resolution now
  pub remembered : recall name after ≡ some e.resolution
  pub others : (other : String) → str_eq name other ≡ false → recall other after ≡ recall other m

pub evaluate_host-Committed :
    (seconds : Seconds) (config : SentinelConfig) (env : EngineEnv) (name : String) (m : Memory)
    (e : HostHealthEvaluation) (after : Memory)
    → evaluate_host seconds config env name m ≡ (ok e, after)
    → Committed name env.now m e after
evaluate_host-Committed seconds config env name m e after h =
    elim (evaluate_host_cases seconds config env name m) [
      | inl (f, a, b, c, d, g, k) ↦
          let same : f ≡ e = cc in
          let moved = ap (λ x. x.1) h in
          subst (λ x. Committed name env.now m x after) same
            (record {
              host = b;
              transition = d;
              remembered = subst (λ x. recall name x ≡ some f.resolution) moved g;
              others = λ other o. subst (λ x. recall other x ≡ recall other m) moved (k other o);
            })
      | inr (x, a, b) ↦ cc
    ]

module _ (seconds : Seconds) (config : SentinelConfig) (env : String → EngineEnv)
    (send : Incident → Result (Unit {0})) where
  -- the first host of a cycle that completes
  pub record First (c : HostConfig) (cs : List HostConfig) (s : MonitorState)
      (rs : List HostMonitoringResult) (t : MonitorState) : Type 0 where
    pub e : HostHealthEvaluation
    pub middle : MonitorState
    pub later : List HostMonitoringResult
    pub evaluated :
        evaluate_host seconds config (env c.name) c.name s.memory ≡ (ok e, middle.memory)
    pub notified :
        notify_transition send e.transition s.sent ≡ (ok (event_of e.transition), middle.sent)
    pub continued : run_hosts seconds config env send cs middle ≡ (ok later, t)
    pub all : rs ≡ record { evaluation = e; incident = event_of e.transition } ∷ later

  with_results-ok :
      (r : HostMonitoringResult) (x : Run) (rs : List HostMonitoringResult) (t : MonitorState)
      → with_results r x ≡ (ok rs, t)
      → (later : List HostMonitoringResult) × (x ≡ (ok later, t)) × (rs ≡ r ∷ later)
  unfolding with_results
  with_results-ok r (ok later, u) rs t h = ground arith
  with_results-ok r (err e, u) rs t h = cc

  with_incident-ok :
      (e : HostHealthEvaluation) (m : Memory) (n : Result (Option Incident) × Sent)
      (rest : MonitorState → Run) (rs : List HostMonitoringResult) (t : MonitorState)
      → with_incident e m n rest ≡ (ok rs, t)
      → (i : Option Incident) × (n.0 ≡ ok i)
        × (later : List HostMonitoringResult) × (rest (record { memory = m; sent = n.1 })
            ≡ (ok later, t))
        × (rs ≡ record { evaluation = e; incident = i } ∷ later)
  unfolding with_incident
  with_incident-ok e m (err x, sent) rest rs t h = cc
  with_incident-ok e m (ok i, sent) rest rs t h =
      let (later, a, b) =
        with_results-ok (record { evaluation = e; incident = i })
          (rest (record { memory = m; sent = sent })) rs t h in
      (i, refl, later, a, b)

  with_evaluation-ok :
      (x : Result HostHealthEvaluation × Memory) (sent : Sent) (rest : MonitorState → Run)
      (rs : List HostMonitoringResult) (t : MonitorState)
      → with_evaluation seconds config env send x sent rest ≡ (ok rs, t)
      → (e : HostHealthEvaluation) × (x.0 ≡ ok e)
        × (with_incident e x.1 (notify_transition send e.transition sent) rest ≡ (ok rs, t))
  unfolding with_evaluation
  with_evaluation-ok (err x, m) sent rest rs t h = cc
  with_evaluation-ok (ok e, m) sent rest rs t h = (e, refl, h)

  pub run_hosts-First :
      (c : HostConfig) (cs : List HostConfig) (s : MonitorState) (rs : List HostMonitoringResult)
      (t : MonitorState)
      → run_hosts seconds config env send (c ∷ cs) s ≡ (ok rs, t)
      → First c cs s rs t
  unfolding run_hosts
  run_hosts-First c cs s rs t h =
      let x = evaluate_host seconds config (env c.name) c.name s.memory in
      let (e, e1, h1) = with_evaluation-ok x s.sent _ rs t h in
      let n = notify_transition send e.transition s.sent in
      let (i, e2, later, e3, e4) = with_incident-ok e x.1 n _ rs t h1 in
      let (same, sent) = notify_transition-event send e.transition s.sent i e2 in
      record {
        e = e;
        middle = record { memory = x.1; sent = n.1 };
        later = later;
        evaluated = cc;
        notified = cc;
        continued = e3;
        all = cc;
      }

  pub run_hosts-other :
      (cs : List HostConfig) (s : MonitorState) (rs : List HostMonitoringResult) (t : MonitorState)
      (key : String)
      → occurs key (names cs) ≡ false
      → run_hosts seconds config env send cs s ≡ (ok rs, t)
      → recall key t.memory ≡ recall key s.memory
  unfolding run_hosts
  run_hosts-other [] s rs t key d h = let same : s ≡ t = cc in rw same refl
  run_hosts-other (c ∷ cs) s rs t key d h =
      let f = run_hosts-First c cs s rs t h in
      let (here, there) = neither (str_eq c.name key) (occurs key (names cs)) d in
      let first =
        evaluate_host-Committed seconds config (env c.name) c.name s.memory f.e f.middle.memory
          f.evaluated in
      run_hosts-other cs f.middle f.later t key there f.continued ∙ first.others key here
