-- ===== src/Monitoring/Cycle.antt =====
-- What a completed cycle of src/hermes_sentinel/monitoring.py returns, remembers and sends.
use hermes_sentinel.Base.{
  ◌≡◌, refl, sym, ap, subst, ◌∙◌, append_assoc, append-nil, String, Bool, true, false, not, ◌&&◌,
  List, [], ◌∷◌, ◌++◌, some, str_eq, eq_iff, arith, Bool-cases, inl, inr,
}
use hermes_sentinel.Result.{Result, ok}
use hermes_sentinel.Config.{SentinelConfig, HostConfig, occurs, distinct, names}
use hermes_sentinel.Health.{Seconds}
use hermes_sentinel.Engine.{Memory, recall, EngineEnv}
use hermes_sentinel.Engine.Evaluation.{crossing}
use hermes_sentinel.Incidents.{Incident}
use hermes_sentinel.Incidents.Events.{event_of, one, notify_transition-event}
use hermes_sentinel.Monitoring.{HostMonitoringResult, MonitorState, run_hosts, run}
use hermes_sentinel.Monitoring.Passes.{
  neither, evaluate_host-Committed, run_hosts-First, run_hosts-other,
}

-- One host's part of a completed cycle between two memories.
abbrev Outcome : (String → EngineEnv) → Memory → Memory → HostConfig → HostMonitoringResult → Type 0
Outcome env m after c r =
    (r.evaluation.host ≡ c.name)
    × (r.evaluation.transition
        ≡ crossing c.name (recall c.name m) r.evaluation.resolution (env c.name).now)
    × (r.incident ≡ event_of r.evaluation.transition)
    × (recall c.name after ≡ some r.evaluation.resolution)

abbrev pub Outcomes :
    (String → EngineEnv) → Memory → Memory → List HostConfig → List HostMonitoringResult → Type 0
Outcomes env m after [] [] = Unit
Outcomes env m after (c ∷ cs) (r ∷ rs) = Outcome env m after c r × Outcomes env m after cs rs
Outcomes env m after _ _ = true ≡ false

abbrev pub incidents : List HostMonitoringResult → List Incident
incidents [] = []
incidents (r ∷ rs) = one r.incident ++ incidents rs

str_eq_sym : (a b : String) → str_eq a b ≡ false → str_eq b a ≡ false
str_eq_sym a b h =
    let there : str_eq b a ≡ true → b ≡ a = (eq_iff b a).0 in
    let back : a ≡ b → str_eq a b ≡ true = (eq_iff a b).1 in
    elim (Bool-cases (str_eq b a)) [ inl g ↦ (let e = back (sym (there g)) in cc) | inr g ↦ g ]

-- an earlier memory that agrees on the hosts
Outcomes-earlier :
    (env : String → EngineEnv) (m n after : Memory) (name : String) (cs : List HostConfig)
    (rs : List HostMonitoringResult)
    → occurs name (names cs) ≡ false
    → ((other : String) → str_eq name other ≡ false → recall other n ≡ recall other m)
    → Outcomes env n after cs rs
    → Outcomes env m after cs rs
Outcomes-earlier env m n after name [] [] d k o = tt
Outcomes-earlier env m n after name [] (r ∷ rs) d k o = o
Outcomes-earlier env m n after name (c ∷ cs) [] d k o = o
Outcomes-earlier env m n after name (c ∷ cs) (r ∷ rs) d k (o, os) =
    let (here, there) = neither (str_eq c.name name) (occurs name (names cs)) d in
    let same = k c.name (str_eq_sym c.name name here) in
    (
      (
        o.0,
        subst
            (λ x.
              r.evaluation.transition ≡ crossing c.name x r.evaluation.resolution (env c.name).now)
            same o.1,
        o.2,
        o.3,
      ),
      Outcomes-earlier env m n after name cs rs there k os,
    )

fresh_name : (a b : Bool) → (not a && b) ≡ true → (a ≡ false) × (b ≡ true)
fresh_name a b h = ground arith

module _ (seconds : Seconds) (config : SentinelConfig) (env : String → EngineEnv)
    (send : Incident → Result (Unit {0})) where
  run_hosts-Outcomes :
      (cs : List HostConfig) (s : MonitorState) (rs : List HostMonitoringResult) (t : MonitorState)
      → distinct (names cs) ≡ true
      → run_hosts seconds config env send cs s ≡ (ok rs, t)
      → Outcomes env s.memory t.memory cs rs × (t.sent ≡ s.sent ++ incidents rs)
  unfolding run_hosts
  run_hosts-Outcomes [] s rs t d h =
      let none_left : [] ≡ rs = cc in
      let same : s ≡ t = cc in
      (
        subst (λ x. Outcomes env s.memory t.memory [] x) none_left tt,
        subst (λ x. t.sent ≡ s.sent ++ incidents x) none_left
            (sym (ap (λ x. x.sent) same) ∙ sym (append-nil s.sent)),
      )
  run_hosts-Outcomes (c ∷ cs) s rs t d h =
      let f = run_hosts-First seconds config env send c cs s rs t h in
      let (new, apart) = fresh_name (occurs c.name (names cs)) (distinct (names cs)) d in
      let first =
        evaluate_host-Committed seconds config (env c.name) c.name s.memory f.e f.middle.memory
          f.evaluated in
      let (outcomes, sent) = run_hosts-Outcomes cs f.middle f.later t apart f.continued in
      let kept =
        run_hosts-other seconds config env send cs f.middle f.later t c.name new f.continued in
      let event = event_of f.e.transition in
      let told =
        (notify_transition-event send f.e.transition s.sent event (ap (λ x. x.0) f.notified)).1 in
      let r : HostMonitoringResult = record { evaluation = f.e; incident = event } in
      (
        subst (λ x. Outcomes env s.memory t.memory (c ∷ cs) x) (sym f.all)
            (
              (first.host, first.transition, refl, kept ∙ first.remembered),
              Outcomes-earlier env s.memory f.middle.memory t.memory c.name cs f.later new
                  first.others outcomes,
            ),
        subst (λ x. t.sent ≡ s.sent ++ incidents x) (sym f.all)
            (sent
              ∙ ap (λ x. x ++ incidents f.later) (sym (ap (λ x. x.1) f.notified) ∙ told)
              ∙ append_assoc s.sent (one event) (incidents f.later)),
      )

-- When a cycle over hosts of distinct names returns, it has one result for each configured host, in
-- that order: its evaluation is of that host, with the transition between the host's resolution
-- before the cycle and its new one when exactly one of them is DOWN and none otherwise; the result's
-- incident is that transition's; the new resolution is remembered; and the sender was called for
-- exactly the incidents of the results, in order.
pub run-Outcomes :
    (seconds : Seconds) (config : SentinelConfig) (env : String → EngineEnv)
    (send : Incident → Result (Unit {0})) (s : MonitorState) (rs : List HostMonitoringResult)
    (t : MonitorState)
    → distinct (names config.hosts) ≡ true
    → run seconds config env send s ≡ (ok rs, t)
    → Outcomes env s.memory t.memory config.hosts rs × (t.sent ≡ s.sent ++ incidents rs)
unfolding run
run-Outcomes seconds config env send s rs t d h =
    run_hosts-Outcomes seconds config env send config.hosts s rs t d h
