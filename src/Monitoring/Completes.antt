-- ===== src/Monitoring/Completes.antt =====
-- When a cycle of src/hermes_sentinel/monitoring.py returns.
use hermes_sentinel.Base.{
  ◌≡◌, refl, sym, ap, subst, ◌∙◌, append_assoc, String, true, false, List, [], ◌∷◌, ◌++◌, Option,
  none, some, str_eq, eq_iff, Bool-cases, inl, inr, All,
}
use hermes_sentinel.Result.{Result, ok}
use hermes_sentinel.Domain.{HostTransition}
use hermes_sentinel.Config.{SentinelConfig, HostConfig, find_host, host}
use hermes_sentinel.Health.{Seconds}
use hermes_sentinel.Ingestion.{HeartbeatRecord}
use hermes_sentinel.Engine.{HostHealthEvaluation, Memory, EngineEnv, evaluate_host}
use hermes_sentinel.Engine.Completes.{is_sound, evaluate_host_total}
use hermes_sentinel.Incidents.{Incident, Sent, deliver, notify_transition}
use hermes_sentinel.Incidents.Events.{incident_from_transition-event, event}
use hermes_sentinel.Monitoring.{
  HostMonitoringResult, MonitorState, Run, with_results, with_incident, with_evaluation, run_hosts,
  run,
}

-- a host with a name that is not empty, for which nothing outside goes wrong
abbrev pub Ready : (String → EngineEnv) → HostConfig → Type 0
Ready env c =
    (str_eq c.name "" ≡ false)
    × (latest : Option HeartbeatRecord) × ((env c.name).latest ≡ ok latest)
    × (is_sound (env c.name) latest ≡ true)

find_host-member :
    (before cs : List HostConfig) (c : HostConfig)
    → (found : HostConfig) × (find_host c.name (before ++ (c ∷ cs)) ≡ some found)
unfolding find_host
find_host-member [] cs c = (c, rw ((eq_iff c.name c.name).1 refl) refl)
find_host-member (b ∷ before) cs c = elim (Bool-cases (str_eq b.name c.name)) [
  | inl h ↦ (b, rw h refl)
  | inr h ↦ (let (found, e) = find_host-member before cs c in (found, rw h e))
]

module _ (send : Incident → Result (Unit {0})) (sends : (i : Incident) → send i ≡ ok tt) where
  deliver_total :
      (i : Option Incident) (sent : Sent)
      → (later : Sent) × (deliver send (ok i) sent ≡ (ok i, later))
  unfolding deliver
  deliver_total none sent = (_, refl)
  deliver_total (some i) sent = (sent ++ (i ∷ []), rw (sends i) refl)

  notify_total :
      (t : Option HostTransition) (sent : Sent)
      → (i : Option Incident) × (later : Sent) × (notify_transition send t sent ≡ (ok i, later))
  unfolding notify_transition
  notify_total none sent = (none, sent, refl)
  notify_total (some t) sent =
      let (later, e) = deliver_total (event t) sent in
      (event t, later, rw (incident_from_transition-event t) e)

module _ (seconds : Seconds) (config : SentinelConfig) (env : String → EngineEnv)
    (send : Incident → Result (Unit {0})) (sends : (i : Incident) → send i ≡ ok tt) where
  Returns : Run → Type 0
  Returns x = (rs : List HostMonitoringResult) × (t : MonitorState) × (x ≡ (ok rs, t))

  with_evaluation-Returns :
      (e : HostHealthEvaluation) (m : Memory) (sent : Sent) (rest : MonitorState → Run)
      → ((s : MonitorState) → Returns (rest s))
      → Returns (with_evaluation seconds config env send (ok e, m) sent rest)
  unfolding with_evaluation with_incident with_results Returns
  with_evaluation-Returns e m sent rest k =
      let (i, later, n) = notify_total send sends e.transition sent in
      let (rs, t, r) = k (record { memory = m; sent = later }) in
      (record { evaluation = e; incident = i } ∷ rs, t, rw (n, r) refl)

  run_hosts_total :
      (before cs : List HostConfig) (s : MonitorState)
      → config.hosts ≡ before ++ cs
      → All (Ready env) cs
      → Returns (run_hosts seconds config env send cs s)
  unfolding run_hosts Returns
  run_hosts_total before [] s h k = ([], s, refl)
  run_hosts_total before (c ∷ cs) s h ((named, latest, answers, sound), rest) =
      let (found, there) = find_host-member before cs c in
      let known = subst (λ x. find_host c.name x ≡ some found) (sym h) there in
      let x = evaluate_host seconds config (env c.name) c.name s.memory in
      let (e, ran) =
        evaluate_host_total seconds config (env c.name) c.name found latest s.memory
          (unfold host in known) named answers sound in
      let y : Result HostHealthEvaluation × Memory = (ok e, x.1) in
      let same : x ≡ y = ap (λ z. (z, x.1)) ran in
      subst
        (λ z. Returns (
          with_evaluation seconds config env send z s.sent
            (λ after. run_hosts seconds config env send cs after)))
        (sym same)
        (with_evaluation-Returns e x.1 s.sent (λ after. run_hosts seconds config env send cs after)
          (λ after.
            run_hosts_total (before ++ (c ∷ [])) cs after
              (h ∙ sym (append_assoc before (c ∷ []) cs)) rest))

-- When nothing outside goes wrong for any configured host and the sender never raises, a cycle
-- returns its results, whatever the memory.
pub run_total :
    (seconds : Seconds) (config : SentinelConfig) (env : String → EngineEnv)
    (send : Incident → Result (Unit {0}))
    → ((i : Incident) → send i ≡ ok tt)
    → All (Ready env) config.hosts
    → (s : MonitorState)
    → (rs : List HostMonitoringResult) × (t : MonitorState) × (run seconds config env send s
        ≡ (ok rs, t))
unfolding run Returns
run_total seconds config env send sends ready s =
    run_hosts_total seconds config env send sends [] config.hosts s refl ready
