-- ===== src/Engine/Completes.antt =====
-- When an evaluation of src/hermes_sentinel/health_engine.py returns.
use hermes_sentinel.Base.{
  ◌≡◌, refl, sym, subst, String, Bool, true, false, not, ◌&&◌, Option, none, some, str_eq, arith,
}
use hermes_sentinel.Result.{Result, ok, ◌>>=◌}
use hermes_sentinel.DateTime.{DateTime, is_aware, before}
use hermes_sentinel.Domain.{require_non_empty}
use hermes_sentinel.Config.{SentinelConfig, HostConfig, HeartbeatSettings, Thresholds, host}
use hermes_sentinel.Health.{
  Seconds, Connection, connected, os_error, defect, HeartbeatFreshnessResult, ResourceAssessment,
  TcpReachability, evaluate_heartbeat_freshness, probe_tcp_reachability, cpu,
}
use hermes_sentinel.Health.Signals.{
  all_three, evaluate_resource_thresholds-reports, evaluate_heartbeat_freshness_cases,
}
use hermes_sentinel.Resolver.{HostStateResolution}
use hermes_sentinel.Resolver.Total.{resolve_total}
use hermes_sentinel.Ingestion.{HeartbeatRecord}
use hermes_sentinel.Engine.{
  HostHealthEvaluation, check_evaluation, Memory, recall, EngineEnv, received, assess, or_neutral,
  evaluate_with, evaluate_configured, commit, evaluate_host,
}
use hermes_sentinel.Engine.Evaluation.{crossing, build_transition_total}

abbrev connects : Connection → Bool
connects defect = false
connects _ = true

-- a stored heartbeat, if there is one, that was received at an aware time, not after `now`
abbrev is_past : DateTime → Option DateTime → Bool
is_past now none = true
is_past now (some at) = is_aware at && not (before now at)

-- what the outside answers when nothing goes wrong
abbrev pub is_sound : EngineEnv → Option HeartbeatRecord → Bool
is_sound env latest =
    is_aware env.now && is_past env.now (received latest) && connects env.connection

freshness_total :
    (seconds : Seconds) (now : DateTime) (at : Option DateTime) (c : HeartbeatSettings)
    → is_aware now ≡ true
    → is_past now at ≡ true
    → (f : HeartbeatFreshnessResult) × (evaluate_heartbeat_freshness seconds now at c ≡ ok f)
freshness_total seconds now none c a p =
    (_, (evaluate_heartbeat_freshness_cases seconds now now c a a (ground arith)).0)
freshness_total seconds now (some at) c a p =
    (_, (evaluate_heartbeat_freshness_cases seconds now at c a (ground arith) (ground arith)).1)

assess_total :
    (c : Thresholds) (latest : Option HeartbeatRecord)
    → (a : Option ResourceAssessment) × (assess c latest ≡ ok a)
unfolding assess
assess_total c none = (none, refl)
assess_total c (some r) =
    let (a, e, _, _, _) = evaluate_resource_thresholds-reports r.telemetry c cpu in
    (some a, rw e refl)

probe_total :
    (c : Connection) → connects c ≡ true → (t : TcpReachability) × (probe_tcp_reachability c ≡ ok t)
unfolding probe_tcp_reachability
probe_total connected h = (_, refl)
probe_total os_error h = (_, refl)
probe_total defect h = cc

check_evaluation-accepts :
    (e : HostHealthEvaluation)
    → str_eq e.host "" ≡ false
    → is_aware e.evaluated_at ≡ true
    → check_evaluation e ≡ ok tt
unfolding check_evaluation require_non_empty
check_evaluation-accepts e n a = ground arith

module _ (seconds : Seconds) (config : SentinelConfig) (env : EngineEnv) (name : String)
    (named : str_eq name "" ≡ false) where
  evaluate_with_total :
      (c : HostConfig) (previous : Option HostStateResolution) (latest : Option HeartbeatRecord)
      → is_aware env.now ≡ true
      → is_past env.now (received latest) ≡ true
      → connects env.connection ≡ true
      → (e : HostHealthEvaluation) × (evaluate_with seconds config env c name previous latest
          ≡ ok e)
  unfolding evaluate_with
  evaluate_with_total c previous latest aware past up =
      let (f, e1) = freshness_total seconds env.now (received latest) c.heartbeat aware past in
      let (a, e2) = assess_total c.thresholds latest in
      let (t, e3) = probe_total env.connection up in
      let (r, e4, _) = resolve_total f.status (or_neutral a) t c.external previous in
      let e5 = build_transition_total name previous r env.now named (ground arith) in
      let e : HostHealthEvaluation = record {
        host = name;
        evaluated_at = env.now;
        freshness = f;
        resources = a;
        reachability = t;
        resolution = r;
        transition = crossing name previous r env.now;
      } in
      (e, rw (e1, e2, e3, e4, e5) (rw (check_evaluation-accepts e named aware) refl))

-- An evaluation of a configured host whose name is not empty returns, whatever the memory, when the
-- clock is aware, the repository answers, its heartbeat if any was received at an aware time that is
-- not after the clock's, and the probe connects or fails with an `OSError`.
pub evaluate_host_total :
    (seconds : Seconds) (config : SentinelConfig) (env : EngineEnv) (name : String) (c : HostConfig)
    (latest : Option HeartbeatRecord) (m : Memory)
    → host config name ≡ some c
    → str_eq name "" ≡ false
    → env.latest ≡ ok latest
    → is_sound env latest ≡ true
    → (e : HostHealthEvaluation) × ((evaluate_host seconds config env name m).0 ≡ ok e)
unfolding evaluate_host evaluate_configured commit
evaluate_host_total seconds config env name c latest m known named answer sound =
    let (aware, past, up) =
      all_three (is_aware env.now) (is_past env.now (received latest)) (connects env.connection)
        sound in
    let (e, h) =
      evaluate_with_total seconds config env name named c (recall name m) latest aware past up in
    let rest : Result (Option HeartbeatRecord) → Result HostHealthEvaluation =
      λ l. l >>= λ x. evaluate_with seconds config env c name (recall name m) x in
    (
      e,
      rw (known, aware)
          (subst (λ l. (commit seconds config env name (rest l) m).0 ≡ ok e) (sym answer)
            (rw h refl)),
    )
