-- ===== src/Engine/Evaluation.antt =====
-- What an evaluation of src/hermes_sentinel/health_engine.py returns and remembers.
use hermes_sentinel.Base.{
  ◌≡◌, ◌⊎◌, refl, String, Bool, true, false, Option, none, some, str_eq, arith, inl, inr,
  if◌then◌else◌,
}
use hermes_sentinel.Result.{Result, Error, ok, err, Result-cases, invalid_clock_result_error}
use hermes_sentinel.Result.Ensures.{
  Ensures, raises, Ensures-bind, Ensures-guard, Ensures-ok, Ensures-construct, Ensures-returned,
}
use hermes_sentinel.DateTime.{DateTime, is_aware, has_tzinfo}
use hermes_sentinel.Domain.{
  HostState, down, HostTransition, check_transition, create_transition, require_non_empty,
}
use hermes_sentinel.Config.{SentinelConfig, HostConfig, host}
use hermes_sentinel.Health.{Seconds, evaluate_heartbeat_freshness, probe_tcp_reachability}
use hermes_sentinel.Resolver.{HostStateResolution, resolve_host_state}
use hermes_sentinel.Ingestion.{HeartbeatRecord}
use hermes_sentinel.Engine.{
  HostHealthEvaluation, check_evaluation, build_transition, Memory, recall, EngineEnv, received,
  assess, or_neutral, evaluate_with, evaluate_configured, commit, evaluate_host,
}
use hermes_sentinel.Engine.Memory.{recall-remember, recall-remember_other}

-- The transition of an evaluation: from the previous resolution, if there is one, across DOWN.
abbrev crosses : HostState → HostState → Bool
crosses down down = false
crosses down _ = true
crosses _ down = true
crosses _ _ = false

abbrev pub crossing :
    String → Option HostStateResolution → HostStateResolution → DateTime → Option HostTransition
crossing name none r at = none
crossing name (some p) r at =
    if crosses p.state r.state
    then some (record { host = name; from_state = p.state; to_state = r.state; at = at })
    else none

build_transition_sound :
    (name : String) (p : Option HostStateResolution) (r : HostStateResolution) (at : DateTime)
    (t : Option HostTransition)
    → build_transition name p r at ≡ ok t
    → t ≡ crossing name p r at
unfolding build_transition create_transition check_transition require_non_empty
build_transition_sound name none r at t h = ground arith
build_transition_sound name (some p) r at t h = ground arith

pub build_transition_total :
    (name : String) (p : Option HostStateResolution) (r : HostStateResolution) (at : DateTime)
    → str_eq name "" ≡ false
    → has_tzinfo at ≡ true
    → build_transition name p r at ≡ ok (crossing name p r at)
unfolding build_transition create_transition check_transition require_non_empty
build_transition_total name none r at s h = ground arith
build_transition_total name (some p) r at s h = ground arith

anything : {A : Type 0} (m : Result A) → Ensures (λ _. Unit) (λ _. Unit) m
anything m = Ensures-returned m (λ _ _. tt)

module _ (seconds : Seconds) (config : SentinelConfig) (env : EngineEnv) where
  abbrev Reports : String → Option HostStateResolution → HostHealthEvaluation → Type 0
  Reports name previous e =
      (e.host ≡ name)
      × (e.evaluated_at ≡ env.now)
      × (e.transition ≡ crossing name previous e.resolution env.now)

  evaluate_with-Reports :
      (c : HostConfig) (name : String) (previous : Option HostStateResolution)
      (latest : Option HeartbeatRecord)
      → Ensures
          (Reports name previous)
          (λ _. Unit)
          (evaluate_with seconds config env c name previous latest)
  unfolding evaluate_with
  evaluate_with-Reports c name previous latest =
      Ensures-bind _
        (anything (evaluate_heartbeat_freshness seconds env.now (received latest) c.heartbeat))
        λ f _. Ensures-bind _ (anything (assess c.thresholds latest)) λ a _.
          Ensures-bind _ (anything (probe_tcp_reachability env.connection)) λ t _.
            Ensures-bind _
              (anything (resolve_host_state previous f.status (or_neutral a) t c.external))
              λ r _.
                Ensures-bind _
                  (Ensures-returned (build_transition name previous r env.now)
                    (build_transition_sound name previous r env.now))
                  λ x built.
                    Ensures-construct check_evaluation _ (λ _ _. tt) (λ _. (refl, refl, built))

  evaluate_configured-Reports :
      (c : Option HostConfig) (name : String) (previous : Option HostStateResolution)
      → Ensures
          (Reports name previous)
          (λ _. Unit)
          (evaluate_configured seconds config env c name previous)
  unfolding evaluate_configured
  evaluate_configured-Reports none name previous = raises tt
  evaluate_configured-Reports (some c) name previous =
      Ensures-guard (is_aware env.now) invalid_clock_result_error tt λ _.
        Ensures-bind _ (anything env.latest)
          λ latest _. evaluate_with-Reports c name previous latest

-- The two cases of an evaluation, for every other host at once.
pub evaluate_host_cases :
    (seconds : Seconds) (config : SentinelConfig) (env : EngineEnv) (name : String) (m : Memory)
    → let x = evaluate_host seconds config env name m in
      ((e : HostHealthEvaluation) × (x.0 ≡ ok e)
        × (e.host ≡ name)
        × (e.evaluated_at ≡ env.now)
        × (e.transition ≡ crossing name (recall name m) e.resolution env.now)
        × (recall name x.1 ≡ some e.resolution)
        × ((other : String) → str_eq name other ≡ false → recall other x.1 ≡ recall other m))
      ⊎ ((e : Error) × (x.0 ≡ err e) × (x.1 ≡ m))
unfolding evaluate_host commit
evaluate_host_cases seconds config env name m =
    let out = evaluate_configured seconds config env (host config name) name (recall name m) in
    elim (Result-cases out) [
      | inl (e, h) ↦
          let (a, b, c) =
            Ensures-ok
              (evaluate_configured-Reports seconds config env (host config name) name
                (recall name m))
              h in
          inl (
            e,
            rw h refl,
            a,
            b,
            c,
            rw h (recall-remember name e.resolution m),
            λ other d. rw h (recall-remember_other other name e.resolution m d),
          )
      | inr (e, h) ↦ inr (e, rw h refl, rw h refl)
    ]

-- An evaluation is all or nothing. When it raises, the memory is unchanged. When it returns, the
-- evaluation is of that host at the clock's value, its transition is the one between the remembered
-- resolution and the new one when exactly one of the two is DOWN, and none otherwise or on a host's
-- first evaluation, the host's new resolution is remembered, and no other host's entry has changed.
pub evaluate_host-commits :
    (seconds : Seconds) (config : SentinelConfig) (env : EngineEnv) (name : String) (m : Memory)
    (other : String)
    → str_eq name other ≡ false
    → let x = evaluate_host seconds config env name m in
      ((e : HostHealthEvaluation) × (x.0 ≡ ok e)
        × (e.host ≡ name)
        × (e.evaluated_at ≡ env.now)
        × (e.transition ≡ crossing name (recall name m) e.resolution env.now)
        × (recall name x.1 ≡ some e.resolution)
        × (recall other x.1 ≡ recall other m))
      ⊎ ((e : Error) × (x.0 ≡ err e) × (x.1 ≡ m))
evaluate_host-commits seconds config env name m other apart =
    elim (evaluate_host_cases seconds config env name m) [
      | inl (e, a, b, c, d, g, k) ↦ inl (e, a, b, c, d, g, k other apart)
      | inr failed ↦ inr failed
    ]
