-- ===== src/Health/Aging.antt =====
-- How the freshness of one heartbeat in src/hermes_sentinel/health.py changes as time passes.
use hermes_sentinel.Base.{
  ◌-◌, ◌≤◌, ◌≡◌, refl, Bool, true, false, not, ◌&&◌, Option, some, Bool-cases, inl, inr, ◌⊎◌, arith,
  if◌then◌else◌,
}
use hermes_sentinel.Result.{ok, err, value_error}
use hermes_sentinel.DateTime.{DateTime, is_aware, before}
use hermes_sentinel.Float.{Float, le}
use hermes_sentinel.Config.{HeartbeatSettings}
use hermes_sentinel.Health.{
  HeartbeatFreshness, fresh, stale, HeartbeatFreshnessResult, Seconds, evaluate_heartbeat_freshness,
}
use hermes_sentinel.Health.Signals.{
  evaluate_heartbeat_freshness_cases, evaluate_heartbeat_freshness_refuses, all_three,
}

le_trans : (a b c : Float) → le a b ≡ true → le b c ≡ true → le a c ≡ true
le_trans a b c h k = ground arith

abbrev status_of : Float → Float → HeartbeatFreshness
status_of age limit = if le age limit then fresh else stale

-- an age that is not below another
abbrev pub Older : Option Float → Option Float → Type 0
Older (some age) (some later_age) = le age later_age ≡ true
Older _ _ = ⊥

-- A heartbeat does not become fresh again.
abbrev pub Decays : HeartbeatFreshness → HeartbeatFreshness → Type 0
Decays fresh fresh = Unit
Decays fresh stale = Unit
Decays stale stale = Unit
Decays _ _ = ⊥

status_of-Decays :
    (age later_age limit : Float)
    → le age later_age ≡ true
    → Decays (status_of age limit) (status_of later_age limit)
status_of-Decays age later_age limit h = go (le age limit) (le later_age limit) refl refl
  where
    go :
        (a b : Bool)
        → le age limit ≡ a
        → le later_age limit ≡ b
        → Decays (if a then fresh else stale) (if b then fresh else stale)
    go true true p q = tt
    go true false p q = tt
    go false false p q = tt
    go false true p q = let r = le_trans age later_age limit h q in cc

-- a clock and a heartbeat time that are aware, the heartbeat not after the clock
abbrev pub is_consistent : DateTime → DateTime → Bool
is_consistent latest now = is_aware now && is_aware latest && not (before now latest)

module _ (seconds : Seconds) (latest : DateTime) (settings : HeartbeatSettings) where
  abbrev age_at : DateTime → Float
  age_at now = seconds.total_seconds (now.instant - latest.instant)

  abbrev at_age : Float → HeartbeatFreshnessResult
  at_age age = record {
    status = status_of age settings.stale_after_seconds;
    age_seconds = some age;
  }

  -- Evaluating a heartbeat raises `ValueError`, where its time or the clock is naive or the heartbeat
  -- is after the clock; or else it returns, and so it does at every later aware time. The age is then
  -- not below the one before, and the freshness is FRESH or STALE, and STALE if it was STALE before:
  -- without a new heartbeat, a host does not become fresh again.
  pub evaluate_heartbeat_freshness_aging :
      (now later : DateTime)
      → is_aware later ≡ true
      → now.instant ≤ later.instant
      → ((is_consistent latest now ≡ false)
          × (evaluate_heartbeat_freshness seconds now (some latest) settings ≡ err value_error))
        ⊎ ((is_consistent latest now ≡ true)
            × (r : HeartbeatFreshnessResult) × (s : HeartbeatFreshnessResult)
            × (evaluate_heartbeat_freshness seconds now (some latest) settings ≡ ok r)
            × (evaluate_heartbeat_freshness seconds later (some latest) settings ≡ ok s)
            × Older r.age_seconds s.age_seconds
            × Decays r.status s.status)
  evaluate_heartbeat_freshness_aging now later aware after =
      elim (Bool-cases (is_consistent latest now)) [
        | inr broken ↦
            inl (broken, evaluate_heartbeat_freshness_refuses seconds now latest settings broken)
        | inl consistent ↦
            let (a, b, c) =
              all_three (is_aware now) (is_aware latest) (not (before now latest)) consistent in
            let ordered : before now latest ≡ false = ground arith in
            let still : before later latest ≡ false = ground arith in
            let older =
              seconds.total_seconds_mono (now.instant - latest.instant)
                (later.instant - latest.instant) (omega arith) in
            inr (
              consistent,
              at_age (age_at now),
              at_age (age_at later),
              (evaluate_heartbeat_freshness_cases seconds now latest settings a b ordered).1,
              (evaluate_heartbeat_freshness_cases seconds later latest settings aware b still).1,
              older,
              status_of-Decays (age_at now) (age_at later) settings.stale_after_seconds older,
            )
      ]
