-- ===== src/Health/Signals.antt =====
-- What the health signals of src/hermes_sentinel/health.py say.
use hermes_sentinel.Base.{
  ◌-◌, ◌≡◌, refl, Bool, true, false, not, ◌&&◌, List, [], ◌∷◌, ◌++◌, Option, none, some, Bool-cases,
  inl, inr, arith, ◌∙◌, if◌then◌else◌,
}
use hermes_sentinel.Result.{ok, err, value_error}
use hermes_sentinel.DateTime.{DateTime, is_aware, before}
use hermes_sentinel.Float.{Float, le}
use hermes_sentinel.Domain.{HostTelemetry}
use hermes_sentinel.Config.{HeartbeatSettings, Thresholds}
use hermes_sentinel.Health.{
  ResourceMetric, ResourceAssessment, missing, fresh, stale, cpu, ram, swap, disk, inodes, load5,
  reports, load_breach, in_order, no_duplicates, create_assessment, evaluate_resource_thresholds,
  Seconds, evaluate_heartbeat_freshness,
}

-- the value that a metric is judged by, and the threshold that judges it
abbrev pub observed : ResourceMetric → HostTelemetry → Float
observed cpu t = t.cpu_percent
observed ram t = t.ram.percent
observed swap t = t.swap.percent
observed disk t = t.root_filesystem.percent
observed inodes t = t.root_inodes.percent
observed load5 t = t.load.five

abbrev pub threshold : ResourceMetric → Thresholds → Option Float
threshold cpu h = some h.cpu_percent
threshold ram h = some h.ram_percent
threshold swap h = some h.swap_percent
threshold disk h = some h.disk_percent
threshold inodes h = some h.inode_percent
threshold load5 h = h.load5_max

abbrev pub exceeds : Float → Option Float → Bool
exceeds value none = false
exceeds value (some limit) = le limit value

-- A Boolean property of every choice of a Boolean, by evaluation.
all_bools : (Bool → Bool) → Bool
all_bools p = p true && p false

all_bools_sound : (p : Bool → Bool) (b : Bool) → all_bools p ≡ true → p b ≡ true
unfolding all_bools
all_bools_sound p true h = ground arith
all_bools_sound p false h = ground arith

-- six optional entries in the canonical order
abbrev listed : ResourceMetric → Bool → List ResourceMetric
listed m b = if b then m ∷ [] else []

abbrev entries : Bool → Bool → Bool → Bool → Bool → Bool → List ResourceMetric
entries a b c d e f =
    listed cpu a
    ++ (listed ram b ++ (listed swap c ++ (listed disk d ++ (listed inodes e ++ listed load5 f))))

abbrev same : Bool → Bool → Bool
same true b = b
same false b = not b

abbrev chosen : ResourceMetric → Bool → Bool → Bool → Bool → Bool → Bool → Bool
chosen cpu a b c d e f = a
chosen ram a b c d e f = b
chosen swap a b c d e f = c
chosen disk a b c d e f = d
chosen inodes a b c d e f = e
chosen load5 a b c d e f = f

abbrev is_good : ResourceMetric → Bool → Bool → Bool → Bool → Bool → Bool → Bool
is_good m a b c d e f =
    let ms = entries a b c d e f in
    in_order ms && no_duplicates ms && same (reports m ms) (chosen m a b c d e f)

abbrev table : ResourceMetric → Bool
table m = all_bools λ a.
    all_bools λ b. all_bools λ c. all_bools λ d. all_bools λ e. all_bools λ f. is_good m a b c d e f

table-holds : (m : ResourceMetric) → table m ≡ true
unfolding all_bools
table-holds cpu = refl
table-holds _ = refl

entries-is_good : (m : ResourceMetric) (a b c d e f : Bool) → is_good m a b c d e f ≡ true
entries-is_good m a b c d e f =
    all_bools_sound (λ f. is_good m a b c d e f) f
      (all_bools_sound (λ e. all_bools λ f. is_good m a b c d e f) e
        (all_bools_sound (λ d. all_bools λ e. all_bools λ f. is_good m a b c d e f) d
          (all_bools_sound (λ c. all_bools λ d. all_bools λ e. all_bools λ f. is_good m a b c d e f)
            c
            (all_bools_sound
              (λ b.
                all_bools λ c. all_bools λ d. all_bools λ e. all_bools λ f. is_good m a b c d e f)
              b
              (all_bools_sound
                (λ a. all_bools λ b.
                  all_bools λ c. all_bools λ d. all_bools λ e. all_bools λ f. is_good m a b c d e f)
                a (table-holds m))))))

same_sound : (a b : Bool) → same a b ≡ true → a ≡ b
same_sound a b h = ground arith

load_breach-listed :
    (v : Float) (limit : Option Float) → load_breach v limit ≡ listed load5 (exceeds v limit)
load_breach-listed v none = refl
load_breach-listed v (some l) = refl

pub all_three : (x y z : Bool) → (x && y && z) ≡ true → (x ≡ true) × (y ≡ true) × (z ≡ true)
all_three x y z h = ground arith

create_assessment-accepts :
    (ms : List ResourceMetric)
    → in_order ms ≡ true
    → no_duplicates ms ≡ true
    → create_assessment ms ≡ ok (record { breaches = ms })
unfolding create_assessment
create_assessment-accepts ms i n = rw (i, n)

module _ (t : HostTelemetry) (h : Thresholds) where
  abbrev over : ResourceMetric → Bool
  over m = exceeds (observed m t) (threshold m h)

  abbrev breaching : List ResourceMetric
  breaching = entries (over cpu) (over ram) (over swap) (over disk) (over inodes) (over load5)

  chosen-over :
      (m : ResourceMetric)
      → chosen m (over cpu) (over ram) (over swap) (over disk) (over inodes) (over load5) ≡ over m
  chosen-over cpu = refl
  chosen-over _ = refl

-- Judging a telemetry snapshot by valid or invalid thresholds always succeeds, and the assessment
-- reports exactly the metrics whose observed value is at or above their threshold, in the canonical
-- order and once each; without a load limit LOAD5 is never reported.
pub evaluate_resource_thresholds-reports :
    (t : HostTelemetry) (h : Thresholds) (m : ResourceMetric)
    → (a : ResourceAssessment) × (evaluate_resource_thresholds t h ≡ ok a)
      × (reports m a.breaches ≡ exceeds (observed m t) (threshold m h))
      × (in_order a.breaches ≡ true)
      × (no_duplicates a.breaches ≡ true)
unfolding evaluate_resource_thresholds
evaluate_resource_thresholds-reports t h m =
    let ms = breaching t h in
    let (ordered, single, told) = all_three (in_order ms) (no_duplicates ms) _ (
      entries-is_good m (over t h cpu) (over t h ram) (over t h swap) (over t h disk)
        (over t h inodes) (over t h load5)) in
    (
      record { breaches = ms },
      rw (load_breach-listed t.load.five h.load5_max) (create_assessment-accepts ms ordered single),
      same_sound _ _ told ∙ chosen-over t h m,
      ordered,
      single,
    )

-- A heartbeat is judged on the central time axis alone. Without one the freshness is MISSING and has
-- no age. With one that is aware and not after an aware `now`, evaluation succeeds, the age is the
-- elapsed time, and the freshness is FRESH if and only if the age is at most `stale_after_seconds`.
pub evaluate_heartbeat_freshness_cases :
    (seconds : Seconds) (now latest : DateTime) (settings : HeartbeatSettings)
    → is_aware now ≡ true
    → is_aware latest ≡ true
    → before now latest ≡ false
    → let age = seconds.total_seconds (now.instant - latest.instant) in
      (evaluate_heartbeat_freshness seconds now none settings
        ≡ ok (record { status = missing; age_seconds = none }))
      × (evaluate_heartbeat_freshness seconds now (some latest) settings
          ≡ ok (record {
            status = if le age settings.stale_after_seconds then fresh else stale;
            age_seconds = some age;
          }))
unfolding evaluate_heartbeat_freshness
evaluate_heartbeat_freshness_cases seconds now latest settings a b c =
    let age = seconds.total_seconds (now.instant - latest.instant) in
    (
      rw a,
      rw (a, b, c)
          (elim (Bool-cases (le age settings.stale_after_seconds)) [
            | inl soon ↦ rw (soon, seconds.total_seconds_finite _, seconds.total_seconds_nonneg _)
            | inr late ↦ rw (late, seconds.total_seconds_finite _, seconds.total_seconds_nonneg _)
          ]),
    )

-- Clock evidence that is naive, or that has the heartbeat after `now`, raises `ValueError`: no age is
-- clamped and no freshness is invented.
pub evaluate_heartbeat_freshness_refuses :
    (seconds : Seconds) (now latest : DateTime) (settings : HeartbeatSettings)
    → (is_aware now && is_aware latest && not (before now latest)) ≡ false
    → evaluate_heartbeat_freshness seconds now (some latest) settings ≡ err value_error
unfolding evaluate_heartbeat_freshness
evaluate_heartbeat_freshness_refuses seconds now latest settings h = ground arith
