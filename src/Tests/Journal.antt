-- ===== src/Tests/Journal.antt =====
-- Whole runs of the dead-man state machine, and a probe response.
use hermes_sentinel.Base.{
  ◌+◌, ◌≡◌, refl, List, [], ◌∷◌, ◌++◌, none, Any, arith, ◌↔◌, length, some, true,
}
use hermes_sentinel.Result.{ok, err, value_error}
use hermes_sentinel.Deadman.Types.{
  DeadManNotification, up, down, healthy, failed, down_kind, recovered_kind, require_aware,
  require_notification_id, check_transition, check_notification, create_transition,
  create_notification, create_current_down, check_current_down,
}
use hermes_sentinel.Deadman.Status.{
  DeadManStatus, check_status, create_status, check_streaks, check_increasing, check_suffix,
  check_no_recovered, check_kinds, check_dates, check_anchor, check_unknown, check_outage,
  check_binding,
}
use hermes_sentinel.Deadman.Status.Valid.{IsStatus}
use hermes_sentinel.Deadman.Machine.{
  advance_deadman_status, advance_failure, failure_from, count_failure, confirm_down,
  acknowledge_deadman_notification,
}
use hermes_sentinel.Deadman.Status.{initial_deadman_status}
use hermes_sentinel.Deadman.Status.Snapshot.{Consecutive}
use hermes_sentinel.Deadman.Machine.{
  advance_success, success_from, recover, recover_announced, recover_silently, acknowledge_head,
  mark,
}
use hermes_sentinel.Deadman.Debounce.{Observation, after, after-liveness}
use hermes_sentinel.Deadman.Ledger.{
  Event, observe, acknowledge, intents, replay, fresh, handle, advanced, acknowledged_by,
}
use hermes_sentinel.Deadman.Ledger.Invariant.{Paired}
use hermes_sentinel.Deadman.Ledger.History.{
  recovered-acknowledged, replay-intents, replay-Extends, Extends,
}
use hermes_sentinel.Deadman.Ledger.Once.{acknowledged_once}
use hermes_sentinel.Deadman.Probe.{DeadManProbeResponse, classify_deadman_probe}
use hermes_sentinel.Deadman.Probe.Signature.{ListsPost, classify-healthy_iff}
use hermes_sentinel.Tests.Samples.{at}

-- a failure, a success, and an outage confirmed after it, the newest first
abbrev bad_day : List Observation
bad_day =
    (failed, at 50) ∷ (failed, at 40) ∷ (failed, at 30) ∷ (healthy, at 20) ∷ (failed, at 10) ∷ []

after-liveness_example :
    (s : DeadManStatus) × (after bad_day ≡ ok s) × IsStatus s × (s.state ≡ down)
after-liveness_example = after-liveness bad_day (
  refl,
  omega arith,
  (refl, omega arith, (refl, omega arith, (refl, omega arith, (refl, tt, tt)))),
)

-- an outage that is announced and acknowledged, and its recovery
abbrev events : List Event
events =
    observe failed (at 10)
    ∷ observe failed (at 20)
    ∷ observe failed (at 30)
    ∷ acknowledge 1
    ∷ observe healthy (at 40)
    ∷ observe healthy (at 50)
    ∷ []

abbrev recovered_intent : DeadManNotification
recovered_intent = record {
  notification_id = 2;
  kind = recovered_kind;
  transition = record { from_state = down; to_state = up; at = at 50 };
}

events_recovered : (replay fresh events).status.pending_notifications ≡ recovered_intent ∷ []
unfolding replay handle advanced acknowledged_by fresh initial_deadman_status advance_deadman_status
    advance_failure failure_from count_failure confirm_down advance_success success_from recover
    recover_announced recover_silently acknowledge_deadman_notification acknowledge_head mark
    check_status check_streaks check_increasing check_suffix check_no_recovered check_kinds
    check_dates check_anchor check_unknown check_outage check_binding require_notification_id
    require_aware create_status create_transition create_notification create_current_down
    check_notification check_transition check_current_down
events_recovered = refl

recovered-acknowledged_example :
    (ms : List DeadManNotification) × (m : DeadManNotification) × ((replay fresh
        events).acknowledged
      ≡ ms ++ m ∷ [])
    × (m.kind ≡ down_kind)
    × (m.notification_id + 1 ≡ 2)
recovered-acknowledged_example =
    recovered-acknowledged events recovered_intent [] events_recovered refl

abbrev three_failures : List Event
three_failures = observe failed (at 10) ∷ observe failed (at 20) ∷ observe failed (at 30) ∷ []

-- the outage of the third failure, its intent acknowledged
abbrev announced : DeadManStatus
announced = record {
  state = down;
  consecutive_failures = 0;
  consecutive_successes = 0;
  state_changed_at = some (at 30);
  pending_notifications = [];
  next_notification_id = 2;
  current_down = some (record { notification_id = 1; acknowledged = true });
}

first_acknowledgement :
    acknowledge_deadman_notification (replay fresh three_failures).status 1 ≡ ok announced
unfolding replay handle advanced acknowledged_by fresh initial_deadman_status advance_deadman_status
    advance_failure failure_from count_failure confirm_down advance_success success_from recover
    recover_announced recover_silently acknowledge_deadman_notification acknowledge_head mark
    check_status check_streaks check_increasing check_suffix check_no_recovered check_kinds
    check_dates check_anchor check_unknown check_outage check_binding require_notification_id
    require_aware create_status create_transition create_notification create_current_down
    check_notification check_transition check_current_down
first_acknowledgement = refl

acknowledged_once_example :
    acknowledge_deadman_notification
      (replay fresh (
        three_failures
        ++ acknowledge 1 ∷ observe healthy (at 40) ∷ observe healthy (at 50) ∷ [])).status
      1
    ≡ err value_error
acknowledged_once_example =
    acknowledged_once three_failures (observe healthy (at 40) ∷ observe healthy (at 50) ∷ []) 1
      announced first_acknowledgement

replay-intents_example :
    Consecutive (intents (replay fresh events)) (replay fresh events).status.next_notification_id
    × (length (intents (replay fresh events)) + 1
        ≡ (replay fresh events).status.next_notification_id)
    × Paired none (intents (replay fresh events))
replay-intents_example = replay-intents events

replay-Extends_example : Extends (intents fresh) (intents (replay fresh events))
replay-Extends_example = replay-Extends fresh events

-- HTTP 405 with `Allow: GET, POST` in ASCII
abbrev answered : DeadManProbeResponse
answered = record {
  status = 405;
  allow_headers = (71 ∷ 69 ∷ 84 ∷ 44 ∷ 32 ∷ 80 ∷ 79 ∷ 83 ∷ 84 ∷ []) ∷ [];
  body = [];
}

classify-healthy_iff_example :
    (classify_deadman_probe answered ≡ healthy)
    ↔ ((answered.status ≡ 405) × Any ListsPost answered.allow_headers × (answered.body ≡ []))
classify-healthy_iff_example = classify-healthy_iff answered
