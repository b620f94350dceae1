-- ===== src/Deadman/Machine.antt =====
-- The state machine of src/hermes_sentinel/deadman.py: `advance_deadman_status`, its two internal
-- steps and `acknowledge_deadman_notification`. Every `replace` and `DeadManStatus(...)` of the
-- source is a construction that can raise.
pub mod Preserves
pub mod Step
pub mod Queue
pub mod Acknowledge
use hermes_sentinel.Base.{
  ℕ, ◌+◌, Bool, true, false, not, List, [], ◌∷◌, ◌++◌, Option, none, some, ltb, ◌==◌, if◌then◌else◌,
}
use hermes_sentinel.Result.{Result, ok, err, value_error, assertion_error, guard, ◌>>=◌, ◌>>◌}
use hermes_sentinel.DateTime.{DateTime, is_aware, before}
use hermes_sentinel.Deadman.Types.{
  DeadManState, DeadManProbeOutcome, DeadManNotification, DeadManCurrentDown, unknown, up, down,
  healthy, failed, down_kind, recovered_kind, down_confirmations, recovery_confirmations,
  require_aware, require_notification_id, create_transition, create_notification,
  create_current_down,
}
use hermes_sentinel.Deadman.Status.{DeadManStatus, create_status}

-- DOWN is left with an unacknowledged outage: no RECOVERED intent.
unfoldable pub recover_silently : DeadManStatus → DateTime → Result DeadManStatus
unfolding create_status
recover_silently s now = create_status (record {
  state = up;
  consecutive_failures = 0;
  consecutive_successes = 0;
  state_changed_at = some now;
  pending_notifications = s.pending_notifications;
  next_notification_id = s.next_notification_id;
  current_down = none;
})

-- DOWN is left with an acknowledged outage: one RECOVERED intent is appended.
unfoldable pub recover_announced : DeadManStatus → DateTime → Result DeadManStatus
unfolding create_status create_transition create_notification
recover_announced s now = do
  transition ← create_transition down up now
  recovered ← create_notification s.next_notification_id recovered_kind transition
  create_status (record {
    state = up;
    consecutive_failures = 0;
    consecutive_successes = 0;
    state_changed_at = some now;
    pending_notifications = s.pending_notifications ++ (recovered ∷ []);
    next_notification_id = s.next_notification_id + 1;
    current_down = none;
  })

-- the recovery decision on `current_down`
unfoldable pub recover : Option DeadManCurrentDown → DeadManStatus → DateTime → Result DeadManStatus
recover none s now = err assertion_error
recover (some current) s now =
    if not current.acknowledged then recover_silently s now else recover_announced s now

unfoldable pub success_from : DeadManState → DeadManStatus → DateTime → Result DeadManStatus
unfolding create_status
success_from unknown s now = create_status (record s {
  state = up;
  consecutive_failures = 0;
  consecutive_successes = 0;
  state_changed_at = some now;
})
success_from up s now =
    create_status (record s { consecutive_failures = 0; consecutive_successes = 0 })
success_from down s now =
    let successes = s.consecutive_successes + 1 in
    if ltb successes recovery_confirmations
    then create_status (record s { consecutive_failures = 0; consecutive_successes = successes })
    else recover s.current_down s now

-- `_advance_success`
unfoldable pub advance_success : DeadManStatus → DateTime → Result DeadManStatus
unfolding success_from
advance_success s now = success_from s.state s now

-- the third failure: DOWN is confirmed, with one DOWN intent bound to the outage
unfoldable pub confirm_down : DeadManStatus → DateTime → Result DeadManStatus
unfolding create_status create_transition create_notification create_current_down
confirm_down s now = do
  transition ← create_transition s.state down now
  intent ← create_notification s.next_notification_id down_kind transition
  current ← create_current_down s.next_notification_id false
  create_status (record {
    state = down;
    consecutive_failures = 0;
    consecutive_successes = 0;
    state_changed_at = some now;
    pending_notifications = s.pending_notifications ++ (intent ∷ []);
    next_notification_id = s.next_notification_id + 1;
    current_down = some current;
  })

unfoldable pub count_failure : DeadManStatus → DateTime → Result DeadManStatus
unfolding create_status
count_failure s now =
    let failures = s.consecutive_failures + 1 in
    if ltb failures down_confirmations
    then create_status (record s { consecutive_failures = failures; consecutive_successes = 0 })
    else confirm_down s now

unfoldable pub failure_from : DeadManState → DeadManStatus → DateTime → Result DeadManStatus
unfolding create_status
failure_from down s now =
    create_status (record s { consecutive_failures = 0; consecutive_successes = 0 })
failure_from _ s now = count_failure s now

-- `_advance_failure`
unfoldable pub advance_failure : DeadManStatus → DateTime → Result DeadManStatus
unfolding failure_from
advance_failure s now = failure_from s.state s now

-- `anchor is not None and now < anchor`
abbrev pub precedes : DateTime → Option DateTime → Bool
precedes now none = false
precedes now (some anchor) = before now anchor

abbrev dispatch : DeadManProbeOutcome → DeadManStatus → DateTime → Result DeadManStatus
dispatch healthy s now = advance_success s now
dispatch failed s now = advance_failure s now

unfoldable pub advance_deadman_status :
    DeadManStatus → DeadManProbeOutcome → DateTime → Result DeadManStatus
unfolding require_aware
advance_deadman_status s outcome now = do
  require_aware now
  guard (not (precedes now s.state_changed_at)) value_error
  dispatch outcome s now

-- the binding after the acknowledgement of `notification_id`
unfoldable pub mark : ℕ → Option DeadManCurrentDown → Option DeadManCurrentDown
mark notification_id none = none
mark notification_id (some current) =
    if current.notification_id == notification_id
    then some (record current { acknowledged = true })
    else some current

unfoldable pub acknowledge_head :
    List DeadManNotification → ℕ → DeadManStatus → Result DeadManStatus
unfolding mark create_status
acknowledge_head [] notification_id s = err value_error
acknowledge_head (head ∷ rest) notification_id s = do
  guard (notification_id == head.notification_id) value_error
  create_status (record s {
    pending_notifications = rest;
    current_down = mark notification_id s.current_down;
  })

unfoldable pub acknowledge_deadman_notification : DeadManStatus → ℕ → Result DeadManStatus
unfolding require_notification_id acknowledge_head
acknowledge_deadman_notification s notification_id = do
  require_notification_id notification_id
  acknowledge_head s.pending_notifications notification_id s
