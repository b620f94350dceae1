-- ===== src/Deadman/Status.antt =====
-- `DeadManStatus` of src/hermes_sentinel/deadman.py and its `__post_init__`, in the source's order.
-- Counters are natural numbers, so `_require_counter` is their type. Where the source subtracts in
-- Python's integers, both sides are moved so that no subtraction is left.
pub mod Snapshot
pub mod Checked
pub mod Valid
pub mod Raises
use hermes_sentinel.Base.{
  ℕ, ◌+◌, Bool, false, not, List, [], ◌∷◌, Option, none, some, ltb, ◌==◌, length,
}
use hermes_sentinel.Result.{Result, ok, err, value_error, guard, construct, ◌>>◌}
use hermes_sentinel.DateTime.{DateTime, before, same_instant}
use hermes_sentinel.Deadman.Types.{
  DeadManState, DeadManNotification, DeadManCurrentDown, unknown, down, is_recovered_kind,
  down_confirmations, recovery_confirmations, require_aware, require_notification_id, is_unknown,
}

pub record DeadManStatus : Type 0 where
  pub state : DeadManState
  pub consecutive_failures : ℕ
  pub consecutive_successes : ℕ
  pub state_changed_at : Option DateTime
  pub pending_notifications : List DeadManNotification
  pub next_notification_id : ℕ
  pub current_down : Option DeadManCurrentDown

-- the debounce counters against the state
unfoldable pub check_streaks : DeadManState → ℕ → ℕ → Result (Unit {0})
check_streaks down failures successes = do
  guard (failures == 0) value_error
  guard (ltb successes recovery_confirmations) value_error
check_streaks _ failures successes = do
  guard (successes == 0) value_error
  guard (ltb failures down_confirmations) value_error

-- the loop over `previous_id`
unfoldable pub check_increasing : Option ℕ → List DeadManNotification → Result (Unit {0})
check_increasing previous [] = ok tt
check_increasing none (n ∷ ns) = check_increasing (some n.notification_id) ns
check_increasing (some p) (n ∷ ns) =
    guard (ltb p n.notification_id) value_error >> check_increasing (some n.notification_id) ns

-- `pending_notifications[-1]` of a list that starts with `n`
abbrev pub last_of : DeadManNotification → List DeadManNotification → DeadManNotification
last_of n [] = n
last_of n (m ∷ ms) = last_of m ms

-- the newest id is the last allocation, and the ids have no holes
unfoldable pub check_suffix : List DeadManNotification → ℕ → Result (Unit {0})
check_suffix [] next = ok tt
check_suffix (n ∷ ns) next = do
  guard ((last_of n ns).notification_id + 1 == next) value_error
  guard (n.notification_id + length (n ∷ ns) == (last_of n ns).notification_id + 1) value_error

-- the kinds behind the oldest pending intent
unfoldable pub check_no_recovered : List DeadManNotification → Result (Unit {0})
check_no_recovered [] = ok tt
check_no_recovered (n ∷ ns) =
    guard (not (is_recovered_kind n.kind)) value_error >> check_no_recovered ns

-- the loop over `enumerate(pending_notifications)`
unfoldable pub check_kinds : List DeadManNotification → Result (Unit {0})
unfolding check_no_recovered
check_kinds [] = ok tt
check_kinds (n ∷ ns) = check_no_recovered ns

unfoldable pub check_dates : DateTime → List DeadManNotification → Result (Unit {0})
check_dates anchor [] = ok tt
check_dates anchor (n ∷ ns) =
    guard (not (before anchor n.transition.at)) value_error >> check_dates anchor ns

unfoldable pub check_anchor :
    DeadManState → Option DateTime → List DeadManNotification → Result (Unit {0})
unfolding require_aware check_dates
check_anchor state none ns = guard (is_unknown state) value_error
check_anchor state (some anchor) ns = require_aware anchor >> check_dates anchor ns

-- the canonical initial form of UNKNOWN
unfoldable pub check_unknown :
    DeadManState → Option DateTime → List DeadManNotification → ℕ → Result (Unit {0})
check_unknown unknown none [] next = guard (next == 1) value_error
check_unknown unknown _ _ next = err value_error
check_unknown _ anchor ns next = ok tt

-- the binding of a DOWN status: `tail` is the newest pending intent
abbrev dated_at : Option DateTime → DateTime → Bool
dated_at none d = false
dated_at (some anchor) d = same_instant d anchor

unfoldable pub check_outage :
    DeadManCurrentDown → Option DateTime → List DeadManNotification → ℕ → Result (Unit {0})
check_outage c anchor [] next = do
  guard (c.notification_id + 1 == next) value_error
  guard c.acknowledged value_error
check_outage c anchor (n ∷ ns) next = do
  guard (c.notification_id + 1 == next) value_error
  guard (not c.acknowledged) value_error
  let tail = last_of n ns
  guard (tail.notification_id == c.notification_id) value_error
  guard (not (is_recovered_kind tail.kind)) value_error
  guard (dated_at anchor tail.transition.at) value_error

unfoldable pub check_binding :
    DeadManState
    → Option DeadManCurrentDown
    → Option DateTime
    → List DeadManNotification
    → ℕ
    → Result (Unit {0})
unfolding check_outage
check_binding down none anchor ns next = err value_error
check_binding down (some c) anchor ns next = check_outage c anchor ns next
check_binding _ none anchor ns next = ok tt
check_binding _ (some c) anchor ns next = err value_error

unfoldable pub check_status : DeadManStatus → Result (Unit {0})
check_status s = do
  check_streaks s.state s.consecutive_failures s.consecutive_successes
  check_increasing none s.pending_notifications
  require_notification_id s.next_notification_id
  check_suffix s.pending_notifications s.next_notification_id
  check_kinds s.pending_notifications
  check_anchor s.state s.state_changed_at s.pending_notifications
  check_unknown s.state s.state_changed_at s.pending_notifications s.next_notification_id
  check_binding s.state s.current_down s.state_changed_at s.pending_notifications
      s.next_notification_id

-- `DeadManStatus(...)` and `replace(status, ...)`
unfoldable pub create_status : DeadManStatus → Result DeadManStatus
create_status s = construct check_status s

unfoldable pub initial_deadman_status : DeadManStatus
initial_deadman_status = record {
  state = unknown;
  consecutive_failures = 0;
  consecutive_successes = 0;
  state_changed_at = none;
  pending_notifications = [];
  next_notification_id = 1;
  current_down = none;
}
