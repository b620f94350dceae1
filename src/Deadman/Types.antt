-- ===== src/Deadman/Types.antt =====
-- The value types of src/hermes_sentinel/deadman.py below the status, with their `__post_init__`
-- checks. The `isinstance` checks are the types of the fields; an identifier that is a natural
-- number leaves of `_require_notification_id` the test for 0.
use hermes_sentinel.Base.{ℕ, Bool, true, false, not, ◌&&◌, leb, ◌==◌}
use hermes_sentinel.Result.{Result, value_error, guard, construct, ◌>>◌}
use hermes_sentinel.DateTime.{DateTime, is_aware}

pub data DeadManState : Type 0 where
  unknown up down : DeadManState

pub data DeadManProbeOutcome : Type 0 where
  healthy failed : DeadManProbeOutcome

pub data DeadManNotificationKind : Type 0 where
  down_kind recovered_kind : DeadManNotificationKind

abbrev pub is_down : DeadManState → Bool
is_down down = true
is_down _ = false

abbrev pub is_unknown : DeadManState → Bool
is_unknown unknown = true
is_unknown _ = false

abbrev pub is_recovered_kind : DeadManNotificationKind → Bool
is_recovered_kind recovered_kind = true
is_recovered_kind down_kind = false

-- `DOWN_CONFIRMATIONS` and `RECOVERY_CONFIRMATIONS`
abbrev pub down_confirmations : ℕ
down_confirmations = 3

abbrev pub recovery_confirmations : ℕ
recovery_confirmations = 2

-- `_require_aware`
unfoldable pub require_aware : DateTime → Result (Unit {0})
require_aware d = guard (is_aware d) value_error

-- `_require_notification_id`
unfoldable pub require_notification_id : ℕ → Result (Unit {0})
require_notification_id n = guard (leb 1 n) value_error

-- `_CANONICAL_TRANSITIONS`
abbrev pub is_canonical : DeadManState → DeadManState → Bool
is_canonical unknown down = true
is_canonical up down = true
is_canonical down up = true
is_canonical _ _ = false

pub record DeadManTransition : Type 0 where
  pub from_state : DeadManState
  pub to_state : DeadManState
  pub at : DateTime

unfoldable pub check_transition : DeadManTransition → Result (Unit {0})
unfolding require_aware
check_transition t = do guard (is_canonical t.from_state t.to_state) value_error; require_aware t.at

abbrev pub is_down_event : DeadManTransition → Bool
is_down_event t = is_down t.to_state

abbrev is_up : DeadManState → Bool
is_up up = true
is_up _ = false

abbrev pub is_recovery_event : DeadManTransition → Bool
is_recovery_event t = is_down t.from_state && is_up t.to_state

pub record DeadManNotification : Type 0 where
  pub notification_id : ℕ
  pub kind : DeadManNotificationKind
  pub transition : DeadManTransition

-- the two branches on `kind`
abbrev kind_agrees : DeadManNotificationKind → DeadManTransition → Bool
kind_agrees down_kind t = is_down_event t
kind_agrees recovered_kind t = is_recovery_event t

unfoldable pub check_notification : DeadManNotification → Result (Unit {0})
unfolding require_notification_id
check_notification n = do
  require_notification_id n.notification_id
  guard (kind_agrees n.kind n.transition) value_error
  guard (not (is_recovered_kind n.kind && n.notification_id == 1)) value_error

pub record DeadManCurrentDown : Type 0 where
  pub notification_id : ℕ
  pub acknowledged : Bool

unfoldable pub check_current_down : DeadManCurrentDown → Result (Unit {0})
unfolding require_notification_id
check_current_down c = require_notification_id c.notification_id

unfoldable pub create_transition : DeadManState → DeadManState → DateTime → Result DeadManTransition
unfolding check_transition
create_transition from to at =
    construct check_transition (record { from_state = from; to_state = to; at = at })

unfoldable pub create_notification :
    ℕ → DeadManNotificationKind → DeadManTransition → Result DeadManNotification
unfolding check_notification
create_notification id kind transition =
    construct check_notification
      (record { notification_id = id; kind = kind; transition = transition })

unfoldable pub create_current_down : ℕ → Bool → Result DeadManCurrentDown
unfolding check_current_down
create_current_down id acknowledged =
    construct check_current_down (record { notification_id = id; acknowledged = acknowledged })
