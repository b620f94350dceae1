-- ===== src/Deadman/Status/Raises.antt =====
-- The `__post_init__` checks of src/hermes_sentinel/deadman.py raise nothing but `ValueError`.
use hermes_sentinel.Base.{ℕ, ◌≡◌, List, [], ◌∷◌, Option, none, some, arith}
use hermes_sentinel.Result.{Result, err, Error, value_error}
use hermes_sentinel.DateTime.{DateTime}
use hermes_sentinel.Deadman.Types.{
  DeadManState, DeadManTransition, DeadManNotification, DeadManCurrentDown, check_transition,
  check_notification, check_current_down, require_notification_id, unknown, up, down,
}
use hermes_sentinel.Deadman.Status.{
  DeadManStatus, check_streaks, check_increasing, check_suffix, check_no_recovered, check_kinds,
  check_dates, check_anchor, check_unknown, check_binding, check_status,
}

-- `__post_init__` raises nothing but `ValueError`.
abbrev pub OnlyValue : Result (Unit {0}) → Type 0
OnlyValue r = (e : Error) → r ≡ err e → e ≡ value_error

pub check_transition-OnlyValue : (t : DeadManTransition) → OnlyValue (check_transition t)
unfolding check_transition
check_transition-OnlyValue t e h = ground arith

pub check_notification-OnlyValue : (n : DeadManNotification) → OnlyValue (check_notification n)
unfolding check_notification
check_notification-OnlyValue n e h = ground arith

pub check_current_down-OnlyValue : (c : DeadManCurrentDown) → OnlyValue (check_current_down c)
unfolding check_current_down
check_current_down-OnlyValue c e h = ground arith

check_streaks-OnlyValue : (st : DeadManState) (f g : ℕ) → OnlyValue (check_streaks st f g)
unfolding check_streaks
check_streaks-OnlyValue st f g e h = ground arith

check_increasing-OnlyValue :
    (p : Option ℕ) (ns : List DeadManNotification) → OnlyValue (check_increasing p ns)
unfolding check_increasing
check_increasing-OnlyValue p [] e h = ground arith
check_increasing-OnlyValue none (n ∷ ns) e h =
    check_increasing-OnlyValue (some n.notification_id) ns e h
check_increasing-OnlyValue (some p) (n ∷ ns) e h =
    ground (arith, check_increasing-OnlyValue (some n.notification_id) ns e)

check_suffix-OnlyValue :
    (ns : List DeadManNotification) (next : ℕ) → OnlyValue (check_suffix ns next)
unfolding check_suffix
check_suffix-OnlyValue [] next e h = ground arith
check_suffix-OnlyValue (n ∷ ns) next e h = ground arith

check_no_recovered-OnlyValue : (ns : List DeadManNotification) → OnlyValue (check_no_recovered ns)
unfolding check_no_recovered
check_no_recovered-OnlyValue [] e h = ground arith
check_no_recovered-OnlyValue (n ∷ ns) e h = ground (arith, check_no_recovered-OnlyValue ns e)

check_kinds-OnlyValue : (ns : List DeadManNotification) → OnlyValue (check_kinds ns)
unfolding check_kinds
check_kinds-OnlyValue [] e h = ground arith
check_kinds-OnlyValue (n ∷ ns) e h = check_no_recovered-OnlyValue ns e h

check_dates-OnlyValue :
    (a : DateTime) (ns : List DeadManNotification) → OnlyValue (check_dates a ns)
unfolding check_dates
check_dates-OnlyValue a [] e h = ground arith
check_dates-OnlyValue a (n ∷ ns) e h = ground (arith, check_dates-OnlyValue a ns e)

check_anchor-OnlyValue :
    (st : DeadManState) (a : Option DateTime) (ns : List DeadManNotification)
    → OnlyValue (check_anchor st a ns)
unfolding check_anchor
check_anchor-OnlyValue st none ns e h = ground arith
check_anchor-OnlyValue st (some a) ns e h = ground (arith, check_dates-OnlyValue a ns e)

check_unknown-OnlyValue :
    (st : DeadManState) (a : Option DateTime) (ns : List DeadManNotification) (next : ℕ)
    → OnlyValue (check_unknown st a ns next)
unfolding check_unknown
check_unknown-OnlyValue unknown none [] next e h = ground arith
check_unknown-OnlyValue unknown none (n ∷ ns) next e h = ground arith
check_unknown-OnlyValue unknown (some a) ns next e h = ground arith
check_unknown-OnlyValue up a ns next e h = ground arith
check_unknown-OnlyValue down a ns next e h = ground arith

check_binding-OnlyValue :
    (st : DeadManState) (c : Option DeadManCurrentDown) (a : Option DateTime)
    (ns : List DeadManNotification) (next : ℕ)
    → OnlyValue (check_binding st c a ns next)
unfolding check_binding
check_binding-OnlyValue down (some c) a [] next e h = ground arith
check_binding-OnlyValue down (some c) a (n ∷ ns) next e h = ground arith
check_binding-OnlyValue down none a ns next e h = ground arith
check_binding-OnlyValue up c a ns next e h = ground arith
check_binding-OnlyValue unknown c a ns next e h = ground arith

module _ (s : DeadManStatus) where
  open s use {
    state, consecutive_failures, consecutive_successes, state_changed_at, pending_notifications,
    next_notification_id, current_down,
  }

  pub check_status-OnlyValue : OnlyValue (check_status s)
  unfolding check_status require_notification_id
  check_status-OnlyValue e h = ground (
    arith,
    check_streaks-OnlyValue state consecutive_failures consecutive_successes e,
    check_increasing-OnlyValue none pending_notifications e,
    check_suffix-OnlyValue pending_notifications next_notification_id e,
    check_kinds-OnlyValue pending_notifications e,
    check_anchor-OnlyValue state state_changed_at pending_notifications e,
    check_unknown-OnlyValue state state_changed_at pending_notifications next_notification_id e,
    check_binding-OnlyValue state current_down state_changed_at pending_notifications
        next_notification_id e,
  )
