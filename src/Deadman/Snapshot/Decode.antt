-- ===== src/Deadman/Snapshot/Decode.antt =====
-- The decoder of src/hermes_sentinel/deadman.py: `decode_deadman_status` and its helpers.
use hermes_sentinel.Base.{
  ℕ, String, Bool, List, [], ◌∷◌, Option, none, some, leb, ◌==◌, str_eq, if◌then◌else◌,
}
use hermes_sentinel.Result.{Result, ok, err, value_error, state_decode_error, guard, ◌>>=◌, ◌>>◌}
use hermes_sentinel.DateTime.{DateTime, is_aware}
use hermes_sentinel.Json.{
  Json, null, bool, int, text, array, object, Elements, nil, cons, Members, is_acceptable,
  exact_keys, get,
}
use hermes_sentinel.Deadman.Types.{
  DeadManState, DeadManNotificationKind, DeadManTransition, DeadManNotification, DeadManCurrentDown,
  unknown, up, down, down_kind, recovered_kind, create_transition, create_notification,
  create_current_down,
}
use hermes_sentinel.Deadman.Status.{DeadManStatus, create_status}
use hermes_sentinel.Deadman.Snapshot.{
  TextFormats, schema_version, state_fields, transition_fields, notification_fields,
  current_down_fields,
}

unfoldable pub decode_state_value : Json → Result DeadManState
decode_state_value (text v) =
    if str_eq v "unknown"
    then ok unknown
    else if str_eq v "up"
    then ok up
    else if str_eq v "down"
    then ok down
    else err state_decode_error
decode_state_value _ = err state_decode_error

unfoldable pub decode_notification_kind : Json → Result DeadManNotificationKind
decode_notification_kind (text v) =
    if str_eq v "down"
    then ok down_kind
    else if str_eq v "recovered"
    then ok recovered_kind
    else err state_decode_error
decode_notification_kind _ = err state_decode_error

unfoldable pub decode_counter : Json → Result ℕ
decode_counter (int n) = ok n
decode_counter _ = err state_decode_error

unfoldable pub decode_notification_id : Json → Result ℕ
decode_notification_id (int n) = guard (leb 1 n) state_decode_error >> ok n
decode_notification_id _ = err state_decode_error

unfoldable pub decode_bool : Json → Result Bool
decode_bool (bool b) = ok b
decode_bool _ = err state_decode_error

-- `_require_exact_keys`
unfoldable pub require_exact_keys : List String → Members → Result (Unit {0})
require_exact_keys fields m = guard (exact_keys fields m) state_decode_error

-- `except ValueError as error: raise DeadManStateDecodeError(...)`
abbrev pub as_decode_error {ℓ} : {A : Type ℓ} → Result A → Result A
as_decode_error (ok a) = ok a
as_decode_error (err value_error) = err state_decode_error
as_decode_error (err e) = err e

-- `schema_version` against `_SCHEMA_VERSION`
unfoldable pub check_version : Json → Result (Unit {0})
check_version (int n) = guard (n == schema_version) state_decode_error
check_version _ = err state_decode_error

unfoldable pub decode_current_down : Json → Result (Option DeadManCurrentDown)
decode_current_down null = ok none
decode_current_down (object m) = do
  require_exact_keys current_down_fields m
  as_decode_error (do
    raw_id ← get "notification_id" m
    id ← decode_notification_id raw_id
    raw_flag ← get "acknowledged" m
    flag ← decode_bool raw_flag
    current ← create_current_down id flag
    ok (some current))
decode_current_down _ = err state_decode_error

module _ (formats : TextFormats) where
  open formats use {Text, loads, fromisoformat}

  unfoldable pub aware_or_error : Option DateTime → Result DateTime
  aware_or_error none = err state_decode_error
  aware_or_error (some d) = guard (is_aware d) state_decode_error >> ok d

  unfoldable pub decode_datetime : Json → Result DateTime
  decode_datetime (text v) = aware_or_error (fromisoformat v)
  decode_datetime _ = err state_decode_error

  unfoldable pub decode_optional_datetime : Json → Result (Option DateTime)
  decode_optional_datetime null = ok none
  decode_optional_datetime j = do d ← decode_datetime j; ok (some d)

  unfoldable pub decode_transition : Json → Result DeadManTransition
  decode_transition (object m) = do
    require_exact_keys transition_fields m
    as_decode_error (do
      raw_from ← get "from_state" m
      from ← decode_state_value raw_from
      raw_to ← get "to_state" m
      to ← decode_state_value raw_to
      raw_at ← get "at" m
      at ← decode_datetime raw_at
      create_transition from to at)
  decode_transition _ = err state_decode_error

  unfoldable pub decode_notification : Json → Result DeadManNotification
  decode_notification (object m) = do
    require_exact_keys notification_fields m
    raw_kind ← get "kind" m
    kind ← decode_notification_kind raw_kind
    raw_transition ← get "transition" m
    transition ← decode_transition raw_transition
    as_decode_error (do
      raw_id ← get "notification_id" m
      id ← decode_notification_id raw_id
      create_notification id kind transition)
  decode_notification _ = err state_decode_error

  unfoldable pub decode_elements : Elements → Result (List DeadManNotification)
  decode_elements nil = ok []
  decode_elements (cons x xs) = do n ← decode_notification x; ns ← decode_elements xs; ok (n ∷ ns)

  unfoldable pub decode_notifications : Json → Result (List DeadManNotification)
  decode_notifications (array xs) = decode_elements xs
  decode_notifications _ = err state_decode_error

  -- the construction at the end of `decode_deadman_status`
  unfoldable pub decode_fields : Members → Result DeadManStatus
  decode_fields m = do
    raw_state ← get "state" m
    state ← decode_state_value raw_state
    raw_failures ← get "consecutive_failures" m
    failures ← decode_counter raw_failures
    raw_successes ← get "consecutive_successes" m
    successes ← decode_counter raw_successes
    raw_anchor ← get "state_changed_at" m
    anchor ← decode_optional_datetime raw_anchor
    raw_pending ← get "pending_notifications" m
    pending ← decode_notifications raw_pending
    raw_next ← get "next_notification_id" m
    next ← decode_notification_id raw_next
    raw_current ← get "current_down" m
    current ← decode_current_down raw_current
    create_status (record {
      state = state;
      consecutive_failures = failures;
      consecutive_successes = successes;
      state_changed_at = anchor;
      pending_notifications = pending;
      next_notification_id = next;
      current_down = current;
    })

  unfoldable pub decode_document : Json → Result DeadManStatus
  decode_document (object m) = do
    require_exact_keys state_fields m
    version ← get "schema_version" m
    check_version version
    as_decode_error (decode_fields m)
  decode_document _ = err state_decode_error

  -- `json.loads` with the two hooks
  unfoldable pub decode_loaded : Option Json → Result DeadManStatus
  decode_loaded none = err state_decode_error
  decode_loaded (some j) = guard (is_acceptable j) state_decode_error >> decode_document j

  unfoldable pub decode_deadman_status : Text → Result DeadManStatus
  decode_deadman_status payload = decode_loaded (loads payload)
