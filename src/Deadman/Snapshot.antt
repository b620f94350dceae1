-- ===== src/Deadman/Snapshot.antt =====
-- `encode_deadman_status` and `decode_deadman_status` of src/hermes_sentinel/deadman.py. The syntax
-- of JSON texts and of ISO 8601 texts belongs to Python's library: both are parameters, and the
-- functions here work on documents. The encoder's `sort_keys` is the order of the members below.
pub mod Encode
pub mod Decode
pub mod Fields
pub mod Sound
pub mod Canonical
pub mod RoundTrip
use hermes_sentinel.Base.{
  ℕ, ◌≡◌, String, Bool, true, false, not, List, [], ◌∷◌, Option, none, some, leb, ◌==◌, str_eq,
  if◌then◌else◌,
}
use hermes_sentinel.Result.{
  Result, ok, err, Error, value_error, state_decode_error, guard, ◌>>=◌, ◌>>◌,
}
use hermes_sentinel.DateTime.{DateTime, is_aware, utc, to_utc}
use hermes_sentinel.Json.{
  Json, null, bool, int, negative, text, array, object, Elements, nil, cons, Members, end, member,
  is_acceptable, is_plain, exact_keys, get,
}
use hermes_sentinel.Deadman.Types.{
  DeadManState, DeadManNotificationKind, DeadManTransition, DeadManNotification, DeadManCurrentDown,
  unknown, up, down, down_kind, recovered_kind, create_transition, create_notification,
  create_current_down,
}
use hermes_sentinel.Deadman.Status.{DeadManStatus, create_status}

-- Python's `json` and `datetime` texts: what is written is read back, of documents without floats and
-- with objects and arrays nested at most four deep. The digit limit of `int` is not modelled.
pub record TextFormats : Type 1 where
  pub Text : Type 0
  pub dumps : Json → Text
  pub loads : Text → Option Json
  pub isoformat : DateTime → String
  pub fromisoformat : String → Option DateTime
  pub loads-dumps :
      (j : Json) → is_acceptable j ≡ true → is_plain 4 j ≡ true → loads (dumps j) ≡ some j
  pub fromisoformat-isoformat :
      (n : ℕ)
      → fromisoformat (isoformat (record { instant = n; tzinfo = some utc }))
        ≡ some (record { instant = n; tzinfo = some utc })

-- `_SCHEMA_VERSION`
abbrev pub schema_version : ℕ
schema_version = 4

-- `_STATE_FIELDS`, `_TRANSITION_FIELDS`, `_NOTIFICATION_FIELDS` and `_CURRENT_DOWN_FIELDS`
abbrev pub state_fields : List String
state_fields =
    "schema_version" ∷ "state" ∷ "consecutive_failures" ∷ "consecutive_successes"
    ∷ "state_changed_at" ∷ "pending_notifications" ∷ "next_notification_id" ∷ "current_down" ∷ []

abbrev pub transition_fields : List String
transition_fields = "from_state" ∷ "to_state" ∷ "at" ∷ []

abbrev pub notification_fields : List String
notification_fields = "notification_id" ∷ "kind" ∷ "transition" ∷ []

abbrev pub current_down_fields : List String
current_down_fields = "notification_id" ∷ "acknowledged" ∷ []

-- the enum values
abbrev pub state_value : DeadManState → String
state_value unknown = "unknown"
state_value up = "up"
state_value down = "down"

abbrev pub kind_value : DeadManNotificationKind → String
kind_value down_kind = "down"
kind_value recovered_kind = "recovered"
