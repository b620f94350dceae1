-- ===== src/Deadman/Snapshot/Encode.antt =====
-- The encoder of src/hermes_sentinel/deadman.py: `encode_deadman_status` and its helpers.
use hermes_sentinel.Base.{List, [], ◌∷◌, Option, none, some}
use hermes_sentinel.DateTime.{DateTime, to_utc}
use hermes_sentinel.Json.{
  Json, null, bool, int, text, array, object, Elements, nil, cons, end, member,
}
use hermes_sentinel.Deadman.Types.{DeadManTransition, DeadManNotification, DeadManCurrentDown}
use hermes_sentinel.Deadman.Status.{DeadManStatus}
use hermes_sentinel.Deadman.Snapshot.{TextFormats, schema_version, state_value, kind_value}

unfoldable pub encode_current_down : Option DeadManCurrentDown → Json
encode_current_down none = null
encode_current_down (some c) = object (
    member "acknowledged" (bool c.acknowledged)
      (member "notification_id" (int c.notification_id) end))

module _ (formats : TextFormats) where
  open formats use {Text, dumps, isoformat}

  -- `_encode_datetime`
  unfoldable pub encode_datetime : DateTime → Json
  encode_datetime d = text (isoformat (to_utc d))

  unfoldable pub encode_optional_datetime : Option DateTime → Json
  encode_optional_datetime none = null
  encode_optional_datetime (some d) = encode_datetime d

  unfoldable pub encode_transition : DeadManTransition → Json
  encode_transition t = object (
      member "at" (encode_datetime t.at) (
        member "from_state" (text (state_value t.from_state))
          (member "to_state" (text (state_value t.to_state)) end)))

  unfoldable pub encode_notification : DeadManNotification → Json
  encode_notification n = object (
      member "kind" (text (kind_value n.kind)) (
        member "notification_id" (int n.notification_id)
          (member "transition" (encode_transition n.transition) end)))

  unfoldable pub encode_notifications : List DeadManNotification → Elements
  encode_notifications [] = nil
  encode_notifications (n ∷ ns) = cons (encode_notification n) (encode_notifications ns)

  unfoldable pub encode_document : DeadManStatus → Json
  encode_document s = object (
      member "consecutive_failures" (int s.consecutive_failures) (
        member "consecutive_successes" (int s.consecutive_successes) (
          member "current_down" (encode_current_down s.current_down) (
            member "next_notification_id" (int s.next_notification_id) (
              member "pending_notifications" (array (encode_notifications s.pending_notifications))
                (member "schema_version" (int schema_version) (
                  member "state" (text (state_value s.state)) (
                    member "state_changed_at" (encode_optional_datetime s.state_changed_at)
                      end))))))))

  unfoldable pub encode_deadman_status : DeadManStatus → Text
  encode_deadman_status s = dumps (encode_document s)
