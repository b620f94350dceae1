-- ===== src/Deadman/Snapshot/RoundTrip.antt =====
-- Decoding an encoded status restores its canonical form.
use hermes_sentinel.Base.{◌≡◌, refl, ap, true, List, [], ◌∷◌, Option, none, some, All, arith}
use hermes_sentinel.Result.{ok, ◌>>=◌}
use hermes_sentinel.DateTime.{DateTime, to_utc}
use hermes_sentinel.Json.{
  text, is_acceptable, acceptable_elements, is_plain, plain_elements, has_key, exact_keys, get,
}
use hermes_sentinel.Deadman.Types.{
  DeadManState, DeadManNotificationKind, DeadManTransition, DeadManNotification, DeadManCurrentDown,
  unknown, up, down, down_kind, recovered_kind, check_notification, check_transition,
  create_transition, create_notification, create_current_down, check_current_down,
}
use hermes_sentinel.Deadman.Status.{DeadManStatus}
use hermes_sentinel.Deadman.Status.Valid.{IsIntent, IsBinding, IsStatus, create_status-accepts}
use hermes_sentinel.Deadman.Snapshot.{TextFormats, state_value, kind_value}
use hermes_sentinel.Deadman.Snapshot.Encode.{
  encode_current_down, encode_datetime, encode_optional_datetime, encode_transition,
  encode_notification, encode_notifications, encode_document, encode_deadman_status,
}
use hermes_sentinel.Deadman.Snapshot.Decode.{
  decode_state_value, decode_notification_kind, decode_counter, decode_notification_id, decode_bool,
  require_exact_keys, check_version, decode_current_down, aware_or_error, decode_datetime,
  decode_optional_datetime, decode_transition, decode_notification, decode_elements,
  decode_notifications, decode_fields, decode_document, decode_loaded, decode_deadman_status,
}
use hermes_sentinel.Deadman.Snapshot.Canonical.{
  canonical_transition, canonical_notification, canonical_pending, canonical_anchor, canonical,
  IsIntent-canonical, IsStatus-canonical,
}

decode_state_value-state_value :
    (st : DeadManState) → decode_state_value (text (state_value st)) ≡ ok st
unfolding decode_state_value
decode_state_value-state_value unknown = refl
decode_state_value-state_value up = refl
decode_state_value-state_value down = refl

decode_notification_kind-kind_value :
    (k : DeadManNotificationKind) → decode_notification_kind (text (kind_value k)) ≡ ok k
unfolding decode_notification_kind
decode_notification_kind-kind_value down_kind = refl
decode_notification_kind-kind_value recovered_kind = refl

decode-encode_current_down :
    (c : Option DeadManCurrentDown)
    → IsBinding c
    → decode_current_down (encode_current_down c) ≡ ok c
unfolding decode_current_down encode_current_down require_exact_keys exact_keys get
    decode_notification_id decode_bool create_current_down check_current_down
decode-encode_current_down none h = refl
decode-encode_current_down (some c) h = ground (arith, h)

module _ (formats : TextFormats) where
  open formats use {loads-dumps, fromisoformat-isoformat}

  decode-encode_datetime :
      (d : DateTime) → decode_datetime formats (encode_datetime formats d) ≡ ok (to_utc d)
  unfolding decode_datetime aware_or_error encode_datetime
  decode-encode_datetime d = rw (fromisoformat-isoformat d.instant)

  decode-encode_optional_datetime :
      (a : Option DateTime)
      → decode_optional_datetime formats (encode_optional_datetime formats a)
        ≡ ok (canonical_anchor a)
  unfolding decode_optional_datetime encode_optional_datetime encode_datetime decode_datetime
  decode-encode_optional_datetime none = refl
  decode-encode_optional_datetime (some d) =
      ap (λ r. r >>= λ x. ok (some x)) (decode-encode_datetime d)

  decode-encode_transition :
      (t : DeadManTransition)
      → check_transition t ≡ ok tt
      → decode_transition formats (encode_transition formats t) ≡ ok (canonical_transition t)
  unfolding decode_transition encode_transition require_exact_keys exact_keys get create_transition
      check_transition
  decode-encode_transition t h =
      rw
        (
          decode_state_value-state_value t.from_state,
          decode_state_value-state_value t.to_state,
          decode-encode_datetime t.at,
        )
        (ground arith)

  decode-encode_notification :
      (n : DeadManNotification)
      → IsIntent n
      → decode_notification formats (encode_notification formats n) ≡ ok (canonical_notification n)
  unfolding decode_notification encode_notification require_exact_keys exact_keys get
      create_notification decode_notification_id check_notification
  decode-encode_notification n h =
      rw
        (
          decode_notification_kind-kind_value n.kind,
          decode-encode_transition n.transition h.transition,
        )
        (ground (arith, h, IsIntent-canonical n h))

  decode-encode_notifications :
      (ns : List DeadManNotification)
      → All IsIntent ns
      → decode_elements formats (encode_notifications formats ns) ≡ ok (canonical_pending ns)
  unfolding decode_elements encode_notifications
  decode-encode_notifications [] h = refl
  decode-encode_notifications (n ∷ ns) h =
      rw (decode-encode_notification n h.0, decode-encode_notifications ns h.1)

  -- documents that the encoder writes have no duplicate key and no non-finite constant
  encode_notifications-acceptable :
      (ns : List DeadManNotification) → acceptable_elements (encode_notifications formats ns) ≡ true
  unfolding acceptable_elements encode_notifications encode_notification encode_transition
      encode_datetime has_key
  encode_notifications-acceptable [] = refl
  encode_notifications-acceptable (n ∷ ns) = rw (encode_notifications-acceptable ns)

  encode_current_down-acceptable :
      (c : Option DeadManCurrentDown) → is_acceptable (encode_current_down c) ≡ true
  unfolding is_acceptable encode_current_down has_key
  encode_current_down-acceptable none = refl
  encode_current_down-acceptable (some c) = refl

  encode_optional_datetime-acceptable :
      (a : Option DateTime) → is_acceptable (encode_optional_datetime formats a) ≡ true
  unfolding is_acceptable encode_optional_datetime encode_datetime
  encode_optional_datetime-acceptable none = refl
  encode_optional_datetime-acceptable (some a) = refl

  encode_document-acceptable :
      (s : DeadManStatus) → is_acceptable (encode_document formats s) ≡ true
  unfolding is_acceptable encode_document has_key
  encode_document-acceptable s = rw (
    encode_current_down-acceptable s.current_down,
    encode_notifications-acceptable s.pending_notifications,
    encode_optional_datetime-acceptable s.state_changed_at,
  )

  encode_notifications-plain :
      (ns : List DeadManNotification) → plain_elements 2 (encode_notifications formats ns) ≡ true
  unfolding plain_elements encode_notifications encode_notification encode_transition
      encode_datetime
  encode_notifications-plain [] = refl
  encode_notifications-plain (n ∷ ns) = rw (encode_notifications-plain ns)

  encode_current_down-plain :
      (c : Option DeadManCurrentDown) → is_plain 3 (encode_current_down c) ≡ true
  unfolding is_plain encode_current_down
  encode_current_down-plain none = refl
  encode_current_down-plain (some c) = refl

  encode_optional_datetime-plain :
      (a : Option DateTime) → is_plain 3 (encode_optional_datetime formats a) ≡ true
  unfolding is_plain encode_optional_datetime encode_datetime
  encode_optional_datetime-plain none = refl
  encode_optional_datetime-plain (some a) = refl

  encode_document-plain : (s : DeadManStatus) → is_plain 4 (encode_document formats s) ≡ true
  unfolding is_plain encode_document
  encode_document-plain s = rw (
    encode_current_down-plain s.current_down,
    encode_notifications-plain s.pending_notifications,
    encode_optional_datetime-plain s.state_changed_at,
  )

  decode-encode_document :
      (s : DeadManStatus)
      → IsStatus s
      → decode_document formats (encode_document formats s) ≡ ok (canonical s)
  unfolding decode_document encode_document require_exact_keys exact_keys get check_version
      decode_fields decode_counter decode_notification_id decode_notifications
  decode-encode_document s v =
      rw
        (
          decode_state_value-state_value s.state,
          decode-encode_optional_datetime s.state_changed_at,
          decode-encode_notifications s.pending_notifications v.intents,
          decode-encode_current_down s.current_down v.binding,
        )
        (ground (
          arith,
          v.snapshot.allocated,
          create_status-accepts (canonical s) (IsStatus-canonical s v).snapshot,
        ))

  -- A status object survives being written and read: decoding its encoding returns its canonical
  -- form, the same status with every timestamp at the offset UTC and the same instant.
  pub decode-encode :
      (s : DeadManStatus)
      → IsStatus s
      → decode_deadman_status formats (encode_deadman_status formats s) ≡ ok (canonical s)
  unfolding decode_deadman_status decode_loaded encode_deadman_status
  decode-encode s v =
      rw
        (
          loads-dumps (encode_document formats s) (encode_document-acceptable s)
              (encode_document-plain s),
          encode_document-acceptable s,
        )
        (decode-encode_document s v)
