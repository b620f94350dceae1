-- ===== src/Deadman/Snapshot/Sound.antt =====
-- The decoder raises nothing but `DeadManStateDecodeError`, and returns only status objects.
use hermes_sentinel.Base.{◌≡◌, refl, true, Option, none, some, All}
use hermes_sentinel.Result.{ok}
use hermes_sentinel.Result.Ensures.{Ensures, returns, raises, Ensures-bind, Ensures-guard}
use hermes_sentinel.DateTime.{DateTime, is_aware}
use hermes_sentinel.Json.{
  Json, null, text, array, object, Elements, nil, cons, Members, has_key, exact_keys, is_acceptable,
}
use hermes_sentinel.Deadman.Types.{check_transition}
use hermes_sentinel.Deadman.Snapshot.{
  TextFormats, state_fields, transition_fields, notification_fields,
}
use hermes_sentinel.Deadman.Snapshot.Decode.{
  aware_or_error, require_exact_keys, decode_datetime, decode_optional_datetime, decode_transition,
  decode_notification, decode_elements, decode_notifications, decode_fields, decode_document,
  decode_loaded, decode_deadman_status,
}
use hermes_sentinel.Deadman.Status.Valid.{IsIntent, IsStatus}
use hermes_sentinel.Deadman.Snapshot.Fields.{
  DecodeError, Inner, as_decode_error-Ensures, inner, create_transition-Ensures,
  create_notification-Ensures, create_status-Ensures, exact_keys-All, Anything, get-Ensures,
  decode_state_value-Ensures, decode_notification_kind-Ensures, decode_counter-Ensures,
  decode_notification_id-Ensures, check_version-Ensures, decode_current_down-Ensures,
}

module _ (formats : TextFormats) where
  open formats use {Text, loads, fromisoformat}

  aware_or_error-Ensures :
      (o : Option DateTime) → Ensures Anything DecodeError (aware_or_error formats o)
  unfolding aware_or_error
  aware_or_error-Ensures none = raises refl
  aware_or_error-Ensures (some d) = Ensures-guard (is_aware d) _ refl (λ _. returns tt)

  decode_datetime-Ensures : (j : Json) → Ensures Anything DecodeError (decode_datetime formats j)
  unfolding decode_datetime
  decode_datetime-Ensures (text v) = aware_or_error-Ensures (fromisoformat v)
  decode_datetime-Ensures _ = raises refl

  decode_optional_datetime-Ensures :
      (j : Json) → Ensures Anything DecodeError (decode_optional_datetime formats j)
  unfolding decode_optional_datetime
  decode_optional_datetime-Ensures null = returns tt
  decode_optional_datetime-Ensures j =
      Ensures-bind (λ d. ok (some d)) (decode_datetime-Ensures j) (λ d _. returns tt)

  decode_transition-Ensures :
      (j : Json)
      → Ensures (λ t. check_transition t ≡ ok tt) DecodeError (decode_transition formats j)
  unfolding decode_transition require_exact_keys
  decode_transition-Ensures (object m) = Ensures-guard (exact_keys transition_fields m) _ refl λ k.
      let c = exact_keys-All transition_fields m k in
      as_decode_error-Ensures (
        Ensures-bind _ (get-Ensures "from_state" m c.0) λ raw_from _.
          Ensures-bind _ (inner (decode_state_value-Ensures raw_from)) λ from _.
            Ensures-bind _ (get-Ensures "to_state" m c.1.0) λ raw_to _.
              Ensures-bind _ (inner (decode_state_value-Ensures raw_to)) λ to _.
                Ensures-bind _ (get-Ensures "at" m c.1.1.0) λ raw_at _.
                  Ensures-bind _ (inner (decode_datetime-Ensures raw_at))
                    λ at _. create_transition-Ensures from to at)
  decode_transition-Ensures _ = raises refl

  decode_notification-Ensures :
      (j : Json) → Ensures IsIntent DecodeError (decode_notification formats j)
  unfolding decode_notification require_exact_keys
  decode_notification-Ensures (object m) =
      Ensures-guard (exact_keys notification_fields m) _ refl λ k.
        let c = exact_keys-All notification_fields m k in
        Ensures-bind _ (get-Ensures "kind" m c.1.0) λ raw_kind _.
          Ensures-bind _ (decode_notification_kind-Ensures raw_kind) λ kind _.
            Ensures-bind _ (get-Ensures "transition" m c.1.1.0) λ raw_transition _.
              Ensures-bind _ (decode_transition-Ensures raw_transition) λ transition good.
                as_decode_error-Ensures (
                  Ensures-bind _ (get-Ensures "notification_id" m c.0) λ raw_id _.
                    Ensures-bind _ (inner (decode_notification_id-Ensures raw_id))
                      λ id _. create_notification-Ensures id kind transition good)
  decode_notification-Ensures _ = raises refl

  decode_elements-Ensures :
      (xs : Elements) → Ensures (All IsIntent) DecodeError (decode_elements formats xs)
  unfolding decode_elements
  decode_elements-Ensures nil = returns tt
  decode_elements-Ensures (cons x xs) =
      Ensures-bind _ (decode_notification-Ensures x)
        λ n good. Ensures-bind _ (decode_elements-Ensures xs) λ ns rest. returns (good, rest)

  decode_notifications-Ensures :
      (j : Json) → Ensures (All IsIntent) DecodeError (decode_notifications formats j)
  unfolding decode_notifications
  decode_notifications-Ensures (array xs) = decode_elements-Ensures xs
  decode_notifications-Ensures _ = raises refl

  decode_fields-Ensures :
      (m : Members)
      → All (λ k. has_key k m ≡ true) state_fields
      → Ensures IsStatus Inner (decode_fields formats m)
  unfolding decode_fields
  decode_fields-Ensures m c = Ensures-bind _ (get-Ensures "state" m c.1.0) λ raw_state _.
      Ensures-bind _ (inner (decode_state_value-Ensures raw_state)) λ state _.
        Ensures-bind _ (get-Ensures "consecutive_failures" m c.1.1.0) λ raw_failures _.
          Ensures-bind _ (inner (decode_counter-Ensures raw_failures)) λ failures _.
            Ensures-bind _ (get-Ensures "consecutive_successes" m c.1.1.1.0) λ raw_successes _.
              Ensures-bind _ (inner (decode_counter-Ensures raw_successes)) λ successes _.
                Ensures-bind _ (get-Ensures "state_changed_at" m c.1.1.1.1.0) λ raw_anchor _.
                  Ensures-bind _ (inner (decode_optional_datetime-Ensures raw_anchor)) λ anchor _.
                    Ensures-bind _ (get-Ensures "pending_notifications" m c.1.1.1.1.1.0)
                      λ raw_pending _.
                        Ensures-bind _ (inner (decode_notifications-Ensures raw_pending))
                          λ pending intents.
                            Ensures-bind _ (get-Ensures "next_notification_id" m c.1.1.1.1.1.1.0)
                              λ raw_next _.
                                Ensures-bind _ (inner (decode_notification_id-Ensures raw_next))
                                  λ next _.
                                    Ensures-bind _ (get-Ensures "current_down" m c.1.1.1.1.1.1.1.0)
                                      λ raw_current _.
                                        Ensures-bind _
                                          (inner (decode_current_down-Ensures raw_current))
                                          λ current binding. create_status-Ensures _ intents binding

  decode_document-Ensures : (j : Json) → Ensures IsStatus DecodeError (decode_document formats j)
  unfolding decode_document require_exact_keys
  decode_document-Ensures (object m) = Ensures-guard (exact_keys state_fields m) _ refl λ k.
      let c = exact_keys-All state_fields m k in
      Ensures-bind _ (get-Ensures "schema_version" m c.0) λ version _.
        Ensures-bind _ (check_version-Ensures version)
          λ _ _. as_decode_error-Ensures (decode_fields-Ensures m c)
  decode_document-Ensures _ = raises refl

  decode_loaded-Ensures : (o : Option Json) → Ensures IsStatus DecodeError (decode_loaded formats o)
  unfolding decode_loaded
  decode_loaded-Ensures none = raises refl
  decode_loaded-Ensures (some j) =
      Ensures-guard (is_acceptable j) _ refl (λ _. decode_document-Ensures j)

  -- Whatever the text, decoding returns a status object or raises `DeadManStateDecodeError`: no other
  -- error leaves the decoder, and no unsound status is returned.
  pub decode_deadman_status-Ensures :
      (payload : Text) → Ensures IsStatus DecodeError (decode_deadman_status formats payload)
  unfolding decode_deadman_status
  decode_deadman_status-Ensures payload = decode_loaded-Ensures (loads payload)
