-- ===== src/Deadman/Snapshot/Fields.antt =====
-- The field decoders of src/hermes_sentinel/deadman.py raise nothing but `DeadManStateDecodeError`.
use hermes_sentinel.Base.{
  ℕ, ◌≡◌, refl, ◌⊎◌, inl, inr, String, Bool, true, List, [], ◌∷◌, some, All, arith, Bool-cases,
  str_eq, ◌==◌, leb,
}
use hermes_sentinel.Result.{Result, ok, Error, value_error, state_decode_error}
use hermes_sentinel.Result.Ensures.{
  Ensures, returns, raises, Ensures-bind, Ensures-guard, Ensures-if, Ensures-construct,
}
use hermes_sentinel.DateTime.{DateTime}
use hermes_sentinel.Json.{
  Json, null, bool, int, text, object, Members, end, member, has_key, keys_cover, exact_keys, get,
}
use hermes_sentinel.Deadman.Types.{
  DeadManState, DeadManNotificationKind, DeadManTransition, DeadManNotification, DeadManCurrentDown,
  check_transition, check_notification, check_current_down, create_transition, create_notification,
  create_current_down,
}
use hermes_sentinel.Deadman.Status.{DeadManStatus, check_status, create_status}
use hermes_sentinel.Deadman.Status.Checked.{check_status_iff}
use hermes_sentinel.Deadman.Status.Raises.{
  check_transition-OnlyValue, check_notification-OnlyValue, check_current_down-OnlyValue,
  check_status-OnlyValue,
}
use hermes_sentinel.Deadman.Snapshot.{schema_version, current_down_fields}
use hermes_sentinel.Deadman.Snapshot.Decode.{
  decode_state_value, decode_notification_kind, decode_counter, decode_notification_id, decode_bool,
  require_exact_keys, as_decode_error, check_version, decode_current_down,
}
use hermes_sentinel.Deadman.Status.Valid.{IsIntent, IsBinding, IsStatus}

abbrev pub DecodeError : Error → Type 0
DecodeError e = e ≡ state_decode_error

-- what may be raised inside a `try ... except ValueError`
abbrev pub Inner : Error → Type 0
Inner e = (e ≡ value_error) ⊎ (e ≡ state_decode_error)

pub as_decode_error-Ensures :
    {A : Type 0} {Q : A → Type 0} {r : Result A}
    → Ensures Q Inner r
    → Ensures Q DecodeError (as_decode_error r)
as_decode_error-Ensures (returns q) = returns q
as_decode_error-Ensures (raises (inl p)) = rw p (raises refl)
as_decode_error-Ensures (raises (inr p)) = rw p (raises refl)

pub inner :
    {A : Type 0} {Q : A → Type 0} {r : Result A} → Ensures Q DecodeError r → Ensures Q Inner r
inner (returns q) = returns q
inner (raises p) = raises (inr p)

pub create_transition-Ensures :
    (from to : DeadManState) (at : DateTime)
    → Ensures (λ t. check_transition t ≡ ok tt) Inner (create_transition from to at)
unfolding create_transition
create_transition-Ensures from to at =
    let t : DeadManTransition = record { from_state = from; to_state = to; at = at } in
    Ensures-construct check_transition t (λ e h. inl (check_transition-OnlyValue t e h)) (λ h. h)

pub create_notification-Ensures :
    (id : ℕ) (kind : DeadManNotificationKind) (t : DeadManTransition)
    → check_transition t ≡ ok tt
    → Ensures IsIntent Inner (create_notification id kind t)
unfolding create_notification
create_notification-Ensures id kind t good =
    let n : DeadManNotification = record { notification_id = id; kind = kind; transition = t } in
    Ensures-construct check_notification n (λ e h. inl (check_notification-OnlyValue n e h))
      (λ h. record { notification = h; transition = good })

create_current_down-Ensures :
    (id : ℕ) (flag : Bool)
    → Ensures (λ c. check_current_down c ≡ ok tt) Inner (create_current_down id flag)
unfolding create_current_down
create_current_down-Ensures id flag =
    let c : DeadManCurrentDown = record { notification_id = id; acknowledged = flag } in
    Ensures-construct check_current_down c (λ e h. inl (check_current_down-OnlyValue c e h))
      (λ h. h)

pub create_status-Ensures :
    (s : DeadManStatus)
    → All IsIntent s.pending_notifications
    → IsBinding s.current_down
    → Ensures IsStatus Inner (create_status s)
unfolding create_status
create_status-Ensures s i b =
    Ensures-construct check_status s (λ e h. inl (check_status-OnlyValue s e h))
      (λ h. record { snapshot = (check_status_iff s).0 h; intents = i; binding = b })

-- A covered key is found.
get_covered : (k : String) (m : Members) → has_key k m ≡ true → (j : Json) × (get k m ≡ ok j)
unfolding has_key get
get_covered k end h = cc
get_covered k (member i v m) h = elim (Bool-cases (str_eq i k)) [
  | inl same ↦ (v, rw same)
  | inr other ↦ let (j, e) = get_covered k m (ground arith) in (j, rw other e)
]

pub keys_cover-All :
    (fields : List String) (m : Members)
    → keys_cover fields m ≡ true
    → All (λ k. has_key k m ≡ true) fields
unfolding keys_cover
keys_cover-All [] m h = tt
keys_cover-All (f ∷ fs) m h = (ground arith, keys_cover-All fs m (ground arith))

pub exact_keys-All :
    (fields : List String) (m : Members)
    → exact_keys fields m ≡ true
    → All (λ k. has_key k m ≡ true) fields
unfolding exact_keys
exact_keys-All fields m h = keys_cover-All fields m (ground arith)

abbrev pub Anything : {A : Type 0} → A → Type 0
Anything a = Unit

pub get-Ensures :
    {E : Error → Type 0} (k : String) (m : Members)
    → has_key k m ≡ true
    → Ensures Anything E (get k m)
get-Ensures k m h = let (j, e) = get_covered k m h in rw e (returns tt)

pub decode_state_value-Ensures : (j : Json) → Ensures Anything DecodeError (decode_state_value j)
unfolding decode_state_value
decode_state_value-Ensures (text v) = Ensures-if (str_eq v "unknown") (returns tt) (
    Ensures-if (str_eq v "up") (returns tt)
      (Ensures-if (str_eq v "down") (returns tt) (raises refl)))
decode_state_value-Ensures _ = raises refl

pub decode_notification_kind-Ensures :
    (j : Json) → Ensures Anything DecodeError (decode_notification_kind j)
unfolding decode_notification_kind
decode_notification_kind-Ensures (text v) =
    Ensures-if (str_eq v "down") (returns tt)
      (Ensures-if (str_eq v "recovered") (returns tt) (raises refl))
decode_notification_kind-Ensures _ = raises refl

pub decode_counter-Ensures : (j : Json) → Ensures Anything DecodeError (decode_counter j)
unfolding decode_counter
decode_counter-Ensures (int n) = returns tt
decode_counter-Ensures _ = raises refl

pub decode_notification_id-Ensures :
    (j : Json) → Ensures Anything DecodeError (decode_notification_id j)
unfolding decode_notification_id
decode_notification_id-Ensures (int n) = Ensures-guard (leb 1 n) _ refl (λ _. returns tt)
decode_notification_id-Ensures _ = raises refl

decode_bool-Ensures : (j : Json) → Ensures Anything DecodeError (decode_bool j)
unfolding decode_bool
decode_bool-Ensures (bool b) = returns tt
decode_bool-Ensures _ = raises refl

pub check_version-Ensures : (j : Json) → Ensures Anything DecodeError (check_version j)
unfolding check_version
check_version-Ensures (int n) = elim (Bool-cases (n == schema_version)) [
  | inl e ↦ rw e (returns tt)
  | inr e ↦ rw e (raises refl)
]
check_version-Ensures _ = raises refl

pub decode_current_down-Ensures : (j : Json) → Ensures IsBinding DecodeError (decode_current_down j)
unfolding decode_current_down require_exact_keys
decode_current_down-Ensures null = returns tt
decode_current_down-Ensures (object m) =
    Ensures-guard (exact_keys current_down_fields m) _ refl λ k.
      let c = exact_keys-All current_down_fields m k in
      as_decode_error-Ensures (
        Ensures-bind _ (get-Ensures "notification_id" m c.0) λ raw_id _.
          Ensures-bind _ (inner (decode_notification_id-Ensures raw_id)) λ id _.
            Ensures-bind _ (get-Ensures "acknowledged" m c.1.0) λ raw_flag _.
              Ensures-bind _ (inner (decode_bool-Ensures raw_flag)) λ flag _.
                Ensures-bind (λ c. ok (some c)) (create_current_down-Ensures id flag)
                  (λ c h. returns h))
decode_current_down-Ensures _ = raises refl
