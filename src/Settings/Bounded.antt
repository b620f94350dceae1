-- ===== src/Settings/Bounded.antt =====
-- The JSON boundary of src/hermes_sentinel/settings.py raises the settings error only, and the
-- constructors of src/hermes_sentinel/config.py value errors only.
use hermes_sentinel.Base.{
  ℕ, ◌≡◌, refl, ◌⊎◌, inl, inr, String, not, List, [], ◌∷◌, leb, arith, Bool-cases,
}
use hermes_sentinel.Result.{Result, err, Error, value_error, duplicate_token_error, settings_error}
use hermes_sentinel.Result.Ensures.{Ensures, returns, raises, Ensures-bind, Ensures-guard}
use hermes_sentinel.Float.{is_finite}
use hermes_sentinel.Json.{Json, null, int, negative, real, text, array, object, Members, has_key}
use hermes_sentinel.Domain.{require_non_empty}
use hermes_sentinel.Config.{
  require_positive, require_threshold, require_positive_int, HeartbeatSettings, check_heartbeat,
  ExternalCheckSettings, check_external, Thresholds, check_thresholds, HostConfig, all_non_empty,
  check_host,
}
use hermes_sentinel.Deadman.Snapshot.Fields.{Anything, get-Ensures}
use hermes_sentinel.Settings.{float_overflow}
use hermes_sentinel.Settings.Fields.{
  accepted, json_object, json_array, json_string, json_number, json_int, optional_field,
  number_or_null,
}

-- `CentralSettingsError`
abbrev pub Bounded : Error → Type 0
Bounded e = e ≡ settings_error

-- what a constructor may raise
abbrev pub Refusal : Error → Type 0
Refusal e = (e ≡ value_error) ⊎ (e ≡ duplicate_token_error)

pub accepted-Ensures :
    {A : Type 0} {Q : A → Type 0} {r : Result A}
    → Ensures Q Refusal r
    → Ensures Q Bounded (accepted r)
accepted-Ensures (returns q) = returns q
accepted-Ensures (raises (inl p)) = rw p (raises refl)
accepted-Ensures (raises (inr p)) = rw p (raises refl)

pub check_heartbeat-OnlyValue :
    (h : HeartbeatSettings) (e : Error) → check_heartbeat h ≡ err e → e ≡ value_error
unfolding check_heartbeat require_positive
check_heartbeat-OnlyValue h e p = ground arith

pub check_external-OnlyValue :
    (x : ExternalCheckSettings) (e : Error) → check_external x ≡ err e → e ≡ value_error
unfolding check_external require_positive require_positive_int require_non_empty
check_external-OnlyValue x e p = ground arith

pub check_thresholds-OnlyValue :
    (t : Thresholds) (e : Error) → check_thresholds t ≡ err e → e ≡ value_error
unfolding check_thresholds require_positive require_threshold
check_thresholds-OnlyValue t e p = ground arith

pub all_non_empty-OnlyValue :
    (ss : List String) (e : Error) → all_non_empty ss ≡ err e → e ≡ value_error
unfolding require_non_empty
all_non_empty-OnlyValue [] e p = cc
all_non_empty-OnlyValue (s ∷ ss) e p = ground (arith, all_non_empty-OnlyValue ss e)

pub check_host-OnlyValue : (h : HostConfig) (e : Error) → check_host h ≡ err e → e ≡ value_error
unfolding check_host require_non_empty
check_host-OnlyValue h e p = ground (arith, all_non_empty-OnlyValue h.services e)

pub json_number-Ensures : (j : Json) → Ensures Anything Bounded (json_number j)
unfolding json_number
json_number-Ensures (int n) = Ensures-guard (not (leb float_overflow n)) _ refl (λ _. returns tt)
json_number-Ensures (negative n) =
    Ensures-guard (not (leb float_overflow (ℕ.suc n))) _ refl (λ _. returns tt)
json_number-Ensures (real v) = Ensures-guard (is_finite v) _ refl (λ _. returns tt)
json_number-Ensures _ = raises refl

pub json_object-Ensures : (j : Json) → Ensures Anything Bounded (json_object j)
unfolding json_object
json_object-Ensures (object m) = returns tt
json_object-Ensures _ = raises refl

pub json_array-Ensures : (j : Json) → Ensures Anything Bounded (json_array j)
unfolding json_array
json_array-Ensures (array m) = returns tt
json_array-Ensures _ = raises refl

pub json_string-Ensures : (j : Json) → Ensures Anything Bounded (json_string j)
unfolding json_string
json_string-Ensures (text m) = returns tt
json_string-Ensures _ = raises refl

pub json_int-Ensures : (j : Json) → Ensures Anything Bounded (json_int j)
unfolding json_int
json_int-Ensures (int m) = returns tt
json_int-Ensures _ = raises refl

pub number_or_null-Ensures : (j : Json) → Ensures Anything Bounded (number_or_null j)
number_or_null-Ensures null = returns tt
number_or_null-Ensures j = Ensures-bind _ (json_number-Ensures j) (λ v _. returns tt)

pub optional_field-Ensures :
    {A : Type 0} {Q : A → Type 0} (parse : Json → Result A) (key : String) (default : A)
    (m : Members)
    → ((j : Json) → Ensures Q Bounded (parse j))
    → Q default
    → Ensures Q Bounded (optional_field parse key default m)
unfolding optional_field
optional_field-Ensures parse key default m p q = elim (Bool-cases (has_key key m)) [
  | inl h ↦ rw h (Ensures-bind _ (get-Ensures key m h) (λ j _. p j))
  | inr h ↦ rw h (returns q)
]
