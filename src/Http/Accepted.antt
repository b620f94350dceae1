-- ===== src/Http/Accepted.antt =====
-- Which Content-Type values src/hermes_sentinel/http_api.py accepts.
use hermes_sentinel.Base.{
  ℕ, ◌≡◌, ◌≢◌, ◌↔◌, refl, ◌⊎◌, Bool, true, false, List, [], ◌∷◌, Option, none, some, arith,
}
use hermes_sentinel.Http.{HttpFormats}
use hermes_sentinel.Http.Codes.{
  codes, same, same_sound, same_refl, is_empty, strip, split, partition,
}
use hermes_sentinel.Http.ContentType.{
  semicolon, equals_sign, is_malformed_media_type, parameter_name, parameter_value,
  check_parameters, content_type_rejection,
}

module _ (formats : HttpFormats) where
  open formats use {is_space, lower}

  -- `charset=utf-8`, in the case and with the white space that the code ignores
  abbrev pub IsUtf8 : List ℕ → Type 0
  IsUtf8 parameter =
      let token = strip is_space parameter in
      ((partition equals_sign token).1 ≡ true)
      × (parameter_name formats token ≡ codes "charset")
      × (parameter_value formats token ≡ codes "utf-8")

  abbrev pub AcceptedParameters : List (List ℕ) → Type 0
  AcceptedParameters [] = Unit
  AcceptedParameters (parameter ∷ []) = IsUtf8 parameter
  AcceptedParameters _ = ⊥

  -- an accepted value, written without the loop
  abbrev pub AcceptedValue : List ℕ → Type 0
  AcceptedValue value =
      let parts = split semicolon value in
      (is_malformed_media_type formats parts.0 ≡ false)
      × (lower (strip is_space parts.0) ≡ codes "application/json")
      × AcceptedParameters parts.1

  check_parameters-seen :
      (p : List ℕ) (ps : List (List ℕ)) → check_parameters formats true (p ∷ ps) ≢ none
  unfolding check_parameters
  check_parameters-seen p ps h = ground arith

  check_parameters_sound :
      (ps : List (List ℕ)) → check_parameters formats false ps ≡ none → AcceptedParameters ps
  unfolding check_parameters
  check_parameters_sound [] h = tt
  check_parameters_sound (p ∷ []) h =
      let token = strip is_space p in
      (
        ground arith,
        same_sound (parameter_name formats token) (codes "charset") (ground arith),
        same_sound (parameter_value formats token) (codes "utf-8") (ground arith),
      )
  check_parameters_sound (p ∷ q ∷ ps) h = absurd (check_parameters-seen q ps (ground arith))

  nonempty-partition :
      (token : List ℕ) → (partition equals_sign token).1 ≡ true → is_empty token ≡ false
  unfolding partition
  nonempty-partition [] h = cc
  nonempty-partition (c ∷ cs) h = refl

  check_parameters_complete :
      (ps : List (List ℕ)) → AcceptedParameters ps → check_parameters formats false ps ≡ none
  unfolding check_parameters codes same
  check_parameters_complete [] a = refl
  check_parameters_complete (p ∷ []) (found, name, value) =
      let token = strip is_space p in
      let full = nonempty-partition token found in rw name (rw value (ground arith))
  check_parameters_complete (p ∷ q ∷ ps) a = absurd a

  content_type_rejection_sound :
      (value : List ℕ) → content_type_rejection formats value ≡ none → AcceptedValue value
  unfolding content_type_rejection
  content_type_rejection_sound value h =
      let parts = split semicolon value in
      (
        ground arith,
        same_sound (lower (strip is_space parts.0)) (codes "application/json") (ground arith),
        check_parameters_sound parts.1 (ground arith),
      )

  content_type_rejection_complete :
      (value : List ℕ) → AcceptedValue value → content_type_rejection formats value ≡ none
  unfolding content_type_rejection
  content_type_rejection_complete value (shape, json, parameters) =
      let rest = check_parameters_complete (split semicolon value).1 parameters in
      let matched = same_refl (codes "application/json") in rw json (ground arith)

  -- A Content-Type value is accepted just when the part in front of the first semicolon is a well-formed
  -- media type that reads application/json, and either there is no parameter, or there is exactly one,
  -- and it reads charset=utf-8 (white space around the parts and the case being ignored).
  pub content_type_rejection_lem :
      (value : List ℕ) → (content_type_rejection formats value ≡ none) ↔ AcceptedValue value
  content_type_rejection_lem value =
      (content_type_rejection_sound value, content_type_rejection_complete value)

  abbrev pub Refusing : Option ℕ → Type 0
  Refusing none = Unit
  Refusing (some status) = (status ≡ 400) ⊎ (status ≡ 415)

  check_parameters-Refusing :
      (seen : Bool) (ps : List (List ℕ)) → Refusing (check_parameters formats seen ps)
  unfolding check_parameters
  check_parameters-Refusing seen [] = tt
  check_parameters-Refusing seen (p ∷ ps) =
      let rest = check_parameters-Refusing true ps in ground arith

  pub content_type_rejection-Refusing :
      (value : List ℕ) → Refusing (content_type_rejection formats value)
  unfolding content_type_rejection
  content_type_rejection-Refusing value =
      let rest = check_parameters-Refusing false (split semicolon value).1 in ground arith
