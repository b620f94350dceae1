-- ===== src/Http/ContentType.antt =====
-- The Content-Type rules of src/hermes_sentinel/http_api.py: `_is_malformed_media_type` and
-- `_content_type_rejection`, on code points.
use hermes_sentinel.Base.{
  ℕ, Bool, true, false, not, ◌||◌, List, [], ◌∷◌, Option, none, some, ◌==◌, leb, if◌then◌else◌,
}
use hermes_sentinel.Http.{HttpFormats}
use hermes_sentinel.Http.Codes.{codes, same, any, count, is_empty, strip, split, partition}

-- `ch <= " " or ch >= "\x7f"`
abbrev pub is_invisible : ℕ → Bool
is_invisible c = leb c 32 || leb 127 c

-- the code points of `/`, `;` and `=`
abbrev pub slash : ℕ
slash = 47

abbrev pub semicolon : ℕ
semicolon = 59

abbrev pub equals_sign : ℕ
equals_sign = 61

module _ (formats : HttpFormats) where
  open formats use {is_space, lower}

  unfoldable pub is_malformed_media_type : List ℕ → Bool
  is_malformed_media_type token =
      let stripped = strip is_space token in
      is_empty stripped || not (count slash stripped == 1) || any is_invisible stripped

  abbrev pub is_json : List ℕ → Bool
  is_json media_type = same (lower (strip is_space media_type)) (codes "application/json")

  abbrev pub parameter_name : List ℕ → List ℕ
  parameter_name token = lower (strip is_space (partition equals_sign token).0)

  abbrev pub parameter_value : List ℕ → List ℕ
  parameter_value token = lower (strip is_space (partition equals_sign token).2)

  -- The `for` loop over the parameters. A status is the rejection; none accepts.
  unfoldable pub check_parameters : Bool → List (List ℕ) → Option ℕ
  check_parameters saw_charset [] = none
  check_parameters saw_charset (parameter ∷ parameters) =
      let token = strip is_space parameter in
      let rest = check_parameters true parameters in
      if is_empty token || not (partition equals_sign token).1
      then some 400
      else (if is_empty (parameter_name token) || is_empty (parameter_value token)
          then some 400
          else (if not (same (parameter_name token) (codes "charset"))
              then some 415
              else (if saw_charset
                  then some 400
                  else (if not (same (parameter_value token) (codes "utf-8"))
                      then some 415
                      else rest))))

  unfoldable pub content_type_rejection : List ℕ → Option ℕ
  unfolding is_malformed_media_type check_parameters
  content_type_rejection value =
      let parts = split semicolon value in
      if is_malformed_media_type parts.0
      then some 400
      else (if not (is_json parts.0) then some 415 else check_parameters false parts.1)
