-- ===== src/Settings/Fields.antt =====
-- The JSON boundary of src/hermes_sentinel/settings.py: `_load_json_document`, the typed accessors,
-- `_require_known_keys` and `_accepted`.
use hermes_sentinel.Base.{ℕ, ◌-◌, ◌++◌, String, not, List, Option, none, some, leb, if◌then◌else◌}
use hermes_sentinel.Result.{
  Result, ok, err, value_error, overflow_error, duplicate_token_error, settings_error, guard, ◌>>=◌,
  ◌>>◌,
}
use hermes_sentinel.Float.{Float, minus, finite, is_finite}
use hermes_sentinel.Json.{
  Json, null, int, negative, real, text, array, object, Members, Elements, has_key, get,
  keys_within, keys_cover, is_acceptable,
}
use hermes_sentinel.Settings.{SettingsFormats, float_overflow, units}

-- `except (TypeError, ValueError, OverflowError)`; a `DuplicateNodeTokenError` is a `ValueError`
abbrev pub accepted {ℓ} : {A : Type ℓ} → Result A → Result A
accepted (ok a) = ok a
accepted (err value_error) = err settings_error
accepted (err overflow_error) = err settings_error
accepted (err duplicate_token_error) = err settings_error
accepted (err e) = err e

abbrev pub strict : Option Json → Result Json
strict none = err settings_error
strict (some document) = guard (is_acceptable document) settings_error >> ok document

-- `_load_json_document`
abbrev pub load_json_document : SettingsFormats → String → Result Json
load_json_document formats raw = strict (formats.loads raw)

unfoldable pub json_object : Json → Result Members
json_object (object m) = ok m
json_object _ = err settings_error

unfoldable pub json_array : Json → Result Elements
json_array (array xs) = ok xs
json_array _ = err settings_error

unfoldable pub json_string : Json → Result String
json_string (text s) = ok s
json_string _ = err settings_error

-- An integer is kept exactly. One that is too large for `math.isfinite` is refused, by the constructor
-- that it is handed to, whose `OverflowError` is a settings error too.
abbrev pub exactly : ℕ → Float → Result Float
exactly n value = guard (not (leb float_overflow n)) settings_error >> ok value

unfoldable pub json_number : Json → Result Float
json_number (int n) = exactly n (finite (units n))
json_number (negative n) = exactly (ℕ.suc n) (minus (units (ℕ.suc n) - 1))
json_number (real v) = guard (is_finite v) settings_error >> ok v
json_number _ = err settings_error

-- `_json_int`; every field that takes the integer refuses a negative one in its constructor, with a
-- `ValueError` that is a settings error too
unfoldable pub json_int : Json → Result ℕ
json_int (int n) = ok n
json_int _ = err settings_error

unfoldable pub require_known_keys : List String → List String → Members → Result (Unit {0})
require_known_keys required optional m = do
  guard (keys_cover required m) settings_error
  guard (keys_within (required ++ optional) m) settings_error

-- `mapping[key]` where the key is present, and a default where it is not
unfoldable pub optional_field : {A : Type 0} → (Json → Result A) → String → A → Members → Result A
optional_field parse key default m = if has_key key m then get key m >>= parse else ok default

abbrev pub number_or_null : Json → Result (Option Float)
number_or_null null = ok none
number_or_null j = json_number j >>= λ v. ok (some v)
