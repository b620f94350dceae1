-- ===== src/Settings/Strings.antt =====
-- The string settings of src/hermes_sentinel/settings.py: `_required_non_empty_string`,
-- `_optional_string`, `_parse_decimal_int` and `_parse_decimal_float`.
use hermes_sentinel.Base.{
  ℕ, zero, suc, String, Bool, true, false, not, ◌&&◌, ◌||◌, List, [], ◌∷◌, Option, none, some,
  str_eq, ◌==◌, length, if◌then◌else◌,
}
use hermes_sentinel.Result.{Result, ok, err, settings_error, guard, ◌>>◌}
use hermes_sentinel.Float.{Float, is_finite}
use hermes_sentinel.Http.Codes.{codes}
use hermes_sentinel.Server.Length.{is_digit, int_of}
use hermes_sentinel.Telegram.{Integer, natural, negative}
use hermes_sentinel.Settings.{Environment, SettingsFormats}

-- `env.get(variable)`, where the outer none is a missing key
unfoldable pub lookup : Environment → String → Option (Option String)
lookup [] variable = none
lookup ((name, value) ∷ env) variable =
    if str_eq name variable then some value else lookup env variable

abbrev pub is_sign : ℕ → Bool
is_sign c = c == b'+' || c == b'-'

-- `[+-]?`
abbrev pub skip_sign : List ℕ → List ℕ
skip_sign [] = []
skip_sign (c ∷ cs) = if is_sign c then cs else c ∷ cs

abbrev pub starts_with_digit : List ℕ → Bool
starts_with_digit [] = false
starts_with_digit (c ∷ cs) = is_digit c

-- what follows `[0-9]*`
unfoldable pub skip_digits : List ℕ → List ℕ
skip_digits [] = []
skip_digits (c ∷ cs) = let rest = skip_digits cs in if is_digit c then rest else c ∷ cs

abbrev pub at_end : List ℕ → Bool
at_end [] = true
at_end (c ∷ cs) = false

-- `[0-9]+\Z`
abbrev pub is_digits : List ℕ → Bool
is_digits cs = starts_with_digit cs && at_end (skip_digits cs)

-- `_SIGNED_DECIMAL_INTEGER`
unfoldable pub is_signed_decimal_integer : List ℕ → Bool
unfolding skip_digits
is_signed_decimal_integer cs = is_digits (skip_sign cs)

-- `(?:[eE][+-]?[0-9]+)?\Z`
abbrev pub is_exponent : List ℕ → Bool
is_exponent [] = true
is_exponent (c ∷ cs) = (c == b'e' || c == b'E') && is_digits (skip_sign cs)

-- what follows the point
abbrev pub is_fraction : List ℕ → Bool
is_fraction cs = starts_with_digit cs && is_exponent (skip_digits cs)

-- what follows the digits in front of a point
abbrev pub after_digits : List ℕ → Bool
after_digits [] = true
after_digits (c ∷ cs) = if c == b'.' then is_fraction cs else is_exponent (c ∷ cs)

abbrev pub is_unsigned_number : List ℕ → Bool
is_unsigned_number [] = false
is_unsigned_number (c ∷ cs) =
    if is_digit c then after_digits (skip_digits (c ∷ cs)) else c == b'.' && is_fraction cs

-- `_DECIMAL_NUMBER`
unfoldable pub is_decimal_number : List ℕ → Bool
unfolding skip_digits
is_decimal_number cs = is_unsigned_number (skip_sign cs)

abbrev pub opposite : ℕ → Integer
opposite zero = natural 0
opposite (suc n) = negative n

-- `int` of such a text
abbrev pub signed : List ℕ → Integer
signed [] = natural 0
signed (c ∷ cs) = if c == b'-' then opposite (int_of cs) else natural (int_of (skip_sign (c ∷ cs)))

module _ (formats : SettingsFormats) where
  open formats use {strip, converts, float_of}

  abbrev pub non_empty : Option (Option String) → Result String
  non_empty (some (some value)) = do guard (not (str_eq (strip value) "")) settings_error; ok value
  non_empty _ = err settings_error

  unfoldable pub required_non_empty_string : Environment → String → Result String
  unfolding lookup
  required_non_empty_string env variable = non_empty (lookup env variable)

  abbrev pub string_or_none : Option (Option String) → Result (Option String)
  string_or_none none = ok none
  string_or_none (some none) = err settings_error
  string_or_none (some (some value)) = ok (some value)

  unfoldable pub optional_string : Environment → String → Result (Option String)
  unfolding lookup
  optional_string env variable = string_or_none (lookup env variable)

  unfoldable pub parse_decimal_int : String → Result Integer
  unfolding is_signed_decimal_integer
  parse_decimal_int raw = do
    guard (is_signed_decimal_integer (codes raw)) settings_error
    guard (converts (length (skip_sign (codes raw)))) settings_error
    ok (signed (codes raw))

  unfoldable pub parse_decimal_float : String → Result Float
  unfolding is_decimal_number
  parse_decimal_float raw = do
    guard (is_decimal_number (codes raw)) settings_error
    guard (is_finite (float_of raw)) settings_error
    ok (float_of raw)
