-- ===== src/Server/Length.antt =====
-- `_declared_length_status` and `_content_length_or_none` of src/hermes_sentinel/http_server.py, on the
-- code points of the header value.
use hermes_sentinel.Base.{
  ℕ, ◌+◌, ◌-◌, ◌*◌, Bool, true, false, not, ◌&&◌, ◌||◌, List, [], ◌∷◌, Option, none, some, ◌==◌,
  leb, ltb, length, if◌then◌else◌, String,
}
use hermes_sentinel.Result.{Result, ok, err, framing_error}
use hermes_sentinel.Http.Codes.{codes, any, lstrip, strip, is_empty}

-- the code point of `0`
abbrev pub zero_digit : ℕ
zero_digit = 48

-- `_DIGITS`
abbrev pub is_digit : ℕ → Bool
is_digit c = leb 48 c && leb c 57

abbrev pub is_zero : ℕ → Bool
is_zero c = c == zero_digit

-- `strip(" \t")`
abbrev pub is_ows : ℕ → Bool
is_ows c = c == 32 || c == 9

-- `str(MAX_CONTENT_LENGTH)`
abbrev pub max_text : List ℕ
max_text = 49 ∷ 54 ∷ 51 ∷ 56 ∷ 52 ∷ []

-- `a > b`, for texts
unfoldable pub text_gt : List ℕ → List ℕ → Bool
text_gt [] b = false
text_gt (c ∷ cs) [] = true
text_gt (c ∷ cs) (d ∷ ds) = if c == d then text_gt cs ds else ltb d c

-- `_declared_length_status(raw) is not None`, the status then being 413
unfoldable pub exceeds_maximum : List ℕ → Bool
unfolding text_gt
exceeds_maximum raw =
    let significant = lstrip is_zero raw in
    if is_empty significant
    then false
    else ltb (length max_text) (length significant)
      || (length significant == length max_text && text_gt significant max_text)

-- `int(text)` of a text of digits: n is the value of the digits before
unfoldable pub int_from : ℕ → List ℕ → ℕ
int_from n [] = n
int_from n (c ∷ cs) = int_from (10 * n + (c - zero_digit)) cs

unfoldable pub int_of : List ℕ → ℕ
unfolding int_from
int_of digits = int_from 0 digits

unfoldable pub declared_length : List ℕ → Result ℕ
unfolding exceeds_maximum int_of
declared_length raw =
    let significant = lstrip is_zero raw in
    if is_empty raw || any (λ c. not (is_digit c)) raw
    then err (framing_error 400)
    else (if exceeds_maximum raw
        then err (framing_error 413)
        else (if is_empty significant then ok 0 else ok (int_of significant)))

-- the framing check of one value
unfoldable pub content_length_or_none : List String → Result (Option ℕ)
unfolding declared_length
content_length_or_none [] = ok none
content_length_or_none (value ∷ []) = elim (declared_length (strip is_ows (codes value))) [
  | ok n ↦ ok (some n)
  | err e ↦ err e
]
content_length_or_none _ = err (framing_error 400)
