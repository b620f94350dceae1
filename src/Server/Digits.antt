-- ===== src/Server/Digits.antt =====
-- The value of a decimal text, against the comparison of texts in src/hermes_sentinel/http_server.py.
use hermes_sentinel.Base.{
  ℕ, suc, zero, ◌+◌, ◌-◌, ◌*◌, ◌≤◌, ◌<◌, ◌≡◌, refl, sym, ◌∙◌, ap, inl, inr, Bool-cases, Bool, false,
  not, ◌&&◌, ◌||◌, List, [], ◌∷◌, ◌==◌, ltb, length, if◌then◌else◌, arith,
}
use hermes_sentinel.Result.{ok, err, framing_error}
use hermes_sentinel.Http.Codes.{any, lstrip, is_empty}
use hermes_sentinel.Server.{max_content_length}
use hermes_sentinel.Server.Length.{
  is_digit, is_zero, zero_digit, max_text, text_gt, exceeds_maximum, int_from, int_of,
  declared_length,
}

-- 10 ^ n
abbrev power : ℕ → ℕ
power zero = 1
power (suc n) = 10 * power n

abbrev not_digits : List ℕ → Bool
not_digits = any (λ c. not (is_digit c))

power_pos : (n : ℕ) → 1 ≤ power n
power_pos zero = omega arith
power_pos (suc n) = omega (arith, power_pos n)

times_mono : (a b t : ℕ) → a ≤ b → a * t ≤ b * t
times_mono zero b t h = omega arith
times_mono (suc a) zero t h = omega arith
times_mono (suc a) (suc b) t h = let rest = times_mono a b t (omega arith) in grind arith

int_from-linear : (n : ℕ) (ds : List ℕ) → int_from n ds ≡ n * power (length ds) + int_from 0 ds
unfolding int_from
int_from-linear n [] = omega arith
int_from-linear n (c ∷ cs) =
    let left = int_from-linear (10 * n + (c - zero_digit)) cs in
    let right = int_from-linear (10 * 0 + (c - zero_digit)) cs in grind arith

int_from-power : (ds : List ℕ) → not_digits ds ≡ false → int_from 0 ds < power (length ds)
unfolding int_from any
int_from-power [] h = omega arith
int_from-power (c ∷ cs) h =
    let tail : not_digits cs ≡ false = ground arith in
    let digit : c - zero_digit ≤ 9 = ground arith in
    let rest = int_from-power cs tail in
    let front = int_from-linear (10 * 0 + (c - zero_digit)) cs in
    let scaled = times_mono (c - zero_digit) 9 (power (length cs)) digit in grind arith

int_from-lt :
    (a b : ℕ) (cs ds : List ℕ)
    → a < b
    → length cs ≡ length ds
    → not_digits cs ≡ false
    → int_from a cs < int_from b ds
int_from-lt a b cs ds h same k =
    let left = int_from-linear a cs in
    let right = int_from-linear b ds in
    let low = int_from-power cs k in
    let scaled = times_mono (suc a) b (power (length cs)) (omega arith) in
    let t : power (length ds) ≡ power (length cs) = rw same refl in grind arith

text_gt-int_from :
    (n : ℕ) (cs ds : List ℕ)
    → length cs ≡ length ds
    → not_digits cs ≡ false
    → not_digits ds ≡ false
    → text_gt cs ds ≡ ltb (int_from n ds) (int_from n cs)
unfolding text_gt int_from any
text_gt-int_from n [] [] same h k = ground arith
text_gt-int_from n (c ∷ cs) (d ∷ ds) same h k =
    let e : length cs ≡ length ds = omega (arith, same) in
    let hs : not_digits cs ≡ false = ground arith in
    let ks : not_digits ds ≡ false = ground arith in
    let dc : 48 ≤ c = ground arith in
    let dd : 48 ≤ d = ground arith in
    let a = 10 * n + (c - zero_digit) in
    let b = 10 * n + (d - zero_digit) in
    let rest = text_gt-int_from a cs ds e hs ks in
    elim (Bool-cases (ltb c d)) [
      | inl lt ↦ let below = int_from-lt a b cs ds (ground arith) e hs in ground arith
      | inr ge ↦ elim (Bool-cases (ltb d c)) [
        | inl gt ↦ let above = int_from-lt b a ds cs (ground arith) (sym e) ks in ground arith
        | inr le ↦
            let equal : c ≡ d = ground arith in
            let step : text_gt (c ∷ cs) (d ∷ ds) ≡ text_gt cs ds = ground (arith, equal) in
            step
            ∙ rest
            ∙ ap (λ x. ltb (int_from (10 * n + (x - zero_digit)) ds) (int_from a cs)) equal
      ]
    ]
text_gt-int_from n [] (d ∷ ds) same h k = ground (arith, same)
text_gt-int_from n (c ∷ cs) [] same h k = ground (arith, same)

-- a text without a leading zero
abbrev Significant : List ℕ → Type 0
Significant [] = Unit
Significant (c ∷ cs) = is_zero c ≡ false

lstrip-Significant : (raw : List ℕ) → Significant (lstrip is_zero raw)
unfolding lstrip
lstrip-Significant [] = tt
lstrip-Significant (c ∷ cs) = elim (Bool-cases (is_zero c)) [
  | inl h ↦ rw h (lstrip-Significant cs)
  | inr h ↦ rw h h
]

not_digits-lstrip :
    (raw : List ℕ) → not_digits raw ≡ false → not_digits (lstrip is_zero raw) ≡ false
unfolding lstrip any
not_digits-lstrip [] h = refl
not_digits-lstrip (c ∷ cs) h = ground (arith, not_digits-lstrip cs)

int_of-lstrip : (raw : List ℕ) → int_of raw ≡ int_of (lstrip is_zero raw)
unfolding lstrip int_of int_from
int_of-lstrip [] = refl
int_of-lstrip (c ∷ cs) = elim (Bool-cases (is_zero c)) [
  | inl h ↦ rw h (let e : c ≡ zero_digit = ground arith in rw e (int_of-lstrip cs))
  | inr h ↦ rw h refl
]

power_mono : (a b : ℕ) → a ≤ b → power a ≤ power b
power_mono zero b h = power_pos b
power_mono (suc a) zero h = omega arith
power_mono (suc a) (suc b) h = omega (arith, power_mono a b (omega arith))

int_of-long :
    (ds : List ℕ) → Significant ds → not_digits ds ≡ false → 5 < length ds → 100000 ≤ int_of ds
unfolding int_of int_from any
int_of-long [] s h k = omega arith
int_of-long (c ∷ cs) s h k =
    let front = int_from-linear (10 * 0 + (c - zero_digit)) cs in
    let scaled = times_mono 1 (c - zero_digit) (power (length cs)) (ground arith) in
    let big = power_mono 5 (length cs) (omega arith) in grind arith

int_of-short : (ds : List ℕ) → not_digits ds ≡ false → length ds < 5 → int_of ds < 10001
unfolding int_of
int_of-short ds h k = omega (arith, int_from-power ds h, power_mono (length ds) 4 (omega arith))

text_gt-max :
    (ds : List ℕ)
    → length ds ≡ 5
    → not_digits ds ≡ false
    → text_gt ds max_text ≡ ltb max_content_length (int_of ds)
unfolding int_of int_from any
text_gt-max ds five h = text_gt-int_from 0 ds max_text five h refl

exceeds-int_of :
    (ds : List ℕ)
    → Significant ds
    → not_digits ds ≡ false
    → (if is_empty ds
        then false
        else ltb (length max_text) (length ds)
          || (length ds == length max_text && text_gt ds max_text))
      ≡ ltb max_content_length (int_of ds)
unfolding int_of int_from
exceeds-int_of [] s h = refl
exceeds-int_of (c ∷ cs) s h = elim (Bool-cases (ltb 5 (length (c ∷ cs)))) [
  | inl k ↦ let big = int_of-long (c ∷ cs) s h (ground arith) in ground arith
  | inr k ↦ elim (Bool-cases (length (c ∷ cs) == 5)) [
    | inl five ↦ let compared = text_gt-max (c ∷ cs) (ground arith) h in ground arith
    | inr less ↦ let small = int_of-short (c ∷ cs) h (ground arith) in ground arith
  ]
]

exceeds_maximum-int_of :
    (raw : List ℕ)
    → not_digits raw ≡ false
    → exceeds_maximum raw ≡ ltb max_content_length (int_of raw)
unfolding exceeds_maximum
exceeds_maximum-int_of raw h =
    exceeds-int_of (lstrip is_zero raw) (lstrip-Significant raw) (not_digits-lstrip raw h)
    ∙ ap (λ n. ltb max_content_length n) (sym (int_of-lstrip raw))

bounded_int : (ds : List ℕ) → (if is_empty ds then ok 0 else ok (int_of ds)) ≡ ok (int_of ds)
unfolding int_of int_from
bounded_int [] = refl
bounded_int (c ∷ cs) = refl

-- The declared length is decided as on the number that the text denotes, however long the text is: a
-- text that is empty or has another character than a digit is refused with 400; of the others, a value
-- above 16384 is refused with 413, and any other value is returned.
pub declared_length_lem :
    (raw : List ℕ)
    → declared_length raw ≡ (
        if is_empty raw || any (λ c. not (is_digit c)) raw
        then err (framing_error 400)
        else (if ltb max_content_length (int_of raw)
            then err (framing_error 413)
            else ok (int_of raw)))
unfolding declared_length
declared_length_lem raw = elim (Bool-cases (not_digits raw)) [
  | inl h ↦ ground arith
  | inr h ↦
      let value = bounded_int (lstrip is_zero raw) ∙ ap (λ n. ok n) (sym (int_of-lstrip raw)) in
      let compared = exceeds_maximum-int_of raw h in rw h (rw value (rw compared refl))
]
