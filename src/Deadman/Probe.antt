-- ===== src/Deadman/Probe.antt =====
-- `classify_deadman_probe` of src/hermes_sentinel/deadman.py. A header value is the list of its code
-- points, and a body the list of its bytes.
pub mod Signature
use hermes_sentinel.Base.{
  ℕ, suc, List, [], ◌∷◌, ◌++◌, Bool, true, false, ◌&&◌, ◌||◌, leb, ◌==◌, if◌then◌else◌,
}
use hermes_sentinel.Result.{Result, value_error, guard, construct, ◌>>=◌}
use hermes_sentinel.Deadman.Types.{DeadManProbeOutcome, healthy, failed}

pub record DeadManProbeResponse : Type 0 where
  pub status : ℕ
  pub allow_headers : List (List ℕ)
  pub body : List ℕ

-- `__post_init__`: what the field types do not say
unfoldable pub create_response : DeadManProbeResponse → Result DeadManProbeResponse
create_response = construct (λ r. guard (leb 100 r.status && leb r.status 599) value_error)

-- `_HEALTHY_STATUS` and `_REQUIRED_ALLOWED_METHOD`
abbrev pub healthy_status : ℕ
healthy_status = 405

abbrev pub post : List ℕ
post = b'P' ∷ b'O' ∷ b'S' ∷ b'T' ∷ []

abbrev pub is_blank : ℕ → Bool
is_blank c = c == 32 || c == 9

abbrev pub cons_first : ℕ → List (List ℕ) → List (List ℕ)
cons_first c [] = (c ∷ []) ∷ []
cons_first c (t ∷ ts) = (c ∷ t) ∷ ts

-- `value.split(",")`
unfoldable pub split : List ℕ → List (List ℕ)
split [] = [] ∷ []
split (c ∷ cs) = let rest = split cs in if c == b',' then [] ∷ rest else cons_first c rest

unfoldable pub strip_left : List ℕ → List ℕ
strip_left [] = []
strip_left (c ∷ cs) = let rest = strip_left cs in if is_blank c then rest else c ∷ cs

abbrev pub cons_unless_blank : ℕ → List ℕ → List ℕ
cons_unless_blank c [] = if is_blank c then [] else c ∷ []
cons_unless_blank c (d ∷ ds) = c ∷ d ∷ ds

unfoldable pub strip_right : List ℕ → List ℕ
strip_right [] = []
strip_right (c ∷ cs) = cons_unless_blank c (strip_right cs)

-- `token.strip(" \t")`
unfoldable pub strip : List ℕ → List ℕ
unfolding strip_left strip_right
strip cs = strip_right (strip_left cs)

abbrev pub is_empty : List ℕ → Bool
is_empty [] = true
is_empty _ = false

-- the inner loop: the non-empty methods of one header value are added
unfoldable pub add_methods : List (List ℕ) → List (List ℕ) → List (List ℕ)
unfolding strip
add_methods methods [] = methods
add_methods methods (t ∷ ts) =
    let method = strip t in add_methods (if is_empty method then methods else method ∷ methods) ts

unfoldable pub collect_methods : List (List ℕ) → List (List ℕ) → List (List ℕ)
unfolding split add_methods
collect_methods methods [] = methods
collect_methods methods (v ∷ vs) = collect_methods (add_methods methods (split v)) vs

abbrev pub same_codes : List ℕ → List ℕ → Bool
same_codes [] [] = true
same_codes (c ∷ cs) (d ∷ ds) = c == d && same_codes cs ds
same_codes _ _ = false

unfoldable pub contains : List ℕ → List (List ℕ) → Bool
contains method [] = false
contains method (m ∷ ms) = same_codes method m || contains method ms

-- `_post_is_allowed`: the set of methods is the list of its insertions
unfoldable pub post_is_allowed : List (List ℕ) → Bool
unfolding contains collect_methods
post_is_allowed allow_headers = contains post (collect_methods [] allow_headers)

unfoldable pub classify_deadman_probe : DeadManProbeResponse → DeadManProbeOutcome
unfolding post_is_allowed
classify_deadman_probe r =
    if r.status == healthy_status && post_is_allowed r.allow_headers && is_empty r.body
    then healthy
    else failed
