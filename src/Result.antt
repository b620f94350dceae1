-- ===== src/Result.antt =====
-- The exceptions of src/hermes_sentinel as values: a function that may raise returns a `Result`.
-- Messages are not modelled; an exception is its class.
pub mod Ensures
use hermes_sentinel.Base.{ℕ, ◌≡◌, ◌⊎◌, inl, inr, refl, Bool, true, false, arith}

pub data Error : Type 0 where
  value_error : Error
  assertion_error : Error
  state_decode_error : Error
  state_store_error : Error
  telegram_delivery_error : Error
  runtime_error : Error
  unknown_host_error : Error
  unknown_node_error : Error
  invalid_clock_result_error : Error
  repository_error : Error
  probe_defect : Error
  sender_error : Error
  key_error : Error
  malformed_payload_error : Error
  authentication_error : Error
  duplicate_token_error : Error
  overflow_error : Error
  settings_error : Error
  recursion_error : Error
  framing_error : ℕ → Error

pub data Result {ℓ} (Value : Type ℓ) : Type ℓ where
  err : Error → Result Value
  ok : Value → Result Value

-- `if not condition: raise error`
abbrev pub guard : Bool → Error → Result (Unit {0})
guard false raised = err raised
guard true raised = ok tt

-- An exception skips what follows.
infixl 5 ◌>>=◌ ◌>>◌
abbrev pub ◌>>=◌ {κ ℓ} : {A : Type κ} → {B : Type ℓ} → Result A → (A → Result B) → Result B
err raised >>= continue = err raised
ok value >>= continue = continue value

abbrev pub ◌>>◌ {ℓ} : {B : Type ℓ} → Result (Unit {0}) → Result B → Result B
check >> continue = check >>= λ _. continue

module _ {ℓ} {A : Type ℓ} where
  pub Result-cases : (x : Result A) → ((v : A) × (x ≡ ok v)) ⊎ ((raised : Error) × (x ≡ err raised))
  Result-cases (err raised) = inr (raised, refl)
  Result-cases (ok v) = inl (v, refl)

-- A successful chain is a successful first step and a successful rest.
module _ {κ ℓ} {A : Type κ} {B : Type ℓ} where
  pub >>=-eq-ok :
      (first : Result A) (rest : A → Result B) {result : B}
      → (first >>= rest) ≡ ok result
      → (v : A) × (first ≡ ok v) × (rest v ≡ ok result)
  >>=-eq-ok (err raised) rest h = cc
  >>=-eq-ok (ok v) rest h = (v, refl, h)

pub >>-eq-ok {ℓ} :
    {B : Type ℓ} (check : Result (Unit {0})) (rest : Result B) {result : B}
    → (check >> rest) ≡ ok result
    → (check ≡ ok tt) × (rest ≡ ok result)
>>-eq-ok (err raised) rest h = cc
>>-eq-ok (ok tt) rest h = (refl, h)

-- A dataclass construction: `__post_init__` runs on the given fields, and the object is returned.
abbrev pub construct {ℓ} : {A : Type ℓ} → (A → Result (Unit {0})) → A → Result A
construct post_init a = post_init a >> ok a
