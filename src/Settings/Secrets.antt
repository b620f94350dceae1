-- ===== src/Settings/Secrets.antt =====
-- The credentials that src/hermes_sentinel/settings.py loads: one token for each configured host.
use hermes_sentinel.Base.{
  ◌≡◌, refl, sym, subst, inl, inr, String, true, not, List, [], ◌∷◌, ◌++◌, some, str_eq, All,
  append-nil, append_assoc, arith, Bool-cases,
}
use hermes_sentinel.Result.{Result, ok}
use hermes_sentinel.Result.Ensures.{Ensures, returns, raises, Ensures-bind, Ensures-guard}
use hermes_sentinel.Json.{text, Members, end, member, has_key}
use hermes_sentinel.Wire.Credentials.{
  NodeCredentials, token_for, is_owned, validate_tokens, create_credentials, OwnTokens,
  validate_tokens-OwnTokens,
}
use hermes_sentinel.Settings.Load.{token_items}
use hermes_sentinel.Settings.Bounded.{Bounded, Refusal}

-- every configured host has a token, and no two entries have the same one
abbrev pub Covers : NodeCredentials → List String → Type 0
Covers credentials nodes = All (λ n. (t : String) × (token_for credentials n ≡ some t)) nodes

pub token_items-Ensures :
    (m : Members)
    → Ensures
        (λ items. (n : String) → has_key n m ≡ true → (t : String) × (token_for items n ≡ some t))
        Bounded
        (token_items m)
unfolding token_items token_for has_key
token_items-Ensures end = returns (λ n h. cc)
token_items-Ensures (member node (text token) m) =
    Ensures-bind _ (token_items-Ensures m) λ items rest. returns (λ n h. found n items (rest n) h)
  where
    found :
        (n : String) (items : List (String × String))
        → (has_key n m ≡ true → (t : String) × (token_for items n ≡ some t))
        → has_key n (member node (text token) m) ≡ true
        → (t : String) × (token_for ((node, token) ∷ items) n ≡ some t)
    found n items rest h = elim (Bool-cases (str_eq node n)) [
      | inl k ↦ (token, rw k refl)
      | inr k ↦ let (t, p) = rest (ground arith) in (t, rw k p)
    ]
token_items-Ensures _ = raises refl

-- What is built is the items, in their order.
validate_tokens-items :
    (strip : String → String) (owner : NodeCredentials) (items : List (String × String))
    → Ensures (λ cs. cs ≡ owner ++ items) Refusal (validate_tokens strip owner items)
unfolding validate_tokens
validate_tokens-items strip owner [] = returns (sym (append-nil owner))
validate_tokens-items strip owner ((n, t) ∷ items) =
    Ensures-guard (not (str_eq (strip n) "")) _ (inl refl) λ _.
      Ensures-guard (not (str_eq (strip t) "")) _ (inl refl) λ _.
        Ensures-guard (not (is_owned t owner)) _ (inr refl) λ _.
          subst
            (λ xs.
              Ensures (λ cs. cs ≡ xs) Refusal
                (validate_tokens strip (owner ++ ((n, t) ∷ [])) items))
            (append_assoc owner ((n, t) ∷ []) items)
            (validate_tokens-items strip (owner ++ ((n, t) ∷ [])) items)

create_credentials-Ensures :
    (strip : String → String) (items : List (String × String))
    → Ensures (λ cs. (cs ≡ items) × OwnTokens cs) Refusal (create_credentials strip items)
unfolding create_credentials
create_credentials-Ensures strip items =
    both (validate_tokens-items strip [] items)
      (λ cs h. validate_tokens-OwnTokens strip [] items cs tt h)
  where
    both :
        {r : Result NodeCredentials}
        → Ensures (λ cs. cs ≡ items) Refusal r
        → ((cs : NodeCredentials) → r ≡ ok cs → OwnTokens cs)
        → Ensures (λ cs. (cs ≡ items) × OwnTokens cs) Refusal r
    both (returns {a = cs} p) own = returns (p, own cs refl)
    both (raises x) own = raises x

pub all_found :
    (items : List (String × String)) (m : Members) (ns : List String)
    → ((n : String) → has_key n m ≡ true → (t : String) × (token_for items n ≡ some t))
    → All (λ n. has_key n m ≡ true) ns
    → Covers items ns
all_found items m [] found h = tt
all_found items m (n ∷ ns) found (h, hs) = (found n h, all_found items m ns found hs)

pub covering :
    (strip : String → String) (items : List (String × String)) (ns : List String)
    → Covers items ns
    → Ensures (λ cs. Covers cs ns × OwnTokens cs) Refusal (create_credentials strip items)
covering strip items ns c = go (create_credentials-Ensures strip items)
  where
    go :
        {r : Result NodeCredentials}
        → Ensures (λ cs. (cs ≡ items) × OwnTokens cs) Refusal r
        → Ensures (λ cs. Covers cs ns × OwnTokens cs) Refusal r
    go (returns (p, own)) = returns (subst (λ cs. Covers cs ns) (sym p) c, own)
    go (raises x) = raises x
