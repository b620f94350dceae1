-- ===== src/Wire/Credentials.antt =====
-- `NodeCredentials` of src/hermes_sentinel/wire.py: each node has its own token.
use hermes_sentinel.Base.{
  ◌≡◌, refl, sym, String, Bool, true, false, not, ◌||◌, List, [], ◌∷◌, ◌++◌, Option, none, some,
  str_eq, eq_iff, arith, if◌then◌else◌,
}
use hermes_sentinel.Result.{Result, ok, value_error, duplicate_token_error, guard, ◌>>◌, >>-eq-ok}

-- the validated mapping, in the order of its construction
abbrev pub NodeCredentials : Type 0
NodeCredentials = List (String × String)

-- `self._tokens.get(node)`
unfoldable pub token_for : NodeCredentials → String → Option String
token_for [] node = none
token_for ((n, t) ∷ cs) node = if str_eq n node then some t else token_for cs node

-- `token in owner`
unfoldable pub is_owned : String → NodeCredentials → Bool
is_owned token [] = false
is_owned token ((n, t) ∷ cs) = str_eq t token || is_owned token cs

-- The loop of `__init__` over the items of a dict, the validated ones so far being `owner`.
unfoldable pub validate_tokens :
    (String → String) → NodeCredentials → List (String × String) → Result NodeCredentials
unfolding is_owned
validate_tokens strip owner [] = ok owner
validate_tokens strip owner ((node, token) ∷ items) = do
  guard (not (str_eq (strip node) "")) value_error
  guard (not (str_eq (strip token) "")) value_error
  guard (not (is_owned token owner)) duplicate_token_error
  validate_tokens strip (owner ++ ((node, token) ∷ [])) items

unfoldable pub create_credentials :
    (String → String) → List (String × String) → Result NodeCredentials
unfolding validate_tokens
create_credentials strip items = validate_tokens strip [] items

-- no token twice
abbrev pub OwnTokens : NodeCredentials → Type 0
OwnTokens [] = Unit
OwnTokens ((n, t) ∷ cs) = (is_owned t cs ≡ false) × OwnTokens cs

is_owned-append :
    (token : String) (cs : NodeCredentials) (n t : String)
    → is_owned token cs ≡ false
    → str_eq t token ≡ false
    → is_owned token (cs ++ ((n, t) ∷ [])) ≡ false
unfolding is_owned
is_owned-append token [] n t h k = ground arith
is_owned-append token ((m, u) ∷ cs) n t h k = ground (arith, is_owned-append token cs n t)

OwnTokens-append :
    (cs : NodeCredentials) (n t : String)
    → OwnTokens cs
    → is_owned t cs ≡ false
    → OwnTokens (cs ++ ((n, t) ∷ []))
unfolding is_owned
OwnTokens-append [] n t o h = (refl, tt)
OwnTokens-append ((m, u) ∷ cs) n t (o, os) h = (
  is_owned-append u cs n t o (ground (arith, eq_iff t u, eq_iff u t)),
  OwnTokens-append cs n t os (ground arith),
)

pub validate_tokens-OwnTokens :
    (strip : String → String) (owner : NodeCredentials) (items : List (String × String))
    (cs : NodeCredentials)
    → OwnTokens owner
    → validate_tokens strip owner items ≡ ok cs
    → OwnTokens cs
unfolding validate_tokens
validate_tokens-OwnTokens strip owner [] cs o h = rw (let same : owner ≡ cs = cc in sym same) o
validate_tokens-OwnTokens strip owner ((n, t) ∷ items) cs o h =
    let rest = validate_tokens strip (owner ++ ((n, t) ∷ [])) items in
    let third = guard (not (is_owned t owner)) duplicate_token_error >> rest in
    let second = guard (not (str_eq (strip t) "")) value_error >> third in
    let (_, h1) = >>-eq-ok (guard (not (str_eq (strip n) "")) value_error) second h in
    let (_, h2) = >>-eq-ok (guard (not (str_eq (strip t) "")) value_error) third h1 in
    let (g, h3) = >>-eq-ok (guard (not (is_owned t owner)) duplicate_token_error) rest h2 in
    let fresh : is_owned t owner ≡ false = ground arith in
    validate_tokens-OwnTokens strip (owner ++ ((n, t) ∷ [])) items cs
      (OwnTokens-append owner n t o fresh) h3

token_for-is_owned :
    (cs : NodeCredentials) (node token : String)
    → token_for cs node ≡ some token
    → is_owned token cs ≡ true
unfolding token_for is_owned
token_for-is_owned [] node token h = cc
token_for-is_owned ((n, t) ∷ cs) node token h =
    ground (arith, eq_iff t token, token_for-is_owned cs node token)

OwnTokens-unique :
    (cs : NodeCredentials) (a b token : String)
    → OwnTokens cs
    → token_for cs a ≡ some token
    → token_for cs b ≡ some token
    → a ≡ b
unfolding token_for
OwnTokens-unique [] a b token o h k = cc
OwnTokens-unique ((n, t) ∷ cs) a b token (o, os) h k = ground (
  arith,
  eq_iff n a,
  eq_iff n b,
  token_for-is_owned cs a token,
  token_for-is_owned cs b token,
  OwnTokens-unique cs a b token os,
)

-- In a credential set that was constructed, two nodes never have one token.
pub create_credentials_unique :
    (strip : String → String) (items : List (String × String)) (cs : NodeCredentials)
    (a b token : String)
    → create_credentials strip items ≡ ok cs
    → token_for cs a ≡ some token
    → token_for cs b ≡ some token
    → a ≡ b
unfolding create_credentials
create_credentials_unique strip items cs a b token made h k =
    OwnTokens-unique cs a b token (validate_tokens-OwnTokens strip [] items cs tt made) h k
