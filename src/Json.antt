-- ===== src/Json.antt =====
-- The values of Python's `json` module, as src/hermes_sentinel/deadman.py sees them while a text is
-- read: an object is its list of pairs, duplicates included, `negative n` is -(n + 1), and
-- `constant` stands for a NaN or Infinity token.
use hermes_sentinel.Base.{
  ℕ, zero, suc, String, Bool, true, false, not, ◌&&◌, ◌||◌, List, [], ◌∷◌, str_eq, if◌then◌else◌,
}
use hermes_sentinel.Result.{Result, ok, err, key_error}
use hermes_sentinel.Float.{Float}

mutual
  pub data Json : Type 0 where
    null : Json
    bool : Bool → Json
    int : ℕ → Json
    negative : ℕ → Json
    real : Float → Json
    constant : Json
    text : String → Json
    array : Elements → Json
    object : Members → Json

  pub data Elements : Type 0 where
    nil : Elements
    cons : Json → Elements → Elements

  pub data Members : Type 0 where
    end : Members
    member : String → Json → Members → Members

-- `key in mapping`
unfoldable pub has_key : String → Members → Bool
has_key key end = false
has_key key (member k v m) = str_eq k key || has_key key m

-- `_reject_pairs_duplicate` and `_reject_constant`, on every level of a document
unfoldable mutual
  unfolding has_key

  pub is_acceptable : Json → Bool
  is_acceptable null = true
  is_acceptable (bool b) = true
  is_acceptable (int n) = true
  is_acceptable (negative n) = true
  is_acceptable (real v) = true
  is_acceptable constant = false
  is_acceptable (text s) = true
  is_acceptable (array xs) = acceptable_elements xs
  is_acceptable (object m) = acceptable_members m

  pub acceptable_elements : Elements → Bool
  acceptable_elements nil = true
  acceptable_elements (cons x xs) = is_acceptable x && acceptable_elements xs

  pub acceptable_members : Members → Bool
  acceptable_members end = true
  acceptable_members (member k v m) = not (has_key k m) && is_acceptable v && acceptable_members m

-- no float, no constant, and no nesting deeper than that
unfoldable mutual
  pub is_plain : ℕ → Json → Bool
  is_plain depth null = true
  is_plain depth (bool b) = true
  is_plain depth (int n) = true
  is_plain depth (negative n) = true
  is_plain depth (real v) = false
  is_plain depth constant = false
  is_plain depth (text s) = true
  is_plain zero (array xs) = false
  is_plain (suc depth) (array xs) = plain_elements depth xs
  is_plain zero (object m) = false
  is_plain (suc depth) (object m) = plain_members depth m

  pub plain_elements : ℕ → Elements → Bool
  plain_elements depth nil = true
  plain_elements depth (cons x xs) = is_plain depth x && plain_elements depth xs

  pub plain_members : ℕ → Members → Bool
  plain_members depth end = true
  plain_members depth (member k v m) = is_plain depth v && plain_members depth m

unfoldable pub listed : String → List String → Bool
listed key [] = false
listed key (f ∷ fs) = str_eq f key || listed key fs

-- every key is one of the fields
unfoldable pub keys_within : List String → Members → Bool
unfolding listed
keys_within fields end = true
keys_within fields (member k v m) = listed k fields && keys_within fields m

-- every field is one of the keys
unfoldable pub keys_cover : List String → Members → Bool
unfolding has_key
keys_cover [] m = true
keys_cover (f ∷ fs) m = has_key f m && keys_cover fs m

-- `set(mapping) == set(fields)`
unfoldable pub exact_keys : List String → Members → Bool
unfolding keys_within keys_cover
exact_keys fields m = keys_within fields m && keys_cover fields m

-- `mapping[key]`
unfoldable pub get : String → Members → Result Json
get key end = err key_error
get key (member k v m) = if str_eq k key then ok v else get key m
