-- ===== src/Telegram/Confirmed.antt =====
-- Which response bodies confirm a message, and that the senders recognise exactly these.
use hermes_sentinel.Base.{
  ℕ, ◌≤◌, ◌≡◌, refl, ◌⊎◌, inl, inr, eq_iff, subst, Bool, true, false, not, String, List, Option,
  none, some, str_eq, ltb, ◌==◌, length, arith, if◌then◌else◌,
}
use hermes_sentinel.Result.{Result, ok, err, recursion_error}
use hermes_sentinel.Json.{Json, bool, object, Members, end, member, has_key}
use hermes_sentinel.Telegram.Sender.{
  Parsed, document, malformed, too_deep, TelegramFormats, response_body_limit_bytes, last_value,
  says_ok, classify_document, classify_text, classify_bounded_response,
}

-- of the pairs with the key, the last one has the value
abbrev pub LastMember : String → Json → Members → Type 0
LastMember key value end = ⊥
LastMember key value (member k v m) =
    LastMember key value m ⊎ ((k ≡ key) × (v ≡ value) × (has_key key m ≡ false))

LastMember-has_key :
    (key : String) (v : Json) (m : Members) → LastMember key v m → has_key key m ≡ true
unfolding has_key
LastMember-has_key key v (member k w m) (inl h) =
    let there = LastMember-has_key key v m h in ground arith
LastMember-has_key key v (member k w m) (inr (p, q, h)) =
    let here = (eq_iff k key).1 p in ground arith
LastMember-has_key key v end h = absurd h

LastMember-unique :
    (key : String) (v w : Json) (m : Members) → LastMember key v m → LastMember key w m → v ≡ w
LastMember-unique key v w end h k = absurd h
LastMember-unique key v w (member a b m) (inl h) (inl k) = LastMember-unique key v w m h k
LastMember-unique key v w (member a b m) (inr (_, p, _)) (inr (_, q, _)) = cc
LastMember-unique key v w (member a b m) (inl h) (inr (_, _, k)) =
    let there = LastMember-has_key key v m h in cc
LastMember-unique key v w (member a b m) (inr (_, _, h)) (inl k) =
    let there = LastMember-has_key key w m k in cc

-- what a lookup finds
abbrev Found : String → Members → Option Json → Type 0
Found key m (some v) = LastMember key v m
Found key m none = has_key key m ≡ false

last_value-Found : (key : String) (m : Members) → Found key m (last_value key m)
unfolding last_value has_key
last_value-Found key end = refl
last_value-Found key (member k v m) =
    go (last_value key m) (str_eq k key) refl (last_value-Found key m)
  where
    go :
        (o : Option Json) (b : Bool)
        → str_eq k key ≡ b
        → Found key m o
        → Found key
            (member k v m)
            (elim o [ some w ↦ some w | none ↦ (if b then some v else none) ])
    go (some w) b h f = inl f
    go none true h f = inr ((eq_iff k key).0 h, refl, f)
    go none false h f = rw (h, f) refl

module _ (formats : TelegramFormats) where
  open formats use {Text, decode_utf8, loads, dumps_utf8}

  -- a whole body, within the limit, of a response with status 200, that parses so
  abbrev pub Parses : ℕ → List ℕ → Parsed → Type 0
  Parses status raw parsed =
      (status ≡ 200)
      × (length raw ≤ response_body_limit_bytes)
      × (t : Text) × (decode_utf8 raw ≡ some t)
      × (loads t ≡ parsed)

  -- the body says that the message was sent
  abbrev pub Confirms : ℕ → List ℕ → Type 0
  Confirms status raw =
      (m : Members) × Parses status raw (document (object m)) × LastMember "ok" (bool true) m

  abbrev pub Classified : ℕ → List ℕ → Result Bool → Type 0
  Classified status raw (ok true) = Confirms status raw
  Classified status raw (ok false) = ¬ Confirms status raw
  Classified status raw (err e) = (e ≡ recursion_error) × Parses status raw too_deep

  says_ok_cases :
      (m : Members) (o : Option Json)
      → Found "ok" m o
      → ((says_ok formats o ≡ true) × LastMember "ok" (bool true) m)
        ⊎ ((says_ok formats o ≡ false) × (¬ LastMember "ok" (bool true) m))
  says_ok_cases m (some (bool true)) f = inl (refl, f)
  says_ok_cases m none f =
      inr (refl, λ h. let there = LastMember-has_key "ok" (bool true) m h in cc)
  says_ok_cases m (some j) f =
      inr (refl, λ h. let same = LastMember-unique "ok" j (bool true) m f h in cc)

  Parses-loads :
      (status : ℕ) (raw : List ℕ) (t : Text) (parsed : Parsed)
      → decode_utf8 raw ≡ some t
      → Parses status raw parsed
      → loads t ≡ parsed
  Parses-loads status raw t parsed d (_, _, u, e, l) = let same : u ≡ t = cc in cc

  -- A body that parses to something else than an object confirms nothing.
  unconfirmed :
      (status : ℕ) (raw : List ℕ) (t : Text) (parsed : Parsed)
      → decode_utf8 raw ≡ some t
      → loads t ≡ parsed
      → ((m : Members) → parsed ≡ document (object m) → LastMember "ok" (bool true) m → ⊥)
      → ¬ Confirms status raw
  unconfirmed status raw t parsed d l k (m, parses, last) =
      let same : parsed ≡ document (object m) =
        let there = Parses-loads status raw t (document (object m)) d parses in cc in
      k m same last

  classify_document-Classified :
      (status : ℕ) (raw : List ℕ) (t : Text) (parsed : Parsed)
      → status ≡ 200
      → length raw ≤ response_body_limit_bytes
      → decode_utf8 raw ≡ some t
      → loads t ≡ parsed
      → Classified status raw (classify_document formats parsed)
  classify_document-Classified status raw t malformed p q d l =
      unconfirmed status raw t malformed d l (λ m e last. cc)
  classify_document-Classified status raw t too_deep p q d l = (refl, (p, q, t, d, l))
  classify_document-Classified status raw t (document (object m)) p q d l =
      elim (says_ok_cases m (last_value "ok" m) (last_value-Found "ok" m)) [
        | inl (said, last) ↦ rw said (m, (p, q, t, d, l), last)
        | inr (unsaid, never) ↦ rw unsaid (
            unconfirmed status raw t (document (object m)) d l (λ n e last.
              let same : n ≡ m = cc in never (subst (LastMember "ok" (bool true)) same last)))
      ]
  classify_document-Classified status raw t (document j) p q d l =
      unconfirmed status raw t (document j) d l (λ m e last. cc)

  classify_text-Classified :
      (status : ℕ) (raw : List ℕ) (o : Option Text)
      → status ≡ 200
      → length raw ≤ response_body_limit_bytes
      → decode_utf8 raw ≡ o
      → Classified status raw (classify_text formats o)
  classify_text-Classified status raw none p q d = λ (m, (_, _, t, e, _), _). cc
  classify_text-Classified status raw (some t) p q d =
      classify_document-Classified status raw t (loads t) p q d refl

  pub classify_bounded_response-Classified :
      (status : ℕ) (raw : List ℕ)
      → Classified status raw (classify_bounded_response formats status raw)
  unfolding classify_bounded_response
  classify_bounded_response-Classified status raw =
      go (not (status == 200)) (ltb response_body_limit_bytes (length raw)) refl refl
    where
      go :
          (a b : Bool)
          → not (status == 200) ≡ a
          → ltb response_body_limit_bytes (length raw) ≡ b
          → Classified status raw (
              if a
              then ok false
              else (if b then ok false else classify_text formats (decode_utf8 raw)))
      go true b h k = λ (m, (p, _, _, _, _), _). ground arith
      go false true h k = λ (m, (_, q, _, _, _), _). ground arith
      go false false h k =
          classify_text-Classified status raw (decode_utf8 raw) (ground arith) (ground arith) refl
