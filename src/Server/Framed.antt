-- ===== src/Server/Framed.antt =====
-- What `_resolve_body` of src/hermes_sentinel/http_server.py hands to the endpoint.
use hermes_sentinel.Base.{
  ℕ, ◌≤◌, ◌≡◌, refl, sym, ◌⊎◌, inl, inr, Bool-cases, String, Bool, true, false, not, ◌||◌, List, [],
  ◌∷◌, Option, none, some, ◌==◌, ltb, length, if◌then◌else◌, arith,
}
use hermes_sentinel.Result.{Result, ok, err, Error, framing_error, guard, ◌>>=◌, ◌>>◌}
use hermes_sentinel.Result.Ensures.{Ensures, returns, raises, Ensures-bind, Ensures-guard}
use hermes_sentinel.Http.{HttpFormats}
use hermes_sentinel.Http.Codes.{codes, any, strip, is_empty}
use hermes_sentinel.Server.{Connection, max_content_length}
use hermes_sentinel.Server.Length.{
  is_ows, is_digit, int_of, declared_length, content_length_or_none,
}
use hermes_sentinel.Server.Digits.{declared_length_lem}
use hermes_sentinel.Server.Dispatch.{
  read, is_heartbeat_post, is_none_given, read_body, get_all, resolve_body,
}

-- the errors of the framing, with their statuses
abbrev pub Framing : Error → Type 0
Framing e = (status : ℕ) × (e ≡ framing_error status) × (400 ≤ status)

-- the declared length of a request whose Content-Length values are these
abbrev pub Declared : List String → ℕ → Type 0
Declared values n =
    (value : String) × (values ≡ value ∷ [])
    × (int_of (strip is_ows (codes value)) ≡ n)
    × (n ≤ max_content_length)

abbrev MaybeDeclared : List String → Option ℕ → Type 0
MaybeDeclared values none = Unit
MaybeDeclared values (some n) = Declared values n

declared_length-Ensures :
    (raw : List ℕ)
    → Ensures (λ n. (int_of raw ≡ n) × (n ≤ max_content_length)) Framing (declared_length raw)
declared_length-Ensures raw =
    rw (declared_length_lem raw)
      (elim (Bool-cases (is_empty raw || any (λ c. not (is_digit c)) raw)) [
        | inl h ↦ rw h (raises (400, refl, omega arith))
        | inr h ↦ rw h (elim (Bool-cases (ltb max_content_length (int_of raw))) [
          | inl k ↦ rw k (raises (413, refl, omega arith))
          | inr k ↦ rw k (returns (refl, ground arith))
        ])
      ])

content_length_or_none-Ensures :
    (values : List String) → Ensures (MaybeDeclared values) Framing (content_length_or_none values)
unfolding content_length_or_none
content_length_or_none-Ensures [] = returns tt
content_length_or_none-Ensures (value ∷ []) =
    go (declared_length-Ensures (strip is_ows (codes value)))
  where
    go :
        {r : Result ℕ}
        → Ensures
            (λ n. (int_of (strip is_ows (codes value)) ≡ n) × (n ≤ max_content_length))
            Framing
            r
        → Ensures
            (MaybeDeclared (value ∷ []))
            Framing
            (elim r [ ok n ↦ ok (some n) | err e ↦ err e ])
    go (returns (p, q)) = returns (value, refl, p, q)
    go (raises x) = raises x
content_length_or_none-Ensures (v ∷ w ∷ values) = raises (400, refl, omega arith)

-- a whole body: as many bytes as declared
abbrev ReadWhole : List ℕ → ℕ → List ℕ → Type 0
ReadWhole stream n body = (body ≡ read n stream) × (length body ≡ n)

read_body-Ensures :
    (values : List String) (o : Option ℕ) (stream : List ℕ)
    → MaybeDeclared values o
    → Ensures
        (λ body. (n : ℕ) × Declared values n × ReadWhole stream n body)
        Framing
        (read_body o stream)
unfolding read_body read
read_body-Ensures values none stream d = raises (411, refl, omega arith)
read_body-Ensures values (some n) stream d = elim (Bool-cases (n == 0)) [
  | inl h ↦ let z : n ≡ 0 = ground arith in rw h (returns (n, d, (rw z refl, sym z)))
  | inr h ↦ rw h (
      Ensures-guard (length (read n stream) == n) _ (400, refl, omega arith)
        (λ k. returns (n, d, (refl, ground arith))))
]

module _ (formats : HttpFormats) where
  abbrev pub Whole : Connection → List ℕ → Type 0
  Whole c body =
      (get_all formats c.headers "expect" ≡ [])
      × (get_all formats c.headers "transfer-encoding" ≡ [])
      × (n : ℕ) × Declared (get_all formats c.headers "content-length") n
      × (body ≡ read n c.stream)
      × (length body ≡ n)

  none_given : (values : List String) → is_none_given values ≡ true → values ≡ []
  none_given [] h = refl
  none_given (v ∷ values) h = cc

  abbrev pub Received : Connection → List ℕ → Type 0
  Received c body =
      ((is_heartbeat_post c ≡ false) × (body ≡ [])) ⊎ ((is_heartbeat_post c ≡ true) × Whole c body)

  read_body-Received :
      (c : Connection) {r : Result (List ℕ)}
      → is_heartbeat_post c ≡ true
      → get_all formats c.headers "expect" ≡ []
      → get_all formats c.headers "transfer-encoding" ≡ []
      → Ensures
          (λ body.
            (n : ℕ) × Declared (get_all formats c.headers "content-length") n
            × ReadWhole c.stream n body)
          Framing
          r
      → Ensures (Received c) Framing r
  read_body-Received c h e t (returns (n, d, (p, q))) = returns (inr (h, (e, t, n, d, p, q)))
  read_body-Received c h e t (raises x) = raises x

  resolve_post-Received :
      (c : Connection)
      → is_heartbeat_post c ≡ true
      → Ensures (Received c) Framing (
          guard (is_none_given (get_all formats c.headers "expect")) (framing_error 417)
          >> (guard
                (is_none_given (get_all formats c.headers "transfer-encoding"))
                (framing_error 400)
              >> (content_length_or_none (get_all formats c.headers "content-length")
                  >>= λ declared. read_body declared c.stream)))
  resolve_post-Received c h =
      Ensures-guard (is_none_given (get_all formats c.headers "expect")) _ (417, refl, omega arith)
        λ e.
          Ensures-guard (is_none_given (get_all formats c.headers "transfer-encoding")) _
            (400, refl, omega arith)
            λ t.
              Ensures-bind _
                (content_length_or_none-Ensures (get_all formats c.headers "content-length"))
                λ o d.
                  read_body-Received c h (none_given _ e) (none_given _ t)
                    (read_body-Ensures _ o c.stream d)

  -- What the endpoint receives as the body: nothing, unless the request is a POST of the heartbeat path;
  -- then exactly as many bytes as its one Content-Length header declares, at most 16384, all of them
  -- received, and the request has no Expect and no Transfer-Encoding header. Every other request is
  -- answered by a framing error, with a status of at least 400.
  pub resolve_body-Ensures :
      (c : Connection) → Ensures (Received c) Framing (resolve_body formats c)
  unfolding resolve_body
  resolve_body-Ensures c = go (is_heartbeat_post c) refl
    where
      go :
          (post : Bool)
          → is_heartbeat_post c ≡ post
          → Ensures (Received c) Framing (
              if not post
              then ok []
              else (guard (is_none_given (get_all formats c.headers "expect")) (framing_error 417)
                  >> (guard
                        (is_none_given (get_all formats c.headers "transfer-encoding"))
                        (framing_error 400)
                      >> (content_length_or_none (get_all formats c.headers "content-length")
                          >>= λ declared. read_body declared c.stream))))
      go true h = resolve_post-Received c h
      go false h = returns (inl (h, refl))
