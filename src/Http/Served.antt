-- ===== src/Http/Served.antt =====
-- What a response of src/hermes_sentinel/http_api.py says about the database.
use hermes_sentinel.Base.{
  Bool, ap, if◌then◌else◌, ℕ, ◌≡◌, refl, ◌⊎◌, inl, inr, subst, String, true, false, List, [], ◌∷◌,
  ◌++◌, Option, none, some, eq_iff, ◌≤◌, length, Any, All, arith,
}
use hermes_sentinel.Result.{Result, ok, err, malformed_payload_error, authentication_error}
use hermes_sentinel.Domain.{HostTelemetry}
use hermes_sentinel.Config.{SentinelConfig}
use hermes_sentinel.Ingestion.{HeartbeatRecord, HeartbeatReceipt, IngestEnv}
use hermes_sentinel.Wire.{Conversions}
use hermes_sentinel.Wire.Credentials.{NodeCredentials}
use hermes_sentinel.Wire.Authenticated.{
  Rejection, Authenticated, Transcribed, Answered, handle-Answered,
}
use hermes_sentinel.Http.{
  HttpRequest, HttpResponse, HttpFormats, heartbeat_path, heartbeat_method,
  max_heartbeat_body_bytes, response,
}
use hermes_sentinel.Http.Codes.{codes}
use hermes_sentinel.Http.Accepted.{Refusing, content_type_rejection-Refusing}
use hermes_sentinel.Http.Adapter.{
  header_values, parse, parse_text, object_or_none, decode_strict_json, respond, Reply, handle,
}
use hermes_sentinel.Json.{Json, object, Members, is_acceptable}
use hermes_sentinel.Wire.Transcribed.{Transcribes}
use hermes_sentinel.Http.Order.{
  Failing, first_failed, content_type_status, refusal, checks, Decided, handle-Decided,
}

-- the responses to a request that is not served
abbrev pub refusals : List HttpResponse
refusals =
    response 400 []
    ∷ response 401 []
    ∷ response 404 []
    ∷ response 405 (("Allow", "POST") ∷ [])
    ∷ response 413 []
    ∷ response 415 []
    ∷ []

abbrev pub IsRefusal : HttpResponse → Type 0
IsRefusal r = Any (λ s. r ≡ s) refusals

-- a check whose response is a refusal, if it fails
abbrev IsCheck : Failing → Type 0
IsCheck (failed, r) = failed ≡ true → IsRefusal r

IsRefusal-400 : IsRefusal (response 400 [])
IsRefusal-400 = inl refl

first_failed-IsRefusal :
    (cs : List Failing) (r : HttpResponse) → All IsCheck cs → first_failed cs ≡ some r → IsRefusal r
first_failed-IsRefusal [] r a h = cc
first_failed-IsRefusal ((true, s) ∷ cs) r (a, rest) h =
    let e : s ≡ r = ground arith in subst IsRefusal e (a refl)
first_failed-IsRefusal ((false, s) ∷ cs) r (a, rest) h = first_failed-IsRefusal cs r rest h

refusal-IsCheck :
    (formats : HttpFormats) (o : Option ℕ) → Refusing formats o → IsCheck (refusal formats o)
refusal-IsCheck formats none h = λ k. cc
refusal-IsCheck formats (some s) (inl p) = λ k. rw p (inl refl)
refusal-IsCheck formats (some s) (inr p) = λ k. rw p (inr (inr (inr (inr (inr (inl refl))))))

content_type_status-Refusing :
    (formats : HttpFormats) (values : List String)
    → Refusing formats (content_type_status formats values)
content_type_status-Refusing formats [] = inr refl
content_type_status-Refusing formats (v ∷ []) = content_type_rejection-Refusing formats (codes v)
content_type_status-Refusing formats (v ∷ w ∷ values) = inl refl

checks-IsCheck :
    (formats : HttpFormats) (request : HttpRequest) → All IsCheck (checks formats request)
checks-IsCheck formats request =
    let types = header_values formats request.headers "content-type" in
    let rest : All IsCheck (_ ∷ _ ∷ _ ∷ []) = (
      refusal-IsCheck formats _ (content_type_status-Refusing formats types),
      ((λ k. inr (inl refl)), ((λ k. inl refl), tt)),
    ) in
    (
      (λ k. inl refl),
      (
        (λ k. inr (inr (inl refl))),
        (
          (λ k. inr (inr (inr (inl refl)))),
          ((λ k. inr (inr (inr (inr (inl refl))))), ((λ k. inl refl), rest)),
        ),
      ),
    )

first_failed-All : (cs : List Failing) → first_failed cs ≡ none → All (λ c. c.0 ≡ false) cs
first_failed-All [] h = tt
first_failed-All ((true, s) ∷ cs) h = cc
first_failed-All ((false, s) ∷ cs) h = (refl, first_failed-All cs h)

-- a request for the heartbeat endpoint, with a body within the limit
abbrev pub IsHeartbeat : HttpRequest → Type 0
IsHeartbeat request =
    (request.path ≡ heartbeat_path)
    × (request.method ≡ heartbeat_method)
    × (1 ≤ length request.body)
    × (length request.body ≤ max_heartbeat_body_bytes)

checks-IsHeartbeat :
    (formats : HttpFormats) (request : HttpRequest)
    → All (λ c. c.0 ≡ false) (checks formats request)
    → IsHeartbeat request
checks-IsHeartbeat formats request (_, (path, (method, (most, (least, _))))) = (
  (eq_iff request.path heartbeat_path).0 (ground arith),
  (eq_iff request.method heartbeat_method).0 (ground arith),
  ground arith,
  ground arith,
)

module _ (formats : HttpFormats) where
  -- the bytes are the text of a strict JSON document
  abbrev pub Spells : List ℕ → Json → Type 0
  Spells body payload =
      (t : formats.Text) × (formats.decode_utf8 body ≡ some t)
      × (formats.loads t ≡ some payload)
      × (is_acceptable payload ≡ true)

  object_or_none-same : (j payload : Json) → object_or_none formats j ≡ some payload → j ≡ payload
  object_or_none-same (object m) payload h = cc
  object_or_none-same _ payload h = cc

  parse_sound :
      (o : Option Json) (payload : Json)
      → parse formats o ≡ some payload
      → (o ≡ some payload) × (is_acceptable payload ≡ true)
  parse_sound none payload h = cc
  parse_sound (some j) payload h = go (is_acceptable j) refl h
    where
      go :
          (b : Bool)
          → is_acceptable j ≡ b
          → (if b then object_or_none formats j else none) ≡ some payload
          → (some j ≡ some payload) × (is_acceptable payload ≡ true)
      go false a k = cc
      go true a k =
          let same = object_or_none-same j payload k in
          (ap (λ (x : Json). some x) same, rw same at a)

  decode_strict_json-Spells :
      (body : List ℕ) (payload : Json)
      → decode_strict_json formats body ≡ some payload
      → Spells body payload
  unfolding decode_strict_json
  decode_strict_json-Spells body payload h = go (formats.decode_utf8 body) refl h
    where
      go :
          (o : Option formats.Text)
          → formats.decode_utf8 body ≡ o
          → parse_text formats o ≡ some payload
          → Spells body payload
      go none p k = cc
      go (some t) p k = let (q, a) = parse_sound (formats.loads t) payload k in (t, p, q, a)

module _ (formats : HttpFormats) (convert : Conversions) (config : SentinelConfig)
    (credentials : NodeCredentials) (env : IngestEnv) where
  -- the body is a JSON object with the values of the telemetry
  abbrev pub Stated : List ℕ → HostTelemetry → Type 0
  Stated body t = (m : Members) × Spells formats body (object m) × Transcribes convert m t

  Spells-Stated :
      (body : List ℕ) (payload : Json) (t : HostTelemetry)
      → Spells formats body payload
      → Transcribed convert config credentials (some payload) t
      → Stated body t
  Spells-Stated body payload t h (m, p, same) =
      let e : payload ≡ object m = ground arith in (m, subst (Spells formats body) e h, same)

  abbrev pub Served :
      HttpRequest → List HeartbeatRecord → Result HttpResponse → List HeartbeatRecord → Type 0
  Served request rows (err e) after = (Rejection e → ⊥) × (after ≡ rows)
  Served request rows (ok r) after =
      ((r ≡ response 204 [])
        × IsHeartbeat request
        × (token : String) × (t : HostTelemetry) × (header_values formats request.headers
              "x-sentinel-token"
            ≡ token ∷ [])
        × Authenticated convert config credentials (some token) t
        × Stated request.body t
        × (after ≡ rows ++ (record { telemetry = t; received_at = env.now } ∷ [])))
      ⊎ (IsRefusal r × (after ≡ rows))

  respond-Served :
      (request : HttpRequest) (rows : List HeartbeatRecord) (token : String) (payload : Json)
      (answer : Result HeartbeatReceipt) (after : List HeartbeatRecord)
      → IsHeartbeat request
      → header_values formats request.headers "x-sentinel-token" ≡ token ∷ []
      → Spells formats request.body payload
      → Answered convert config credentials env (some payload) (some token) rows answer after
      → Served request rows (respond answer) after
  unfolding respond
  respond-Served request rows token payload (ok r) after p h spelt (t, a, same, _, stored) =
      inl (refl, p, token, t, h, a, Spells-Stated request.body payload t spelt same, stored)
  respond-Served request rows token payload (err malformed_payload_error) after p h spelt a =
      inr (inl refl, a)
  respond-Served request rows token payload (err authentication_error) after p h spelt a =
      inr (inr (inl refl), a)
  respond-Served request rows token payload (err e) after p h spelt a =
      ((λ q. elim q [ inl e ↦ cc | inr e ↦ cc ]), a)

  Decided-Served :
      (request : HttpRequest) (rows : List HeartbeatRecord) (o : Option HttpResponse)
      (x : Reply formats convert config credentials env)
      → first_failed (checks formats request) ≡ o
      → Decided formats convert config credentials env request rows o x
      → Served request rows x.0 x.1
  Decided-Served request rows (some r) x h d = rw d (
      inr (
        first_failed-IsRefusal (checks formats request) r (checks-IsCheck formats request) h,
        refl,
      ))
  Decided-Served request rows none x h (token, payload, found, parsed, d) = rw d (
      respond-Served request rows token payload _ _
        (checks-IsHeartbeat formats request (first_failed-All (checks formats request) h)) found
        (decode_strict_json-Spells formats request.body payload parsed)
        (handle-Answered convert config credentials env (some payload) (some token) rows))

  -- For every request: if the response is 204, then the request is a POST of the heartbeat path with a
  -- body of 1 to 16384 bytes, and one record was added at the end, of valid telemetry
  -- of a configured node, with every field as the JSON object of the body has it, and the one token header of the request is the token of that node; any other
  -- response is one of the six refusals, and the rows are unchanged. If an exception escapes, it is
  -- neither of the two errors of the wire boundary, and the rows are unchanged.
  pub handle-Served :
      (request : HttpRequest) (rows : List HeartbeatRecord)
      → let x = handle formats convert config credentials env request rows in
        Served request rows x.0 x.1
  handle-Served request rows =
      Decided-Served request rows _ _ refl
        (handle-Decided formats convert config credentials env request rows)
