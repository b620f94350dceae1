-- ===== src/Http/Order.antt =====
-- The order of the checks of `HeartbeatHttpAdapter.handle`, as the docstring of
-- src/hermes_sentinel/http_api.py lists them: the first one that fails decides the response.
use hermes_sentinel.Base.{
  ℕ, ◌≡◌, refl, String, Bool, true, false, not, List, [], ◌∷◌, Option, none, some, str_eq, ltb,
  ◌==◌, length, if◌then◌else◌, arith,
}
use hermes_sentinel.Result.{ok}
use hermes_sentinel.Json.{Json}
use hermes_sentinel.Config.{SentinelConfig}
use hermes_sentinel.Ingestion.{HeartbeatRecord, IngestEnv}
use hermes_sentinel.Wire.{Conversions}
use hermes_sentinel.Wire.Credentials.{NodeCredentials}
use hermes_sentinel.Wire.Adapter as Wire
use hermes_sentinel.Http.{
  HttpRequest, HttpResponse, HttpFormats, heartbeat_path, heartbeat_method,
  max_heartbeat_body_bytes, response,
}
use hermes_sentinel.Http.Codes.{codes}
use hermes_sentinel.Http.ContentType.{content_type_rejection}
use hermes_sentinel.Http.Adapter.{
  has_malformed_structure, header_values, decode_strict_json, respond, Reply, deliver, with_token,
  after_content_type, with_content_type, handle,
}

-- a check that failed, with its response
abbrev pub Failing : Type 0
Failing = Bool × HttpResponse

abbrev pub first_failed : List Failing → Option HttpResponse
first_failed [] = none
first_failed ((failed, r) ∷ checks) = if failed then some r else first_failed checks

module _ (formats : HttpFormats) where
  abbrev pub content_type_status : List String → Option ℕ
  content_type_status [] = some 415
  content_type_status (value ∷ []) = content_type_rejection formats (codes value)
  content_type_status _ = some 400

  abbrev pub refusal : Option ℕ → Failing
  refusal none = (false, response 204 [])
  refusal (some status) = (true, response status [])

  abbrev pub missing : Option Json → Bool
  missing none = true
  missing (some payload) = false

  -- steps 1 to 8 of the docstring
  abbrev pub checks : HttpRequest → List Failing
  checks request =
      (has_malformed_structure request.headers, response 400 [])
      ∷ (not (str_eq request.path heartbeat_path), response 404 [])
      ∷ (not (str_eq request.method heartbeat_method), response 405 (("Allow", "POST") ∷ []))
      ∷ (ltb max_heartbeat_body_bytes (length request.body), response 413 [])
      ∷ (length request.body == 0, response 400 [])
      ∷ refusal (content_type_status (header_values formats request.headers "content-type"))
      ∷ (
        not (length (header_values formats request.headers "x-sentinel-token") == 1),
        response 401 [],
      )
      ∷ (missing (decode_strict_json formats request.body), response 400 [])
      ∷ []

module _ (formats : HttpFormats) (convert : Conversions) (config : SentinelConfig)
    (credentials : NodeCredentials) (env : IngestEnv) where
  abbrev pub Decided :
      HttpRequest
      → List HeartbeatRecord
      → Option HttpResponse
      → Reply formats convert config credentials env
      → Type 0
  Decided request rows (some r) x = x ≡ (ok r, rows)
  Decided request rows none x =
      (token : String) × (payload : Json) × (header_values formats request.headers
          "x-sentinel-token"
        ≡ token ∷ [])
      × (decode_strict_json formats request.body ≡ some payload)
      × (x ≡ (
          let y = Wire.handle convert config credentials env (some payload) (some token) rows in
          (respond y.0, y.1)))

  deliver-Decided :
      (request : HttpRequest) (rows : List HeartbeatRecord) (token : String) (payload : Option Json)
      → header_values formats request.headers "x-sentinel-token" ≡ token ∷ []
      → decode_strict_json formats request.body ≡ payload
      → Decided request rows
          (first_failed ((missing formats payload, response 400 []) ∷ []))
          (deliver formats convert config credentials env payload token rows)
  unfolding deliver
  deliver-Decided request rows token none h k = refl
  deliver-Decided request rows token (some payload) h k = (token, payload, h, k, refl)

  with_token-Decided :
      (request : HttpRequest) (rows : List HeartbeatRecord) (tokens : List String)
      → header_values formats request.headers "x-sentinel-token" ≡ tokens
      → Decided request rows
          (first_failed (
            (not (length tokens == 1), response 401 [])
            ∷ (missing formats (decode_strict_json formats request.body), response 400 [])
            ∷ []))
          (with_token formats convert config credentials env tokens request.body rows)
  unfolding with_token
  with_token-Decided request rows [] h = refl
  with_token-Decided request rows (token ∷ []) h = deliver-Decided request rows token _ h refl
  with_token-Decided request rows (a ∷ b ∷ tokens) h =
      let several : (length (a ∷ b ∷ tokens) == 1) ≡ false = ground arith in rw several refl

  abbrev from_token : HttpRequest → List Failing
  from_token request =
      (
        not (length (header_values formats request.headers "x-sentinel-token") == 1),
        response 401 [],
      )
      ∷ (missing formats (decode_strict_json formats request.body), response 400 [])
      ∷ []

  with_content_type-Decided :
      (request : HttpRequest) (rows : List HeartbeatRecord) (values : List String)
      → Decided request rows
          (first_failed (refusal formats (content_type_status formats values) ∷ from_token request))
          (with_content_type formats convert config credentials env values request.headers
            request.body rows)
  unfolding with_content_type
  with_content_type-Decided request rows [] = refl
  with_content_type-Decided request rows (value ∷ []) =
      go (content_type_rejection formats (codes value))
    where
      go :
          (rejection : Option ℕ)
          → Decided request rows (first_failed (refusal formats rejection ∷ from_token request)) (
              after_content_type formats convert config credentials env rejection request.headers
                request.body rows)
      go none = with_token-Decided request rows _ refl
      go (some status) = refl
  with_content_type-Decided request rows (a ∷ b ∷ values) = refl

  Decided-if :
      (request : HttpRequest) (rows : List HeartbeatRecord) (failed : Bool) (r : HttpResponse)
      (o : Option HttpResponse) (x : Reply formats convert config credentials env)
      → Decided request rows o x
      → Decided request rows (if failed then some r else o) (if failed then (ok r, rows) else x)
  Decided-if request rows true r o x d = refl
  Decided-if request rows false r o x d = d

  -- If one of the eight checks fails, `handle` returns the response of the first one that does, and the
  -- rows are unchanged; if none fails, the request has one token header and its body is a JSON object,
  -- and the answer is that of the wire adapter on these two, its errors turned into responses.
  pub handle-Decided :
      (request : HttpRequest) (rows : List HeartbeatRecord)
      → Decided request rows
          (first_failed (checks formats request))
          (handle formats convert config credentials env request rows)
  unfolding handle
  handle-Decided request rows =
      Decided-if request rows (has_malformed_structure request.headers) _ _ _ (
        Decided-if request rows (not (str_eq request.path heartbeat_path)) _ _ _ (
          Decided-if request rows (not (str_eq request.method heartbeat_method)) _ _ _ (
            Decided-if request rows (ltb max_heartbeat_body_bytes (length request.body)) _ _ _ (
              Decided-if request rows (length request.body == 0) _ _ _ (
                with_content_type-Decided request rows
                  (header_values formats request.headers "content-type"))))))
