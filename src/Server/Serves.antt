-- ===== src/Server/Serves.antt =====
-- A request that is served: every layer from src/hermes_sentinel/http_server.py to the stored row.
use hermes_sentinel.Base.{
  ℕ, ◌≡◌, refl, subst, ◌∙◌, inl, inr, true, String, List, [], ◌∷◌, ◌++◌, none, some, ap,
}
use hermes_sentinel.Result.{Result, ok}
use hermes_sentinel.Json.{Json}
use hermes_sentinel.Domain.{HostTelemetry}
use hermes_sentinel.Config.{SentinelConfig}
use hermes_sentinel.Ingestion.{HeartbeatRecord, HeartbeatReceipt, IngestEnv, ingest}
use hermes_sentinel.Ingestion.Accepts.{is_acceptable, Stored, ingest_cases}
use hermes_sentinel.Wire.{Conversions}
use hermes_sentinel.Wire.Credentials.{NodeCredentials}
use hermes_sentinel.Wire.Adapter as Wire
use hermes_sentinel.Wire.Adapter.{authenticate, ingest_authenticated}
use hermes_sentinel.Http.{HttpRequest, HttpFormats, response}
use hermes_sentinel.Http.Adapter as Http
use hermes_sentinel.Http.Adapter.{header_values, decode_strict_json, respond}
use hermes_sentinel.Http.Order.{first_failed, checks, Decided, handle-Decided}
use hermes_sentinel.Server.{Connection}
use hermes_sentinel.Server.Dispatch.{resolve_body, emit_response, emit, hand_off, dispatch}

module _ (convert : Conversions) (config : SentinelConfig) (credentials : NodeCredentials)
    (env : IngestEnv) where
  -- what the adapter answers and leaves for telemetry that the insert takes
  abbrev Accepted :
      HostTelemetry → ℕ → List HeartbeatRecord → Result HeartbeatReceipt × List HeartbeatRecord
  Accepted t n rows = (
    ok (record { node = t.host; observation_id = n; received_at = env.now }),
    rows ++ (record { telemetry = t; received_at = env.now } ∷ []),
  )

  ingest_stores :
      (t : HostTelemetry) (n : ℕ) (rows : List HeartbeatRecord)
      → is_acceptable env config t ≡ true
      → env.insert (record { telemetry = t; received_at = env.now }) ≡ ok n
      → ingest env config t rows ≡ Accepted t n rows
  ingest_stores t n rows acceptable inserted = elim (ingest_cases env config t rows) [
    | inl (_, s) ↦
        let (p, q) =
          subst (λ r. Stored env t rows (ingest env config t rows).0 (ingest env config t rows).1 r)
            inserted s in
        λ i. (p i, q i)
    | inr (refused, _) ↦ cc
  ]

  handle_stores :
      (payload : Json) (token : String) (t : HostTelemetry) (n : ℕ) (rows : List HeartbeatRecord)
      → authenticate convert config credentials (some payload) (some token) ≡ ok t
      → is_acceptable env config t ≡ true
      → env.insert (record { telemetry = t; received_at = env.now }) ≡ ok n
      → Wire.handle convert config credentials env (some payload) (some token) rows
        ≡ Accepted t n rows
  unfolding Wire.handle ingest_authenticated
  handle_stores payload token t n rows authentic acceptable inserted =
      rw authentic (ingest_stores t n rows acceptable inserted)

  module _ (formats : HttpFormats) (str : ℕ → String) where
    -- the request that is handed to the endpoint
    abbrev pub request_of : Connection → List ℕ → HttpRequest
    request_of c body = record {
      method = c.command;
      path = c.path;
      headers = c.headers;
      body = body;
    }

    served :
        (request : HttpRequest) (rows : List HeartbeatRecord) (token : String) (payload : Json)
        (t : HostTelemetry) (n : ℕ)
        → header_values formats request.headers "x-sentinel-token" ≡ token ∷ []
        → decode_strict_json formats request.body ≡ some payload
        → authenticate convert config credentials (some payload) (some token) ≡ ok t
        → is_acceptable env config t ≡ true
        → env.insert (record { telemetry = t; received_at = env.now }) ≡ ok n
        → Decided formats convert config credentials env request rows none
            (Http.handle formats convert config credentials env request rows)
        → Http.handle formats convert config credentials env request rows
          ≡ (ok (response 204 []), rows ++ (record { telemetry = t; received_at = env.now } ∷ []))
    unfolding respond
    served request rows token payload t n one body authentic acceptable inserted
          (u, p, one', body', d) =
        let same_token : u ≡ token = cc in
        let same_payload : p ≡ payload = cc in
        let moved : Wire.handle convert config credentials env (some p) (some u) rows
            ≡ Wire.handle convert config credentials env (some payload) (some token) rows =
          rw same_token (rw same_payload refl) in
        d
        ∙ ap (λ x. (respond x.0, x.1))
            (moved ∙ handle_stores payload token t n rows authentic acceptable inserted)

    -- A connection whose body is resolved, whose request passes the checks of the endpoint, whose token
    -- header and body authenticate telemetry that the ingestion accepts, and whose record the database
    -- takes, is answered with 204, and the record is added at the end.
    pub dispatch_stores :
        (c : Connection) (rows : List HeartbeatRecord) (body : List ℕ) (token : String)
        (payload : Json) (t : HostTelemetry) (n : ℕ)
        → resolve_body formats c ≡ ok body
        → first_failed (checks formats (request_of c body)) ≡ none
        → header_values formats c.headers "x-sentinel-token" ≡ token ∷ []
        → decode_strict_json formats body ≡ some payload
        → authenticate convert config credentials (some payload) (some token) ≡ ok t
        → is_acceptable env config t ≡ true
        → env.insert (record { telemetry = t; received_at = env.now }) ≡ ok n
        → let x = dispatch formats convert config credentials env str c rows in
          (x.0.status ≡ 204)
          × (x.1 ≡ rows ++ (record { telemetry = t; received_at = env.now } ∷ []))
    unfolding dispatch hand_off emit emit_response response
    dispatch_stores c rows body token payload t n whole passed one decoded authentic acceptable
          inserted =
        let decided =
          subst
            (λ o.
              Decided formats convert config credentials env (request_of c body) rows o
                (Http.handle formats convert config credentials env (request_of c body) rows))
            passed
            (handle-Decided formats convert config credentials env (request_of c body) rows) in
        let answer =
          served (request_of c body) rows token payload t n one decoded authentic acceptable
            inserted decided in
        rw whole (rw answer (refl, refl))
