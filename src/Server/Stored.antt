-- ===== src/Server/Stored.antt =====
-- What an answer of the listener of src/hermes_sentinel/http_server.py says about the database.
use hermes_sentinel.Base.{
  ℕ, ◌≤◌, ◌≡◌, refl, ◌⊎◌, inl, inr, subst, String, List, [], ◌∷◌, ◌++◌, some, length, arith, ap,
  sym, All, Any,
}
use hermes_sentinel.Result.{Result, ok, err}
use hermes_sentinel.Result.Ensures.{Ensures, returns, raises}
use hermes_sentinel.Domain.{HostTelemetry}
use hermes_sentinel.Config.{SentinelConfig}
use hermes_sentinel.Ingestion.{HeartbeatRecord, IngestEnv}
use hermes_sentinel.Wire.{Conversions}
use hermes_sentinel.Wire.Credentials.{NodeCredentials}
use hermes_sentinel.Wire.Authenticated.{Authenticated}
use hermes_sentinel.Http.{HttpRequest, HttpResponse, HttpFormats, response}
use hermes_sentinel.Http.Adapter.{header_values}
use hermes_sentinel.Http.Served.{refusals, IsRefusal, Stated, Served, handle-Served}
use hermes_sentinel.Server.{Connection}
use hermes_sentinel.Server.Dispatch.{emit_response, emit_b5_response, emit, hand_off, dispatch}
use hermes_sentinel.Server.Framed.{Framing, Whole, Received, resolve_body-Ensures}

abbrev IsClientError : HttpResponse → Type 0
IsClientError r = (400 ≤ r.status) × (r.body ≡ [])

one_of :
    (rs : List HttpResponse) (r : HttpResponse)
    → All IsClientError rs
    → Any (λ s. r ≡ s) rs
    → IsClientError r
one_of [] r a h = absurd h
one_of (s ∷ rs) r (a, rest) (inl p) = subst IsClientError (sym p) a
one_of (s ∷ rs) r (a, rest) (inr h) = one_of rs r rest h

empty_error :
    (status : ℕ) (hs : List (String × String)) → 400 ≤ status → IsClientError (response status hs)
unfolding response
empty_error status hs h = (h, refl)

IsRefusal-IsClientError : (r : HttpResponse) → IsRefusal r → IsClientError r
IsRefusal-IsClientError r h =
    one_of refusals r
      (
        empty_error 400 [] (omega arith),
        (
          empty_error 401 [] (omega arith),
          (
            empty_error 404 [] (omega arith),
            (
              empty_error 405 _ (omega arith),
              (empty_error 413 [] (omega arith), (empty_error 415 [] (omega arith), tt)),
            ),
          ),
        ),
      )
      h

module _ (formats : HttpFormats) (convert : Conversions) (config : SentinelConfig)
    (credentials : NodeCredentials) (env : IngestEnv) (str : ℕ → String) where
  -- the rows of a request that was stored
  abbrev pub StoredFor : Connection → List HeartbeatRecord → List HeartbeatRecord → Type 0
  StoredFor c rows after =
      (body : List ℕ) × Whole formats c body
      × (1 ≤ length body)
      × (token : String) × (t : HostTelemetry) × (header_values formats c.headers "x-sentinel-token"
          ≡ token ∷ [])
      × Authenticated convert config credentials (some token) t
      × Stated formats convert config credentials env body t
      × (after ≡ rows ++ (record { telemetry = t; received_at = env.now } ∷ []))

  abbrev pub Dispatched :
      Connection → List HeartbeatRecord → HttpResponse → List HeartbeatRecord → Type 0
  Dispatched c rows r after =
      (r.body ≡ [])
      × (((r.status ≡ 204) × StoredFor c rows after) ⊎ ((400 ≤ r.status) × (after ≡ rows)))

  emit-Dispatched :
      (c : Connection) (rows : List HeartbeatRecord) (body : List ℕ) (answer : Result HttpResponse)
      (after : List HeartbeatRecord)
      → Received formats c body
      → Served formats convert config credentials env
          (record { method = c.command; path = c.path; headers = c.headers; body = body })
          rows
          answer
          after
      → Dispatched c rows (emit formats convert config credentials env str answer) after
  unfolding emit emit_response emit_b5_response response
  emit-Dispatched c rows body (err e) after received (_, kept) = (refl, inr (omega arith, kept))
  emit-Dispatched c rows body (ok r) after received (inr (refused, kept)) =
      let (s, b) = IsRefusal-IsClientError r refused in (b, inr (s, kept))
  emit-Dispatched c rows body (ok r) after (inl (_, nothing))
        (inl (_, heartbeat, _, _, _, _, _, _)) =
      absurd (
        let e : 1 ≤ length body = heartbeat.2 in
        let z : length body ≡ 0 = ap (λ b. length b) nothing in omega arith)
  emit-Dispatched c rows body (ok r) after (inr (_, whole))
        (inl (sent, heartbeat, token, t, h, a, told, s)) =
      let e : 1 ≤ length body = heartbeat.2 in
      let (status, empty) = success in
      (empty, inl (status, (body, whole, e, token, t, h, a, told, s)))
    where
      success : (r.status ≡ 204) × (r.body ≡ [])
      success = rw sent (refl, refl)

  -- Every request is answered, with an empty body. If the status is 204, then the request carried as many
  -- body bytes as it declared, at least one and at most 16384; these bytes are the text of a strict JSON
  -- object; and one record was added at the end, whose telemetry has every field as that object has it,
  -- is valid, and is of the configured node whose token the one token header presents. Any other status
  -- is at least 400, and the rows are unchanged.
  pub dispatch-Dispatched :
      (c : Connection) (rows : List HeartbeatRecord)
      → let x = dispatch formats convert config credentials env str c rows in
        Dispatched c rows x.0 x.1
  unfolding dispatch hand_off emit_b5_response
  dispatch-Dispatched c rows = go (resolve_body-Ensures formats c)
    where
      go :
          {r : Result (List ℕ)}
          → Ensures (Received formats c) Framing r
          → let x = hand_off formats convert config credentials env str c r rows in
            Dispatched c rows x.0 x.1
      go (returns {a = body} received) =
          let request : HttpRequest = record {
            method = c.command;
            path = c.path;
            headers = c.headers;
            body = body;
          } in
          emit-Dispatched c rows body _ _ received
            (handle-Served formats convert config credentials env request rows)
      go (raises (status, p, h)) = rw p (refl, inr (h, refl))
