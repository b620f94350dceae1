-- ===== src/Server/Liveness.antt =====
-- The listener of src/hermes_sentinel/http_server.py as the dead-man prober of
-- src/hermes_sentinel/deadman_probe.py sees it.
use hermes_sentinel.Base.{ℕ, ◌≡◌, refl, subst, sym, String, false, List, [], ◌∷◌, map}
use hermes_sentinel.Result.{ok}
use hermes_sentinel.Config.{SentinelConfig}
use hermes_sentinel.Ingestion.{HeartbeatRecord, IngestEnv}
use hermes_sentinel.Wire.{Conversions}
use hermes_sentinel.Wire.Credentials.{NodeCredentials}
use hermes_sentinel.Http.{HttpResponse, HttpFormats, heartbeat_path, response}
use hermes_sentinel.Http.Codes.{codes, same}
use hermes_sentinel.Http.Adapter as Http
use hermes_sentinel.Http.Adapter.{has_malformed_structure, header_values}
use hermes_sentinel.Server.{Connection}
use hermes_sentinel.Server.Dispatch.{
  get_all, is_heartbeat_post, resolve_body, emit_response, emit, hand_off, dispatch,
}
use hermes_sentinel.Deadman.Types.{healthy}
use hermes_sentinel.Deadman.Probe.{
  classify_deadman_probe, create_response, post_is_allowed, contains, collect_methods, add_methods,
  split, strip, strip_left, strip_right,
}
use hermes_sentinel.Deadman.Prober.{Opened, readable, acquired, probe, observe}
use hermes_sentinel.Server.Dispatch.{read}

module _ (formats : HttpFormats) where
  open formats use {lower}

  -- `str.lower` on the names of the headers that the listener writes
  abbrev pub LowersNames : Type 0
  LowersNames =
      (lower (codes "Content-Length") ≡ codes "content-length")
      × (lower (codes "Allow") ≡ codes "allow")
      × (lower (codes "Connection") ≡ codes "connection")

  -- what the prober reads of an emitted response
  abbrev pub seen : HttpResponse → Opened
  seen r = acquired (readable r.status (map codes (get_all formats r.headers "allow")) r.body)

  abbrev method_not_allowed : HttpResponse
  method_not_allowed = response 405 (("Allow", "POST") ∷ [])

  emitted_allow :
      (str : ℕ → String)
      → LowersNames
      → get_all formats (emit_response formats str method_not_allowed).headers "allow" ≡ "POST" ∷ []
  unfolding emit_response response header_values codes same
  emitted_allow str (c, a, k) = rw c (rw a (rw k refl))

  -- the classifier on such a response
  listed_healthy : probe (acquired (readable 405 (codes "POST" ∷ []) [])) ≡ (healthy, 1)
  unfolding probe observe create_response read classify_deadman_probe post_is_allowed contains
      collect_methods add_methods split strip strip_left strip_right codes
  listed_healthy = refl

  seen_healthy :
      (str : ℕ → String)
      → LowersNames
      → probe (seen (emit_response formats str method_not_allowed)) ≡ (healthy, 1)
  unfolding emit_response response
  seen_healthy str names =
      subst (λ allow. probe (acquired (readable 405 (map codes allow) [])) ≡ (healthy, 1))
        (sym (emitted_allow str names)) listed_healthy

  resolve_body-get : (c : Connection) → c.command ≡ "GET" → resolve_body formats c ≡ ok []
  unfolding resolve_body
  resolve_body-get c get = let other : is_heartbeat_post c ≡ false = rw get refl in rw other refl

module _ (formats : HttpFormats) (convert : Conversions) (config : SentinelConfig)
    (credentials : NodeCredentials) (env : IngestEnv) (str : ℕ → String) where
  handle-get :
      (headers : List (String × String)) (rows : List HeartbeatRecord)
      → has_malformed_structure headers ≡ false
      → Http.handle formats convert config credentials env
          (record { method = "GET"; path = heartbeat_path; headers = headers; body = [] })
          rows
        ≡ (ok (response 405 (("Allow", "POST") ∷ [])), rows)
  unfolding Http.handle
  handle-get headers rows well = rw well refl

  -- A GET of the heartbeat path with well-formed headers, which is what the prober sends, is answered
  -- with a response that the prober classifies as healthy, whatever the configuration, and it stores
  -- nothing.
  pub dispatch-healthy :
      (c : Connection) (rows : List HeartbeatRecord)
      → LowersNames formats
      → c.command ≡ "GET"
      → c.path ≡ heartbeat_path
      → has_malformed_structure c.headers ≡ false
      → let x = dispatch formats convert config credentials env str c rows in
        (probe (seen formats x.0) ≡ (healthy, 1)) × (x.1 ≡ rows)
  unfolding dispatch hand_off emit
  dispatch-healthy c rows names get path well = rw (resolve_body-get formats c get) (
      rw get (rw path (rw (handle-get c.headers rows well) (seen_healthy formats str names, refl))))
