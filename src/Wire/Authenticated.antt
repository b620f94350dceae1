-- ===== src/Wire/Authenticated.antt =====
-- What `AuthenticatedHeartbeatAdapter.handle` of src/hermes_sentinel/wire.py stores, and for whom.
use hermes_sentinel.Base.{
  ℕ, ◌&&◌, ◌≡◌, refl, ◌∙◌, ◌⊎◌, inl, inr, String, true, false, List, [], ◌∷◌, ◌++◌, Option, none,
  some, str_eq, eq_iff, arith,
}
use hermes_sentinel.Result.{Result, ok, err, Error, malformed_payload_error, authentication_error}
use hermes_sentinel.Result.Ensures.{
  Ensures, returns, raises, Ensures-bind, Ensures-guard, Ensures-both,
}
use hermes_sentinel.Json.{Json, object, Members, has_key}
use hermes_sentinel.Domain.{HostTelemetry}
use hermes_sentinel.Config.{SentinelConfig}
use hermes_sentinel.Deadman.Snapshot.Fields.{Anything, get-Ensures}
use hermes_sentinel.Ingestion.{HeartbeatRecord, HeartbeatReceipt, IngestEnv}
use hermes_sentinel.Ingestion.Accepts.{ingest_cases, Stored, Refused}
use hermes_sentinel.Wire.{Conversions}
use hermes_sentinel.Wire.Credentials.{
  NodeCredentials, token_for, create_credentials, create_credentials_unique,
}
use hermes_sentinel.Wire.Adapter.{
  snapshot_payload, claimed_node, matches, is_known, authenticate, ingest_authenticated, handle,
}
use hermes_sentinel.Wire.Telemetry.{
  IsTelemetry, Malformed, decode_members-Ensures, require_node-Ensures,
}
use hermes_sentinel.Wire.Transcribed.{Transcribes, decode_members-Transcribes}

-- what the HTTP boundary turns into a response
abbrev pub Rejection : Error → Type 0
Rejection e = (e ≡ malformed_payload_error) ⊎ (e ≡ authentication_error)

-- the presented token is the one of the node
abbrev pub Owns : NodeCredentials → Option String → String → Type 0
Owns credentials token node =
    (presented : String) × (token ≡ some presented) × (token_for credentials node ≡ some presented)

rejected :
    {A : Type 0} {Q : A → Type 0} {r : Result A} → Ensures Q Malformed r → Ensures Q Rejection r
rejected (returns q) = returns q
rejected (raises p) = raises (inl p)

module _ (convert : Conversions) (config : SentinelConfig) (credentials : NodeCredentials) where
  matches-Owns :
      (node : String) (token : Option String)
      → matches convert config credentials (token_for credentials node) token ≡ true
      → Owns credentials token node
  matches-Owns node token h = go (token_for credentials node) token refl refl h
    where
      go :
          (expected presented : Option String)
          → token_for credentials node ≡ expected
          → token ≡ presented
          → matches convert config credentials expected presented ≡ true
          → Owns credentials token node
      go none presented p q k = cc
      go (some e) none p q k = cc
      go (some e) (some t) p q k = (t, q, ground (arith, eq_iff t e))

  -- telemetry that is handed on
  abbrev pub Authenticated : Option String → HostTelemetry → Type 0
  Authenticated token t =
      IsTelemetry t
      × (is_known convert config credentials t.host ≡ true)
      × Owns credentials token t.host

  -- telemetry that is what the payload has
  abbrev pub Transcribed : Option Json → HostTelemetry → Type 0
  Transcribed payload t = (m : Members) × (payload ≡ some (object m)) × Transcribes convert m t

  snapshot_payload-Ensures :
      (payload : Option Json)
      → Ensures (λ m. payload ≡ some (object m)) Rejection (snapshot_payload payload)
  unfolding snapshot_payload
  snapshot_payload-Ensures (some (object m)) = returns refl
  snapshot_payload-Ensures _ = raises (inl refl)

  claimed_node-Ensures :
      (m : Members) → Ensures Anything Rejection (claimed_node convert config credentials m)
  unfolding claimed_node
  claimed_node-Ensures m = Ensures-guard (has_key "node" m) _ (inl refl) λ k.
      Ensures-bind _ (get-Ensures "node" m k) λ raw _. rejected (require_node-Ensures convert raw)

  pub authenticate-Ensures :
      (payload : Option Json) (token : Option String)
      → Ensures
          (λ t. Authenticated token t × Transcribed payload t)
          Rejection
          (authenticate convert config credentials payload token)
  unfolding authenticate
  authenticate-Ensures payload token = Ensures-bind _ (snapshot_payload-Ensures payload) λ m read.
      Ensures-bind _ (claimed_node-Ensures m) λ node _.
        Ensures-guard (is_known convert config credentials node) _ (inr refl) λ known.
          Ensures-guard (matches convert config credentials (token_for credentials node) token) _
            (inr refl)
            λ own.
              Ensures-bind _
                (Ensures-both (rejected (decode_members-Ensures convert m))
                  (decode_members-Transcribes convert m))
                λ t (valid, same_values). Ensures-guard (str_eq t.host node) _ (inl refl) λ same.
                  let p : t.host ≡ node = (eq_iff t.host node).0 same in
                  returns (
                    (valid, rw p known, rw p (matches-Owns node token own)),
                    (m, read, same_values),
                  )

  -- what one call answers and leaves in the database
  abbrev pub Answered :
      IngestEnv
      → Option Json
      → Option String
      → List HeartbeatRecord
      → Result HeartbeatReceipt
      → List HeartbeatRecord
      → Type 0
  Answered env payload token rows (ok r) after =
      (t : HostTelemetry) × Authenticated token t
      × Transcribed payload t
      × (r.node ≡ t.host)
      × (after ≡ rows ++ (record { telemetry = t; received_at = env.now } ∷ []))
  Answered env payload token rows (err e) after = after ≡ rows

  Refused-Answered :
      (env : IngestEnv) (payload : Option Json) (token : Option String)
      (rows : List HeartbeatRecord) (answer : Result HeartbeatReceipt)
      (after : List HeartbeatRecord)
      → Refused rows answer after
      → Answered env payload token rows answer after
  Refused-Answered env payload token rows answer after (e, p, q) = rw p q

  Stored-Answered :
      (env : IngestEnv) (payload : Option Json) (token : Option String) (t : HostTelemetry)
      (rows : List HeartbeatRecord) (answer : Result HeartbeatReceipt)
      (after : List HeartbeatRecord) (n : Result ℕ)
      → Authenticated token t
      → Transcribed payload t
      → Stored env t rows answer after n
      → Answered env payload token rows answer after
  Stored-Answered env payload token t rows answer after (ok n) a b (p, q) = rw p (t, a, b, refl, q)
  Stored-Answered env payload token t rows answer after (err e) a b (p, q) = rw p q

  ingest_authenticated-Answered :
      (env : IngestEnv) (payload : Option Json) (token : Option String)
      (rows : List HeartbeatRecord) {r : Result HostTelemetry}
      → Ensures (λ t. Authenticated token t × Transcribed payload t) Rejection r
      → let x = ingest_authenticated convert config credentials env r rows in
        Answered env payload token rows x.0 x.1
  unfolding ingest_authenticated
  ingest_authenticated-Answered env payload token rows (raises q) = refl
  ingest_authenticated-Answered env payload token rows (returns {a = t} (a, b)) =
      elim (ingest_cases env config t rows) [
        | inl (_, s) ↦ Stored-Answered env payload token t rows _ _ _ a b s
        | inr (_, s) ↦ Refused-Answered env payload token rows _ _ s
      ]

  -- Whatever the payload and the token: if `handle` answers with a receipt, then one record was added,
  -- at the end, of valid telemetry with an aware time and with every field as the payload has it, whose
  -- host is a configured node, has a
  -- credential, and the presented token is that credential; the receipt names that host. If it raises,
  -- the rows are unchanged.
  pub handle-Answered :
      (env : IngestEnv) (payload : Option Json) (token : Option String)
      (rows : List HeartbeatRecord)
      → let x = handle convert config credentials env payload token rows in
        Answered env payload token rows x.0 x.1
  unfolding handle
  handle-Answered env payload token rows =
      ingest_authenticated-Answered env payload token rows (authenticate-Ensures payload token)

  -- What a call that presents the token of the node `a` leaves in the database: one record more, of
  -- that node and with the values of the payload, or the same rows.
  abbrev pub OwnNode :
      IngestEnv
      → Option Json
      → String
      → List HeartbeatRecord
      → Result HeartbeatReceipt
      → List HeartbeatRecord
      → Type 0
  OwnNode env payload a rows (ok r) after =
      (r.node ≡ a)
      × (t : HostTelemetry) × (t.host ≡ a)
      × Transcribed payload t
      × (after ≡ rows ++ (record { telemetry = t; received_at = env.now } ∷ []))
  OwnNode env payload a rows (err e) after = after ≡ rows

  Answered-OwnNode :
      (env : IngestEnv) (items : List (String × String)) (payload : Option Json)
      (a presented : String) (rows after : List HeartbeatRecord) (answer : Result HeartbeatReceipt)
      → create_credentials convert.strip items ≡ ok credentials
      → token_for credentials a ≡ some presented
      → Answered env payload (some presented) rows answer after
      → OwnNode env payload a rows answer after
  Answered-OwnNode env items payload a presented rows after (err e) made own h = h
  Answered-OwnNode env items payload a presented rows after (ok r) made own
        (t, (_, _, (u, p, q)), b, same, stored) =
      let expected : token_for credentials t.host ≡ some presented = cc in
      let host : t.host ≡ a =
        create_credentials_unique convert.strip items credentials t.host a presented made expected
          own in
      (same ∙ host, t, host, b, stored)

  -- With credentials that were constructed, a call that presents the token of the node `a` adds one
  -- record at the end of the rows, whose telemetry has the host `a` and every field as the payload has
  -- it, and answers with a receipt for `a`; or it raises, and the rows are unchanged.
  pub handle-OwnNode :
      (env : IngestEnv) (items : List (String × String)) (payload : Option Json)
      (a presented : String) (rows : List HeartbeatRecord)
      → create_credentials convert.strip items ≡ ok credentials
      → token_for credentials a ≡ some presented
      → let x = handle convert config credentials env payload (some presented) rows in
        OwnNode env payload a rows x.0 x.1
  handle-OwnNode env items payload a presented rows made own =
      Answered-OwnNode env items payload a presented rows _ _ made own
        (handle-Answered env payload (some presented) rows)

  -- An unknown node, a node without a credential and a wrong token are one and the same: the answer is
  -- the authentication error, before the rest of the payload is decoded, and the rows are unchanged.
  pub handle_no_enumeration :
      (env : IngestEnv) (m : Members) (node : String) (token : Option String)
      (rows : List HeartbeatRecord)
      → claimed_node convert config credentials m ≡ ok node
      → (is_known convert config credentials node
          && matches convert config credentials (token_for credentials node) token)
        ≡ false
      → handle convert config credentials env (some (object m)) token rows
        ≡ (err authentication_error, rows)
  unfolding handle authenticate ingest_authenticated snapshot_payload
  handle_no_enumeration env m node token rows claimed h = rw claimed (ground arith)
