-- ===== src/Ingestion/Accepts.antt =====
-- What src/hermes_sentinel/ingestion.py writes, and when.
use hermes_sentinel.Base.{
  ℕ, ◌≡◌, ◌≢◌, refl, ◌⊎◌, inl, inr, Bool-cases, String, Bool, true, false, not, ◌&&◌, List, [], ◌∷◌,
  ◌++◌, none, some, str_eq, arith,
}
use hermes_sentinel.Result.{Result, Error, ok, err}
use hermes_sentinel.DateTime.{is_aware}
use hermes_sentinel.Domain.{HostTelemetry}
use hermes_sentinel.Config.{SentinelConfig, host}
use hermes_sentinel.Ingestion.{
  HeartbeatRecord, HeartbeatReceipt, IngestEnv, check_record, insert_checked, accept, ingest,
}

-- whether a heartbeat is one that the code stores
abbrev pub is_configured : SentinelConfig → String → Bool
is_configured config name = elim (host config name) [ none ↦ false | some _ ↦ true ]

abbrev pub is_acceptable : IngestEnv → SentinelConfig → HostTelemetry → Bool
is_acceptable env config t =
    is_configured config t.host
    && is_aware env.now
    && not (str_eq (env.strip t.host) "")
    && is_aware t.timestamp

abbrev pub Stored :
    IngestEnv
    → HostTelemetry
    → List HeartbeatRecord
    → Result HeartbeatReceipt
    → List HeartbeatRecord
    → Result ℕ
    → Type 0
Stored env t rows answer after (ok n) =
    (answer ≡ ok (record { node = t.host; observation_id = n; received_at = env.now }))
    × (after ≡ rows ++ (record { telemetry = t; received_at = env.now } ∷ []))
Stored env t rows answer after (err e) = (answer ≡ err e) × (after ≡ rows)

accept-ok :
    (env : IngestEnv) (config : SentinelConfig) (t : HostTelemetry)
    → is_acceptable env config t ≡ true
    → accept env config t ≡ ok (record { telemetry = t; received_at = env.now })
unfolding accept check_record
accept-ok env config t h = ground arith

accept_sound :
    (env : IngestEnv) (config : SentinelConfig) (t : HostTelemetry) (r : HeartbeatRecord)
    → accept env config t ≡ ok r
    → is_acceptable env config t ≡ true
unfolding accept check_record
accept_sound env config t r h = ground arith

abbrev pub Refused : List HeartbeatRecord → Result HeartbeatReceipt → List HeartbeatRecord → Type 0
Refused rows answer after = (e : Error) × (answer ≡ err e) × (after ≡ rows)

insert_checked-Refused :
    (env : IngestEnv) (t : HostTelemetry) (x : Result HeartbeatRecord) (rows : List HeartbeatRecord)
    → ((r : HeartbeatRecord) → x ≢ ok r)
    → Refused rows (insert_checked env t x rows).0 (insert_checked env t x rows).1
unfolding insert_checked
insert_checked-Refused env t (err e) rows h = (e, refl, refl)
insert_checked-Refused env t (ok r) rows h = absurd (h r refl)

insert_checked-Stored :
    (env : IngestEnv) (t : HostTelemetry) (n : Result ℕ) (rows : List HeartbeatRecord)
    → env.insert (record { telemetry = t; received_at = env.now }) ≡ n
    → let x = insert_checked env t (ok (record { telemetry = t; received_at = env.now })) rows in
      Stored env t rows x.0 x.1 n
unfolding insert_checked
insert_checked-Stored env t (ok n) rows h = rw h (refl, refl)
insert_checked-Stored env t (err e) rows h = rw h (refl, refl)

-- A heartbeat of a configured node whose name is not blank, with an aware `timestamp` and an aware
-- central clock, reaches the insert: if the insert returns an id, the rows gain one record, of that
-- telemetry and the clock's value, at the end, and the receipt names the node, the id and the clock's
-- value; if it raises, the same exception escapes and the rows are unchanged. Any other heartbeat
-- raises, with the rows unchanged.
pub ingest_cases :
    (env : IngestEnv) (config : SentinelConfig) (t : HostTelemetry) (rows : List HeartbeatRecord)
    → let x = ingest env config t rows in
      ((is_acceptable env config t ≡ true)
        × Stored env t rows x.0 x.1 (env.insert (record { telemetry = t; received_at = env.now })))
      ⊎ ((is_acceptable env config t ≡ false) × Refused rows x.0 x.1)
unfolding ingest
ingest_cases env config t rows = elim (Bool-cases (is_acceptable env config t)) [
  | inl h ↦ inl (h, rw (accept-ok env config t h) (insert_checked-Stored env t _ rows refl))
  | inr h ↦ inr (
    h,
    insert_checked-Refused env t (accept env config t) rows
        (λ r e. let s = accept_sound env config t r e in cc),
  )
]
