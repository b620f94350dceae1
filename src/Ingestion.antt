-- ===== src/Ingestion.antt =====
-- Heartbeat ingestion of src/hermes_sentinel/ingestion.py, and the record it stores, of
-- src/hermes_sentinel/persistence/repository.py. `str.strip` and what SQLite does with the insert are
-- arguments; the rows are the records whose insert was committed, the newest last.
pub mod Accepts
use hermes_sentinel.Base.{
  ℕ, String, Bool, true, false, not, List, [], ◌∷◌, ◌++◌, Option, none, some, str_eq,
}
use hermes_sentinel.Result.{
  Result, ok, err, value_error, unknown_node_error, invalid_clock_result_error, guard, construct,
  ◌>>=◌, ◌>>◌,
}
use hermes_sentinel.DateTime.{DateTime, is_aware}
use hermes_sentinel.Domain.{HostTelemetry}
use hermes_sentinel.Config.{SentinelConfig, host}

pub record HeartbeatRecord : Type 0 where
  pub telemetry : HostTelemetry
  pub received_at : DateTime

pub record HeartbeatReceipt : Type 0 where
  pub node : String
  pub observation_id : ℕ
  pub received_at : DateTime

-- what the outside answers during one call
pub record IngestEnv : Type 0 where
  pub strip : String → String
  pub now : DateTime
  pub insert : HeartbeatRecord → Result ℕ

module _ (env : IngestEnv) where
  -- `_require_valid_node` and `_require_aware` of `HeartbeatRecord.__post_init__`
  unfoldable pub check_record : HeartbeatRecord → Result (Unit {0})
  check_record r = do
    guard (not (str_eq (env.strip r.telemetry.host) "")) value_error
    guard (is_aware r.received_at) value_error
    guard (is_aware r.telemetry.timestamp) value_error

  abbrev committed : Result ℕ → HeartbeatRecord → List HeartbeatRecord → List HeartbeatRecord
  committed (ok n) r rows = rows ++ (r ∷ [])
  committed (err e) r rows = rows

  abbrev receipt : HostTelemetry → Result ℕ → Result HeartbeatReceipt
  receipt t (err e) = err e
  receipt t (ok n) = ok (record { node = t.host; observation_id = n; received_at = env.now })

  unfoldable pub insert_checked :
      HostTelemetry
      → Result HeartbeatRecord
      → List HeartbeatRecord
      → Result HeartbeatReceipt × List HeartbeatRecord
  insert_checked t (err e) rows = (err e, rows)
  insert_checked t (ok r) rows = (receipt t (env.insert r), committed (env.insert r) r rows)

  unfoldable pub accept : SentinelConfig → HostTelemetry → Result HeartbeatRecord
  unfolding check_record
  accept config t = do
    guard (elim (host config t.host) [ none ↦ false | some _ ↦ true ]) unknown_node_error
    guard (is_aware env.now) invalid_clock_result_error
    construct check_record (record { telemetry = t; received_at = env.now })

  -- `HeartbeatIngestor.ingest`
  unfoldable pub ingest :
      SentinelConfig
      → HostTelemetry
      → List HeartbeatRecord
      → Result HeartbeatReceipt × List HeartbeatRecord
  unfolding accept insert_checked
  ingest config t rows = insert_checked t (accept config t) rows
