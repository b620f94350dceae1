-- ===== src/Lib.antt =====
-- Hermes Sentinel watches hosts from outside and is itself watched by a dead-man's switch. This
-- library models its core logic, under src/hermes_sentinel/, with the theorems that make it correct.
--
-- The dead-man's switch (deadman.py, deadman_store.py, deadman_runtime.py). A cycle loads a status
-- from a file, probes the Sentinel, advances the status by the outcome, saves it, delivers the oldest
-- pending notification intent, acknowledges it, and saves again.
--   Deadman/Types      enums, transitions, intents and the outage binding, with `__post_init__`
--   Deadman/Status     `DeadManStatus` and the checks of its `__post_init__`, in the source's order
--   Deadman/Machine    `advance_deadman_status` and `acknowledge_deadman_notification`
--   Deadman/Debounce   runs of the machine against a description by the outcomes alone
--   Deadman/Ledger     histories of advances and acknowledgements, raising calls included
--   Deadman/Probe      `classify_deadman_probe`
--   Deadman/Snapshot   `encode_deadman_status` and `decode_deadman_status`, on JSON documents
--   Deadman/Store      `DeadManStateStore.load` and `save`, against failing system calls
--   Deadman/Runtime    `run_deadman_cycle`, on a world of the state file and the deliveries
--
-- The monitor. Heartbeats are ingested into a repository; a cycle evaluates each configured host by
-- its last heartbeat and one TCP probe, resolves its state with hysteresis, and passes a transition
-- across DOWN to the sender as an incident.
--   Domain, Config     the dataclasses of domain.py and config.py with their checks, and the lookup
--   Health             health.py and reachability.py
--   Resolver           state_resolver.py
--   Engine             health_engine.py
--   Incidents          incidents.py and notifications.py
--   Monitoring         monitoring.py
--   Ingestion          ingestion.py, and the record of persistence/repository.py
--
-- The way in and out of the central process. The listener frames a request and hands it to the
-- endpoint, which checks it in the documented order, parses the body and passes payload and token to
-- the authenticated adapter in front of the ingestion; the loop serves one request after the other and
-- runs the monitoring cycle on its schedule; the sender delivers an incident.
--   Wire               wire.py: credentials, the payload decoder, the adapter
--   Http               http_api.py: headers, Content-Type, strict JSON, the endpoint
--   Server             http_server.py: Content-Length, the body, dispatch and emission
--   Runtime            runtime.py: the deadline, one pass, the loop
--   Telegram           telegram.py and deadman_telegram.py: settings, messages, one exchange
--   Settings           settings.py: strings, JSON fields, hosts, credentials, the loader
--   Application        application.py and process.py: resources, rollback, signal handlers
--   Deadman/Prober     deadman_probe.py: one probe and its observation
--   Deadman/Config     deadman_config.py, and the probe settings of deadman_probe.py
--   Deadman/Process    deadman_process.py: one cycle and its exit code
--   Tests              the theorems at concrete inputs
--
-- How the code is represented. A dataclass is a record, and its `__post_init__` a function to a
-- result, in the source's order; `construct` runs it on the fields. An exception is its class, in
-- Result. Integers that the code checks to be non-negative are natural numbers, so such a check and
-- every `isinstance` check is the type of the model. A datetime (DateTime) is an instant and a zone
-- that may lack an offset; a float (Float) is a multiple of the least double, an infinity or a nan.
-- State is passed explicitly: the engine's memory, the sender's calls, the stored rows, the state
-- file. What the outside does in one call is an argument of it: the clock, the repository's answer, the
-- connection, the sender, the failing system calls. A run of the central loop is a list of passes, each
-- with what its collaborators answer, so that it may end while the loop goes on. A header is the text
-- that the code sees, compared by its code points, and a body the list of its bytes. Every loop is structural recursion, so no fuel is needed.
--
-- Python's own code is a parameter with the documented behaviour that the source relies on: the texts
-- of JSON and of ISO 8601 and UTF-8 are read back as they were written, JSON for documents without
-- floats and nested at most four deep (TextFormats, ByteFormats), and
-- `timedelta.total_seconds` is finite, not negative and monotone (Seconds). `str.strip` and the insert
-- of SQLite are arguments without any hypothesis, and so are `str.lower`, the white space of `str.strip`,
-- `str.isspace`, `urlsplit`, `json.loads`, `float` of a text and the digit limit of `int` where the code
-- calls them. Of float addition and `math.nextafter`, the loop relies on a sum of finite floats being a number and on the
-- next float being above (FloatArithmetic).
--
-- Not modelled: messages of exceptions; the ends of the datetime range, where `astimezone` raises, and
-- the digit limit of the integers in a snapshot; the best-effort directory sync of the store; SQLite
-- statements
-- and schema migration (persistence/); the parsing of request lines and headers and the sockets, which
-- are the standard library's; the lines that the processes print; the release script in tools/.
pub mod Base
pub mod Result
pub mod DateTime
pub mod Deadman
pub mod Json
pub mod Float
pub mod Domain
pub mod Config
pub mod Health
pub mod Resolver
pub mod Incidents
pub mod Ingestion
pub mod Engine
pub mod Monitoring
pub mod Wire
pub mod Http
pub mod Server
pub mod Runtime
pub mod Telegram
pub mod Settings
pub mod Application
pub mod Tests
