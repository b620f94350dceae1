-- ===== src/Server.antt =====
-- The listener of src/hermes_sentinel/http_server.py: the framing of a request, the hand-off to the
-- endpoint and what is written back. The parsing of the request line and of the headers is the
-- standard library's, and so is `headers.get_all`, which compares names in lower case.
pub mod Length
pub mod Dispatch
pub mod Digits
pub mod Framed
pub mod Stored
pub mod Liveness
pub mod Serves
use hermes_sentinel.Base.{ℕ, String, Bool, List}
use hermes_sentinel.Http.{max_heartbeat_body_bytes}

-- `MAX_CONTENT_LENGTH`
abbrev pub max_content_length : ℕ
max_content_length = max_heartbeat_body_bytes

-- One parsed request: `stream` is what the client sends after the headers, up to the end of the file.
pub record Connection : Type 0 where
  pub command : String
  pub path : String
  pub headers : List (String × String)
  pub stream : List ℕ
