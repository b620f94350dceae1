-- ===== src/Http.antt =====
-- The heartbeat endpoint of src/hermes_sentinel/http_api.py. A body is its list of bytes. UTF-8, the
-- JSON parser, the white space of `str.strip` and `str.lower` are arguments.
pub mod Codes
pub mod ContentType
pub mod Adapter
pub mod Accepted
pub mod Order
pub mod Served
use hermes_sentinel.Base.{ℕ, String, Bool, List, [], ◌∷◌, ◌++◌, Option}
use hermes_sentinel.Json.{Json}

-- A request and a response have the annotated types, so the `isinstance` tests of the code hold.
pub record HttpRequest : Type 0 where
  pub method : String
  pub path : String
  pub headers : List (String × String)
  pub body : List ℕ

pub record HttpResponse : Type 0 where
  pub status : ℕ
  pub headers : List (String × String)
  pub body : List ℕ

-- Of a text, only its code points are read. `decode_utf8` is none for a `UnicodeDecodeError`, `loads`
-- for a `ValueError` or a `RecursionError`.
pub record HttpFormats : Type 1 where
  pub Text : Type 0
  pub decode_utf8 : List ℕ → Option Text
  pub loads : Text → Option Json
  pub is_space : ℕ → Bool
  pub lower : List ℕ → List ℕ

abbrev pub heartbeat_path : String
heartbeat_path = "/v1/heartbeat"

abbrev pub heartbeat_method : String
heartbeat_method = "POST"

-- `MAX_HEARTBEAT_BODY_BYTES`
abbrev pub max_heartbeat_body_bytes : ℕ
max_heartbeat_body_bytes = 16384

-- `_response`
unfoldable pub response : ℕ → List (String × String) → HttpResponse
response status extra_headers = record {
  status = status;
  headers = ("Content-Length", "0") ∷ extra_headers;
  body = [];
}
