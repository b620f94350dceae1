-- ===== src/Http/Adapter.antt =====
-- `HeartbeatHttpAdapter.handle` of src/hermes_sentinel/http_api.py. An exception that it does not
-- catch is the error of the result. The rows are those of the database behind the ingestion.
use hermes_sentinel.Base.{
  ℕ, String, Bool, false, not, ◌&&◌, ◌||◌, List, [], ◌∷◌, Option, none, some, str_eq, ltb, ◌==◌,
  length, if◌then◌else◌,
}
use hermes_sentinel.Result.{Result, ok, err, malformed_payload_error, authentication_error}
use hermes_sentinel.Json.{Json, object, is_acceptable}
use hermes_sentinel.Config.{SentinelConfig}
use hermes_sentinel.Ingestion.{HeartbeatRecord, HeartbeatReceipt, IngestEnv}
use hermes_sentinel.Wire.{Conversions}
use hermes_sentinel.Wire.Credentials.{NodeCredentials}
use hermes_sentinel.Wire.Adapter as Wire
use hermes_sentinel.Http.{
  HttpRequest, HttpResponse, HttpFormats, heartbeat_path, heartbeat_method,
  max_heartbeat_body_bytes, response,
}
use hermes_sentinel.Http.Codes.{codes, same, any}
use hermes_sentinel.Http.ContentType.{is_invisible, content_type_rejection}

-- `_is_malformed_header_name`
abbrev pub is_malformed_header_name : String → Bool
is_malformed_header_name name = str_eq name "" || any is_invisible (codes name)

-- `(ch < " " and ch != "\t") or ch == "\x7f"`
abbrev pub is_control : ℕ → Bool
is_control c = ltb c 32 && not (c == 9) || c == 127

-- `_is_malformed_header_value`
abbrev pub is_malformed_header_value : String → Bool
is_malformed_header_value value = any is_control (codes value)

-- `_has_malformed_structure`, on the headers
unfoldable pub has_malformed_structure : List (String × String) → Bool
has_malformed_structure [] = false
has_malformed_structure ((name, value) ∷ headers) =
    is_malformed_header_name name
    || is_malformed_header_value value
    || has_malformed_structure headers

module _ (formats : HttpFormats) where
  open formats use {Text, decode_utf8, loads, lower}

  unfoldable pub header_values : List (String × String) → String → List String
  header_values [] name = []
  header_values ((header_name, value) ∷ headers) name =
      let rest = header_values headers name in
      if same (lower (codes header_name)) (codes name) then value ∷ rest else rest

  abbrev pub object_or_none : Json → Option Json
  object_or_none (object m) = some (object m)
  object_or_none _ = none

  abbrev pub parse : Option Json → Option Json
  parse none = none
  parse (some payload) = if is_acceptable payload then object_or_none payload else none

  abbrev pub parse_text : Option Text → Option Json
  parse_text none = none
  parse_text (some text) = parse (loads text)

  -- `_decode_strict_json`
  unfoldable pub decode_strict_json : List ℕ → Option Json
  decode_strict_json body = parse_text (decode_utf8 body)

-- the `try` around the call of the wire adapter
unfoldable pub respond : Result HeartbeatReceipt → Result HttpResponse
respond (ok receipt) = ok (response 204 [])
respond (err malformed_payload_error) = ok (response 400 [])
respond (err authentication_error) = ok (response 401 [])
respond (err e) = err e

module _ (formats : HttpFormats) (convert : Conversions) (config : SentinelConfig)
    (credentials : NodeCredentials) (env : IngestEnv) where
  abbrev pub Reply : Type 0
  Reply = Result HttpResponse × List HeartbeatRecord

  abbrev pub refused : ℕ → List HeartbeatRecord → Reply
  refused status rows = (ok (response status []), rows)

  unfoldable pub deliver : Option Json → String → List HeartbeatRecord → Reply
  unfolding respond
  deliver none token rows = refused 400 rows
  deliver (some payload) token rows =
      let x = Wire.handle convert config credentials env (some payload) (some token) rows in
      (respond x.0, x.1)

  -- from the token header on
  unfoldable pub with_token : List String → List ℕ → List HeartbeatRecord → Reply
  unfolding deliver
  with_token (token ∷ []) body rows = deliver (decode_strict_json formats body) token rows
  with_token _ body rows = refused 401 rows

  abbrev pub after_content_type :
      Option ℕ → List (String × String) → List ℕ → List HeartbeatRecord → Reply
  after_content_type (some rejection) headers body rows = refused rejection rows
  after_content_type none headers body rows =
      with_token (header_values formats headers "x-sentinel-token") body rows

  -- from the Content-Type header on
  unfoldable pub with_content_type :
      List String → List (String × String) → List ℕ → List HeartbeatRecord → Reply
  unfolding with_token
  with_content_type [] headers body rows = refused 415 rows
  with_content_type (value ∷ []) headers body rows =
      after_content_type (content_type_rejection formats (codes value)) headers body rows
  with_content_type _ headers body rows = refused 400 rows

  -- `HeartbeatHttpAdapter.handle`
  unfoldable pub handle : HttpRequest → List HeartbeatRecord → Reply
  unfolding with_content_type has_malformed_structure
  handle request rows =
      if has_malformed_structure request.headers
      then refused 400 rows
      else (if not (str_eq request.path heartbeat_path)
          then refused 404 rows
          else (if not (str_eq request.method heartbeat_method)
              then (ok (response 405 (("Allow", heartbeat_method) ∷ [])), rows)
              else (if ltb max_heartbeat_body_bytes (length request.body)
                  then refused 413 rows
                  else (if length request.body == 0
                      then refused 400 rows
                      else with_content_type (header_values formats request.headers "content-type")
                          request.headers request.body rows))))
