-- ===== src/Server/Dispatch.antt =====
-- `_resolve_body`, `_dispatch` and the emission of src/hermes_sentinel/http_server.py.
use hermes_sentinel.Base.{
  ℕ, String, Bool, true, false, not, ◌&&◌, List, [], ◌∷◌, ◌++◌, Option, none, some, str_eq, ◌==◌,
  length, if◌then◌else◌,
}
use hermes_sentinel.Result.{Result, ok, err, framing_error, guard, ◌>>=◌, ◌>>◌}
use hermes_sentinel.Config.{SentinelConfig}
use hermes_sentinel.Ingestion.{HeartbeatRecord, IngestEnv}
use hermes_sentinel.Wire.{Conversions}
use hermes_sentinel.Wire.Credentials.{NodeCredentials}
use hermes_sentinel.Http.{HttpRequest, HttpResponse, HttpFormats, heartbeat_path, heartbeat_method}
use hermes_sentinel.Http.Adapter as Http
use hermes_sentinel.Http.Adapter.{header_values}
use hermes_sentinel.Server.{Connection}
use hermes_sentinel.Server.Length.{content_length_or_none}

-- `rfile.read(n)`: n bytes, or all there are
unfoldable pub read : ℕ → List ℕ → List ℕ
read ℕ.zero stream = []
read (ℕ.suc n) [] = []
read (ℕ.suc n) (byte ∷ stream) = byte ∷ read n stream

-- `self.command == HEARTBEAT_METHOD and self.path == HEARTBEAT_PATH`
abbrev pub is_heartbeat_post : Connection → Bool
is_heartbeat_post c = str_eq c.command heartbeat_method && str_eq c.path heartbeat_path

-- no interim response is ever sent: `handle_expect_100` answers 417, or lets the dispatch follow
unfoldable pub handle_expect_100 : Connection → Option ℕ
handle_expect_100 c = if is_heartbeat_post c then some 417 else none

abbrev pub is_none_given : List String → Bool
is_none_given [] = true
is_none_given _ = false

-- exactly the declared bytes
unfoldable pub read_body : Option ℕ → List ℕ → Result (List ℕ)
unfolding read
read_body none stream = err (framing_error 411)
read_body (some n) stream =
    if n == 0
    then ok []
    else guard (length (read n stream) == n) (framing_error 400) >> ok (read n stream)

module _ (formats : HttpFormats) where
  -- `headers.get_all(name)`, where no header is the empty list
  abbrev pub get_all : List (String × String) → String → List String
  get_all = header_values formats

  unfoldable pub resolve_body : Connection → Result (List ℕ)
  unfolding read_body
  resolve_body c =
      if not (is_heartbeat_post c)
      then ok []
      else (guard (is_none_given (get_all c.headers "expect")) (framing_error 417)
          >> (guard (is_none_given (get_all c.headers "transfer-encoding")) (framing_error 400)
              >> (content_length_or_none (get_all c.headers "content-length") >>= λ declared.
                  read_body declared c.stream)))

  -- what `_emit_response` adds to a response without a body
  abbrev pub with_content_length : List (String × String) → List (String × String)
  with_content_length headers =
      headers
      ++ (("Connection", "close")
          ∷ (if is_none_given (get_all headers "content-length")
              then ("Content-Length", "0") ∷ []
              else []))

  -- `_emit_response`: the text of the length of a body is an argument
  unfoldable pub emit_response : (ℕ → String) → HttpResponse → HttpResponse
  emit_response str r = record {
    status = r.status;
    headers =
        (if length r.body == 0
          then with_content_length r.headers
          else r.headers
            ++ (("Connection", "close") ∷ ("Content-Length", str (length r.body)) ∷ []));
    body = r.body;
  }

-- `_emit_b5_response`
unfoldable pub emit_b5_response : ℕ → HttpResponse
emit_b5_response status = record {
  status = status;
  headers = ("Content-Length", "0") ∷ ("Connection", "close") ∷ [];
  body = [];
}

module _ (formats : HttpFormats) (convert : Conversions) (config : SentinelConfig)
    (credentials : NodeCredentials) (env : IngestEnv) (str : ℕ → String) where
  -- `except Exception`
  unfoldable pub emit : Result HttpResponse → HttpResponse
  unfolding emit_response emit_b5_response
  emit (ok r) = emit_response formats str r
  emit (err e) = emit_b5_response 500

  unfoldable pub hand_off :
      Connection → Result (List ℕ) → List HeartbeatRecord → HttpResponse × List HeartbeatRecord
  unfolding emit
  hand_off c (err (framing_error status)) rows = (emit_b5_response status, rows)
  hand_off c (err e) rows = (emit_b5_response 500, rows)
  hand_off c (ok body) rows =
      let request : HttpRequest = record {
        method = c.command;
        path = c.path;
        headers = c.headers;
        body = body;
      } in
      let x = Http.handle formats convert config credentials env request rows in (emit x.0, x.1)

  -- `_dispatch`
  unfoldable pub dispatch : Connection → List HeartbeatRecord → HttpResponse × List HeartbeatRecord
  unfolding hand_off
  dispatch c rows = hand_off c (resolve_body formats c) rows
