-- ===== src/Telegram/Sender.antt =====
-- `TelegramSender` of src/hermes_sentinel/telegram.py and its twin, `DeadManTelegramSender` of
-- src/hermes_sentinel/deadman_telegram.py, which exchange one request. The transport, UTF-8, the JSON
-- parser and the JSON printer are arguments.
use Prim.Native.String.{◌++◌ as append}
use hermes_sentinel.Base.{
  ℕ, suc, String, Bool, true, false, List, Option, none, some, str_eq, ◌==◌, ltb, length, not,
  if◌then◌else◌,
}
use hermes_sentinel.Result.{Result, ok, err, value_error, telegram_delivery_error, recursion_error}
use hermes_sentinel.Json.{Json, int, negative, text, bool, object, Members, end, member}
use hermes_sentinel.Domain.{HostState, healthy, degraded, down}
use hermes_sentinel.Incidents.{Incident, IncidentKind}
use hermes_sentinel.DateTime.{DateTime}
use hermes_sentinel.Deadman.Types.{
  DeadManNotificationKind, down_kind, recovered_kind, DeadManNotification,
}
use hermes_sentinel.Float.{Float}
use hermes_sentinel.Server.Dispatch.{read}
use hermes_sentinel.Telegram as Settings
use hermes_sentinel.Telegram.{Integer, TelegramSettings}

-- what `json.loads` does with a text
pub data Parsed : Type 0 where
  document : Json → Parsed
  malformed : Parsed
  too_deep : Parsed

pub record TelegramFormats : Type 1 where
  pub Text : Type 0
  pub decode_utf8 : List ℕ → Option Text
  pub loads : Text → Parsed
  pub dumps_utf8 : Json → Option (List ℕ)
  pub isoformat : DateTime → String

-- `_RESPONSE_BODY_LIMIT_BYTES`
abbrev pub response_body_limit_bytes : ℕ
response_body_limit_bytes = 8192

-- The `status` and the bytes of a response, or an expected transport failure while they are read.
pub data Reading : Type 0 where
  unreadable : Reading
  readable : ℕ → List ℕ → Reading

-- What `open` comes to: an expected transport failure, an `HTTPError`, or a response; of the last two,
-- whether `close` fails.
pub data Exchange : Type 0 where
  unreachable : Exchange
  http_error : ℕ → Bool → Exchange
  response : Reading → Bool → Exchange

abbrev pub state_value : HostState → String
state_value healthy = "healthy"
state_value degraded = "degraded"
state_value down = "down"

abbrev pub kind_line : IncidentKind → String
kind_line IncidentKind.down = "DOWN"
kind_line IncidentKind.recovered = "RECOVERED"

-- `document.get(key)`: of equal keys, the last one counts
unfoldable pub last_value : String → Members → Option Json
last_value key end = none
last_value key (member k v m) = elim (last_value key m) [
  | some w ↦ some w
  | none ↦ (if str_eq k key then some v else none)
]

abbrev pub integer : Integer → Json
integer (Settings.natural n) = int n
integer (Settings.negative n) = negative n

abbrev pub thread_member : Option Integer → Members
thread_member none = end
thread_member (some n) = member "message_thread_id" (integer n) end

-- the document of `_render_json_body`
unfoldable pub message_document : String → TelegramSettings → Json
message_document message s = object (
    member "chat_id" (integer s.chat_id)
      (member "text" (text message) (thread_member s.message_thread_id)))

abbrev pub request_url : TelegramSettings → String
request_url s = append "https://api.telegram.org/bot" (append s.bot_token "/sendMessage")

pub record TelegramRequest : Type 0 where
  pub url : String
  pub body : List ℕ

-- `opener.open(request, timeout)`
abbrev pub Opener : Type 0
Opener = TelegramRequest → Float → Exchange

module _ (formats : TelegramFormats) where
  open formats use {Text, decode_utf8, loads, dumps_utf8, isoformat}

  -- `render_incident_message`
  unfoldable pub render_incident_message : Incident → String
  render_incident_message i =
      let t = i.transition in
      append "Hermes Sentinel\n" (
        append (kind_line i.kind) (
          append "\nHost: " (
            append t.host (
              append "\nState: " (
                append (state_value t.from_state) (
                  append " -> "
                    (append (state_value t.to_state) (append "\nAt: " (isoformat t.at)))))))))

  -- whether the document says that the message was sent
  abbrev pub says_ok : Option Json → Bool
  says_ok (some (bool true)) = true
  says_ok _ = false

  abbrev pub is_delivered : Json → Bool
  is_delivered (object m) = says_ok (last_value "ok" m)
  is_delivered _ = false

  -- The two handlers of `ValueError` give the same failure; a `RecursionError` has none.
  abbrev pub classify_document : Parsed → Result Bool
  classify_document (document j) = ok (is_delivered j)
  classify_document malformed = ok false
  classify_document too_deep = err recursion_error

  abbrev pub classify_text : Option Text → Result Bool
  classify_text none = ok false
  classify_text (some t) = classify_document (loads t)

  -- `_classify_bounded_response`: whether the message was delivered
  unfoldable pub classify_bounded_response : ℕ → List ℕ → Result Bool
  unfolding last_value
  classify_bounded_response status raw =
      if not (status == 200)
      then ok false
      else (if ltb response_body_limit_bytes (length raw)
          then ok false
          else classify_text (decode_utf8 raw))

  unfoldable pub classify_reading : Reading → Result Bool
  unfolding classify_bounded_response
  classify_reading unreadable = ok false
  classify_reading (readable status stream) =
      classify_bounded_response status (read (suc response_body_limit_bytes) stream)

  -- what an attempt comes to, and how often a response was closed
  abbrev pub Attempt : Type 0
  Attempt = Result (Unit {0}) × ℕ

  -- `_close_bounded_response` and the final raise
  abbrev pub closing : Result Bool → Bool → Attempt
  closing (err e) close_fails = (err e, 0)
  closing (ok false) close_fails = (err telegram_delivery_error, 1)
  closing (ok true) true = (err telegram_delivery_error, 1)
  closing (ok true) false = (ok tt, 1)

  unfoldable pub exchange : Exchange → Attempt
  unfolding classify_reading
  exchange unreachable = (err telegram_delivery_error, 0)
  exchange (http_error status close_fails) = (err telegram_delivery_error, 1)
  exchange (response reading close_fails) = closing (classify_reading reading) close_fails

  -- `_build_request` and the exchange of the request: a message that is not encodable raises a
  -- `UnicodeEncodeError`, which is a `ValueError`
  unfoldable pub attempt : TelegramSettings → Opener → Option (List ℕ) → Attempt
  unfolding exchange
  attempt settings open_request none = (err value_error, 0)
  attempt settings open_request (some body) =
      exchange
        (open_request (record { url = request_url settings; body = body }) settings.timeout_seconds)

  -- `send`, of the rendered message
  unfoldable pub send : TelegramSettings → Opener → String → Attempt
  unfolding message_document attempt
  send settings open_request message =
      attempt settings open_request (dumps_utf8 (message_document message settings))

  -- `TelegramSender.send`
  unfoldable pub send_incident : TelegramSettings → Opener → Incident → Attempt
  unfolding render_incident_message send
  send_incident settings open_request incident =
      send settings open_request (render_incident_message incident)

  abbrev pub notification_line : DeadManNotificationKind → String
  notification_line down_kind = "DOWN"
  notification_line recovered_kind = "RECOVERED"

  unfoldable pub render_deadman_message : DeadManNotification → String
  render_deadman_message n =
      append "Hermes Sentinel Dead-Man\n"
        (append (notification_line n.kind) (append "\nAt: " (isoformat n.transition.at)))

  -- `DeadManTelegramSender.send`
  unfoldable pub send_notification : TelegramSettings → Opener → DeadManNotification → Attempt
  unfolding render_deadman_message send
  send_notification settings open_request notification =
      send settings open_request (render_deadman_message notification)
