-- ===== src/Tests/Central.antt =====
-- Settings, one run of the loop and of the process, and a delivery.
use hermes_sentinel.Base.{
  ℕ, zero, suc, ◌+◌, ◌≡◌, refl, String, Bool, true, false, List, [], ◌∷◌, ◌++◌, Option, none, some,
  length, ltb, str_eq, if◌then◌else◌, arith,
}
use hermes_sentinel.Result.{Result, ok, err, recursion_error}
use hermes_sentinel.Result.Ensures.{Ensures}
use hermes_sentinel.Float.{
  Float, nan, negative_infinity, minus, finite, infinity, le, lt, is_finite, zero_float,
}
use hermes_sentinel.Json.{Json, bool, int, text, array, object, end, member, nil, cons}
use hermes_sentinel.Runtime.{
  FloatArithmetic, Pass, returned, SentinelRuntime, require_positive, create_runtime, run_forever,
}
use hermes_sentinel.Runtime.Schedule.{Timely, run_forever-Timely}
use hermes_sentinel.Runtime.Stops.{run_forever_returns}
use hermes_sentinel.Settings.{SettingsFormats, Environment, CentralSettings}
use hermes_sentinel.Settings.Load.{load_central_settings}
use hermes_sentinel.Settings.Bounded.{Bounded}
use hermes_sentinel.Settings.Loaded.{IsCentral, load_central_settings-Ensures}
use hermes_sentinel.Application.{BuildCalls}
use hermes_sentinel.Application.Process.{SignalCalls, run_process}
use hermes_sentinel.Application.Cleanup.{Clean, run_process-Clean}
use hermes_sentinel.Telegram.{TelegramSettings, natural}
use hermes_sentinel.Telegram.Sender.{
  Parsed, document, too_deep, TelegramFormats, response, readable, Opener, exchange, send,
}
use hermes_sentinel.Telegram.Outcome.{Attempted, send-Attempted, exchange-TooDeep}
use hermes_sentinel.Server.Dispatch.{read}

-- exact sums of floats that are not negative, and 0 for the others
abbrev add : Float → Float → Float
add (finite a) (finite b) = finite (a + b)
add _ _ = finite 0

abbrev next_after : Float → Float
next_after (finite n) = finite (suc n)
next_after (minus zero) = finite 0
next_after (minus (suc n)) = minus n
next_after a = a

add_number : (a b : Float) → is_finite a ≡ true → is_finite b ≡ true → le (add a b) (add a b) ≡ true
add_number (finite a) (finite b) h k = ground arith
add_number (finite a) (minus b) h k = refl
add_number (minus a) b h k = refl
add_number nan b h k = refl
add_number negative_infinity b h k = refl
add_number infinity b h k = refl
add_number (finite a) nan h k = refl
add_number (finite a) negative_infinity h k = refl
add_number (finite a) infinity h k = refl

next_after_above : (a : Float) → is_finite a ≡ true → lt a (next_after a) ≡ true
next_after_above (finite n) h = ground arith
next_after_above (minus zero) h = ground arith
next_after_above (minus (suc n)) h = ground arith
next_after_above nan h = cc
next_after_above negative_infinity h = cc
next_after_above infinity h = cc

abbrev arithmetic : FloatArithmetic
arithmetic = record {
  add = add;
  subtract = λ a b. finite 3;
  next_after = next_after;
  add_number = add_number;
  next_after_above = next_after_above;
}

abbrev runtime : SentinelRuntime
runtime = record { monitor_interval_seconds = finite 30; poll_interval_seconds = finite 5 }

abbrev pass_at : ℕ → Bool → Pass
pass_at n stop = record {
  stop = stop;
  now = finite n;
  cycle = ok tt;
  completion = finite (n + 2);
  request = ok tt;
}

abbrev quiet : List Pass
quiet = pass_at 100 false ∷ pass_at 110 false ∷ pass_at 140 false ∷ []

run_forever-Timely_example : Timely arithmetic runtime none (run_forever arithmetic runtime quiet).0
unfolding create_runtime require_positive
run_forever-Timely_example =
    run_forever-Timely arithmetic runtime (finite 30) (finite 5) quiet refl
      ((refl, refl), ((refl, refl), ((refl, refl), tt)))

run_forever_returns_example :
    let x = run_forever arithmetic runtime (quiet ++ (pass_at 150 true ∷ [])) in
    (x.1 ≡ returned) × (length x.0 ≡ 3)
run_forever_returns_example =
    run_forever_returns arithmetic runtime quiet (pass_at 150 true) []
      ((refl, refl, refl), ((refl, refl, refl), ((refl, refl, refl), tt))) refl

abbrev host_document : Json
host_document = object (
    member "name" (text "node") (
      member "heartbeat"
        (object (
          member "expected_interval_seconds" (int 60) (member "stale_after_seconds" (int 180) end)))
        (member "external"
          (object (member "tcp_host" (text "node.example") (member "tcp_port" (int 22) end))) end)))

abbrev load_sample : String → Option Json
load_sample s = some (
    if str_eq s "hosts"
    then array (cons host_document nil)
    else object (member "node" (text "secret") end))

abbrev formats : SettingsFormats
formats = record {
  strip = λ s. s;
  loads = load_sample;
  converts = λ n. ltb n 4301;
  float_of = λ s. finite 30;
}

abbrev environment : Environment
environment =
    ("SENTINEL_DATABASE_PATH", some "/var/lib/sentinel.db")
    ∷ ("SENTINEL_LISTEN_HOST", some "127.0.0.1")
    ∷ ("SENTINEL_LISTEN_PORT", some "8080")
    ∷ ("SENTINEL_MONITOR_INTERVAL_SECONDS", some "30")
    ∷ ("SENTINEL_POLL_INTERVAL_SECONDS", some "0.5e1")
    ∷ ("SENTINEL_HOSTS_JSON", some "hosts")
    ∷ ("SENTINEL_NODE_TOKENS_JSON", some "tokens")
    ∷ ("SENTINEL_TELEGRAM_BOT_TOKEN", some "123:abc")
    ∷ ("SENTINEL_TELEGRAM_CHAT_ID", some "-100")
    ∷ []

abbrev port_of : Result CentralSettings → ℕ
port_of (ok s) = s.listen_port
port_of (err e) = 0

-- The environment is accepted.
loaded_port : port_of (load_central_settings formats (some environment)) ≡ 8080
unfolding load_central_settings hermes_sentinel.Settings.Strings.required_non_empty_string
    hermes_sentinel.Settings.Load.load_listen_port
    hermes_sentinel.Settings.Strings.parse_decimal_int hermes_sentinel.Http.Codes.codes
    hermes_sentinel.Server.Length.int_of hermes_sentinel.Settings.Load.load_positive_interval
    hermes_sentinel.Settings.Strings.parse_decimal_float hermes_sentinel.Settings.Load.load_config
    hermes_sentinel.Json.is_acceptable hermes_sentinel.Settings.Fields.json_array
    hermes_sentinel.Settings.Hosts.parse_hosts hermes_sentinel.Settings.Fields.json_object
    hermes_sentinel.Settings.Fields.require_known_keys hermes_sentinel.Json.keys_cover
    hermes_sentinel.Json.keys_within hermes_sentinel.Json.get
    hermes_sentinel.Settings.Fields.json_string hermes_sentinel.Config.check_external
    hermes_sentinel.Config.check_heartbeat hermes_sentinel.Config.check_host
    hermes_sentinel.Config.check_sentinel hermes_sentinel.Config.check_thresholds
    hermes_sentinel.Config.require_positive hermes_sentinel.Config.require_positive_int
    hermes_sentinel.Config.require_threshold hermes_sentinel.Domain.require_non_empty
    hermes_sentinel.Float.hundred hermes_sentinel.Http.Codes.any hermes_sentinel.Json.exact_keys
    hermes_sentinel.Json.has_key hermes_sentinel.Json.listed hermes_sentinel.Server.Length.int_from
    hermes_sentinel.Settings.Fields.json_int hermes_sentinel.Settings.Fields.json_number
    hermes_sentinel.Settings.Fields.optional_field hermes_sentinel.Settings.Hosts.parse_external
    hermes_sentinel.Settings.Hosts.parse_heartbeat hermes_sentinel.Settings.Hosts.parse_host
    hermes_sentinel.Settings.Hosts.parse_services hermes_sentinel.Settings.Hosts.parse_strings
    hermes_sentinel.Settings.Hosts.parse_thresholds hermes_sentinel.Settings.Load.load_credentials
    hermes_sentinel.Settings.Load.load_telegram hermes_sentinel.Settings.Load.port_in_range
    hermes_sentinel.Settings.Load.token_items hermes_sentinel.Settings.Strings.is_decimal_number
    hermes_sentinel.Settings.Strings.is_signed_decimal_integer
    hermes_sentinel.Settings.Strings.lookup hermes_sentinel.Settings.Strings.optional_string
    hermes_sentinel.Settings.Strings.skip_digits hermes_sentinel.Settings.float_overflow
    hermes_sentinel.Settings.units hermes_sentinel.Telegram.check_telegram
    hermes_sentinel.Wire.Credentials.create_credentials hermes_sentinel.Wire.Credentials.is_owned
    hermes_sentinel.Wire.Credentials.validate_tokens
loaded_port = refl

load_central_settings-Ensures_example :
    Ensures IsCentral Bounded (load_central_settings formats (some environment))
load_central_settings-Ensures_example = load_central_settings-Ensures formats (some environment)

abbrev calls : BuildCalls
calls = record {
  connect = ok tt;
  before_bind = ok tt;
  bind = ok tt;
  after_bind = ok tt;
  close_server = ok tt;
  close_connection = ok tt;
}

abbrev signals : SignalCalls
signals = record {
  install_sigterm = ok tt;
  install_sigint = ok tt;
  restore_sigint = ok tt;
  restore_sigterm = ok tt;
}

run_process-Clean_example :
    let x =
      run_process signals calls arithmetic
        (quiet ++ (pass_at 150 true ∷ []))
        formats
        (some environment) in
    Clean x.0 x.1 x.2
run_process-Clean_example =
    run_process-Clean signals refl refl calls arithmetic (quiet ++ (pass_at 150 true ∷ [])) formats
      (some environment)

-- The parser gives up on a body of one byte, and reads any other as a confirmation.
abbrev parse : List ℕ → Parsed
parse (b ∷ []) = too_deep
parse t = document (object (member "ok" (bool true) end))

abbrev delivery : TelegramFormats
delivery = record {
  Text = List ℕ;
  decode_utf8 = λ b. some b;
  loads = parse;
  dumps_utf8 = λ j. some (1 ∷ 2 ∷ []);
  isoformat = λ d. "now";
}

abbrev settings : TelegramSettings
settings = record {
  bot_token = "1:a";
  chat_id = natural 5;
  message_thread_id = none;
  timeout_seconds = finite 10;
}

abbrev answering : Opener
answering = λ request timeout. response (readable 200 (1 ∷ 2 ∷ [])) false

send-Attempted_example :
    let x = send delivery settings answering "hello" in
    Attempted delivery settings answering (some (1 ∷ 2 ∷ [])) x.0 x.1
send-Attempted_example = send-Attempted delivery settings answering "hello"

exchange-TooDeep_example :
    exchange delivery (response (readable 200 (1 ∷ [])) false) ≡ (err recursion_error, 0)
unfolding read
exchange-TooDeep_example =
    exchange-TooDeep delivery (response (readable 200 (1 ∷ [])) false)
      (refl, (omega arith), (1 ∷ []), refl, refl)
