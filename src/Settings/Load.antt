-- ===== src/Settings/Load.antt =====
-- `load_central_settings` of src/hermes_sentinel/settings.py and the parts that it loads.
use hermes_sentinel.Base.{ℕ, String, not, ◌&&◌, List, [], ◌∷◌, Option, none, some, leb}
use hermes_sentinel.Result.{Result, ok, err, settings_error, guard, construct, ◌>>=◌, ◌>>◌}
use hermes_sentinel.Float.{Float, finite, le, zero_float}
use hermes_sentinel.Json.{text, Members, end, member, exact_keys}
use hermes_sentinel.Config.{SentinelConfig, check_sentinel, names}
use hermes_sentinel.Wire.Credentials.{NodeCredentials, create_credentials}
use hermes_sentinel.Telegram.{Integer, natural, negative, TelegramSettings, check_telegram}
use hermes_sentinel.Settings.{Environment, SettingsFormats, CentralSettings, units}
use hermes_sentinel.Settings.Strings.{
  required_non_empty_string, optional_string, parse_decimal_int, parse_decimal_float,
}
use hermes_sentinel.Settings.Fields.{accepted, load_json_document, json_object, json_array}
use hermes_sentinel.Settings.Hosts.{parse_hosts}

-- `1 <= port <= 65535`
unfoldable pub port_in_range : Integer → Result ℕ
port_in_range (natural n) = guard (leb 1 n && leb n 65535) settings_error >> ok n
port_in_range (negative n) = err settings_error

abbrev pub positive : Float → Result Float
positive value = guard (not (le value zero_float)) settings_error >> ok value

-- the items of the credential document, every value a string
unfoldable pub token_items : Members → Result (List (String × String))
token_items end = ok []
token_items (member node (text token) m) = token_items m >>= λ items. ok ((node, token) ∷ items)
token_items _ = err settings_error

module _ (formats : SettingsFormats) where
  unfoldable pub load_listen_port : Environment → Result ℕ
  unfolding port_in_range
  load_listen_port env = do
    raw ← required_non_empty_string formats env "SENTINEL_LISTEN_PORT"
    port ← parse_decimal_int formats raw
    port_in_range port

  unfoldable pub load_positive_interval : Environment → String → Result Float
  load_positive_interval env variable = do
    raw ← required_non_empty_string formats env variable
    value ← parse_decimal_float formats raw
    positive value

  unfoldable pub load_config : Environment → Result SentinelConfig
  load_config env = do
    raw ← required_non_empty_string formats env "SENTINEL_HOSTS_JSON"
    document ← load_json_document formats raw
    entries ← json_array document
    hosts ← parse_hosts entries
    accepted (construct check_sentinel (record { hosts = hosts }))

  unfoldable pub load_credentials : Environment → SentinelConfig → Result NodeCredentials
  unfolding token_items
  load_credentials env config = do
    raw ← required_non_empty_string formats env "SENTINEL_NODE_TOKENS_JSON"
    document ← load_json_document formats raw
    m ← json_object document
    items ← token_items m
    guard (exact_keys (names config.hosts) m) settings_error
    accepted (create_credentials formats.strip items)

  abbrev pub thread_or_none : Option String → Result (Option Integer)
  thread_or_none none = ok none
  thread_or_none (some raw) = parse_decimal_int formats raw >>= λ n. ok (some n)

  -- without a timeout, the default of `TelegramSettings`
  abbrev pub timeout_or_default : Option String → Result Float
  timeout_or_default none = ok (finite (units 10))
  timeout_or_default (some raw) = parse_decimal_float formats raw >>= positive

  unfoldable pub load_telegram : Environment → Result TelegramSettings
  load_telegram env = do
    bot_token ← required_non_empty_string formats env "SENTINEL_TELEGRAM_BOT_TOKEN"
    raw_chat ← required_non_empty_string formats env "SENTINEL_TELEGRAM_CHAT_ID"
    chat_id ← parse_decimal_int formats raw_chat
    raw_thread ← optional_string formats env "SENTINEL_TELEGRAM_MESSAGE_THREAD_ID"
    thread_id ← thread_or_none raw_thread
    raw_timeout ← optional_string formats env "SENTINEL_TELEGRAM_TIMEOUT_SECONDS"
    timeout ← timeout_or_default raw_timeout
    accepted (
        construct check_telegram (record {
          bot_token = bot_token;
          chat_id = chat_id;
          message_thread_id = thread_id;
          timeout_seconds = timeout;
        }))

  abbrev pub load_snapshot : Environment → Result CentralSettings
  load_snapshot env = do
    database_path ← required_non_empty_string formats env "SENTINEL_DATABASE_PATH"
    listen_host ← required_non_empty_string formats env "SENTINEL_LISTEN_HOST"
    listen_port ← load_listen_port env
    monitor ← load_positive_interval env "SENTINEL_MONITOR_INTERVAL_SECONDS"
    poll ← load_positive_interval env "SENTINEL_POLL_INTERVAL_SECONDS"
    config ← load_config env
    telegram ← load_telegram env
    credentials ← load_credentials env config
    ok (record {
      config = config;
      credentials = credentials;
      telegram = telegram;
      database_path = database_path;
      listen_host = listen_host;
      listen_port = listen_port;
      monitor_interval_seconds = monitor;
      poll_interval_seconds = poll;
    })

  -- An environment that cannot be read is none.
  unfoldable pub load_central_settings : Option Environment → Result CentralSettings
  load_central_settings none = err settings_error
  load_central_settings (some env) = load_snapshot env
