-- ===== src/Deadman/Config.antt =====
-- The dead man's settings of src/hermes_sentinel/deadman_config.py, and those of the probe, of
-- src/hermes_sentinel/deadman_probe.py. The parts that `urlsplit` finds are arguments. The string
-- settings are parsed as those of the central process are, by code that is the same.
use hermes_sentinel.Base.{ℕ, String, Bool, not, ◌||◌, Option, none, some, str_eq, ltb, ◌==◌}
use hermes_sentinel.Result.{
  Result, ok, err, value_error, settings_error, guard, construct, ◌>>=◌, ◌>>◌,
}
use hermes_sentinel.Float.{Float}
use hermes_sentinel.Config.{require_positive}
use hermes_sentinel.Http.Codes.{codes, any}
use hermes_sentinel.Telegram.{TelegramSettings, check_telegram}
use hermes_sentinel.Settings.{Environment, SettingsFormats}
use hermes_sentinel.Settings.Strings.{required_non_empty_string, optional_string, parse_decimal_int}
use hermes_sentinel.Settings.Fields.{accepted}
use hermes_sentinel.Settings.Load.{thread_or_none, timeout_or_default}

-- what the code reads of a split URL; `port_is_valid` is false where reading `port` is a `ValueError`
pub record SplitUrl : Type 0 where
  pub scheme : String
  pub hostname : String
  pub fragment : String
  pub netloc : String
  pub port_is_valid : Bool

-- `str.isspace` of a character, and `urllib.parse.urlsplit`, none for a `ValueError`
pub record UrlFormats : Type 0 where
  pub is_space : ℕ → Bool
  pub urlsplit : String → Option SplitUrl

pub record DeadManProbeSettings : Type 0 where
  pub url : String
  pub timeout_seconds : Float

pub record DeadManRuntimeSettings : Type 0 where
  pub probe : DeadManProbeSettings
  pub state_path : String
  pub telegram : TelegramSettings

abbrev pub is_at_sign : ℕ → Bool
is_at_sign c = c == b'@'

unfoldable pub check_split : Option SplitUrl → Result (Unit {0})
check_split none = err value_error
check_split (some split) = do
  guard (str_eq split.scheme "https") value_error
  guard (not (str_eq split.hostname "")) value_error
  guard (str_eq split.fragment "") value_error
  guard (not (any is_at_sign (codes split.netloc))) value_error
  guard split.port_is_valid value_error

module _ (urls : UrlFormats) where
  open urls use {is_space, urlsplit}

  abbrev pub is_unsafe : ℕ → Bool
  is_unsafe c = is_space c || ltb c 32 || c == 127

  -- `_require_https_url`
  unfoldable pub require_https_url : String → Result (Unit {0})
  unfolding check_split
  require_https_url url = do
    guard (not (str_eq url "")) value_error
    guard (not (any is_unsafe (codes url))) value_error
    check_split (urlsplit url)

  -- `__post_init__`
  unfoldable pub check_probe : DeadManProbeSettings → Result (Unit {0})
  unfolding require_https_url
  check_probe p = require_https_url p.url >> require_positive p.timeout_seconds

  module _ (formats : SettingsFormats) where
    unfoldable pub load_probe_settings : Environment → Result DeadManProbeSettings
    load_probe_settings env = do
      url ← required_non_empty_string formats env "HERMES_SENTINEL_DEADMAN_PROBE_URL"
      raw_timeout ← optional_string formats env "HERMES_SENTINEL_DEADMAN_PROBE_TIMEOUT_SECONDS"
      timeout ← timeout_or_default formats raw_timeout
      accepted (construct check_probe (record { url = url; timeout_seconds = timeout }))

    unfoldable pub load_telegram_settings : Environment → Result TelegramSettings
    load_telegram_settings env = do
      bot_token ← required_non_empty_string formats env "HERMES_SENTINEL_DEADMAN_TELEGRAM_BOT_TOKEN"
      raw_chat ← required_non_empty_string formats env "HERMES_SENTINEL_DEADMAN_TELEGRAM_CHAT_ID"
      chat_id ← parse_decimal_int formats raw_chat
      raw_thread ← optional_string formats env "HERMES_SENTINEL_DEADMAN_TELEGRAM_THREAD_ID"
      thread_id ← thread_or_none formats raw_thread
      raw_timeout ← optional_string formats env "HERMES_SENTINEL_DEADMAN_TELEGRAM_TIMEOUT_SECONDS"
      timeout ← timeout_or_default formats raw_timeout
      accepted (
          construct check_telegram (record {
            bot_token = bot_token;
            chat_id = chat_id;
            message_thread_id = thread_id;
            timeout_seconds = timeout;
          }))

    abbrev pub load_deadman_snapshot : Environment → Result DeadManRuntimeSettings
    load_deadman_snapshot env = do
      probe ← load_probe_settings env
      state_path ← required_non_empty_string formats env "HERMES_SENTINEL_DEADMAN_STATE_PATH"
      telegram ← load_telegram_settings env
      ok (record { probe = probe; state_path = state_path; telegram = telegram })

    -- The store is its path here, whose constructor checks its type only. An environment that cannot be
    -- read is none.
    unfoldable pub load_deadman_settings : Option Environment → Result DeadManRuntimeSettings
    load_deadman_settings none = err settings_error
    load_deadman_settings (some env) = load_deadman_snapshot env
