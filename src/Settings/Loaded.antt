-- ===== src/Settings/Loaded.antt =====
-- What `load_central_settings` of src/hermes_sentinel/settings.py returns and raises.
use hermes_sentinel.Base.{
  ℕ, ◌≤◌, ◌≡◌, refl, inl, String, true, not, ◌&&◌, Option, none, some, str_eq, leb, All, arith,
  length,
}
use hermes_sentinel.Result.{ok, err, Error, value_error}
use hermes_sentinel.Result.Ensures.{
  Ensures, returns, raises, Ensures-bind, Ensures-guard, Ensures-construct,
}
use hermes_sentinel.Float.{Float, le, is_finite, zero_float}
use hermes_sentinel.Http.Codes.{codes}
use hermes_sentinel.Json.{Json, is_acceptable, exact_keys}
use hermes_sentinel.Config.{SentinelConfig, check_sentinel, names, require_positive}
use hermes_sentinel.Deadman.Snapshot.Fields.{Anything, exact_keys-All}
use hermes_sentinel.Wire.Credentials.{OwnTokens}
use hermes_sentinel.Telegram as Telegram
use hermes_sentinel.Telegram.{Integer, TelegramSettings, check_telegram}
use hermes_sentinel.Settings.{Environment, SettingsFormats, CentralSettings}
use hermes_sentinel.Settings.Strings.{
  lookup, required_non_empty_string, non_empty, skip_sign, optional_string, string_or_none,
  parse_decimal_int, parse_decimal_float, is_signed_decimal_integer, is_decimal_number,
}
use hermes_sentinel.Settings.Fields.{strict}
use hermes_sentinel.Settings.Load.{
  port_in_range, positive, load_listen_port, load_positive_interval, load_config, load_credentials,
  thread_or_none, timeout_or_default, load_telegram, load_snapshot, load_central_settings,
}
use hermes_sentinel.Settings.Secrets.{Covers, token_items-Ensures, all_found, covering}
use hermes_sentinel.Settings.Bounded.{
  Bounded, accepted-Ensures, json_object-Ensures, json_array-Ensures,
}
use hermes_sentinel.Settings.Parsed.{IsHost, parse_hosts-Ensures}

-- the range of the listen port
abbrev pub IsPort : ℕ → Type 0
IsPort n = (1 ≤ n) × (n ≤ 65535)

abbrev pub IsConfig : SentinelConfig → Type 0
IsConfig config = (check_sentinel config ≡ ok tt) × All IsHost config.hosts

pub record IsCentral (s : CentralSettings) : Type 0 where
  pub port : IsPort s.listen_port
  pub monitor : require_positive s.monitor_interval_seconds ≡ ok tt
  pub poll : require_positive s.poll_interval_seconds ≡ ok tt
  pub config : IsConfig s.config
  pub telegram : check_telegram s.telegram ≡ ok tt
  pub covered : Covers s.credentials (names s.config.hosts)
  pub own : OwnTokens s.credentials

check_sentinel-OnlyValue :
    (c : SentinelConfig) (e : Error) → check_sentinel c ≡ err e → e ≡ value_error
unfolding check_sentinel
check_sentinel-OnlyValue c e h = ground arith

pub check_telegram-OnlyValue :
    (t : TelegramSettings) (e : Error) → check_telegram t ≡ err e → e ≡ value_error
unfolding check_telegram require_positive
check_telegram-OnlyValue t e h = ground arith

port_in_range-Ensures : (i : Integer) → Ensures IsPort Bounded (port_in_range i)
unfolding port_in_range
port_in_range-Ensures (Telegram.natural n) =
    Ensures-guard (leb 1 n && leb n 65535) _ refl λ h. returns (ground arith, ground arith)
port_in_range-Ensures (Telegram.negative n) = raises refl

strict-Ensures : (o : Option Json) → Ensures Anything Bounded (strict o)
strict-Ensures none = raises refl
strict-Ensures (some j) = Ensures-guard (is_acceptable j) _ refl (λ _. returns tt)

module _ (formats : SettingsFormats) where
  open formats use {strip, converts, float_of}

  non_empty-Ensures : (o : Option (Option String)) → Ensures Anything Bounded (non_empty formats o)
  non_empty-Ensures none = raises refl
  non_empty-Ensures (some none) = raises refl
  non_empty-Ensures (some (some v)) =
      Ensures-guard (not (str_eq (strip v) "")) _ refl (λ _. returns tt)

  pub required-Ensures :
      (env : Environment) (variable : String)
      → Ensures Anything Bounded (required_non_empty_string formats env variable)
  unfolding required_non_empty_string
  required-Ensures env variable = non_empty-Ensures (lookup env variable)

  string_or_none-Ensures :
      (o : Option (Option String)) → Ensures Anything Bounded (string_or_none formats o)
  string_or_none-Ensures none = returns tt
  string_or_none-Ensures (some none) = raises refl
  string_or_none-Ensures (some (some v)) = returns tt

  pub optional_string-Ensures :
      (env : Environment) (variable : String)
      → Ensures Anything Bounded (optional_string formats env variable)
  unfolding optional_string
  optional_string-Ensures env variable = string_or_none-Ensures (lookup env variable)

  pub parse_decimal_int-Ensures :
      (raw : String) → Ensures Anything Bounded (parse_decimal_int formats raw)
  unfolding parse_decimal_int
  parse_decimal_int-Ensures raw =
      Ensures-guard (is_signed_decimal_integer (codes raw)) _ refl
        λ _. Ensures-guard (converts (length (skip_sign (codes raw)))) _ refl λ _. returns tt

  parse_decimal_float-Ensures :
      (raw : String) → Ensures (λ v. is_finite v ≡ true) Bounded (parse_decimal_float formats raw)
  unfolding parse_decimal_float
  parse_decimal_float-Ensures raw =
      Ensures-guard (is_decimal_number (codes raw)) _ refl
        λ _. Ensures-guard (is_finite (float_of raw)) _ refl λ h. returns h

  positive-Ensures :
      (v : Float)
      → is_finite v ≡ true
      → Ensures (λ v. require_positive v ≡ ok tt) Bounded (positive v)
  unfolding require_positive
  positive-Ensures v h =
      Ensures-guard (not (le v zero_float)) _ refl λ k. returns (rw h (rw k refl))

  load_listen_port-Ensures :
      (env : Environment) → Ensures IsPort Bounded (load_listen_port formats env)
  unfolding load_listen_port
  load_listen_port-Ensures env =
      Ensures-bind _ (required-Ensures env "SENTINEL_LISTEN_PORT")
        λ raw _. Ensures-bind _ (parse_decimal_int-Ensures raw) λ port _. port_in_range-Ensures port

  load_positive_interval-Ensures :
      (env : Environment) (variable : String)
      → Ensures
          (λ v. require_positive v ≡ ok tt)
          Bounded
          (load_positive_interval formats env variable)
  unfolding load_positive_interval
  load_positive_interval-Ensures env variable =
      Ensures-bind _ (required-Ensures env variable)
        λ raw _. Ensures-bind _ (parse_decimal_float-Ensures raw) λ v h. positive-Ensures v h

  load_config-Ensures : (env : Environment) → Ensures IsConfig Bounded (load_config formats env)
  unfolding load_config
  load_config-Ensures env = Ensures-bind _ (required-Ensures env "SENTINEL_HOSTS_JSON") λ raw _.
      Ensures-bind _ (strict-Ensures (formats.loads raw)) λ document _.
        Ensures-bind _ (json_array-Ensures document) λ entries _.
          Ensures-bind _ (parse_hosts-Ensures entries) λ hosts hs. accepted-Ensures (
            Ensures-construct check_sentinel _ (λ e h. inl (check_sentinel-OnlyValue _ e h))
              (λ h. (h, hs)))

  load_credentials-Ensures :
      (env : Environment) (config : SentinelConfig)
      → Ensures
          (λ cs. Covers cs (names config.hosts) × OwnTokens cs)
          Bounded
          (load_credentials formats env config)
  unfolding load_credentials
  load_credentials-Ensures env config =
      Ensures-bind _ (required-Ensures env "SENTINEL_NODE_TOKENS_JSON") λ raw _.
        Ensures-bind _ (strict-Ensures (formats.loads raw)) λ document _.
          Ensures-bind _ (json_object-Ensures document) λ m _.
            Ensures-bind _ (token_items-Ensures m) λ items found.
              Ensures-guard (exact_keys (names config.hosts) m) _ refl λ k. accepted-Ensures (
                covering strip items (names config.hosts) (
                  all_found items m (names config.hosts) found
                    (exact_keys-All (names config.hosts) m k)))

  pub thread_or_none-Ensures :
      (o : Option String) → Ensures Anything Bounded (thread_or_none formats o)
  thread_or_none-Ensures none = returns tt
  thread_or_none-Ensures (some raw) =
      Ensures-bind _ (parse_decimal_int-Ensures raw) (λ n _. returns tt)

  pub timeout_or_default-Ensures :
      (o : Option String) → Ensures Anything Bounded (timeout_or_default formats o)
  timeout_or_default-Ensures none = returns tt
  timeout_or_default-Ensures (some raw) =
      Ensures-bind _ (parse_decimal_float-Ensures raw)
        λ v h. Ensures-guard (not (le v zero_float)) _ refl λ k. returns tt

  load_telegram-Ensures :
      (env : Environment)
      → Ensures (λ t. check_telegram t ≡ ok tt) Bounded (load_telegram formats env)
  unfolding load_telegram
  load_telegram-Ensures env =
      Ensures-bind _ (required-Ensures env "SENTINEL_TELEGRAM_BOT_TOKEN") λ bot_token _.
        Ensures-bind _ (required-Ensures env "SENTINEL_TELEGRAM_CHAT_ID") λ raw_chat _.
          Ensures-bind _ (parse_decimal_int-Ensures raw_chat) λ chat_id _.
            Ensures-bind _ (optional_string-Ensures env "SENTINEL_TELEGRAM_MESSAGE_THREAD_ID")
              λ raw_thread _. Ensures-bind _ (thread_or_none-Ensures raw_thread) λ thread_id _.
                Ensures-bind _ (optional_string-Ensures env "SENTINEL_TELEGRAM_TIMEOUT_SECONDS")
                  λ raw_timeout _.
                    Ensures-bind _ (timeout_or_default-Ensures raw_timeout) λ timeout _.
                      accepted-Ensures (
                        Ensures-construct check_telegram _
                          (λ e h. inl (check_telegram-OnlyValue _ e h)) (λ h. h))

  load_snapshot-Ensures :
      (env : Environment) → Ensures IsCentral Bounded (load_snapshot formats env)
  load_snapshot-Ensures env =
      Ensures-bind _ (required-Ensures env "SENTINEL_DATABASE_PATH") λ database_path _.
        Ensures-bind _ (required-Ensures env "SENTINEL_LISTEN_HOST") λ listen_host _.
          Ensures-bind _ (load_listen_port-Ensures env) λ port p.
            Ensures-bind _ (load_positive_interval-Ensures env "SENTINEL_MONITOR_INTERVAL_SECONDS")
              λ monitor m.
                Ensures-bind _ (load_positive_interval-Ensures env "SENTINEL_POLL_INTERVAL_SECONDS")
                  λ poll q. Ensures-bind _ (load_config-Ensures env) λ config c.
                    Ensures-bind _ (load_telegram-Ensures env) λ telegram t.
                      Ensures-bind _ (load_credentials-Ensures env config) λ credentials k.
                        returns (record {
                          port = p;
                          monitor = m;
                          poll = q;
                          config = c;
                          telegram = t;
                          covered = k.0;
                          own = k.1;
                        })

  -- Whatever the environment, loading raises `CentralSettingsError` and nothing else, or returns
  -- settings with a port of 1 to 65535, finite positive intervals, a configuration whose every part is
  -- valid and whose host names are distinct, valid delivery settings, and credentials in which every
  -- configured host has a token and no two nodes have the same one.
  pub load_central_settings-Ensures :
      (env : Option Environment) → Ensures IsCentral Bounded (load_central_settings formats env)
  unfolding load_central_settings
  load_central_settings-Ensures none = raises refl
  load_central_settings-Ensures (some env) = load_snapshot-Ensures env
