-- ===== src/Deadman/Process.antt =====
-- `run_deadman_process` of src/hermes_sentinel/deadman_process.py: one cycle and the exit code, over the
-- settings of src/hermes_sentinel/deadman_config.py.
pub mod Exits
use hermes_sentinel.Base.{ℕ, ◌≡◌, refl, inl, Option, none, some, arith}
use hermes_sentinel.Result.{Result, Error, ok, err, value_error}
use hermes_sentinel.Result.Ensures.{Ensures, returns, raises, Ensures-bind, Ensures-construct}
use hermes_sentinel.Config.{require_positive}
use hermes_sentinel.Telegram.{check_telegram}
use hermes_sentinel.Settings.{Environment, SettingsFormats}
use hermes_sentinel.Settings.Bounded.{Bounded, accepted-Ensures}
use hermes_sentinel.Settings.Loaded.{
  required-Ensures, optional_string-Ensures, parse_decimal_int-Ensures, thread_or_none-Ensures,
  timeout_or_default-Ensures, check_telegram-OnlyValue,
}
use hermes_sentinel.Deadman.Snapshot.{TextFormats}
use hermes_sentinel.Deadman.Store.{ByteFormats}
use hermes_sentinel.Deadman.Runtime as Runtime
use hermes_sentinel.Deadman.Runtime.{DeadManCycleResult, World, run_deadman_cycle}
use hermes_sentinel.Deadman.Config.{
  SplitUrl, UrlFormats, DeadManProbeSettings, DeadManRuntimeSettings, check_split,
  require_https_url, check_probe, load_probe_settings, load_telegram_settings,
  load_deadman_settings,
}

-- settings whose every part passed its constructor's checks
pub record IsDeadman (urls : UrlFormats) (s : DeadManRuntimeSettings) : Type 0 where
  pub probe : check_probe urls s.probe ≡ ok tt
  pub telegram : check_telegram s.telegram ≡ ok tt

module _ (urls : UrlFormats) where
  check_split-OnlyValue :
      (o : Option SplitUrl) (e : Error) → check_split o ≡ err e → e ≡ value_error
  unfolding check_split
  check_split-OnlyValue none e h = cc
  check_split-OnlyValue (some split) e h = ground arith

  check_probe-OnlyValue :
      (p : DeadManProbeSettings) (e : Error) → check_probe urls p ≡ err e → e ≡ value_error
  unfolding check_probe require_https_url require_positive
  check_probe-OnlyValue p e h = ground (arith, check_split-OnlyValue (urls.urlsplit p.url) e)

  module _ (formats : SettingsFormats) where
    load_probe_settings-Ensures :
        (env : Environment)
        → Ensures (λ p. check_probe urls p ≡ ok tt) Bounded (load_probe_settings urls formats env)
    unfolding load_probe_settings
    load_probe_settings-Ensures env =
        Ensures-bind _ (required-Ensures formats env "HERMES_SENTINEL_DEADMAN_PROBE_URL") λ url _.
          Ensures-bind _
            (optional_string-Ensures formats env "HERMES_SENTINEL_DEADMAN_PROBE_TIMEOUT_SECONDS")
            λ raw _. Ensures-bind _ (timeout_or_default-Ensures formats raw) λ timeout _.
              accepted-Ensures (
                Ensures-construct (check_probe urls) _ (λ e h. inl (check_probe-OnlyValue _ e h))
                  (λ h. h))

    load_telegram_settings-Ensures :
        (env : Environment)
        → Ensures (λ t. check_telegram t ≡ ok tt) Bounded (load_telegram_settings urls formats env)
    unfolding load_telegram_settings
    load_telegram_settings-Ensures env =
        Ensures-bind _ (required-Ensures formats env "HERMES_SENTINEL_DEADMAN_TELEGRAM_BOT_TOKEN")
          λ bot_token _.
            Ensures-bind _ (required-Ensures formats env "HERMES_SENTINEL_DEADMAN_TELEGRAM_CHAT_ID")
              λ raw_chat _. Ensures-bind _ (parse_decimal_int-Ensures formats raw_chat) λ chat_id _.
                Ensures-bind _
                  (optional_string-Ensures formats env "HERMES_SENTINEL_DEADMAN_TELEGRAM_THREAD_ID")
                  λ raw_thread _.
                    Ensures-bind _ (thread_or_none-Ensures formats raw_thread) λ thread_id _.
                      Ensures-bind _
                        (optional_string-Ensures formats env
                          "HERMES_SENTINEL_DEADMAN_TELEGRAM_TIMEOUT_SECONDS")
                        λ raw_timeout _.
                          Ensures-bind _ (timeout_or_default-Ensures formats raw_timeout)
                            λ timeout _. accepted-Ensures (
                              Ensures-construct check_telegram _
                                (λ e h. inl (check_telegram-OnlyValue _ e h)) (λ h. h))

    -- Whatever the environment, loading returns settings whose probe and delivery settings are valid, or
    -- raises `DeadManSettingsError`, and nothing else.
    pub load_deadman_settings-Ensures :
        (env : Option Environment)
        → Ensures (IsDeadman urls) Bounded (load_deadman_settings urls formats env)
    unfolding load_deadman_settings
    load_deadman_settings-Ensures none = raises refl
    load_deadman_settings-Ensures (some env) =
        Ensures-bind _ (load_probe_settings-Ensures env) λ probe p.
          Ensures-bind _ (required-Ensures formats env "HERMES_SENTINEL_DEADMAN_STATE_PATH")
            λ path _.
              Ensures-bind _ (load_telegram_settings-Ensures env)
                λ telegram t. returns (record { probe = p; telegram = t })

-- Every exception of the cycle that is an `Exception` is caught, so the process exits with a code.
abbrev pub exit_code : Result DeadManCycleResult → ℕ
exit_code (ok result) = 0
exit_code (err e) = 1

module _ {texts : TextFormats} (bytes : ByteFormats texts) where
  -- after the settings, `setup` being what the constructors of the adapters come to
  unfoldable pub run_configured :
      Result DeadManRuntimeSettings
      → Result (Unit {0})
      → Runtime.Environment
      → World bytes
      → World bytes × ℕ
  run_configured (err e) setup cycle w = (w, 1)
  run_configured (ok settings) (err e) cycle w = (w, 1)
  run_configured (ok settings) (ok done) cycle w =
      let x = run_deadman_cycle bytes cycle w in (x.0, exit_code x.1)

  unfoldable pub run_deadman_process :
      UrlFormats
      → SettingsFormats
      → Option Environment
      → Result (Unit {0})
      → Runtime.Environment
      → World bytes
      → World bytes × ℕ
  unfolding run_configured
  run_deadman_process urls formats env setup cycle w =
      run_configured (load_deadman_settings urls formats env) setup cycle w
