-- ===== src/Tests/Process.antt =====
-- One run of the dead-man process, from its environment to its exit code.
use hermes_sentinel.Base.{◌≡◌, refl, String, true, [], ◌∷◌, Option, some, ltb, ◌==◌}
use hermes_sentinel.Result.{Result, ok, err}
use hermes_sentinel.Float.{finite}
use hermes_sentinel.Json.{null}
use hermes_sentinel.Settings.Strings.{required_non_empty_string, optional_string, parse_decimal_int}
use hermes_sentinel.Http.Codes.{any, codes}
use hermes_sentinel.Config.{require_positive}
use hermes_sentinel.Telegram.{check_telegram}
use hermes_sentinel.Server.Length.{int_of}
use hermes_sentinel.Settings as Settings
use hermes_sentinel.Settings.{SettingsFormats}
use hermes_sentinel.Deadman.Config.{
  UrlFormats, SplitUrl, DeadManRuntimeSettings, load_deadman_settings, load_probe_settings,
  check_probe, load_telegram_settings,
}
use hermes_sentinel.Deadman.Process.{run_deadman_process}
use hermes_sentinel.Deadman.Process.Exits.{Exits, run_deadman_process-Exits}
use hermes_sentinel.Tests.Samples.{sample_bytes}
use hermes_sentinel.Tests.Outage.{counted, world, crashing, counted-Holds}

abbrev split_sample : String → Option SplitUrl
split_sample s = some (record {
  scheme = "https";
  hostname = "sentinel.example";
  fragment = "";
  netloc = "sentinel.example";
  port_is_valid = true;
})

abbrev urls : UrlFormats
urls = record { is_space = λ c. c == 32; urlsplit = split_sample }

abbrev formats : SettingsFormats
formats = record {
  strip = λ s. s;
  loads = λ s. some null;
  converts = λ n. ltb n 4301;
  float_of = λ s. finite 30;
}

abbrev environment : Settings.Environment
environment =
    ("HERMES_SENTINEL_DEADMAN_PROBE_URL", some "https://sentinel.example/v1/heartbeat")
    ∷ ("HERMES_SENTINEL_DEADMAN_STATE_PATH", some "/var/lib/deadman.json")
    ∷ ("HERMES_SENTINEL_DEADMAN_TELEGRAM_BOT_TOKEN", some "123:abc")
    ∷ ("HERMES_SENTINEL_DEADMAN_TELEGRAM_CHAT_ID", some "-100")
    ∷ []

abbrev path_of : Result DeadManRuntimeSettings → String
path_of (ok s) = s.state_path
path_of (err e) = ""

-- The environment is accepted.
loaded_path :
    path_of (load_deadman_settings urls formats (some environment)) ≡ "/var/lib/deadman.json"
unfolding load_deadman_settings load_probe_settings check_probe load_telegram_settings
    required_non_empty_string optional_string parse_decimal_int any codes require_positive
    check_telegram int_of Settings.units
loaded_path = refl

run_deadman_process-Exits_example :
    Exits sample_bytes urls
      (load_deadman_settings urls formats (some environment))
      (ok tt)
      crashing
      counted
      world
      (run_deadman_process sample_bytes urls formats (some environment) (ok tt) crashing world)
run_deadman_process-Exits_example =
    run_deadman_process-Exits sample_bytes urls formats (some environment) (ok tt) crashing counted
      world counted-Holds
