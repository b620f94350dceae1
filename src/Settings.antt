-- ===== src/Settings.antt =====
-- The central settings of src/hermes_sentinel/settings.py. An environment is the list of its entries; an
-- entry whose value is no `str` has none. Python's conversions are arguments.
pub mod Strings
pub mod Fields
pub mod Hosts
pub mod Load
pub mod Bounded
pub mod Parsed
pub mod Secrets
pub mod Loaded
use hermes_sentinel.Base.{ℕ, ◌+◌, ◌-◌, ◌*◌, ◌^◌, String, Bool, List, Option, leb}
use hermes_sentinel.Float.{Float}
use hermes_sentinel.Json.{Json}
use hermes_sentinel.Config.{SentinelConfig}
use hermes_sentinel.Wire.Credentials.{NodeCredentials}
use hermes_sentinel.Telegram.{TelegramSettings}

abbrev pub Environment : Type 0
Environment = List (String × Option String)

-- `str.strip`; `json.loads`, none for a `ValueError` or a `RecursionError`; whether `int` converts a text
-- of so many digits; and `float` of a text that is a decimal number.
pub record SettingsFormats : Type 0 where
  pub strip : String → String
  pub loads : String → Option Json
  pub converts : ℕ → Bool
  pub float_of : String → Float

pub record CentralSettings : Type 0 where
  pub config : SentinelConfig
  pub credentials : NodeCredentials
  pub telegram : TelegramSettings
  pub database_path : String
  pub listen_host : String
  pub listen_port : ℕ
  pub monitor_interval_seconds : Float
  pub poll_interval_seconds : Float

-- `math.isfinite` raises an `OverflowError` for an integer from this one on
unfoldable pub float_overflow : ℕ
float_overflow = 2 ^ 1024 - 2 ^ 970

-- n as a multiple of the smallest positive double
unfoldable pub units : ℕ → ℕ
units n = n * 2 ^ 1074
