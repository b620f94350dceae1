-- ===== src/Wire.antt =====
-- The authenticated wire boundary of src/hermes_sentinel/wire.py. A payload is a JSON document; one
-- that cannot be read deterministically is `none`. Python's conversions are arguments.
pub mod Credentials
pub mod Decode
pub mod Adapter
pub mod Telemetry
pub mod Transcribed
pub mod Authenticated
use hermes_sentinel.Base.{ℕ, String, List, [], ◌∷◌, Option}
use hermes_sentinel.Float.{Float}
use hermes_sentinel.DateTime.{DateTime}

-- `str.strip`, `float(n)` and `float(-(n + 1))` of an integer, where none is an `OverflowError`, and
-- `datetime.fromisoformat`, where none is a `ValueError`
pub record Conversions : Type 0 where
  pub strip : String → String
  pub float_of_int : ℕ → Option Float
  pub float_of_negative : ℕ → Option Float
  pub fromisoformat : String → Option DateTime

-- `_TOP_LEVEL_FIELDS`, `_LOAD_FIELDS` and `_RESOURCE_FIELDS`
abbrev pub top_level_fields : List String
top_level_fields =
    "node" ∷ "reported_at" ∷ "uptime_seconds" ∷ "load" ∷ "cpu_percent" ∷ "ram" ∷ "swap" ∷ "root_fs"
    ∷ "root_inodes" ∷ []

abbrev pub load_fields : List String
load_fields = "one" ∷ "five" ∷ "fifteen" ∷ []

abbrev pub resource_fields : List String
resource_fields = "used" ∷ "total" ∷ "percent" ∷ []
