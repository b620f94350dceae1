-- ===== src/Telegram.antt =====
-- The delivery settings of src/hermes_sentinel/telegram.py. The bot token is given by its code points.
pub mod Sender
pub mod Confirmed
pub mod Outcome
use hermes_sentinel.Base.{
  ℕ, Bool, true, false, not, ◌&&◌, ◌||◌, List, Option, none, some, String, str_eq, leb, ◌==◌,
}
use hermes_sentinel.Result.{Result, ok, value_error, guard, ◌>>◌}
use hermes_sentinel.Float.{Float}
use hermes_sentinel.Config.{require_positive}
use hermes_sentinel.Http.Codes.{codes, any}

-- a Python integer: `negative n` is -(n + 1)
pub data Integer : Type 0 where
  natural : ℕ → Integer
  negative : ℕ → Integer

-- `_TOKEN_ALPHABET`: the ASCII letters, the digits, and `:`, `-` and `_`
abbrev pub is_token_character : ℕ → Bool
is_token_character c =
    leb b'a' c && leb c b'z'
    || leb b'A' c && leb c b'Z'
    || leb b'0' c && leb c b'9'
    || c == b':'
    || c == b'-'
    || c == b'_'

abbrev pub is_natural_zero : Integer → Bool
is_natural_zero (natural n) = n == 0
is_natural_zero (negative n) = false

abbrev pub is_positive_or_none : Option Integer → Bool
is_positive_or_none none = true
is_positive_or_none (some (natural n)) = leb 1 n
is_positive_or_none (some (negative n)) = false

pub record TelegramSettings : Type 0 where
  pub bot_token : String
  pub chat_id : Integer
  pub message_thread_id : Option Integer
  pub timeout_seconds : Float

-- `_require_bot_token`, `_require_chat_id`, `_require_message_thread_id` and `_require_positive`, whose
-- tests of the types the field types replace
unfoldable pub check_telegram : TelegramSettings → Result (Unit {0})
check_telegram t = do
  guard (not (str_eq t.bot_token "")) value_error
  guard (not (any (λ c. not (is_token_character c)) (codes t.bot_token))) value_error
  guard (not (is_natural_zero t.chat_id)) value_error
  guard (is_positive_or_none t.message_thread_id) value_error
  require_positive t.timeout_seconds
