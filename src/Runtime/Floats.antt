-- ===== src/Runtime/Floats.antt =====
-- The order of floats, for the schedule of src/hermes_sentinel/runtime.py.
use hermes_sentinel.Base.{◌≡◌, Bool, true, false, arith}
use hermes_sentinel.Float.{Float, le, lt}

-- what is no nan
abbrev pub is_number : Float → Bool
is_number a = le a a

pub lt-le_trans : (a b c : Float) → lt a b ≡ true → le b c ≡ true → lt a c ≡ true
lt-le_trans a b c h k = ground arith

pub not_le :
    (a b : Float) → is_number a ≡ true → is_number b ≡ true → le a b ≡ false → lt b a ≡ true
not_le a b p q h = ground arith
