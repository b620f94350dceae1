-- ===== src/Float.antt =====
-- Python's `float`, as far as src/hermes_sentinel compares such values. Every finite double is a
-- multiple of 2 ^ -1074: `finite n` is n of these units, and `minus n` is -(n + 1) of them.
use hermes_sentinel.Base.{ℕ, ◌*◌, ◌^◌, Bool, true, false, leb, not, ◌&&◌}

pub data Float : Type 0 where
  nan : Float
  negative_infinity : Float
  minus : ℕ → Float
  finite : ℕ → Float
  infinity : Float

-- `a <= b`; every comparison with a nan is false
abbrev pub le : Float → Float → Bool
le nan b = false
le negative_infinity nan = false
le negative_infinity _ = true
le (minus m) nan = false
le (minus m) negative_infinity = false
le (minus m) (minus n) = leb n m
le (minus m) _ = true
le (finite m) (finite n) = leb m n
le (finite m) infinity = true
le (finite m) _ = false
le infinity infinity = true
le infinity _ = false

-- `a < b`
abbrev pub lt : Float → Float → Bool
lt a b = le a b && not (le b a)

-- `math.isfinite`
abbrev pub is_finite : Float → Bool
is_finite (minus n) = true
is_finite (finite n) = true
is_finite _ = false

abbrev pub zero_float : Float
zero_float = finite 0

-- 100.0
unfoldable pub hundred : Float
hundred = finite (100 * 2 ^ 1074)
