-- ===== src/DateTime.antt =====
-- Python's `datetime` values, as far as src/hermes_sentinel uses them.
use hermes_sentinel.Base.{ℕ, Bool, true, false, Option, none, some, ltb, ◌==◌}

-- `utcoffset()` of a `tzinfo` object: minutes, counted from -1440 so that they are natural, or None.
pub data TzInfo : Type 0 where
  fixed : ℕ → TzInfo
  floating : TzInfo

-- `instant` counts microseconds: on the UTC axis for an aware value, on the wall clock otherwise.
pub record DateTime : Type 0 where
  pub instant : ℕ
  pub tzinfo : Option TzInfo

abbrev pub utc : TzInfo
utc = fixed 1440

abbrev pub has_offset : TzInfo → Bool
has_offset (fixed _) = true
has_offset floating = false

-- `value.tzinfo is not None`
abbrev pub has_tzinfo : DateTime → Bool
has_tzinfo d = elim d.tzinfo [ none ↦ false | some _ ↦ true ]

-- `value.tzinfo is not None and value.utcoffset() is not None`
abbrev pub is_aware : DateTime → Bool
is_aware d = elim d.tzinfo [ none ↦ false | some z ↦ has_offset z ]

-- Aware values compare by instant, whatever their offsets.
abbrev pub before : DateTime → DateTime → Bool
before a b = ltb a.instant b.instant

abbrev pub same_instant : DateTime → DateTime → Bool
same_instant a b = a.instant == b.instant

-- `value.astimezone(timezone.utc)` of an aware value, away from the ends of the range
abbrev pub to_utc : DateTime → DateTime
to_utc d = record d { tzinfo = some utc }
