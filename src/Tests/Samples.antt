-- ===== src/Tests/Samples.antt =====
-- Sample parameters: documents for texts, the text of an instant in unary, a float for a duration.
use Prim.Native.String.{String, [], ◌∷◌}
use hermes_sentinel.Base.{ℕ, zero, suc, ◌≤◌, ◌≡◌, refl, ap, true, false, some, arith}
use hermes_sentinel.Float.{finite, le, lt, zero_float}
use hermes_sentinel.DateTime.{DateTime, utc}
use hermes_sentinel.Json.{Json}
use hermes_sentinel.Deadman.Snapshot.{TextFormats}
use hermes_sentinel.Deadman.Store.{ByteFormats}
use hermes_sentinel.Health.{Seconds}

abbrev pub unary : ℕ → String
unary zero = []
unary (suc n) = "u" ∷ unary n

abbrev pub from_unary : String → ℕ
from_unary [] = 0
from_unary (c ∷ s) = suc (from_unary s)

pub from_unary-unary : (n : ℕ) → from_unary (unary n) ≡ n
from_unary-unary zero = refl
from_unary-unary (suc n) = ap (λ m. suc m) (from_unary-unary n)

abbrev pub at : ℕ → DateTime
at n = record { instant = n; tzinfo = some utc }

abbrev pub sample_formats : TextFormats
sample_formats = record {
  Text = Json;
  dumps = λ j. j;
  loads = λ t. some t;
  isoformat = λ d. unary d.instant;
  fromisoformat = λ s. some (at (from_unary s));
  loads-dumps = λ j h k. refl;
  fromisoformat-isoformat = λ n. ap (λ m. some (at m)) (from_unary-unary n);
}

abbrev pub sample_bytes : ByteFormats sample_formats
sample_bytes = record {
  Bytes = Json;
  size = λ b. 700;
  encode_utf8 = λ t. t;
  decode_utf8 = λ b. some b;
  decode-encode_utf8 = λ t. refl;
}

pub finite_nonneg : (n : ℕ) → lt (finite n) zero_float ≡ false
finite_nonneg n = ground arith

pub finite_mono : (m n : ℕ) → m ≤ n → le (finite m) (finite n) ≡ true
finite_mono m n h = ground arith

abbrev pub sample_seconds : Seconds
sample_seconds = record {
  total_seconds = λ n. finite n;
  total_seconds_finite = λ n. refl;
  total_seconds_nonneg = finite_nonneg;
  total_seconds_mono = finite_mono;
}
