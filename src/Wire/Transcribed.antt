-- ===== src/Wire/Transcribed.antt =====
-- What the decoder of src/hermes_sentinel/wire.py reads: every field of the telemetry is the value
-- of its member of the payload.
use hermes_sentinel.Base.{
  ◌≡◌, refl, ◌⊎◌, inl, inr, subst, String, str_eq, eq_iff, Bool, true, false, Option, none, some,
  not, if◌then◌else◌,
}
use hermes_sentinel.Result.{Result, Error, value_error, ok, ◌>>=◌}
use hermes_sentinel.Result.Ensures.{
  Ensures, returns, raises, Ensures-bind, Ensures-guard, Ensures-construct, Ensures-weaken,
  Ensures-both,
}
use hermes_sentinel.Float.{Float, is_finite}
use hermes_sentinel.DateTime.{DateTime, is_aware}
use hermes_sentinel.Json.{
  Json, int, negative, real, text, object, Members, end, member, get, exact_keys,
}
use hermes_sentinel.Domain.{
  LoadAverage, check_load, ResourceUsage, check_usage, HostTelemetry, check_telemetry,
}
use hermes_sentinel.Wire.{Conversions, top_level_fields, load_fields, resource_fields}
use hermes_sentinel.Wire.Decode.{
  require_fields, as_malformed, finite_or_malformed, aware_or_malformed, require_node,
  require_number, require_reported_at, decode_load, decode_resource, decode_measures,
  decode_members, decode_heartbeat_payload,
}
use hermes_sentinel.Wire.Telemetry.{IsTelemetry, Malformed, decode_members-Ensures}

-- one of the pairs of an object
abbrev pub HasMember : String → Json → Members → Type 0
HasMember key value end = ⊥
HasMember key value (member k v m) = ((k ≡ key) × (v ≡ value)) ⊎ HasMember key value m

-- any error at all
abbrev Raised : Error → Type 0
Raised e = Unit

get-HasMember : (key : String) (m : Members) → Ensures (λ v. HasMember key v m) Raised (get key m)
unfolding get
get-HasMember key end = raises tt
get-HasMember key (member k v m) = go (str_eq k key) refl (get-HasMember key m)
  where
    go :
        (b : Bool)
        → str_eq k key ≡ b
        → Ensures (λ w. HasMember key w m) Raised (get key m)
        → Ensures (λ w. HasMember key w (member k v m)) Raised (if b then ok v else get key m)
    go true h r = returns (inl ((eq_iff k key).0 h, refl))
    go false h r = Ensures-weaken (λ w x. inr x) r

module _ (convert : Conversions) where
  -- a number of a document and its float
  abbrev pub IsNumber : Json → Float → Type 0
  IsNumber (int n) v = convert.float_of_int n ≡ some v
  IsNumber (negative n) v = convert.float_of_negative n ≡ some v
  IsNumber (real w) v = w ≡ v
  IsNumber _ v = ⊥

  abbrev pub NumberAt : String → Members → Float → Type 0
  NumberAt key m v = (j : Json) × HasMember key j m × IsNumber j v

  abbrev pub LoadAt : String → Members → LoadAverage → Type 0
  LoadAt key m l =
      (o : Members) × HasMember key (object o) m
      × NumberAt "one" o l.one
      × NumberAt "five" o l.five
      × NumberAt "fifteen" o l.fifteen

  abbrev pub UsageAt : String → Members → ResourceUsage → Type 0
  UsageAt key m u =
      (o : Members) × HasMember key (object o) m
      × NumberAt "used" o u.used
      × NumberAt "total" o u.total
      × NumberAt "percent" o u.percent

  -- every field of the telemetry, as the payload has it
  pub record Transcribes (m : Members) (t : HostTelemetry) : Type 0 where
    pub node : HasMember "node" (text t.host) m
    pub reported_at :
        (s : String) × HasMember "reported_at" (text s) m
        × (convert.fromisoformat s ≡ some t.timestamp)
    pub uptime_seconds : NumberAt "uptime_seconds" m t.uptime_seconds
    pub load : LoadAt "load" m t.load
    pub cpu_percent : NumberAt "cpu_percent" m t.cpu_percent
    pub ram : UsageAt "ram" m t.ram
    pub swap : UsageAt "swap" m t.swap
    pub root_filesystem : UsageAt "root_fs" m t.root_filesystem
    pub root_inodes : UsageAt "root_inodes" m t.root_inodes

  finite_or_malformed-Reads :
      (o : Option Float) → Ensures (λ v. o ≡ some v) Raised (finite_or_malformed o)
  unfolding finite_or_malformed
  finite_or_malformed-Reads none = raises tt
  finite_or_malformed-Reads (some v) = Ensures-guard (is_finite v) _ tt λ _. returns refl

  require_number-Reads : (j : Json) → Ensures (IsNumber j) Raised (require_number convert j)
  unfolding require_number finite_or_malformed
  require_number-Reads (int n) = finite_or_malformed-Reads (convert.float_of_int n)
  require_number-Reads (negative n) = finite_or_malformed-Reads (convert.float_of_negative n)
  require_number-Reads (real v) = Ensures-guard (is_finite v) _ tt λ _. returns refl
  require_number-Reads _ = raises tt

  require_node-Reads : (j : Json) → Ensures (λ s. j ≡ text s) Raised (require_node convert j)
  unfolding require_node
  require_node-Reads (text s) =
      Ensures-guard (not (str_eq (convert.strip s) "")) _ tt λ _. returns refl
  require_node-Reads _ = raises tt

  abbrev IsTime : Json → DateTime → Type 0
  IsTime j d = (s : String) × (j ≡ text s) × (convert.fromisoformat s ≡ some d)

  require_reported_at-Reads : (j : Json) → Ensures (IsTime j) Raised (require_reported_at convert j)
  unfolding require_reported_at aware_or_malformed
  require_reported_at-Reads (text s) = go (convert.fromisoformat s) refl
    where
      go :
          (o : Option DateTime)
          → convert.fromisoformat s ≡ o
          → Ensures (IsTime (text s)) Raised (aware_or_malformed o)
      go none h = raises tt
      go (some d) h = Ensures-guard (is_aware d) _ tt λ _. returns (s, refl, h)
  require_reported_at-Reads _ = raises tt

  -- the number behind a key
  number_at :
      {B : Type 0} {Q : B → Type 0} (key : String) (m : Members) (f : Float → Result B)
      → ((v : Float) → NumberAt key m v → Ensures Q Raised (f v))
      → Ensures Q Raised (get key m >>= λ raw. (require_number convert raw >>= f))
  number_at key m f k =
      Ensures-bind _ (get-HasMember key m)
        λ j h. Ensures-bind f (require_number-Reads j) λ v r. k v (j, h, r)

  decode_load-Reads :
      (j : Json)
      → Ensures
          (λ l.
            (o : Members) × (j ≡ object o)
            × NumberAt "one" o l.one
            × NumberAt "five" o l.five
            × NumberAt "fifteen" o l.fifteen)
          Raised
          (decode_load convert j)
  unfolding decode_load require_fields
  decode_load-Reads (object o) = Ensures-guard (exact_keys load_fields o) _ tt λ _.
      number_at "one" o _ λ one a. number_at "five" o _ λ five b.
        number_at "fifteen" o _
          λ fifteen c. Ensures-construct check_load _ (λ e h. tt) (λ h. (o, refl, a, b, c))
  decode_load-Reads _ = raises tt

  decode_resource-Reads :
      (j : Json)
      → Ensures
          (λ u.
            (o : Members) × (j ≡ object o)
            × NumberAt "used" o u.used
            × NumberAt "total" o u.total
            × NumberAt "percent" o u.percent)
          Raised
          (decode_resource convert j)
  unfolding decode_resource require_fields
  decode_resource-Reads (object o) = Ensures-guard (exact_keys resource_fields o) _ tt λ _.
      number_at "used" o _ λ used a. number_at "total" o _ λ total b.
        number_at "percent" o _
          λ percent c. Ensures-construct check_usage _ (λ e h. tt) (λ h. (o, refl, a, b, c))
  decode_resource-Reads _ = raises tt

  load_at :
      {B : Type 0} {Q : B → Type 0} (key : String) (m : Members) (f : LoadAverage → Result B)
      → ((l : LoadAverage) → LoadAt key m l → Ensures Q Raised (f l))
      → Ensures Q Raised (get key m >>= λ raw. (decode_load convert raw >>= f))
  load_at key m f k = Ensures-bind _ (get-HasMember key m) λ j h.
      Ensures-bind f (decode_load-Reads j)
        λ l (o, p, a, b, c). k l (o, subst (λ j. HasMember key j m) p h, a, b, c)

  usage_at :
      {B : Type 0} {Q : B → Type 0} (key : String) (m : Members) (f : ResourceUsage → Result B)
      → ((u : ResourceUsage) → UsageAt key m u → Ensures Q Raised (f u))
      → Ensures Q Raised (get key m >>= λ raw. (decode_resource convert raw >>= f))
  usage_at key m f k = Ensures-bind _ (get-HasMember key m) λ j h.
      Ensures-bind f (decode_resource-Reads j)
        λ u (o, p, a, b, c). k u (o, subst (λ j. HasMember key j m) p h, a, b, c)

  as_malformed-Raised :
      {A : Type 0} {Q : A → Type 0} {r : Result A}
      → Ensures Q Raised r
      → Ensures Q Raised (as_malformed r)
  as_malformed-Raised (returns q) = returns q
  as_malformed-Raised (raises {e = value_error} x) = raises tt
  as_malformed-Raised (raises {e = _} x) = raises tt

  decode_measures-Transcribes :
      (node : String) (at : DateTime) (uptime cpu : Float) (m : Members)
      → HasMember "node" (text node) m
      → ((s : String) × HasMember "reported_at" (text s) m × (convert.fromisoformat s ≡ some at))
      → NumberAt "uptime_seconds" m uptime
      → NumberAt "cpu_percent" m cpu
      → Ensures (Transcribes m) Raised (decode_measures convert node at uptime cpu m)
  unfolding decode_measures
  decode_measures-Transcribes node at uptime cpu m n a u c = load_at "load" m _ λ load l.
      usage_at "ram" m _ λ ram r. usage_at "swap" m _ λ swap s.
        usage_at "root_fs" m _ λ filesystem f. usage_at "root_inodes" m _ λ inodes i.
          Ensures-construct check_telemetry _ (λ e h. tt)
            (λ h. record {
              node = n;
              reported_at = a;
              uptime_seconds = u;
              load = l;
              cpu_percent = c;
              ram = r;
              swap = s;
              root_filesystem = f;
              root_inodes = i;
            })

  pub decode_members-Transcribes :
      (m : Members) → Ensures (Transcribes m) Raised (decode_members convert m)
  unfolding decode_members require_fields
  decode_members-Transcribes m = Ensures-guard (exact_keys top_level_fields m) _ tt λ _.
      Ensures-bind _ (get-HasMember "node" m) λ raw_node h.
        Ensures-bind _ (require_node-Reads raw_node) λ node p.
          Ensures-bind _ (get-HasMember "reported_at" m) λ raw_at k.
            Ensures-bind _ (require_reported_at-Reads raw_at) λ at (s, q, iso).
              number_at "uptime_seconds" m _ λ uptime u. number_at "cpu_percent" m _ λ cpu c.
                as_malformed-Raised (
                  decode_measures-Transcribes node at uptime cpu m
                    (subst (λ j. HasMember "node" j m) p h)
                    (s, subst (λ j. HasMember "reported_at" j m) q k, iso) u c)

  -- telemetry that a payload stands for
  abbrev pub Decoded : Json → HostTelemetry → Type 0
  Decoded payload t = IsTelemetry t × (m : Members) × (payload ≡ object m) × Transcribes m t

  -- Whatever the payload, decoding returns telemetry whose every part is valid, whose time is aware and
  -- whose every field is the value of its member of the payload, or raises
  -- `MalformedHeartbeatPayloadError`: no other error leaves the decoder.
  pub decode_heartbeat_payload-Decoded :
      (payload : Json)
      → Ensures (Decoded payload) Malformed (decode_heartbeat_payload convert payload)
  unfolding decode_heartbeat_payload
  decode_heartbeat_payload-Decoded (object m) =
      Ensures-weaken (λ t (v, s). (v, m, refl, s))
        (Ensures-both (decode_members-Ensures convert m) (decode_members-Transcribes m))
  decode_heartbeat_payload-Decoded _ = raises refl
