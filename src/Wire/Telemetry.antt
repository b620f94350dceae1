-- ===== src/Wire/Telemetry.antt =====
-- What src/hermes_sentinel/wire.py decodes: valid telemetry, or the malformed-payload error.
use hermes_sentinel.Base.{
  ◌≡◌, refl, ◌⊎◌, inl, inr, String, true, not, Option, none, some, All, arith, str_eq,
}
use hermes_sentinel.Result.{Result, ok, err, Error, value_error, malformed_payload_error}
use hermes_sentinel.Result.Ensures.{
  Ensures, returns, raises, Ensures-bind, Ensures-guard, Ensures-construct,
}
use hermes_sentinel.Float.{Float, is_finite}
use hermes_sentinel.DateTime.{DateTime, is_aware}
use hermes_sentinel.Json.{Json, int, negative, real, text, object, Members, has_key, exact_keys}
use hermes_sentinel.Domain.{
  LoadAverage, check_load, ResourceUsage, check_usage, HostTelemetry, check_telemetry,
  require_non_negative, require_percent, require_non_empty,
}
use hermes_sentinel.Deadman.Snapshot.Fields.{Anything, get-Ensures, exact_keys-All}
use hermes_sentinel.Wire.{Conversions, top_level_fields, load_fields, resource_fields}
use hermes_sentinel.Wire.Decode.{
  require_fields, as_malformed, finite_or_malformed, aware_or_malformed, require_node,
  require_number, require_reported_at, decode_load, decode_resource, decode_measures,
  decode_members, decode_heartbeat_payload,
}

-- telemetry whose every part passed its constructor's checks, reported at an aware time
pub record IsTelemetry (t : HostTelemetry) : Type 0 where
  pub fields : check_telemetry t ≡ ok tt
  pub load : check_load t.load ≡ ok tt
  pub ram : check_usage t.ram ≡ ok tt
  pub swap : check_usage t.swap ≡ ok tt
  pub root_filesystem : check_usage t.root_filesystem ≡ ok tt
  pub root_inodes : check_usage t.root_inodes ≡ ok tt
  pub reported : is_aware t.timestamp ≡ true

abbrev pub Malformed : Error → Type 0
Malformed e = e ≡ malformed_payload_error

-- what may be raised inside the `try` block
abbrev Inner : Error → Type 0
Inner e = (e ≡ value_error) ⊎ (e ≡ malformed_payload_error)

as_malformed-Ensures :
    {A : Type 0} {Q : A → Type 0} {r : Result A}
    → Ensures Q Inner r
    → Ensures Q Malformed (as_malformed r)
as_malformed-Ensures (returns q) = returns q
as_malformed-Ensures (raises (inl p)) = rw p (raises refl)
as_malformed-Ensures (raises (inr p)) = rw p (raises refl)

inside : {A : Type 0} {Q : A → Type 0} {r : Result A} → Ensures Q Malformed r → Ensures Q Inner r
inside (returns q) = returns q
inside (raises p) = raises (inr p)

check_load-OnlyValue : (l : LoadAverage) (e : Error) → check_load l ≡ err e → e ≡ value_error
unfolding check_load require_non_negative
check_load-OnlyValue l e h = ground arith

check_usage-OnlyValue : (u : ResourceUsage) (e : Error) → check_usage u ≡ err e → e ≡ value_error
unfolding check_usage require_non_negative require_percent
check_usage-OnlyValue u e h = ground arith

check_telemetry-OnlyValue :
    (t : HostTelemetry) (e : Error) → check_telemetry t ≡ err e → e ≡ value_error
unfolding check_telemetry require_non_negative require_percent require_non_empty
check_telemetry-OnlyValue t e h = ground arith

finite_or_malformed-Ensures :
    (v : Option Float) → Ensures Anything Malformed (finite_or_malformed v)
unfolding finite_or_malformed
finite_or_malformed-Ensures none = raises refl
finite_or_malformed-Ensures (some v) = Ensures-guard (is_finite v) _ refl (λ _. returns tt)

aware_or_malformed-Ensures :
    (d : Option DateTime) → Ensures (λ d. is_aware d ≡ true) Malformed (aware_or_malformed d)
unfolding aware_or_malformed
aware_or_malformed-Ensures none = raises refl
aware_or_malformed-Ensures (some d) = Ensures-guard (is_aware d) _ refl (λ h. returns h)

module _ (convert : Conversions) where
  pub require_node-Ensures : (j : Json) → Ensures Anything Malformed (require_node convert j)
  unfolding require_node
  require_node-Ensures (text s) =
      Ensures-guard (not (str_eq (convert.strip s) "")) _ refl (λ _. returns tt)
  require_node-Ensures _ = raises refl

  require_number-Ensures : (j : Json) → Ensures Anything Malformed (require_number convert j)
  unfolding require_number
  require_number-Ensures (int n) = finite_or_malformed-Ensures (convert.float_of_int n)
  require_number-Ensures (negative n) = finite_or_malformed-Ensures (convert.float_of_negative n)
  require_number-Ensures (real v) = finite_or_malformed-Ensures (some v)
  require_number-Ensures _ = raises refl

  require_reported_at-Ensures :
      (j : Json) → Ensures (λ d. is_aware d ≡ true) Malformed (require_reported_at convert j)
  unfolding require_reported_at
  require_reported_at-Ensures (text s) = aware_or_malformed-Ensures (convert.fromisoformat s)
  require_reported_at-Ensures _ = raises refl

  decode_load-Ensures :
      (j : Json) → Ensures (λ l. check_load l ≡ ok tt) Inner (decode_load convert j)
  unfolding decode_load require_fields
  decode_load-Ensures (object m) = Ensures-guard (exact_keys load_fields m) _ (inr refl) λ k.
      let c = exact_keys-All load_fields m k in
      Ensures-bind _ (get-Ensures "one" m c.0) λ raw_one _.
        Ensures-bind _ (inside (require_number-Ensures raw_one)) λ one _.
          Ensures-bind _ (get-Ensures "five" m c.1.0) λ raw_five _.
            Ensures-bind _ (inside (require_number-Ensures raw_five)) λ five _.
              Ensures-bind _ (get-Ensures "fifteen" m c.1.1.0) λ raw_fifteen _.
                Ensures-bind _ (inside (require_number-Ensures raw_fifteen)) λ fifteen _.
                  Ensures-construct check_load _ (λ e h. inl (check_load-OnlyValue _ e h)) (λ h. h)
  decode_load-Ensures _ = raises (inr refl)

  decode_resource-Ensures :
      (j : Json) → Ensures (λ u. check_usage u ≡ ok tt) Inner (decode_resource convert j)
  unfolding decode_resource require_fields
  decode_resource-Ensures (object m) =
      Ensures-guard (exact_keys resource_fields m) _ (inr refl) λ k.
        let c = exact_keys-All resource_fields m k in
        Ensures-bind _ (get-Ensures "used" m c.0) λ raw_used _.
          Ensures-bind _ (inside (require_number-Ensures raw_used)) λ used _.
            Ensures-bind _ (get-Ensures "total" m c.1.0) λ raw_total _.
              Ensures-bind _ (inside (require_number-Ensures raw_total)) λ total _.
                Ensures-bind _ (get-Ensures "percent" m c.1.1.0) λ raw_percent _.
                  Ensures-bind _ (inside (require_number-Ensures raw_percent)) λ percent _.
                    Ensures-construct check_usage _ (λ e h. inl (check_usage-OnlyValue _ e h))
                      (λ h. h)
  decode_resource-Ensures _ = raises (inr refl)

  decode_measures-Ensures :
      (node : String) (at : DateTime) (uptime cpu : Float) (m : Members)
      → is_aware at ≡ true
      → All (λ k. has_key k m ≡ true) top_level_fields
      → Ensures IsTelemetry Inner (decode_measures convert node at uptime cpu m)
  unfolding decode_measures
  decode_measures-Ensures node at uptime cpu m aware c =
      Ensures-bind _ (get-Ensures "load" m c.1.1.1.0) λ raw_load _.
        Ensures-bind _ (decode_load-Ensures raw_load) λ load l.
          Ensures-bind _ (get-Ensures "ram" m c.1.1.1.1.1.0) λ raw_ram _.
            Ensures-bind _ (decode_resource-Ensures raw_ram) λ ram r.
              Ensures-bind _ (get-Ensures "swap" m c.1.1.1.1.1.1.0) λ raw_swap _.
                Ensures-bind _ (decode_resource-Ensures raw_swap) λ swap s.
                  Ensures-bind _ (get-Ensures "root_fs" m c.1.1.1.1.1.1.1.0) λ raw_fs _.
                    Ensures-bind _ (decode_resource-Ensures raw_fs) λ fs f.
                      Ensures-bind _ (get-Ensures "root_inodes" m c.1.1.1.1.1.1.1.1.0)
                        λ raw_inodes _.
                          Ensures-bind _ (decode_resource-Ensures raw_inodes) λ inodes i.
                            Ensures-construct check_telemetry _
                              (λ e h. inl (check_telemetry-OnlyValue _ e h))
                              (λ h. record {
                                fields = h;
                                load = l;
                                ram = r;
                                swap = s;
                                root_filesystem = f;
                                root_inodes = i;
                                reported = aware;
                              })

  pub decode_members-Ensures :
      (m : Members) → Ensures IsTelemetry Malformed (decode_members convert m)
  unfolding decode_members require_fields
  decode_members-Ensures m = Ensures-guard (exact_keys top_level_fields m) _ refl λ k.
      let c = exact_keys-All top_level_fields m k in
      Ensures-bind _ (get-Ensures "node" m c.0) λ raw_node _.
        Ensures-bind _ (require_node-Ensures raw_node) λ node _.
          Ensures-bind _ (get-Ensures "reported_at" m c.1.0) λ raw_at _.
            Ensures-bind _ (require_reported_at-Ensures raw_at) λ at aware.
              Ensures-bind _ (get-Ensures "uptime_seconds" m c.1.1.0) λ raw_uptime _.
                Ensures-bind _ (require_number-Ensures raw_uptime) λ uptime _.
                  Ensures-bind _ (get-Ensures "cpu_percent" m c.1.1.1.1.0) λ raw_cpu _.
                    Ensures-bind _ (require_number-Ensures raw_cpu) λ cpu _.
                      as_malformed-Ensures (decode_measures-Ensures node at uptime cpu m aware c)

  -- Whatever the payload, decoding returns telemetry whose every part is valid and whose time is
  -- aware, or raises `MalformedHeartbeatPayloadError`: no other error leaves the decoder.
  pub decode_heartbeat_payload-Ensures :
      (j : Json) → Ensures IsTelemetry Malformed (decode_heartbeat_payload convert j)
  unfolding decode_heartbeat_payload
  decode_heartbeat_payload-Ensures (object m) = decode_members-Ensures m
  decode_heartbeat_payload-Ensures _ = raises refl
