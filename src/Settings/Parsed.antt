-- ===== src/Settings/Parsed.antt =====
-- What the host entries of src/hermes_sentinel/settings.py are parsed to: valid configuration, or the
-- settings error.
use hermes_sentinel.Base.{◌≡◌, refl, inl, String, Bool, true, false, List, [], ◌++◌, none, All}
use hermes_sentinel.Result.{Result, ok, err, Error, value_error, settings_error, guard, construct}
use hermes_sentinel.Result.Ensures.{
  Ensures, returns, raises, Ensures-bind, Ensures-guard, Ensures-construct,
}
use hermes_sentinel.Float.{Float, hundred}
use hermes_sentinel.Json.{Json, Members, Elements, nil, cons, has_key, keys_cover, keys_within}
use hermes_sentinel.Config.{
  require_threshold, check_heartbeat, check_external, check_thresholds, HostConfig, check_host,
}
use hermes_sentinel.Deadman.Snapshot.Fields.{Anything, get-Ensures, keys_cover-All}
use hermes_sentinel.Settings.{units}
use hermes_sentinel.Settings.Fields.{
  accepted, json_number, json_int, require_known_keys, optional_field, number_or_null,
}
use hermes_sentinel.Settings.Hosts.{
  heartbeat_fields, external_required_fields, external_optional_fields, thresholds_fields,
  host_required_fields, host_optional_fields, default_thresholds, parse_heartbeat, parse_external,
  parse_thresholds, parse_strings, parse_services, parse_host, parse_hosts,
}
use hermes_sentinel.Settings.Bounded.{
  Bounded, accepted-Ensures, check_external-OnlyValue, check_heartbeat-OnlyValue,
  check_host-OnlyValue, check_thresholds-OnlyValue, json_array-Ensures, json_int-Ensures,
  json_number-Ensures, json_object-Ensures, json_string-Ensures, number_or_null-Ensures,
  optional_field-Ensures,
}

-- a constructed part: its checks passed, or a settings error is raised
constructed :
    {A : Type 0} (check : A → Result (Unit {0})) (a : A)
    → ((e : Error) → check a ≡ err e → e ≡ value_error)
    → Ensures (λ a. check a ≡ ok tt) Bounded (accepted (construct check a))
constructed check a only =
    accepted-Ensures (Ensures-construct check a (λ e h. inl (only e h)) (λ h. h))

-- The check of the keys passes, and then every required key is there.
require_known_keys-Ensures :
    (required optional : List String) (m : Members)
    → Ensures
        (λ _. All (λ k. has_key k m ≡ true) required)
        Bounded
        (require_known_keys required optional m)
unfolding require_known_keys
require_known_keys-Ensures required optional m =
    Ensures-guard (keys_cover required m) _ refl
      λ h. widen (keys_cover-All required m h) (keys_within (required ++ optional) m)
  where
    widen : {Q : Type 0} → Q → (b : Bool) → Ensures (λ _. Q) Bounded (guard b settings_error)
    widen q true = returns q
    widen q false = raises refl

parse_heartbeat-Ensures :
    (j : Json) → Ensures (λ h. check_heartbeat h ≡ ok tt) Bounded (parse_heartbeat j)
unfolding parse_heartbeat
parse_heartbeat-Ensures j = Ensures-bind _ (json_object-Ensures j) λ m _.
    Ensures-bind _ (require_known_keys-Ensures heartbeat_fields [] m) λ _ c.
      Ensures-bind _ (get-Ensures "expected_interval_seconds" m c.0) λ raw_expected _.
        Ensures-bind _ (json_number-Ensures raw_expected) λ expected _.
          Ensures-bind _ (get-Ensures "stale_after_seconds" m c.1.0) λ raw_stale _.
            Ensures-bind _ (json_number-Ensures raw_stale)
              λ stale _. constructed check_heartbeat _ (check_heartbeat-OnlyValue _)

parse_external-Ensures :
    (j : Json) → Ensures (λ x. check_external x ≡ ok tt) Bounded (parse_external j)
unfolding parse_external
parse_external-Ensures j = Ensures-bind _ (json_object-Ensures j) λ m _.
    Ensures-bind _ (require_known_keys-Ensures external_required_fields external_optional_fields m)
      λ _ c. Ensures-bind _ (get-Ensures "tcp_host" m c.0) λ raw_host _.
        Ensures-bind _ (json_string-Ensures raw_host) λ tcp_host _.
          Ensures-bind _ (get-Ensures "tcp_port" m c.1.0) λ raw_port _.
            Ensures-bind _ (json_int-Ensures raw_port) λ tcp_port _.
              Ensures-bind _
                (optional_field-Ensures json_number "timeout_seconds" _ m json_number-Ensures tt)
                λ t _.
                  Ensures-bind _
                    (optional_field-Ensures json_int "down_confirmations" 3 m json_int-Ensures tt)
                    λ d _.
                      Ensures-bind _
                        (optional_field-Ensures json_int "recovery_confirmations" 2 m
                          json_int-Ensures tt)
                        λ r _. constructed check_external _ (check_external-OnlyValue _)

number_field :
    (key : String) (default : Float) (m : Members)
    → Ensures Anything Bounded (optional_field json_number key default m)
number_field key default m = optional_field-Ensures json_number key default m json_number-Ensures tt

parse_thresholds-Ensures :
    (j : Json) → Ensures (λ t. check_thresholds t ≡ ok tt) Bounded (parse_thresholds j)
unfolding parse_thresholds
parse_thresholds-Ensures j = Ensures-bind _ (json_object-Ensures j) λ m _.
    Ensures-bind _ (require_known_keys-Ensures [] thresholds_fields m) λ _ _.
      Ensures-bind _ (number_field "cpu_percent" _ m) λ cpu _.
        Ensures-bind _ (number_field "ram_percent" _ m) λ ram _.
          Ensures-bind _ (number_field "swap_percent" _ m) λ swap _.
            Ensures-bind _ (number_field "disk_percent" _ m) λ disk _.
              Ensures-bind _ (number_field "inode_percent" _ m) λ inode _.
                Ensures-bind _
                  (optional_field-Ensures number_or_null "load5_max" none m number_or_null-Ensures
                    tt)
                  λ load _. constructed check_thresholds _ (check_thresholds-OnlyValue _)

-- the defaults are valid
default_thresholds-valid : check_thresholds default_thresholds ≡ ok tt
unfolding check_thresholds require_threshold units hundred
default_thresholds-valid = refl

parse_strings-Ensures : (xs : Elements) → Ensures Anything Bounded (parse_strings xs)
unfolding parse_strings
parse_strings-Ensures nil = returns tt
parse_strings-Ensures (cons x xs) =
    Ensures-bind _ (json_string-Ensures x)
      λ s _. Ensures-bind _ (parse_strings-Ensures xs) λ rest _. returns tt

parse_services-Ensures : (j : Json) → Ensures Anything Bounded (parse_services j)
unfolding parse_services
parse_services-Ensures j = Ensures-bind _ (json_array-Ensures j) λ xs _. parse_strings-Ensures xs

-- a host whose every part passed its constructor's checks
pub record IsHost (h : HostConfig) : Type 0 where
  pub fields : check_host h ≡ ok tt
  pub heartbeat : check_heartbeat h.heartbeat ≡ ok tt
  pub external : check_external h.external ≡ ok tt
  pub thresholds : check_thresholds h.thresholds ≡ ok tt

parse_host-Ensures : (j : Json) → Ensures IsHost Bounded (parse_host j)
unfolding parse_host
parse_host-Ensures j = Ensures-bind _ (json_object-Ensures j) λ m _.
    Ensures-bind _ (require_known_keys-Ensures host_required_fields host_optional_fields m) λ _ c.
      Ensures-bind _ (get-Ensures "name" m c.0) λ raw_name _.
        Ensures-bind _ (json_string-Ensures raw_name) λ name _.
          Ensures-bind _ (get-Ensures "heartbeat" m c.1.0) λ raw_heartbeat _.
            Ensures-bind _ (parse_heartbeat-Ensures raw_heartbeat) λ heartbeat hb.
              Ensures-bind _ (get-Ensures "external" m c.1.1.0) λ raw_external _.
                Ensures-bind _ (parse_external-Ensures raw_external) λ external ex.
                  Ensures-bind _
                    (optional_field-Ensures parse_thresholds "thresholds" default_thresholds m
                      parse_thresholds-Ensures default_thresholds-valid)
                    λ thresholds th.
                      Ensures-bind _
                        (optional_field-Ensures parse_services "services" [] m
                          parse_services-Ensures tt)
                        λ services _. accepted-Ensures (
                          Ensures-construct check_host _ (λ e h. inl (check_host-OnlyValue _ e h))
                            (λ h. record {
                              fields = h;
                              heartbeat = hb;
                              external = ex;
                              thresholds = th;
                            }))

pub parse_hosts-Ensures : (xs : Elements) → Ensures (All IsHost) Bounded (parse_hosts xs)
unfolding parse_hosts
parse_hosts-Ensures nil = returns tt
parse_hosts-Ensures (cons x xs) =
    Ensures-bind _ (parse_host-Ensures x)
      λ host h. Ensures-bind _ (parse_hosts-Ensures xs) λ hosts hs. returns (h, hs)
