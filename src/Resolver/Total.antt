-- ===== src/Resolver/Total.antt =====
-- The resolver of src/hermes_sentinel/state_resolver.py as a function of the evidence.
use hermes_sentinel.Base.{
  ℕ, ◌+◌, ◌≡◌, refl, Bool, true, false, Option, none, some, leb, if◌then◌else◌,
}
use hermes_sentinel.Result.{Result, ok}
use hermes_sentinel.Domain.{HostState, healthy, degraded, down}
use hermes_sentinel.Config.{ExternalCheckSettings}
use hermes_sentinel.Health.{
  HeartbeatFreshness, ResourceAssessment, TcpReachability, reachable, unreachable,
}
use hermes_sentinel.Resolver.{
  HostStateResolution, check_resolution, create_resolution, base_state, is_down_observation,
  hold_down, debounce, resolve_from, resolve_host_state,
}

-- The result of a call that succeeds with a resolution that the constructor's check accepts.
abbrev Settles : Result HostStateResolution → Type 0
Settles x = (r : HostStateResolution) × (x ≡ ok r) × (check_resolution r ≡ ok tt)

create_down : (n : ℕ) → Settles (create_resolution down 0 n)
unfolding create_resolution check_resolution
create_down n = (_, refl, refl)

create_degraded : (n : ℕ) → Settles (create_resolution degraded n 0)
unfolding create_resolution check_resolution
create_degraded n = (_, refl, refl)

create_untouched : (s : HostState) → Settles (create_resolution s 0 0)
unfolding create_resolution check_resolution
create_untouched healthy = (_, refl, refl)
create_untouched degraded = (_, refl, refl)
create_untouched down = (_, refl, refl)

Settles-if :
    (b : Bool) {x y : Result HostStateResolution}
    → Settles x
    → Settles y
    → Settles (if b then x else y)
Settles-if true p q = p
Settles-if false p q = q

module _ (freshness : HeartbeatFreshness) (resources : ResourceAssessment)
    (reachability : TcpReachability) (settings : ExternalCheckSettings) where
  create_base : Settles (create_resolution (base_state freshness resources reachability) 0 0)
  create_base = create_untouched (base_state freshness resources reachability)

  hold_down_total :
      (t : TcpReachability) (p : HostStateResolution)
      → Settles (hold_down freshness resources reachability settings t p)
  unfolding hold_down
  hold_down_total unreachable p = create_down 0
  hold_down_total reachable p =
      Settles-if (leb settings.recovery_confirmations (p.recovery_successes + 1)) create_base
        (create_down (p.recovery_successes + 1))

  debounce_total : (n : ℕ) → Settles (debounce freshness resources reachability settings n)
  unfolding debounce
  debounce_total n =
      Settles-if (is_down_observation freshness reachability)
        (Settles-if (leb settings.down_confirmations (n + 1)) (create_down 0)
          (create_degraded (n + 1)))
        create_base

  resolve_from_total :
      (s : HostState) (p : HostStateResolution)
      → Settles (resolve_from freshness resources reachability settings s p)
  unfolding resolve_from
  resolve_from_total down p = hold_down_total reachability p
  resolve_from_total healthy p = debounce_total p.down_failures
  resolve_from_total degraded p = debounce_total p.down_failures

  -- Whatever the previous resolution, resolving succeeds, and its result passes the constructor's
  -- check: a DOWN resolution has no pending down streak, and any other no pending recovery streak.
  pub resolve_total :
      (previous : Option HostStateResolution)
      → (r : HostStateResolution) × (resolve_host_state previous freshness resources reachability
            settings
          ≡ ok r)
        × (check_resolution r ≡ ok tt)
  unfolding resolve_host_state
  resolve_total none = debounce_total 0
  resolve_total (some p) = resolve_from_total p.state p
