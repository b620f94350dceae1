-- ===== src/Resolver.antt =====
-- The host state resolver of src/hermes_sentinel/state_resolver.py.
pub mod Total
pub mod Hysteresis
use hermes_sentinel.Base.{
  ℕ, ◌+◌, Bool, true, false, not, ◌&&◌, Option, none, some, leb, ◌==◌, if◌then◌else◌,
}
use hermes_sentinel.Result.{Result, ok, err, value_error, guard, construct, ◌>>=◌}
use hermes_sentinel.Domain.{HostState, healthy, degraded, down}
use hermes_sentinel.Config.{ExternalCheckSettings}
use hermes_sentinel.Health.{
  HeartbeatFreshness, ResourceAssessment, TcpReachability, missing, fresh, stale, is_breached,
  reachable, unreachable,
}

-- Counters are natural numbers, so the checks for an integer that is not negative are their type.
pub record HostStateResolution : Type 0 where
  pub state : HostState
  pub down_failures : ℕ
  pub recovery_successes : ℕ

abbrev counters_fit : HostState → ℕ → ℕ → Bool
counters_fit down failures successes = failures == 0
counters_fit _ failures successes = successes == 0

unfoldable pub check_resolution : HostStateResolution → Result (Unit {0})
check_resolution r = guard (counters_fit r.state r.down_failures r.recovery_successes) value_error

unfoldable pub create_resolution : HostState → ℕ → ℕ → Result HostStateResolution
unfolding check_resolution
create_resolution state failures successes =
    construct check_resolution
      (record { state = state; down_failures = failures; recovery_successes = successes })

abbrev pub is_fresh : HeartbeatFreshness → Bool
is_fresh fresh = true
is_fresh _ = false

abbrev pub is_reachable : TcpReachability → Bool
is_reachable reachable = true
is_reachable unreachable = false

-- `_base_state`
unfoldable pub base_state : HeartbeatFreshness → ResourceAssessment → TcpReachability → HostState
base_state freshness resources reachability =
    if is_fresh freshness && is_reachable reachability && not (is_breached resources)
    then healthy
    else degraded

abbrev is_lost : HeartbeatFreshness → Bool
is_lost missing = true
is_lost stale = true
is_lost fresh = false

-- `_is_down_observation`
unfoldable pub is_down_observation : HeartbeatFreshness → TcpReachability → Bool
is_down_observation freshness reachability = is_lost freshness && not (is_reachable reachability)

module _ (freshness : HeartbeatFreshness) (resources : ResourceAssessment)
    (reachability : TcpReachability) (settings : ExternalCheckSettings) where
  -- the branch of a previous DOWN
  unfoldable pub hold_down : TcpReachability → HostStateResolution → Result HostStateResolution
  unfolding create_resolution base_state
  hold_down unreachable previous = create_resolution down 0 0
  hold_down reachable previous =
      let successes = previous.recovery_successes + 1 in
      if leb settings.recovery_confirmations successes
      then create_resolution (base_state freshness resources reachability) 0 0
      else create_resolution down 0 successes

  -- the branch of no previous DOWN, `pending` being the down streak so far
  unfoldable pub debounce : ℕ → Result HostStateResolution
  unfolding create_resolution base_state is_down_observation
  debounce pending =
      let failures = pending + 1 in
      if is_down_observation freshness reachability
      then (if leb settings.down_confirmations failures
          then create_resolution down 0 0
          else create_resolution degraded failures 0)
      else create_resolution (base_state freshness resources reachability) 0 0

  unfoldable pub resolve_from : HostState → HostStateResolution → Result HostStateResolution
  unfolding hold_down debounce
  resolve_from down previous = hold_down reachability previous
  resolve_from _ previous = debounce previous.down_failures

unfoldable pub resolve_host_state :
    Option HostStateResolution
    → HeartbeatFreshness
    → ResourceAssessment
    → TcpReachability
    → ExternalCheckSettings
    → Result HostStateResolution
unfolding resolve_from
resolve_host_state none freshness resources reachability settings =
    debounce freshness resources reachability settings 0
resolve_host_state (some previous) freshness resources reachability settings =
    resolve_from freshness resources reachability settings previous.state previous
