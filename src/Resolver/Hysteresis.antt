-- ===== src/Resolver/Hysteresis.antt =====
-- The hysteresis of src/hermes_sentinel/state_resolver.py against a description by the evidence
-- alone: the resolver's memory is a function of the evidence seen so far.
use hermes_sentinel.Base.{
  ℕ, suc, ◌≤◌, ◌≡◌, refl, List, [], ◌∷◌, Bool, true, false, Option, none, some, leb, arith,
  if◌then◌else◌,
}
use hermes_sentinel.Result.{Result, ok, ◌>>=◌}
use hermes_sentinel.Domain.{HostState, healthy, degraded, down}
use hermes_sentinel.Resolver.Total.{resolve_total}
use hermes_sentinel.Config.{ExternalCheckSettings}
use hermes_sentinel.Health.{HeartbeatFreshness, ResourceAssessment, TcpReachability}
use hermes_sentinel.Resolver.{
  HostStateResolution, check_resolution, create_resolution, base_state, is_down_observation,
  is_reachable, hold_down, debounce, resolve_from, resolve_host_state,
}

-- what one evaluation of a host sees
pub record Evidence : Type 0 where
  pub freshness : HeartbeatFreshness
  pub resources : ResourceAssessment
  pub reachability : TcpReachability

abbrev is_loss : Evidence → Bool
is_loss e = is_down_observation e.freshness e.reachability

abbrev base : Evidence → HostState
base e = base_state e.freshness e.resources e.reachability

-- how many of the newest observations qualify for DOWN, or are reachable, in a row
abbrev losing : List Evidence → ℕ
losing [] = 0
losing (e ∷ h) = let n = losing h in if is_loss e then suc n else 0

abbrev reaching : List Evidence → ℕ
reaching [] = 0
reaching (e ∷ h) = let n = reaching h in if is_reachable e.reachability then suc n else 0

-- The newest confirmation, looking back: a loss confirmed, and not a recovery.
abbrev pub is_out : ℕ → ℕ → List Evidence → Bool
is_out k m [] = false
is_out k m (e ∷ h) =
    let before = is_out k m h in
    if leb k (losing (e ∷ h)) then true else if leb m (reaching (e ∷ h)) then false else before

-- The state as the evidence alone determines it.
abbrev pub host_state : ExternalCheckSettings → Evidence → List Evidence → HostState
host_state c e h =
    if is_out c.down_confirmations c.recovery_confirmations (e ∷ h) then down else base e

abbrev Counts : HostState → List Evidence → HostStateResolution → Type 0
Counts down h r = r.recovery_successes ≡ reaching h
Counts _ h r = r.down_failures ≡ losing h

abbrev Tracks : ExternalCheckSettings → List Evidence → Option HostStateResolution → Type 0
Tracks c [] none = Unit
Tracks c [] (some r) = true ≡ false
Tracks c (e ∷ h) none = true ≡ false
Tracks c (e ∷ h) (some r) = (r.state ≡ host_state c e h) × Counts r.state (e ∷ h) r

-- The resolutions of successive evaluations under unchanged settings, the newest first.
unfoldable pub resolved :
    ExternalCheckSettings → List Evidence → Result (Option HostStateResolution)
resolved c [] = ok none
resolved c (e ∷ h) = do
  p ← resolved c h
  r ← resolve_host_state p e.freshness e.resources e.reachability c
  ok (some r)

down-is_out :
    (c : ExternalCheckSettings) (e : Evidence) (h : List Evidence)
    → down ≡ host_state c e h
    → is_out c.down_confirmations c.recovery_confirmations (e ∷ h) ≡ true
unfolding base_state
down-is_out c e h q = ground arith

healthy-is_out :
    (c : ExternalCheckSettings) (e : Evidence) (h : List Evidence)
    → healthy ≡ host_state c e h
    → is_out c.down_confirmations c.recovery_confirmations (e ∷ h) ≡ false
unfolding base_state
healthy-is_out c e h q = ground arith

degraded-is_out :
    (c : ExternalCheckSettings) (e : Evidence) (h : List Evidence)
    → degraded ≡ host_state c e h
    → is_out c.down_confirmations c.recovery_confirmations (e ∷ h) ≡ false
unfolding base_state
degraded-is_out c e h q = ground arith

module _ (c : ExternalCheckSettings) (k : 1 ≤ c.down_confirmations)
    (m : 1 ≤ c.recovery_confirmations) (e : Evidence) (h : List Evidence) where
  debounce-Tracks :
      (n : ℕ) (r : HostStateResolution)
      → debounce e.freshness e.resources e.reachability c n ≡ ok r
      → is_out c.down_confirmations c.recovery_confirmations h ≡ false
      → n ≡ losing h
      → (r.state ≡ host_state c e h) × Counts r.state (e ∷ h) r
  unfolding debounce create_resolution check_resolution base_state is_down_observation
  debounce-Tracks n r q b l = ground arith

  hold_down-Tracks :
      (t : TcpReachability) (p : HostStateResolution) (r : HostStateResolution)
      → hold_down e.freshness e.resources e.reachability c t p ≡ ok r
      → t ≡ e.reachability
      → is_out c.down_confirmations c.recovery_confirmations h ≡ true
      → p.recovery_successes ≡ reaching h
      → (r.state ≡ host_state c e h) × Counts r.state (e ∷ h) r
  unfolding hold_down create_resolution check_resolution base_state is_down_observation
  hold_down-Tracks t p r q f b l = ground arith

  resolve_from-Tracks :
      (o : Evidence) (old : List Evidence) (s : HostState) (p r : HostStateResolution)
      → h ≡ o ∷ old
      → s ≡ host_state c o old
      → Counts s h p
      → resolve_from e.freshness e.resources e.reachability c s p ≡ ok r
      → (r.state ≡ host_state c e h) × Counts r.state (e ∷ h) r
  unfolding resolve_from
  resolve_from-Tracks o old down p r g s l q =
      hold_down-Tracks e.reachability p r q refl (rw g (down-is_out c o old s)) l
  resolve_from-Tracks o old healthy p r g s l q =
      debounce-Tracks p.down_failures r q (rw g (healthy-is_out c o old s)) l
  resolve_from-Tracks o old degraded p r g s l q =
      debounce-Tracks p.down_failures r q (rw g (degraded-is_out c o old s)) l

resolve-Tracks :
    (c : ExternalCheckSettings)
    → 1 ≤ c.down_confirmations
    → 1 ≤ c.recovery_confirmations
    → (e : Evidence) (h : List Evidence) (p : Option HostStateResolution) (r : HostStateResolution)
    → Tracks c h p
    → resolve_host_state p e.freshness e.resources e.reachability c ≡ ok r
    → Tracks c (e ∷ h) (some r)
unfolding resolve_host_state
resolve-Tracks c k m e [] none r l q = debounce-Tracks c k m e [] 0 r q refl refl
resolve-Tracks c k m e [] (some p) r l q = ground arith
resolve-Tracks c k m e (o ∷ old) none r l q = ground arith
resolve-Tracks c k m e (o ∷ old) (some p) r l q =
    resolve_from-Tracks c k m e (o ∷ old) o old p.state p r refl l.0 l.1 q

resolved-Tracks :
    (c : ExternalCheckSettings)
    → 1 ≤ c.down_confirmations
    → 1 ≤ c.recovery_confirmations
    → (h : List Evidence) → (p : Option HostStateResolution) × (resolved c h ≡ ok p) × Tracks c h p
unfolding resolved
resolved-Tracks c k m [] = (none, refl, tt)
resolved-Tracks c k m (e ∷ h) =
    let (p, q, l) = resolved-Tracks c k m h in
    let (r, f, _) = resolve_total e.freshness e.resources e.reachability c p in
    (some r, rw q (rw f refl), resolve-Tracks c k m e h p r l f)

-- Under unchanged settings that ask for at least one confirmation each way, any successive evidence
-- is resolved, and the state is the one that the evidence alone determines: DOWN if and only if the
-- newest confirmation was a full streak of lost heartbeats with TCP unreachable, and not a full
-- streak of reachable TCP, and otherwise the base state of the newest evidence.
pub resolved-host_state :
    (c : ExternalCheckSettings)
    → 1 ≤ c.down_confirmations
    → 1 ≤ c.recovery_confirmations
    → (e : Evidence) (h : List Evidence)
    → (r : HostStateResolution) × (resolved c (e ∷ h) ≡ ok (some r)) × (r.state ≡ host_state c e h)
unfolding resolved
resolved-host_state c k m e h =
    let (p, q, l) = resolved-Tracks c k m h in
    let (r, f, _) = resolve_total e.freshness e.resources e.reachability c p in
    (r, rw q (rw f refl), (resolve-Tracks c k m e h p r l f).0)
