-- ===== src/Incidents/Events.antt =====
-- Which transitions of src/hermes_sentinel/incidents.py are incidents, and what is sent for them.
use hermes_sentinel.Base.{◌≡◌, sym, subst, append-nil, [], ◌∷◌, ◌++◌, Option, none, some, arith}
use hermes_sentinel.Result.{Result, ok}
use hermes_sentinel.Domain.{HostState, down, HostTransition}
use hermes_sentinel.Incidents.{
  Incident, IncidentKind, check_incident, create_incident, incident_from_transition, Sent, deliver,
  notify_transition,
}

-- The incident of a transition: the one that enters DOWN, the one that leaves it, and no other.
abbrev pub incident_between : HostState → HostState → HostTransition → Option Incident
incident_between _ down t = some (record { kind = IncidentKind.down; transition = t })
incident_between down _ t = some (record { kind = IncidentKind.recovered; transition = t })
incident_between _ _ t = none

abbrev pub event : HostTransition → Option Incident
event t = incident_between t.from_state t.to_state t

-- The mapper never meets the incident constructor's check: it returns the incident of a transition
-- that enters or leaves DOWN, and none for any other.
pub incident_from_transition-event :
    (t : HostTransition) → incident_from_transition t ≡ ok (event t)
unfolding incident_from_transition create_incident check_incident
incident_from_transition-event t = ground arith

-- what the coordinator returns for an optional transition when the sender does not raise
abbrev pub event_of : Option HostTransition → Option Incident
event_of none = none
event_of (some t) = event t

abbrev pub one : Option Incident → Sent
one none = []
one (some i) = i ∷ []

deliver-sent :
    (send : Incident → Result (Unit {0})) (x : Option Incident) (sent : Sent) (i : Option Incident)
    → (deliver send (ok x) sent).0 ≡ ok i
    → (i ≡ x) × ((deliver send (ok x) sent).1 ≡ sent ++ one x)
unfolding deliver
deliver-sent send none sent i h = let nothing = append-nil sent in (cc, sym nothing)
deliver-sent send (some x) sent i h = ground arith

-- When a notification returns, it returns the incident of the transition, if there is one that enters
-- or leaves DOWN, and the sender was called with that incident, once, and with no other.
pub notify_transition-event :
    (send : Incident → Result (Unit {0})) (t : Option HostTransition) (sent : Sent)
    (i : Option Incident)
    → (notify_transition send t sent).0 ≡ ok i
    → (i ≡ event_of t) × ((notify_transition send t sent).1 ≡ sent ++ one (event_of t))
unfolding notify_transition
notify_transition-event send none sent i h = let nothing = append-nil sent in (cc, sym nothing)
notify_transition-event send (some t) sent i h =
    let same = incident_from_transition-event t in
    let (a, b) =
      deliver-sent send (event t) sent i (subst (λ x. (deliver send x sent).0 ≡ ok i) same h) in
    (a, subst (λ x. (deliver send x sent).1 ≡ sent ++ one (event t)) (sym same) b)
