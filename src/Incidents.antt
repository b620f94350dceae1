-- ===== src/Incidents.antt =====
-- The incidents of src/hermes_sentinel/incidents.py and the coordinator of
-- src/hermes_sentinel/notifications.py. What the injected sender's `send` does with an incident is
-- an argument: it returns, or it raises.
pub mod Events
use hermes_sentinel.Base.{Bool, true, false, List, [], ◌∷◌, ◌++◌, Option, none, some, if◌then◌else◌}
use hermes_sentinel.Result.{Result, ok, err, value_error, guard, construct}
use hermes_sentinel.Domain.{HostTransition, is_down_event, is_recovery_event}

pub data IncidentKind : Type 0 where
  down recovered : IncidentKind

pub record Incident : Type 0 where
  pub kind : IncidentKind
  pub transition : HostTransition

unfoldable pub check_incident : Incident → Result (Unit {0})
check_incident i = elim i.kind [
  | down ↦ guard (is_down_event i.transition) value_error
  | recovered ↦ guard (is_recovery_event i.transition) value_error
]

-- an incident constructed and returned, where the code's answer is an optional one
unfoldable pub create_incident : IncidentKind → HostTransition → Result (Option Incident)
unfolding check_incident
create_incident kind transition =
    elim (construct check_incident (record { kind = kind; transition = transition })) [
      | ok i ↦ ok (some i)
      | err e ↦ err e
    ]

unfoldable pub incident_from_transition : HostTransition → Result (Option Incident)
unfolding create_incident
incident_from_transition t =
    if is_down_event t
    then create_incident down t
    else if is_recovery_event t
    then create_incident recovered t
    else ok none

-- The incidents passed to the sender so far, a raising call included, and what is returned.
abbrev pub Sent : Type 0
Sent = List Incident

unfoldable pub deliver :
    (Incident → Result (Unit {0}))
    → Result (Option Incident)
    → Sent
    → Result (Option Incident) × Sent
deliver send (err e) sent = (err e, sent)
deliver send (ok none) sent = (ok none, sent)
deliver send (ok (some i)) sent =
    (elim (send i) [ ok _ ↦ ok (some i) | err e ↦ err e ], sent ++ (i ∷ []))

-- `NotificationCoordinator.notify_transition`
unfoldable pub notify_transition :
    (Incident → Result (Unit {0})) → Option HostTransition → Sent → Result (Option Incident) × Sent
unfolding deliver
notify_transition send none sent = (ok none, sent)
notify_transition send (some t) sent = deliver send (incident_from_transition t) sent
