-- ===== src/Deadman/Ledger.antt =====
-- Histories of the dead-man state machine: any sequence of probe evaluations and acknowledgements,
-- each of which may raise. A raising call leaves the status as it was. The ledger also remembers
-- the acknowledged intents, oldest first.
pub mod Invariant
pub mod History
pub mod Once
use hermes_sentinel.Base.{ℕ, List, [], ◌∷◌, ◌++◌}
use hermes_sentinel.Result.{Result, ok, err}
use hermes_sentinel.DateTime.{DateTime}
use hermes_sentinel.Deadman.Types.{DeadManProbeOutcome, DeadManNotification}
use hermes_sentinel.Deadman.Status.{DeadManStatus, initial_deadman_status}
use hermes_sentinel.Deadman.Machine.{advance_deadman_status, acknowledge_deadman_notification}

pub data Event : Type 0 where
  observe : DeadManProbeOutcome → DateTime → Event
  acknowledge : ℕ → Event

pub record Ledger : Type 0 where
  pub status : DeadManStatus
  pub acknowledged : List DeadManNotification

-- every intent ever created, oldest first
abbrev pub intents : Ledger → List DeadManNotification
intents l = l.acknowledged ++ l.status.pending_notifications

abbrev pub oldest : List DeadManNotification → List DeadManNotification
oldest [] = []
oldest (n ∷ ns) = n ∷ []

unfoldable pub advanced : Ledger → Result DeadManStatus → Ledger
advanced l (ok t) = record l { status = t }
advanced l (err e) = l

unfoldable pub acknowledged_by : Ledger → Result DeadManStatus → Ledger
acknowledged_by l (ok t) = record {
  status = t;
  acknowledged = l.acknowledged ++ oldest l.status.pending_notifications;
}
acknowledged_by l (err e) = l

unfoldable pub handle : Ledger → Event → Ledger
unfolding advanced acknowledged_by
handle l (observe o now) = advanced l (advance_deadman_status l.status o now)
handle l (acknowledge id) = acknowledged_by l (acknowledge_deadman_notification l.status id)

unfoldable pub replay : Ledger → List Event → Ledger
replay l [] = l
replay l (e ∷ es) = replay (handle l e) es

unfoldable pub fresh : Ledger
unfolding initial_deadman_status
fresh = record { status = initial_deadman_status; acknowledged = [] }
