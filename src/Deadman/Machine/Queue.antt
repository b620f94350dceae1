-- ===== src/Deadman/Machine/Queue.antt =====
-- What an advance does to the pending queue.
use hermes_sentinel.Base.{
  ◌+◌, ◌≡◌, List, [], ◌∷◌, ◌++◌, Option, none, some, Bool, false, length, arith, if◌then◌else◌,
  append-nil, subst,
}
use hermes_sentinel.Result.{ok}
use hermes_sentinel.DateTime.{DateTime}
use hermes_sentinel.Deadman.Types.{
  DeadManProbeOutcome, DeadManNotification, DeadManCurrentDown, is_down,
}
use hermes_sentinel.Deadman.Status.{DeadManStatus}
use hermes_sentinel.Deadman.Status.Valid.{IsStatus}
use hermes_sentinel.Deadman.Machine.{advance_deadman_status}
use hermes_sentinel.Deadman.Machine.Preserves.{advance-Yields}
use hermes_sentinel.Deadman.Machine.Step.{
  Step, baseline, steady, recovering, recovered_untold, recovered_told, hold, counting, confirmed,
  recovered_intent, down_intent, advance-Step, advance-clock,
}

-- The outage at hand was acknowledged.
abbrev pub is_told : Option DeadManCurrentDown → Bool
is_told none = false
is_told (some c) = c.acknowledged

-- The intents owed for a change of state: one DOWN intent on entering DOWN, one RECOVERED intent on
-- leaving DOWN behind an acknowledged outage, and none otherwise.
abbrev pub owed : DeadManStatus → DateTime → DeadManStatus → List DeadManNotification
owed s now t =
    if is_down s.state
    then (if is_down t.state
        then []
        else if is_told s.current_down
        then recovered_intent s now ∷ []
        else [])
    else if is_down t.state
    then down_intent s now ∷ []
    else []

Step-owed :
    (s : DeadManStatus) (now : DateTime) (t : DeadManStatus) {o : DeadManProbeOutcome}
    → Step s now t o
    → (t.pending_notifications ≡ s.pending_notifications ++ owed s now t)
      × (t.next_notification_id ≡ s.next_notification_id + length (owed s now t))
Step-owed s now t (baseline e r) = ground (arith, append-nil s.pending_notifications)
Step-owed s now t (steady e r) = ground (arith, append-nil s.pending_notifications)
Step-owed s now t (recovering e l r) = ground (arith, append-nil s.pending_notifications)
Step-owed s now t (recovered_untold c e l b a r) =
    ground (arith, append-nil s.pending_notifications)
Step-owed s now t (recovered_told c e l b a r) = ground arith
Step-owed s now t (hold e r) = ground (arith, append-nil s.pending_notifications)
Step-owed s now t (counting e l r) = ground (arith, append-nil s.pending_notifications)
Step-owed s now t (confirmed e l r) = ground arith

-- A successful advance appends to the queue exactly the intents owed for its change of state, and
-- allocates one id for each: nothing that was pending is dropped, replaced or reordered.
pub advance-owed :
    (s : DeadManStatus) (o : DeadManProbeOutcome) (now : DateTime) (t : DeadManStatus)
    → advance_deadman_status s o now ≡ ok t
    → (t.pending_notifications ≡ s.pending_notifications ++ owed s now t)
      × (t.next_notification_id ≡ s.next_notification_id + length (owed s now t))
advance-owed s o now t h = Step-owed s now t (advance-Step s now t o h)

-- An advance that succeeds on a status object returns a status object.
pub advance-IsStatus :
    (s : DeadManStatus) (o : DeadManProbeOutcome) (now : DateTime) (t : DeadManStatus)
    → IsStatus s
    → advance_deadman_status s o now ≡ ok t
    → IsStatus t
advance-IsStatus s o now t v h =
    let (aware, order) = advance-clock s now t o h in
    let (t', e, v') = advance-Yields s now v aware order o in subst IsStatus (cc) v'
