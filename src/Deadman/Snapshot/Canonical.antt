-- ===== src/Deadman/Snapshot/Canonical.antt =====
-- The canonical form of a status: every timestamp at the offset UTC, as the encoder of
-- src/hermes_sentinel/deadman.py writes it. It has the same instants and is as valid.
use hermes_sentinel.Base.{
  ℕ, suc, ◌≡◌, refl, ap, Bool, true, false, List, [], ◌∷◌, Option, none, some, length, All, arith,
}
use hermes_sentinel.DateTime.{DateTime, to_utc}
use hermes_sentinel.Deadman.Types.{
  DeadManState, DeadManTransition, DeadManNotification, DeadManCurrentDown, unknown, up, down,
  check_notification, check_transition,
}
use hermes_sentinel.Deadman.Status.{DeadManStatus, last_of}
use hermes_sentinel.Deadman.Status.Snapshot.{
  Consecutive, AllDown, Grammar, DatedBy, Anchored, Initial, Outage, Bound, IsSnapshot,
}
use hermes_sentinel.Deadman.Status.Valid.{IsIntent, IsStatus}

abbrev pub canonical_transition : DeadManTransition → DeadManTransition
canonical_transition t = record t { at = to_utc t.at }

abbrev pub canonical_notification : DeadManNotification → DeadManNotification
canonical_notification n = record n { transition = canonical_transition n.transition }

abbrev pub canonical_pending : List DeadManNotification → List DeadManNotification
canonical_pending [] = []
canonical_pending (n ∷ ns) = canonical_notification n ∷ canonical_pending ns

abbrev pub canonical_anchor : Option DateTime → Option DateTime
canonical_anchor none = none
canonical_anchor (some a) = some (to_utc a)

abbrev pub canonical : DeadManStatus → DeadManStatus
canonical s = record s {
  state_changed_at = canonical_anchor s.state_changed_at;
  pending_notifications = canonical_pending s.pending_notifications;
}

length-canonical_pending :
    (ns : List DeadManNotification) → length (canonical_pending ns) ≡ length ns
length-canonical_pending [] = refl
length-canonical_pending (n ∷ ns) = ap suc (length-canonical_pending ns)

Consecutive-canonical :
    (ns : List DeadManNotification) (next : ℕ)
    → Consecutive ns next
    → Consecutive (canonical_pending ns) next
Consecutive-canonical [] next h = tt
Consecutive-canonical (n ∷ ns) next h =
    (omega (arith, length-canonical_pending ns), Consecutive-canonical ns next h.1)

AllDown-canonical : (ns : List DeadManNotification) → AllDown ns → AllDown (canonical_pending ns)
AllDown-canonical [] h = tt
AllDown-canonical (n ∷ ns) h = (h.0, AllDown-canonical ns h.1)

Grammar-canonical : (ns : List DeadManNotification) → Grammar ns → Grammar (canonical_pending ns)
Grammar-canonical [] h = tt
Grammar-canonical (n ∷ ns) h = AllDown-canonical ns h

DatedBy-canonical :
    (a : DateTime) (ns : List DeadManNotification)
    → DatedBy a ns
    → DatedBy (to_utc a) (canonical_pending ns)
DatedBy-canonical a [] h = tt
DatedBy-canonical a (n ∷ ns) h = (h.0, DatedBy-canonical a ns h.1)

Anchored-canonical :
    (st : DeadManState) (a : Option DateTime) (ns : List DeadManNotification)
    → Anchored st a ns
    → Anchored st (canonical_anchor a) (canonical_pending ns)
Anchored-canonical st none ns h = h
Anchored-canonical st (some a) ns h = (refl, DatedBy-canonical a ns h.1)

Initial-canonical :
    (st : DeadManState) (a : Option DateTime) (ns : List DeadManNotification) (next : ℕ)
    → Initial st a ns next
    → Initial st (canonical_anchor a) (canonical_pending ns) next
Initial-canonical unknown a ns next h = (ap canonical_anchor h.0, ap canonical_pending h.1, h.2)
Initial-canonical up a ns next h = tt
Initial-canonical down a ns next h = tt

last_of-canonical :
    (n : DeadManNotification) (ns : List DeadManNotification)
    → last_of (canonical_notification n) (canonical_pending ns)
      ≡ canonical_notification (last_of n ns)
last_of-canonical n [] = refl
last_of-canonical n (m ∷ ms) = last_of-canonical m ms

Outage-canonical :
    (told : Bool) (a : Option DateTime) (ns : List DeadManNotification)
    → Outage told a ns
    → Outage told (canonical_anchor a) (canonical_pending ns)
Outage-canonical true a ns h = ap canonical_pending h
Outage-canonical false a [] h = h
Outage-canonical false none (n ∷ ns) h = h
Outage-canonical false (some a) (n ∷ ns) h = rw (last_of-canonical n ns) h

Bound-canonical :
    (st : DeadManState) (c : Option DeadManCurrentDown) (a : Option DateTime)
    (ns : List DeadManNotification) (next : ℕ)
    → Bound st c a ns next
    → Bound st c (canonical_anchor a) (canonical_pending ns) next
Bound-canonical down none a ns next h = h
Bound-canonical down (some c) a ns next h = (h.0, Outage-canonical c.acknowledged a ns h.1)
Bound-canonical up none a ns next h = h
Bound-canonical up (some c) a ns next h = h
Bound-canonical unknown none a ns next h = h
Bound-canonical unknown (some c) a ns next h = h

pub IsIntent-canonical :
    (n : DeadManNotification) → IsIntent n → IsIntent (canonical_notification n)
unfolding check_notification check_transition
IsIntent-canonical n h = record {
  notification = ground (arith, h.notification, h.transition);
  transition = ground (arith, h.transition);
}

All-canonical :
    (ns : List DeadManNotification) → All IsIntent ns → All IsIntent (canonical_pending ns)
All-canonical [] h = tt
All-canonical (n ∷ ns) h = (IsIntent-canonical n h.0, All-canonical ns h.1)

module _ (s : DeadManStatus) where
  open s use {
    state, consecutive_failures, consecutive_successes, state_changed_at, pending_notifications,
    next_notification_id, current_down,
  }

  IsSnapshot-canonical : IsSnapshot s → IsSnapshot (canonical s)
  IsSnapshot-canonical v = record {
    streaks = v.streaks;
    ids = Consecutive-canonical pending_notifications next_notification_id v.ids;
    allocated = v.allocated;
    grammar = Grammar-canonical pending_notifications v.grammar;
    anchored = Anchored-canonical state state_changed_at pending_notifications v.anchored;
    initial =
        Initial-canonical state state_changed_at pending_notifications next_notification_id
          v.initial;
    bound =
        Bound-canonical state current_down state_changed_at pending_notifications
          next_notification_id v.bound;
  }

  pub IsStatus-canonical : IsStatus s → IsStatus (canonical s)
  IsStatus-canonical v = record {
    snapshot = IsSnapshot-canonical v.snapshot;
    intents = All-canonical pending_notifications v.intents;
    binding = v.binding;
  }
