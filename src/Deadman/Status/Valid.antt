-- ===== src/Deadman/Status/Valid.antt =====
-- A `DeadManStatus` object: an accepted snapshot whose pending intents and outage binding are
-- themselves accepted.
use hermes_sentinel.Base.{
  ℕ, ◌+◌, ◌≤◌, ◌≡◌, refl, List, [], ◌∷◌, ◌++◌, Option, none, some, false, length-append, All, arith,
}
use hermes_sentinel.Result.{Result, ok}
use hermes_sentinel.DateTime.{DateTime}
use hermes_sentinel.Deadman.Types.{
  DeadManNotification, DeadManCurrentDown, down_kind, check_notification, check_transition,
  check_current_down,
}
use hermes_sentinel.Deadman.Status.{DeadManStatus, create_status, initial_deadman_status}
use hermes_sentinel.Deadman.Status.Snapshot.{
  Consecutive, AllDown, Grammar, DatedBy, OpenedBy, Outage, IsSnapshot,
}
use hermes_sentinel.Deadman.Status.Checked.{check_status_iff}

pub record IsIntent (n : DeadManNotification) : Type 0 where
  pub notification : check_notification n ≡ ok tt
  pub transition : check_transition n.transition ≡ ok tt

abbrev pub IsBinding : Option DeadManCurrentDown → Type 0
IsBinding none = Unit
IsBinding (some c) = check_current_down c ≡ ok tt

pub record IsStatus (s : DeadManStatus) : Type 0 where
  pub snapshot : IsSnapshot s
  pub intents : All IsIntent s.pending_notifications
  pub binding : IsBinding s.current_down

-- A construction that succeeds and gives a `DeadManStatus` object.
abbrev pub Yields : Result DeadManStatus → Type 0
Yields r = (s : DeadManStatus) × (r ≡ ok s) × IsStatus s

pub create_status-accepts : (s : DeadManStatus) → IsSnapshot s → create_status s ≡ ok s
unfolding create_status
create_status-accepts s v = ground (arith, (check_status_iff s).1 v)

pub create_status-Yields :
    (s : DeadManStatus)
    → IsSnapshot s
    → All IsIntent s.pending_notifications
    → IsBinding s.current_down
    → Yields (create_status s)
create_status-Yields s v i b =
    (s, create_status-accepts s v, record { snapshot = v; intents = i; binding = b })

create_status-inverse :
    (s : DeadManStatus) {t : DeadManStatus} → create_status s ≡ ok t → (s ≡ t) × IsSnapshot s
unfolding create_status
create_status-inverse s h = (ground arith, (check_status_iff s).0 (ground arith))

pub created : (s : DeadManStatus) {t : DeadManStatus} → create_status s ≡ ok t → t ≡ s
created s h = cc (create_status-inverse s h).0

pub Consecutive-append :
    (ns : List DeadManNotification) (next : ℕ) (n : DeadManNotification)
    → Consecutive ns next
    → n.notification_id ≡ next
    → Consecutive (ns ++ n ∷ []) (next + 1)
Consecutive-append [] next n h e = (omega arith, tt)
Consecutive-append (m ∷ ms) next n h e =
    (omega (arith, length-append ms (n ∷ [])), Consecutive-append ms next n h.1 e)

pub DatedBy-append :
    (a b : DateTime) (ns : List DeadManNotification) (n : DeadManNotification)
    → DatedBy a ns
    → a.instant ≤ b.instant
    → n.transition.at.instant ≤ b.instant
    → DatedBy b (ns ++ n ∷ [])
DatedBy-append a b [] n h l e = (e, tt)
DatedBy-append a b (m ∷ ms) n h l e = (omega arith, DatedBy-append a b ms n h.1 l e)

pub DatedBy-later :
    (a b : DateTime) (ns : List DeadManNotification)
    → DatedBy a ns
    → a.instant ≤ b.instant
    → DatedBy b ns
DatedBy-later a b [] h l = tt
DatedBy-later a b (m ∷ ms) h l = (omega arith, DatedBy-later a b ms h.1 l)

AllDown-append :
    (ns : List DeadManNotification) (n : DeadManNotification)
    → AllDown ns
    → n.kind ≡ down_kind
    → AllDown (ns ++ n ∷ [])
AllDown-append [] n h e = (e, tt)
AllDown-append (m ∷ ms) n h e = (h.0, AllDown-append ms n h.1 e)

pub Grammar-append :
    (ns : List DeadManNotification) (n : DeadManNotification)
    → Grammar ns
    → n.kind ≡ down_kind
    → Grammar (ns ++ n ∷ [])
Grammar-append [] n h e = tt
Grammar-append (m ∷ ms) n h e = AllDown-append ms n h e

pub AllDown-Grammar : (ns : List DeadManNotification) → AllDown ns → Grammar ns
AllDown-Grammar [] h = tt
AllDown-Grammar (n ∷ ns) h = h.1

-- The intent that is appended last opens the outage.
pub Outage-append :
    (a : Option DateTime) (ns : List DeadManNotification) (n : DeadManNotification)
    → OpenedBy a n
    → Outage false a (ns ++ n ∷ [])
Outage-append a [] n h = h
Outage-append a (m ∷ []) n h = h
Outage-append a (m ∷ k ∷ ks) n h = Outage-append a (k ∷ ks) n h

pub initial-IsStatus : IsStatus initial_deadman_status
unfolding initial_deadman_status
initial-IsStatus = record {
  snapshot = record {
    streaks = (refl, omega arith);
    ids = tt;
    allocated = omega arith;
    grammar = tt;
    anchored = refl;
    initial = (refl, refl, refl);
    bound = tt;
  };
  intents = tt;
  binding = tt;
}
