-- ===== src/Deadman/Ledger/Invariant.antt =====
-- What every history of the state machine keeps.
use hermes_sentinel.Base.{
  ℕ, ◌+◌, ◌≡◌, refl, List, [], ◌∷◌, ◌++◌, append_assoc, Option, none, some, length, length-append,
  arith,
}
use hermes_sentinel.Result.{Result, ok, err}
use hermes_sentinel.DateTime.{DateTime}
use hermes_sentinel.Deadman.Types.{
  DeadManState, DeadManProbeOutcome, DeadManNotification, DeadManNotificationKind, up, down,
  down_kind, recovered_kind,
}
use hermes_sentinel.Deadman.Status.{DeadManStatus}
use hermes_sentinel.Deadman.Status.Snapshot.{Consecutive}
use hermes_sentinel.Deadman.Status.Valid.{IsStatus, Consecutive-append, initial-IsStatus}
use hermes_sentinel.Deadman.Machine.{advance_deadman_status, acknowledge_deadman_notification}
use hermes_sentinel.Deadman.Machine.Step.{
  Step, baseline, steady, recovering, recovered_untold, recovered_told, hold, counting, confirmed,
  recovered_intent, down_intent, advance-Step,
}
use hermes_sentinel.Deadman.Machine.Queue.{advance-IsStatus}
use hermes_sentinel.Deadman.Machine.Acknowledge.{
  without_head, acknowledge_inverse, without_head-IsStatus,
}
use hermes_sentinel.Deadman.Ledger.{
  Event, observe, acknowledge, Ledger, intents, oldest, advanced, acknowledged_by, handle, replay,
  fresh,
}

-- A RECOVERED intent directly follows a DOWN intent.
abbrev pub Follows : DeadManNotificationKind → Option DeadManNotificationKind → Type 0
Follows down_kind previous = Unit
Follows recovered_kind previous = previous ≡ some down_kind

abbrev pub Paired : Option DeadManNotificationKind → List DeadManNotification → Type 0
Paired previous [] = Unit
Paired previous (n ∷ ns) = Follows n.kind previous × Paired (some n.kind) ns

abbrev pub last_kind :
    Option DeadManNotificationKind → List DeadManNotification → Option DeadManNotificationKind
last_kind previous [] = previous
last_kind previous (n ∷ ns) = last_kind (some n.kind) ns

-- While the state is DOWN the newest intent is the DOWN intent of the outage.
abbrev pub Closing : DeadManState → List DeadManNotification → Type 0
Closing down ns = last_kind none ns ≡ some down_kind
Closing _ ns = Unit

Paired-append :
    (p : Option DeadManNotificationKind) (ns : List DeadManNotification) (n : DeadManNotification)
    → Paired p ns
    → Follows n.kind (last_kind p ns)
    → Paired p (ns ++ n ∷ [])
Paired-append p [] n h f = (f, tt)
Paired-append p (m ∷ ms) n h f = (h.0, Paired-append (some m.kind) ms n h.1 f)

last_kind-append :
    (p : Option DeadManNotificationKind) (ns : List DeadManNotification) (n : DeadManNotification)
    → last_kind p (ns ++ n ∷ []) ≡ some n.kind
last_kind-append p [] n = refl
last_kind-append p (m ∷ ms) n = last_kind-append (some m.kind) ms n

pub Paired-split :
    (p : Option DeadManNotificationKind) (ns : List DeadManNotification) (n : DeadManNotification)
    (rest : List DeadManNotification)
    → Paired p (ns ++ n ∷ rest)
    → Follows n.kind (last_kind p ns)
Paired-split p [] n rest h = h.0
Paired-split p (m ∷ ms) n rest h = Paired-split (some m.kind) ms n rest h.1

-- The books over the whole history, for a state, the intents and the next id.
pub record Books (st : DeadManState) (ns : List DeadManNotification) (next : ℕ) : Type 0 where
  pub ids : Consecutive ns next
  pub complete : length ns + 1 ≡ next
  pub paired : Paired none ns
  pub closing : Closing st ns

Books-append :
    (st st' : DeadManState) (ns : List DeadManNotification) (n : DeadManNotification) (next : ℕ)
    → Books st ns next
    → n.notification_id ≡ next
    → Follows n.kind (last_kind none ns)
    → Closing st' (ns ++ n ∷ [])
    → Books st' (ns ++ n ∷ []) (next + 1)
Books-append st st' ns n next b e f c = record {
  ids = Consecutive-append ns next n b.ids e;
  complete = omega (arith, b.complete, length-append ns (n ∷ []));
  paired = Paired-append none ns n b.paired f;
  closing = c;
}

Closing-Books :
    {st st' : DeadManState} {ns : List DeadManNotification} {next : ℕ}
    → Books st ns next
    → Closing st' ns
    → Books st' ns next
Closing-Books b c = record { ids = b.ids; complete = b.complete; paired = b.paired; closing = c }

pub record IsLedger (l : Ledger) : Type 0 where
  pub status : IsStatus l.status
  pub books : Books l.status.state (intents l) l.status.next_notification_id

-- one observation, for the intents created before it
Step-Books :
    (s : DeadManStatus) (now : DateTime) (t : DeadManStatus) {o : DeadManProbeOutcome}
    (past : List DeadManNotification)
    → Step s now t o
    → Books s.state (past ++ s.pending_notifications) s.next_notification_id
    → Books t.state (past ++ t.pending_notifications) t.next_notification_id
Step-Books s now t past (baseline e r) b = rw r (Closing-Books b tt)
Step-Books s now t past (steady e r) b = rw r b
Step-Books s now t past (recovering e l r) b = rw r b
Step-Books s now t past (recovered_untold c e l f a r) b = rw r (Closing-Books b tt)
Step-Books s now t past (recovered_told c e l f a r) b =
    rw (r, ← append_assoc)
      (Books-append s.state up (past ++ s.pending_notifications) (recovered_intent s now)
        s.next_notification_id b refl (rw e at b.closing) tt)
Step-Books s now t past (hold e r) b = rw r b
Step-Books s now t past (counting e l r) b = rw r b
Step-Books s now t past (confirmed e l r) b =
    rw (r, ← append_assoc)
      (Books-append s.state down (past ++ s.pending_notifications) (down_intent s now)
        s.next_notification_id b refl tt
        (last_kind-append none (past ++ s.pending_notifications) (down_intent s now)))

pub IsLedger-fresh : IsLedger fresh
unfolding fresh
IsLedger-fresh = record {
  status = initial-IsStatus;
  books = record { ids = tt; complete = refl; paired = tt; closing = tt };
}

IsLedger-advanced :
    (l : Ledger) (o : DeadManProbeOutcome) (now : DateTime) (r : Result DeadManStatus)
    → advance_deadman_status l.status o now ≡ r
    → IsLedger l
    → IsLedger (advanced l r)
unfolding advanced
IsLedger-advanced l o now (ok t) e v = record {
  status = advance-IsStatus l.status o now t v.status e;
  books = Step-Books l.status now t l.acknowledged (advance-Step l.status now t o e) v.books;
}
IsLedger-advanced l o now (err x) e v = v

-- An acknowledged intent moves from the queue to the end of the acknowledged ones.
IsLedger-without_head :
    (l : Ledger) (n : DeadManNotification) (ns : List DeadManNotification)
    → l.status.pending_notifications ≡ n ∷ ns
    → IsLedger l
    → IsLedger (record {
      status = without_head l.status n ns;
      acknowledged = l.acknowledged ++ oldest l.status.pending_notifications;
    })
IsLedger-without_head l n ns e v = record {
  status = without_head-IsStatus l.status n ns v.status e;
  books = rw (e, append_assoc) (rw e at v.books);
}

IsLedger-acknowledged_by :
    (l : Ledger) (id : ℕ) (r : Result DeadManStatus)
    → acknowledge_deadman_notification l.status id ≡ r
    → IsLedger l
    → IsLedger (acknowledged_by l r)
unfolding acknowledged_by
IsLedger-acknowledged_by l id (ok t) e v =
    let (n, ns, queue, same, made) = acknowledge_inverse l.status id t e in
    rw made (IsLedger-without_head l n ns queue v)
IsLedger-acknowledged_by l id (err x) e v = v

IsLedger-handle : (l : Ledger) (e : Event) → IsLedger l → IsLedger (handle l e)
unfolding handle
IsLedger-handle l (observe o now) v = IsLedger-advanced l o now _ refl v
IsLedger-handle l (acknowledge id) v = IsLedger-acknowledged_by l id _ refl v

pub IsLedger-replay : (l : Ledger) (es : List Event) → IsLedger l → IsLedger (replay l es)
unfolding replay
IsLedger-replay l [] v = v
IsLedger-replay l (e ∷ es) v = IsLedger-replay (handle l e) es (IsLedger-handle l e v)
