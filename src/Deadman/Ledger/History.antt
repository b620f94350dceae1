-- ===== src/Deadman/Ledger/History.antt =====
-- Properties of every history of the dead-man state machine from its initial status.
use hermes_sentinel.Base.{
  ℕ, ◌+◌, ◌≡◌, refl, ap, List, [], ◌∷◌, ◌++◌, append-nil, append_assoc, Option, none, some, length,
  arith,
}
use hermes_sentinel.Result.{Result, ok, err}
use hermes_sentinel.DateTime.{DateTime}
use hermes_sentinel.Deadman.Types.{
  DeadManProbeOutcome, DeadManNotification, DeadManNotificationKind, down_kind, recovered_kind,
}
use hermes_sentinel.Deadman.Status.{DeadManStatus}
use hermes_sentinel.Deadman.Status.Snapshot.{Consecutive}
use hermes_sentinel.Deadman.Machine.{advance_deadman_status, acknowledge_deadman_notification}
use hermes_sentinel.Deadman.Machine.Queue.{advance-owed, owed}
use hermes_sentinel.Deadman.Machine.Acknowledge.{acknowledge_inverse}
use hermes_sentinel.Deadman.Ledger.{
  Event, observe, acknowledge, Ledger, intents, advanced, acknowledged_by, handle, replay, fresh,
}
use hermes_sentinel.Deadman.Ledger.Invariant.{
  IsLedger-fresh, IsLedger-replay, Paired, Paired-split, last_kind,
}

-- In every history the acknowledged intents followed by the pending ones are all the intents that
-- were ever created: they carry the ids 1, 2, 3, ... up to the last allocated one, each exactly
-- once and in order, and each RECOVERED intent directly follows a DOWN intent.
pub replay-intents :
    (es : List Event)
    → let l = replay fresh es in
      Consecutive (intents l) l.status.next_notification_id
      × (length (intents l) + 1 ≡ l.status.next_notification_id)
      × Paired none (intents l)
replay-intents es =
    let b = (IsLedger-replay fresh es IsLedger-fresh).books in (b.ids, b.complete, b.paired)

last_kind-last :
    (p : Option DeadManNotificationKind) (ns : List DeadManNotification)
    (k : DeadManNotificationKind)
    → p ≡ none
    → last_kind p ns ≡ some k
    → (ms : List DeadManNotification) × (m : DeadManNotification) × (ns ≡ ms ++ m ∷ [])
      × (m.kind ≡ k)
last_kind-last p [] k e h = cc
last_kind-last p (n ∷ []) k e h = ([], n, refl, cc)
last_kind-last p (n ∷ m ∷ ms) k e h =
    let (init, last, split, same) = last_kind-last none (m ∷ ms) k refl h in
    (n ∷ init, last, ap (λ (t : List DeadManNotification). n ∷ t) split, same)

Consecutive-adjacent :
    (ms : List DeadManNotification) (m n : DeadManNotification) (ns : List DeadManNotification)
    (next : ℕ)
    → Consecutive (ms ++ m ∷ n ∷ ns) next
    → m.notification_id + 1 ≡ n.notification_id
Consecutive-adjacent [] m n ns next h = omega arith
Consecutive-adjacent (k ∷ ks) m n ns next h = Consecutive-adjacent ks m n ns next h.1

-- In every history, when the oldest pending intent is RECOVERED, the newest acknowledged intent is
-- the DOWN intent with the id before it: a recovery is announced only for an outage whose DOWN
-- intent was acknowledged.
pub recovered-acknowledged :
    (es : List Event) (n : DeadManNotification) (ns : List DeadManNotification)
    → (replay fresh es).status.pending_notifications ≡ n ∷ ns
    → n.kind ≡ recovered_kind
    → (ms : List DeadManNotification) × (m : DeadManNotification) × ((replay fresh es).acknowledged
        ≡ ms ++ m ∷ [])
      × (m.kind ≡ down_kind)
      × (m.notification_id + 1 ≡ n.notification_id)
recovered-acknowledged es n ns queue kind =
    let l = replay fresh es in
    let b = (IsLedger-replay fresh es IsLedger-fresh).books in
    let before = Paired-split none l.acknowledged n ns (rw queue at b.paired) in
    let (ms, m, split, down) =
      last_kind-last none l.acknowledged down_kind refl (rw kind at before) in
    (
      ms,
      m,
      split,
      down,
      Consecutive-adjacent ms m n ns l.status.next_notification_id
          (rw (split, queue, append_assoc) at b.ids),
    )

-- `ys` continues `xs`.
abbrev pub Extends : List DeadManNotification → List DeadManNotification → Type 0
Extends xs ys = (zs : List DeadManNotification) × (ys ≡ xs ++ zs)

pub Extends-trans :
    (xs ys zs : List DeadManNotification) → Extends xs ys → Extends ys zs → Extends xs zs
Extends-trans xs ys zs (us, e) (vs, f) = (us ++ vs, rw (f, e) (append_assoc xs us vs))

advanced-Extends :
    (l : Ledger) (o : DeadManProbeOutcome) (now : DateTime) (r : Result DeadManStatus)
    → advance_deadman_status l.status o now ≡ r
    → Extends (intents l) (intents (advanced l r))
unfolding advanced
advanced-Extends l o now (ok t) e =
    let (queue, _) = advance-owed l.status o now t e in
    (owed l.status now t, rw (queue, append_assoc))
advanced-Extends l o now (err x) e = ([], rw append-nil)

acknowledged_by-intents :
    (l : Ledger) (id : ℕ) (r : Result DeadManStatus)
    → acknowledge_deadman_notification l.status id ≡ r
    → intents (acknowledged_by l r) ≡ intents l
unfolding acknowledged_by
acknowledged_by-intents l id (ok t) e =
    let (n, ns, queue, same, made) = acknowledge_inverse l.status id t e in
    rw (made, queue, append_assoc)
acknowledged_by-intents l id (err x) e = refl

handle-Extends : (l : Ledger) (e : Event) → Extends (intents l) (intents (handle l e))
unfolding handle
handle-Extends l (observe o now) = advanced-Extends l o now _ refl
handle-Extends l (acknowledge id) = ([], rw append-nil (acknowledged_by-intents l id _ refl))

-- No event, successful or raising, drops, replaces or reorders an intent that exists: the intents
-- of a later ledger continue those of an earlier one.
pub replay-Extends : (l : Ledger) (es : List Event) → Extends (intents l) (intents (replay l es))
unfolding replay
replay-Extends l [] = ([], rw append-nil)
replay-Extends l (e ∷ es) =
    Extends-trans (intents l) (intents (handle l e)) (intents (replay (handle l e) es))
      (handle-Extends l e) (replay-Extends (handle l e) es)
