-- ===== src/Deadman/Ledger/Once.antt =====
-- An intent is acknowledged at most once, over every history of the dead-man state machine.
use hermes_sentinel.Base.{
  ℕ, suc, ◌≤◌, ◌≡◌, refl, List, [], ◌∷◌, ◌++◌, append-nil, append_assoc, length-append, arith, sym,
  ap, ◌∙◌,
}
use hermes_sentinel.Result.{Result, ok, err, value_error}
use hermes_sentinel.Deadman.Types.{DeadManNotification}
use hermes_sentinel.Deadman.Status.{DeadManStatus}
use hermes_sentinel.Deadman.Status.Snapshot.{Consecutive}
use hermes_sentinel.Deadman.Status.Valid.{IsStatus}
use hermes_sentinel.Deadman.Machine.{advance_deadman_status, acknowledge_deadman_notification}
use hermes_sentinel.Deadman.Machine.Acknowledge.{acknowledge_inverse, acknowledge_other}
use hermes_sentinel.Deadman.Ledger.{
  Event, observe, acknowledge, Ledger, oldest, advanced, acknowledged_by, handle, replay, fresh,
}
use hermes_sentinel.Deadman.Ledger.Invariant.{IsLedger, IsLedger-fresh, IsLedger-replay}
use hermes_sentinel.Deadman.Ledger.History.{Extends, Extends-trans}

replay-append : (l : Ledger) (es fs : List Event) → replay l (es ++ fs) ≡ replay (replay l es) fs
unfolding replay
replay-append l [] fs = refl
replay-append l (e ∷ es) fs = replay-append (handle l e) es fs

advanced-keeps :
    (l : Ledger) (r : Result DeadManStatus) → (advanced l r).acknowledged ≡ l.acknowledged
unfolding advanced
advanced-keeps l (ok t) = refl
advanced-keeps l (err e) = refl

acknowledged_by-Extends :
    (l : Ledger) (r : Result DeadManStatus)
    → Extends l.acknowledged (acknowledged_by l r).acknowledged
unfolding acknowledged_by
acknowledged_by-Extends l (ok t) = (_, refl)
acknowledged_by-Extends l (err e) = ([], rw append-nil refl)

replay-acknowledged :
    (l : Ledger) (es : List Event) → Extends l.acknowledged (replay l es).acknowledged
unfolding replay handle
replay-acknowledged l [] = ([], rw append-nil refl)
replay-acknowledged l (observe o now ∷ es) =
    let r = advance_deadman_status l.status o now in
    rw (advanced-keeps l r) at (replay-acknowledged (advanced l r) es)
replay-acknowledged l (acknowledge id ∷ es) =
    let r = acknowledge_deadman_notification l.status id in
    Extends-trans _ _ _ (acknowledged_by-Extends l r) (replay-acknowledged (acknowledged_by l r) es)

Consecutive-drop :
    (ms ns : List DeadManNotification) (next : ℕ)
    → Consecutive (ms ++ ns) next
    → Consecutive ns next
Consecutive-drop [] ns next h = h
Consecutive-drop (m ∷ ms) ns next h = Consecutive-drop ms ns next h.1

Consecutive-later :
    (m : DeadManNotification) (ms : List DeadManNotification) (n : DeadManNotification)
    (ns : List DeadManNotification) (next : ℕ)
    → Consecutive (m ∷ (ms ++ n ∷ ns)) next
    → suc m.notification_id ≤ n.notification_id
Consecutive-later m ms n ns next h =
    let last = Consecutive-drop ms (n ∷ ns) next h.1 in
    omega (arith, h.0, last.0, length-append ms (n ∷ ns))

-- an id that no pending intent comes before
refused :
    (s : DeadManStatus) (id : ℕ) (queue : List DeadManNotification)
    → IsStatus s
    → s.pending_notifications ≡ queue
    → ((n : DeadManNotification) (ns : List DeadManNotification)
        → queue ≡ n ∷ ns
        → suc id ≤ n.notification_id)
    → acknowledge_deadman_notification s id ≡ err value_error
unfolding acknowledge_deadman_notification
refused s id [] v queue later = rw queue (ground arith)
refused s id (n ∷ ns) v queue later =
    let above = later n ns refl in
    acknowledge_other s n ns v queue id (λ e. omega (arith, above, e))

refused_later :
    (l : Ledger) (ms : List DeadManNotification) (m : DeadManNotification)
    (zs : List DeadManNotification)
    → IsLedger l
    → l.acknowledged ≡ (ms ++ m ∷ []) ++ zs
    → acknowledge_deadman_notification l.status m.notification_id ≡ err value_error
refused_later l ms m zs v split =
    let next = l.status.next_notification_id in
    refused l.status m.notification_id l.status.pending_notifications v.status refl λ n ns queue.
      Consecutive-later m zs n ns next (
        Consecutive-drop ms (m ∷ (zs ++ n ∷ ns)) next (
          rw
            (
              split,
              queue,
              append_assoc (ms ++ m ∷ []) zs (n ∷ ns),
              append_assoc ms (m ∷ []) (zs ++ n ∷ ns),
            )
            at v.books.ids))

after_success :
    (l : Ledger) (fs : List Event) (id : ℕ) (t : DeadManStatus)
    → IsLedger l
    → acknowledge_deadman_notification l.status id ≡ ok t
    → acknowledge_deadman_notification (replay l (acknowledge id ∷ fs)).status id ≡ err value_error
unfolding replay handle acknowledged_by
after_success l fs id t v h =
    let (n, ns, queue, same, made) = acknowledge_inverse l.status id t h in
    let (zs, split) = replay-acknowledged (acknowledged_by l (ok t)) fs in
    let moved : replay l (acknowledge id ∷ fs) ≡ replay (acknowledged_by l (ok t)) fs =
      ap (λ r. replay (acknowledged_by l r) fs) h in
    let final = IsLedger-replay l (acknowledge id ∷ fs) v in
    rw moved (
      rw (sym same) (
        refused_later (replay (acknowledged_by l (ok t)) fs) l.acknowledged n zs (rw moved at final)
          (split ∙ ap (λ q. (l.acknowledged ++ oldest q) ++ zs) queue)))

-- In every history from the initial status, an acknowledgement of an id that has succeeded succeeds never
-- again: whatever follows, observations and other acknowledgements, raising ones included, a second one
-- of the same id raises `ValueError`.
pub acknowledged_once :
    (es fs : List Event) (id : ℕ) (t : DeadManStatus)
    → acknowledge_deadman_notification (replay fresh es).status id ≡ ok t
    → acknowledge_deadman_notification (replay fresh (es ++ acknowledge id ∷ fs)).status id
      ≡ err value_error
acknowledged_once es fs id t h =
    rw replay-append
      (after_success (replay fresh es) fs id t (IsLedger-replay fresh es IsLedger-fresh) h)
