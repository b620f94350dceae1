-- ===== src/Deadman/Machine/Acknowledge.antt =====
-- `acknowledge_deadman_notification`: oldest first, and never another intent.
use hermes_sentinel.Base.{
  ℕ, ◌≤◌, ◌≡◌, ◌≢◌, refl, List, [], ◌∷◌, Option, none, some, All, arith, ◌==◌,
}
use hermes_sentinel.Result.{ok, err, value_error, guard, >>-eq-ok}
use hermes_sentinel.DateTime.{DateTime}
use hermes_sentinel.Deadman.Types.{
  DeadManState, DeadManNotification, DeadManCurrentDown, unknown, up, down, check_current_down,
  check_notification, require_notification_id,
}
use hermes_sentinel.Deadman.Status.{DeadManStatus, create_status}
use hermes_sentinel.Deadman.Status.Snapshot.{
  IsSnapshot, Consecutive, Bound, Anchored, Initial, Grammar,
}
use hermes_sentinel.Deadman.Status.Valid.{
  IsStatus, IsIntent, IsBinding, create_status-accepts, created, AllDown-Grammar,
}
use hermes_sentinel.Deadman.Machine.{mark, acknowledge_head, acknowledge_deadman_notification}

abbrev pub without_head :
    DeadManStatus → DeadManNotification → List DeadManNotification → DeadManStatus
without_head s n ns = record s {
  pending_notifications = ns;
  current_down = mark n.notification_id s.current_down;
}

Anchored-rest :
    (st : DeadManState) (a : Option DateTime) (n : DeadManNotification)
    (ns : List DeadManNotification)
    → Anchored st a (n ∷ ns)
    → Anchored st a ns
Anchored-rest st none n ns h = h
Anchored-rest st (some a) n ns h = (h.0, h.1.1)

Initial-rest :
    (st : DeadManState) (a : Option DateTime) (n : DeadManNotification)
    (ns : List DeadManNotification) (next : ℕ)
    → Initial st a (n ∷ ns) next
    → Initial st a ns next
Initial-rest unknown a n ns next h = cc
Initial-rest up a n ns next h = tt
Initial-rest down a n ns next h = tt

-- The binding is marked exactly when the queue runs empty.
Outage-rest :
    (c : DeadManCurrentDown) (a : Option DateTime) (n : DeadManNotification)
    (ns : List DeadManNotification) (next : ℕ)
    → Consecutive (n ∷ ns) next
    → Bound down (some c) a (n ∷ ns) next
    → Bound down (mark n.notification_id (some c)) a ns next
unfolding mark
Outage-rest c a n [] next k b = ground arith
Outage-rest c a n (m ∷ ms) next k b = ground arith

Bound-rest :
    (st : DeadManState) (c : Option DeadManCurrentDown) (a : Option DateTime)
    (n : DeadManNotification) (ns : List DeadManNotification) (next : ℕ)
    → Consecutive (n ∷ ns) next
    → Bound st c a (n ∷ ns) next
    → Bound st (mark n.notification_id c) a ns next
unfolding mark
Bound-rest down none a n ns next k b = absurd b
Bound-rest down (some c) a n ns next k b = Outage-rest c a n ns next k b
Bound-rest unknown none a n ns next k b = tt
Bound-rest unknown (some c) a n ns next k b = absurd b
Bound-rest up none a n ns next k b = tt
Bound-rest up (some c) a n ns next k b = absurd b

mark-IsBinding : (id : ℕ) (c : Option DeadManCurrentDown) → IsBinding c → IsBinding (mark id c)
unfolding mark check_current_down
mark-IsBinding id none h = tt
mark-IsBinding id (some c) h = ground arith

module _ (s : DeadManStatus) (n : DeadManNotification) (ns : List DeadManNotification)
    (v : IsStatus s) (queue : s.pending_notifications ≡ n ∷ ns) where
  open s use {state, state_changed_at, next_notification_id, current_down}

  without_head-IsSnapshot : IsSnapshot (without_head s n ns)
  without_head-IsSnapshot =
      let ids : Consecutive (n ∷ ns) next_notification_id = rw queue at v.snapshot.ids in
      let grammar : Grammar (n ∷ ns) = rw queue at v.snapshot.grammar in
      record {
        streaks = v.snapshot.streaks;
        ids = ids.1;
        allocated = v.snapshot.allocated;
        grammar = AllDown-Grammar ns grammar;
        anchored = Anchored-rest state state_changed_at n ns (rw queue at v.snapshot.anchored);
        initial =
            Initial-rest state state_changed_at n ns next_notification_id
              (rw queue at v.snapshot.initial);
        bound =
            Bound-rest state current_down state_changed_at n ns next_notification_id ids
              (rw queue at v.snapshot.bound);
      }

  pub without_head-IsStatus : IsStatus (without_head s n ns)
  without_head-IsStatus =
      let intents : All IsIntent (n ∷ ns) = rw queue at v.intents in
      record {
        snapshot = without_head-IsSnapshot;
        intents = intents.1;
        binding = mark-IsBinding n.notification_id current_down v.binding;
      }

  head_id : 1 ≤ n.notification_id
  unfolding check_notification require_notification_id
  head_id = let intents : All IsIntent (n ∷ ns) = rw queue at v.intents in ground (arith, intents.0)

  -- Acknowledging the oldest pending intent of a status object succeeds. It removes that intent and
  -- no other, marks the outage binding if and only if it holds that id, changes nothing else, and
  -- the result is a status object.
  pub acknowledge-head :
      (acknowledge_deadman_notification s n.notification_id ≡ ok (without_head s n ns))
      × IsStatus (without_head s n ns)
  unfolding acknowledge_deadman_notification
  acknowledge-head = (
    rw queue (ground (arith, head_id, create_status-accepts _ without_head-IsSnapshot)),
    without_head-IsStatus,
  )

  -- When a status object has pending intents, any id but that of the oldest is refused, whether it is
  -- stale, newer than the oldest, or was never allocated.
  pub acknowledge_other :
      (id : ℕ) → id ≢ n.notification_id → acknowledge_deadman_notification s id ≡ err value_error
  unfolding acknowledge_deadman_notification
  acknowledge_other id ne = rw queue (ground arith)

acknowledge_head-inverse :
    (s : DeadManStatus) (queue : List DeadManNotification) (id : ℕ) (t : DeadManStatus)
    → acknowledge_head queue id s ≡ ok t
    → (n : DeadManNotification) × (ns : List DeadManNotification) × (queue ≡ n ∷ ns)
      × (n.notification_id ≡ id)
      × (t ≡ without_head s n ns)
unfolding acknowledge_head
acknowledge_head-inverse s [] id t h = cc
acknowledge_head-inverse s (n ∷ ns) id t h =
    let u : DeadManStatus = record s {
      pending_notifications = ns;
      current_down = mark id s.current_down;
    } in
    let (same, made) = >>-eq-ok (guard (id == n.notification_id) value_error) (create_status u) h in
    let e : n.notification_id ≡ id = ground arith in (n, ns, refl, e, rw e (created u made))

-- Every successful acknowledgement is of the head.
pub acknowledge_inverse :
    (s : DeadManStatus) (id : ℕ) (t : DeadManStatus)
    → acknowledge_deadman_notification s id ≡ ok t
    → (n : DeadManNotification) × (ns : List DeadManNotification) × (s.pending_notifications
        ≡ n ∷ ns)
      × (n.notification_id ≡ id)
      × (t ≡ without_head s n ns)
unfolding acknowledge_deadman_notification
acknowledge_inverse s id t h =
    acknowledge_head-inverse s s.pending_notifications id t
      (>>-eq-ok (require_notification_id id) (acknowledge_head s.pending_notifications id s) h).1
