-- ===== src/Deadman/Machine/Preserves.antt =====
-- `advance_deadman_status` never meets one of its own fail-closed checks: from a status object, with
-- an aware clock value that is not before the anchor, it returns a status object.
use hermes_sentinel.Base.{
  ℕ, ◌+◌, ◌≤◌, ◌≡◌, refl, ap, List, [], ◌∷◌, ◌++◌, Option, none, some, true, false, ltb, All-append,
  Bool-cases, inl, inr, arith,
}
use hermes_sentinel.DateTime.{DateTime, is_aware}
use hermes_sentinel.Deadman.Types.{
  DeadManState, DeadManProbeOutcome, DeadManNotification, DeadManCurrentDown, is_down, unknown, up,
  down, healthy, failed, down_kind, recovered_kind, check_notification, check_transition,
  create_transition, create_notification, create_current_down, check_current_down,
}
use hermes_sentinel.Deadman.Status.{DeadManStatus}
use hermes_sentinel.Deadman.Status.Snapshot.{IsSnapshot, DatedBy, Anchored, Initial, Bound}
use hermes_sentinel.Deadman.Status.Valid.{
  IsIntent, IsBinding, IsStatus, Yields, create_status-accepts, create_status-Yields,
  Consecutive-append, DatedBy-append, DatedBy-later, Grammar-append, Outage-append,
}
use hermes_sentinel.Deadman.Machine.{
  recover_silently, recover_announced, recover, success_from, advance_success, confirm_down,
  count_failure, failure_from, advance_failure, precedes, advance_deadman_status,
}

DatedBy-now :
    (st : DeadManState) (a : Option DateTime) (ns : List DeadManNotification) (next : ℕ)
    (now : DateTime)
    → Anchored st a ns
    → Initial st a ns next
    → precedes now a ≡ false
    → DatedBy now ns
DatedBy-now unknown a ns next now h i p = rw (i.1) tt
DatedBy-now up none ns next now h i p = cc
DatedBy-now up (some a) ns next now h i p = DatedBy-later a now ns h.1 (ground arith)
DatedBy-now down none ns next now h i p = cc
DatedBy-now down (some a) ns next now h i p = DatedBy-later a now ns h.1 (ground arith)

-- An acknowledged outage has an empty queue behind it, and it took an id.
acknowledged_outage :
    (st : DeadManState) (co : Option DeadManCurrentDown) (a : Option DateTime)
    (ns : List DeadManNotification) (next : ℕ) (c : DeadManCurrentDown)
    → Bound st co a ns next
    → IsBinding co
    → st ≡ down
    → co ≡ some c
    → c.acknowledged ≡ true
    → (2 ≤ next) × (ns ≡ [])
unfolding check_current_down
acknowledged_outage st co a ns next c b i d e t = ground arith

-- the newest intent's own date, at the end of the queue
DatedBy-now_append :
    (now : DateTime) (ns : List DeadManNotification) (n : DeadManNotification)
    → DatedBy now ns
    → n.transition.at ≡ now
    → DatedBy now (ns ++ n ∷ [])
DatedBy-now_append now ns n h e =
    DatedBy-append now now ns n h (omega arith) (omega (arith, ap (λ (d : DateTime). d.instant) e))

module _ (s : DeadManStatus) (now : DateTime) (v : IsStatus s) (aware : is_aware now ≡ true)
    (order : precedes now s.state_changed_at ≡ false) where
  open s use {
    state, consecutive_failures, consecutive_successes, state_changed_at, pending_notifications,
    next_notification_id, current_down,
  }

  dated_now : DatedBy now pending_notifications
  dated_now =
      DatedBy-now state state_changed_at pending_notifications next_notification_id now
        v.snapshot.anchored v.snapshot.initial order

  first_success : state ≡ unknown → Yields (success_from unknown s now)
  unfolding success_from
  first_success e =
      create_status-Yields _ (ground (arith, v.snapshot, dated_now)) v.intents v.binding

  steady_success : state ≡ up → Yields (success_from up s now)
  unfolding success_from
  steady_success e = create_status-Yields _ (ground (arith, v.snapshot)) v.intents v.binding

  recover_silently-Yields : state ≡ down → Yields (recover_silently s now)
  unfolding recover_silently
  recover_silently-Yields e =
      create_status-Yields _ (ground (arith, v.snapshot, dated_now)) v.intents tt

  abbrev recovered : DeadManNotification
  recovered = record {
    notification_id = next_notification_id;
    kind = recovered_kind;
    transition = record { from_state = down; to_state = up; at = now };
  }

  -- The outage's DOWN intent took an id, so RECOVERED never gets id 1.
  recovered-IsIntent : 2 ≤ next_notification_id → IsIntent recovered
  unfolding check_notification check_transition
  recovered-IsIntent h = record { notification = ground arith; transition = ground arith }

  abbrev announced : DeadManStatus
  announced = record {
    state = up;
    consecutive_failures = 0;
    consecutive_successes = 0;
    state_changed_at = some now;
    pending_notifications = pending_notifications ++ recovered ∷ [];
    next_notification_id = next_notification_id + 1;
    current_down = none;
  }

  announced-IsSnapshot :
      2 ≤ next_notification_id → pending_notifications ≡ [] → IsSnapshot announced
  announced-IsSnapshot h e = record {
    streaks = (refl, omega arith);
    ids =
        Consecutive-append pending_notifications next_notification_id recovered v.snapshot.ids refl;
    allocated = omega arith;
    grammar = rw e tt;
    anchored = (aware, DatedBy-now_append now pending_notifications recovered dated_now refl);
    initial = tt;
    bound = tt;
  }

  recover_announced-Yields :
      2 ≤ next_notification_id → pending_notifications ≡ [] → Yields (recover_announced s now)
  unfolding recover_announced create_transition create_notification
  recover_announced-Yields h e =
      let intent = recovered-IsIntent h in
      (
        announced,
        ground (arith, intent, create_status-accepts announced (announced-IsSnapshot h e)),
        record {
          snapshot = announced-IsSnapshot h e;
          intents =
              All-append IsIntent pending_notifications (recovered ∷ []) v.intents (intent, tt);
          binding = tt;
        },
      )

  failure_hold : state ≡ down → Yields (failure_from down s now)
  unfolding failure_from
  failure_hold e = create_status-Yields _ (ground (arith, v.snapshot)) v.intents v.binding

  abbrev intent : DeadManNotification
  intent = record {
    notification_id = next_notification_id;
    kind = down_kind;
    transition = record { from_state = state; to_state = down; at = now };
  }

  abbrev downed : DeadManStatus
  downed = record {
    state = down;
    consecutive_failures = 0;
    consecutive_successes = 0;
    state_changed_at = some now;
    pending_notifications = pending_notifications ++ intent ∷ [];
    next_notification_id = next_notification_id + 1;
    current_down = some (record { notification_id = next_notification_id; acknowledged = false });
  }

  intent-IsIntent : is_down state ≡ false → IsIntent intent
  unfolding check_notification check_transition
  intent-IsIntent e = record {
    notification = ground (arith, v.snapshot.allocated);
    transition = ground arith;
  }

  downed-IsSnapshot : IsSnapshot downed
  downed-IsSnapshot = record {
    streaks = (refl, omega arith);
    ids = Consecutive-append pending_notifications next_notification_id intent v.snapshot.ids refl;
    allocated = omega arith;
    grammar = Grammar-append pending_notifications intent v.snapshot.grammar refl;
    anchored = (aware, DatedBy-now_append now pending_notifications intent dated_now refl);
    initial = tt;
    bound = (refl, Outage-append (some now) pending_notifications intent (refl, refl));
  }

  confirm_down-Yields : is_down state ≡ false → Yields (confirm_down s now)
  unfolding confirm_down create_transition create_notification create_current_down
      check_current_down
  confirm_down-Yields e =
      let fresh = intent-IsIntent e in
      (
        downed,
        ground (arith, fresh, v.snapshot.allocated, create_status-accepts downed downed-IsSnapshot),
        record {
          snapshot = downed-IsSnapshot;
          intents = All-append IsIntent pending_notifications (intent ∷ []) v.intents (fresh, tt);
          binding = ground (arith, v.snapshot.allocated);
        },
      )

  count_failure-Yields : is_down state ≡ false → Yields (count_failure s now)
  unfolding count_failure
  count_failure-Yields e = elim (Bool-cases (ltb (consecutive_failures + 1) 3)) [
    | inl few ↦ rw few (create_status-Yields _ (ground (arith, v.snapshot)) v.intents v.binding)
    | inr third ↦ rw third (confirm_down-Yields e)
  ]

  recover-Yields :
      (c : Option DeadManCurrentDown) → current_down ≡ c → state ≡ down → Yields (recover c s now)
  unfolding recover check_current_down
  recover-Yields none e d = absurd (ground (arith, v.snapshot.bound))
  recover-Yields (some c) e d = elim (Bool-cases c.acknowledged) [
    | inl told ↦
        let (two, drained) =
          acknowledged_outage state current_down state_changed_at pending_notifications
            next_notification_id c v.snapshot.bound v.binding d e told in
        rw told (recover_announced-Yields two drained)
    | inr untold ↦ rw untold (recover_silently-Yields d)
  ]

  success_from-Yields : (st : DeadManState) → state ≡ st → Yields (success_from st s now)
  unfolding success_from
  success_from-Yields unknown e = first_success e
  success_from-Yields up e = steady_success e
  success_from-Yields down e = elim (Bool-cases (ltb (consecutive_successes + 1) 2)) [
    | inl few ↦ rw few (create_status-Yields _ (ground (arith, v.snapshot)) v.intents v.binding)
    | inr second ↦ rw second (recover-Yields current_down refl e)
  ]

  failure_from-Yields : (st : DeadManState) → state ≡ st → Yields (failure_from st s now)
  unfolding failure_from
  failure_from-Yields down e = failure_hold e
  failure_from-Yields unknown e = count_failure-Yields (rw e)
  failure_from-Yields up e = count_failure-Yields (rw e)

  -- From a status object, an aware clock value that is not before the anchor gives a status object:
  -- no construction on the way raises, and the assertion on the outage binding holds.
  pub advance-Yields : (o : DeadManProbeOutcome) → Yields (advance_deadman_status s o now)
  unfolding advance_deadman_status advance_success advance_failure
  advance-Yields healthy = rw (aware, order) (success_from-Yields state refl)
  advance-Yields failed = rw (aware, order) (failure_from-Yields state refl)
