-- ===== src/Deadman/Status/Checked.antt =====
-- `__post_init__` of `DeadManStatus` accepts exactly the statuses with `IsSnapshot`.
use hermes_sentinel.Base.{
  ℕ, suc, ◌+◌, ◌≤◌, ◌≡◌, ◌↔◌, refl, List, [], ◌∷◌, Option, none, some, length, arith,
}
use hermes_sentinel.Result.{ok}
use hermes_sentinel.DateTime.{DateTime}
use hermes_sentinel.Deadman.Types.{
  DeadManState, DeadManNotification, DeadManCurrentDown, unknown, up, down, require_notification_id,
}
use hermes_sentinel.Deadman.Status.{
  DeadManStatus, last_of, check_increasing, check_suffix, check_outage, check_binding, check_status,
  check_streaks, check_kinds, check_anchor, check_unknown,
}
use hermes_sentinel.Deadman.Status.Snapshot.{
  Consecutive, Outage, Bound, IsSnapshot, check_streaks_iff, check_kinds_iff, check_anchor_iff,
  check_unknown_iff,
}

-- Strictly increasing ids grow by at least one at each place.
last_of-increasing :
    (n : DeadManNotification) (ns : List DeadManNotification)
    → check_increasing (some n.notification_id) ns ≡ ok tt
    → n.notification_id + length ns ≤ (last_of n ns).notification_id
unfolding check_increasing
last_of-increasing n [] h = omega arith
last_of-increasing n (m ∷ ms) h = ground (arith, last_of-increasing m ms)

Consecutive-tight :
    (n : DeadManNotification) (ns : List DeadManNotification) (next : ℕ)
    → check_increasing (some n.notification_id) ns ≡ ok tt
    → n.notification_id + length ns ≡ (last_of n ns).notification_id
    → (last_of n ns).notification_id + 1 ≡ next
    → Consecutive (n ∷ ns) next
unfolding check_increasing
Consecutive-tight n [] next h e l = (omega arith, tt)
Consecutive-tight n (m ∷ ms) next h e l =
    let inc : check_increasing (some m.notification_id) ms ≡ ok tt = ground arith in
    let lt : suc n.notification_id ≤ m.notification_id = ground arith in
    (omega arith, Consecutive-tight m ms next inc (omega (arith, last_of-increasing m ms inc)) l)

Consecutive-last_of :
    (n : DeadManNotification) (ns : List DeadManNotification) (next : ℕ)
    → Consecutive (n ∷ ns) next
    → (last_of n ns).notification_id + 1 ≡ next
Consecutive-last_of n [] next h = omega arith
Consecutive-last_of n (m ∷ ms) next h = Consecutive-last_of m ms next h.1

Consecutive-increasing :
    (n : DeadManNotification) (ns : List DeadManNotification) (next : ℕ)
    → Consecutive (n ∷ ns) next
    → check_increasing (some n.notification_id) ns ≡ ok tt
unfolding check_increasing
Consecutive-increasing n [] next h = refl
Consecutive-increasing n (m ∷ ms) next h = ground (arith, Consecutive-increasing m ms next h.1)

check_ids_iff :
    (ns : List DeadManNotification) (next : ℕ)
    → ((check_increasing none ns ≡ ok tt) × (check_suffix ns next ≡ ok tt)) ↔ Consecutive ns next
unfolding check_increasing check_suffix
check_ids_iff [] next = (λ h. tt, λ h. (refl, refl))
check_ids_iff (n ∷ ns) next = (
  λ h. Consecutive-tight n ns next h.0 (ground arith) (ground arith),
  λ h. (Consecutive-increasing n ns next h, ground (arith, Consecutive-last_of n ns next h)),
)

check_outage_iff :
    (c : DeadManCurrentDown) (a : Option DateTime) (ns : List DeadManNotification) (next : ℕ)
    → Consecutive ns next
    → (check_outage c a ns next ≡ ok tt)
      ↔ ((c.notification_id + 1 ≡ next) × Outage c.acknowledged a ns)
unfolding check_outage
check_outage_iff c a [] next k = (λ h. ground arith, λ h. ground arith)
check_outage_iff c a (n ∷ ns) next k =
    (λ h. ground arith, λ h. ground (arith, Consecutive-last_of n ns next k))

check_binding_iff :
    (st : DeadManState) (c : Option DeadManCurrentDown) (a : Option DateTime)
    (ns : List DeadManNotification) (next : ℕ)
    → Consecutive ns next
    → (check_binding st c a ns next ≡ ok tt) ↔ Bound st c a ns next
unfolding check_binding
check_binding_iff down none a ns next k = (λ h. cc, λ h. absurd h)
check_binding_iff down (some c) a ns next k = check_outage_iff c a ns next k
check_binding_iff unknown none a ns next k = (λ h. tt, λ h. refl)
check_binding_iff unknown (some c) a ns next k = (λ h. cc, λ h. absurd h)
check_binding_iff up none a ns next k = (λ h. tt, λ h. refl)
check_binding_iff up (some c) a ns next k = (λ h. cc, λ h. absurd h)

-- The eight checks of `__post_init__`, each of which passes.
record Passed (s : DeadManStatus) : Type 0 where
  streaks : check_streaks s.state s.consecutive_failures s.consecutive_successes ≡ ok tt
  increasing : check_increasing none s.pending_notifications ≡ ok tt
  allocated : 1 ≤ s.next_notification_id
  suffix : check_suffix s.pending_notifications s.next_notification_id ≡ ok tt
  kinds : check_kinds s.pending_notifications ≡ ok tt
  anchor : check_anchor s.state s.state_changed_at s.pending_notifications ≡ ok tt
  initial :
      check_unknown s.state s.state_changed_at s.pending_notifications s.next_notification_id
      ≡ ok tt
  binding :
      check_binding s.state s.current_down s.state_changed_at s.pending_notifications
        s.next_notification_id
      ≡ ok tt

check_status-Passed : (s : DeadManStatus) → check_status s ≡ ok tt → Passed s
unfolding check_status require_notification_id
check_status-Passed s h = ground arith

Passed-check_status : (s : DeadManStatus) → Passed s → check_status s ≡ ok tt
unfolding check_status require_notification_id
Passed-check_status s p = ground arith

module _ (s : DeadManStatus) where
  open s use {
    state, consecutive_failures, consecutive_successes, state_changed_at, pending_notifications,
    next_notification_id, current_down,
  }

  Passed-IsSnapshot : Passed s → IsSnapshot s
  Passed-IsSnapshot p =
      let ids =
        (check_ids_iff pending_notifications next_notification_id).0 (p.increasing, p.suffix) in
      record {
        streaks = (check_streaks_iff state consecutive_failures consecutive_successes).0 p.streaks;
        ids = ids;
        allocated = p.allocated;
        grammar = (check_kinds_iff pending_notifications).0 p.kinds;
        anchored = (check_anchor_iff state state_changed_at pending_notifications).0 p.anchor;
        initial =
            (check_unknown_iff state state_changed_at pending_notifications next_notification_id).0
              p.initial;
        bound =
            (check_binding_iff state current_down state_changed_at pending_notifications
                next_notification_id ids).0
              p.binding;
      }

  IsSnapshot-Passed : IsSnapshot s → Passed s
  IsSnapshot-Passed v =
      let (increasing, suffix) =
        (check_ids_iff pending_notifications next_notification_id).1 v.ids in
      record {
        streaks = (check_streaks_iff state consecutive_failures consecutive_successes).1 v.streaks;
        increasing = increasing;
        allocated = v.allocated;
        suffix = suffix;
        kinds = (check_kinds_iff pending_notifications).1 v.grammar;
        anchor = (check_anchor_iff state state_changed_at pending_notifications).1 v.anchored;
        initial =
            (check_unknown_iff state state_changed_at pending_notifications next_notification_id).1
              v.initial;
        binding =
            (check_binding_iff state current_down state_changed_at pending_notifications
                next_notification_id v.ids).1
              v.bound;
      }

-- The constructor accepts a status exactly when the invariants of its docstring hold: ids that are
-- the last allocated ones without a gap, the kinds RECOVERED? DOWN*, no intent dated after the
-- anchor, the initial form of UNKNOWN, and the binding of a DOWN status to its own DOWN intent.
pub check_status_iff : (s : DeadManStatus) → (check_status s ≡ ok tt) ↔ IsSnapshot s
check_status_iff s = (
  λ h. Passed-IsSnapshot s (check_status-Passed s h),
  λ v. Passed-check_status s (IsSnapshot-Passed s v),
)
