-- ===== src/Deadman/Machine/Step.antt =====
-- The successful advances as a relation: one constructor for each row of the state diagram. Each
-- names what the row asks of the status, and the fields of the result.
use hermes_sentinel.Base.{
  ◌+◌, ◌≤◌, ◌<◌, ◌≡◌, refl, [], ◌∷◌, ◌++◌, Option, none, some, true, false, ltb, Bool-cases, inl,
  inr, arith, ltb→lt,
}
use hermes_sentinel.Result.{ok, >>-eq-ok}
use hermes_sentinel.DateTime.{DateTime, is_aware}
use hermes_sentinel.Deadman.Types.{
  DeadManState, DeadManProbeOutcome, DeadManNotification, DeadManCurrentDown, is_down, unknown, up,
  down, healthy, failed, down_kind, recovered_kind, create_transition, create_notification,
  create_current_down,
}
use hermes_sentinel.Deadman.Status.{DeadManStatus, create_status}
use hermes_sentinel.Deadman.Status.Valid.{created}
use hermes_sentinel.Deadman.Machine.{
  recover_silently, recover_announced, recover, success_from, advance_success, confirm_down,
  count_failure, failure_from, advance_failure, precedes, advance_deadman_status,
}

-- the intents that a transition at `now` appends to `s`
abbrev pub recovered_intent : DeadManStatus → DateTime → DeadManNotification
recovered_intent s now = record {
  notification_id = s.next_notification_id;
  kind = recovered_kind;
  transition = record { from_state = down; to_state = up; at = now };
}

abbrev pub down_intent : DeadManStatus → DateTime → DeadManNotification
down_intent s now = record {
  notification_id = s.next_notification_id;
  kind = down_kind;
  transition = record { from_state = s.state; to_state = down; at = now };
}

pub data Step (s : DeadManStatus) (now : DateTime) (t : DeadManStatus)
    : DeadManProbeOutcome → Type 0 where
  baseline :
      s.state ≡ unknown
      → t ≡ record s {
        state = up;
        consecutive_failures = 0;
        consecutive_successes = 0;
        state_changed_at = some now;
      }
      → Step s now t healthy
  steady :
      s.state ≡ up
      → t ≡ record s { consecutive_failures = 0; consecutive_successes = 0 }
      → Step s now t healthy
  recovering :
      s.state ≡ down
      → s.consecutive_successes + 1 < 2
      → t
        ≡ record s { consecutive_failures = 0; consecutive_successes = s.consecutive_successes + 1 }
      → Step s now t healthy
  recovered_untold :
      (c : DeadManCurrentDown)
      → s.state ≡ down
      → 2 ≤ s.consecutive_successes + 1
      → s.current_down ≡ some c
      → c.acknowledged ≡ false
      → t ≡ record {
        state = up;
        consecutive_failures = 0;
        consecutive_successes = 0;
        state_changed_at = some now;
        pending_notifications = s.pending_notifications;
        next_notification_id = s.next_notification_id;
        current_down = none;
      }
      → Step s now t healthy
  recovered_told :
      (c : DeadManCurrentDown)
      → s.state ≡ down
      → 2 ≤ s.consecutive_successes + 1
      → s.current_down ≡ some c
      → c.acknowledged ≡ true
      → t ≡ record {
        state = up;
        consecutive_failures = 0;
        consecutive_successes = 0;
        state_changed_at = some now;
        pending_notifications = s.pending_notifications ++ recovered_intent s now ∷ [];
        next_notification_id = s.next_notification_id + 1;
        current_down = none;
      }
      → Step s now t healthy
  hold :
      s.state ≡ down
      → t ≡ record s { consecutive_failures = 0; consecutive_successes = 0 }
      → Step s now t failed
  counting :
      is_down s.state ≡ false
      → s.consecutive_failures + 1 < 3
      → t
        ≡ record s { consecutive_failures = s.consecutive_failures + 1; consecutive_successes = 0 }
      → Step s now t failed
  confirmed :
      is_down s.state ≡ false
      → 3 ≤ s.consecutive_failures + 1
      → t ≡ record {
        state = down;
        consecutive_failures = 0;
        consecutive_successes = 0;
        state_changed_at = some now;
        pending_notifications = s.pending_notifications ++ down_intent s now ∷ [];
        next_notification_id = s.next_notification_id + 1;
        current_down =
            some (record { notification_id = s.next_notification_id; acknowledged = false });
      }
      → Step s now t failed

module _ (s : DeadManStatus) (now : DateTime) (t : DeadManStatus) where
  announce :
      recover_announced s now ≡ ok t
      → create_status (record {
        state = up;
        consecutive_failures = 0;
        consecutive_successes = 0;
        state_changed_at = some now;
        pending_notifications = s.pending_notifications ++ recovered_intent s now ∷ [];
        next_notification_id = s.next_notification_id + 1;
        current_down = none;
      })
        ≡ ok t
  unfolding recover_announced create_transition create_notification
  announce h = ground arith

  recover-Step :
      (c : Option DeadManCurrentDown)
      → s.current_down ≡ c
      → s.state ≡ down
      → 2 ≤ s.consecutive_successes + 1
      → recover c s now ≡ ok t
      → Step s now t healthy
  unfolding recover recover_silently
  recover-Step none e d l h = cc
  recover-Step (some c) e d l h = elim (Bool-cases c.acknowledged) [
    | inl told ↦ recovered_told c d l e told (created _ (announce (rw told at h)))
    | inr untold ↦ recovered_untold c d l e untold (created _ (rw untold at h))
  ]

  confirm :
      confirm_down s now ≡ ok t
      → create_status (record {
        state = down;
        consecutive_failures = 0;
        consecutive_successes = 0;
        state_changed_at = some now;
        pending_notifications = s.pending_notifications ++ down_intent s now ∷ [];
        next_notification_id = s.next_notification_id + 1;
        current_down =
            some (record { notification_id = s.next_notification_id; acknowledged = false });
      })
        ≡ ok t
  unfolding confirm_down create_transition create_notification create_current_down
  confirm h = ground arith

  confirm_down-Step :
      is_down s.state ≡ false
      → 3 ≤ s.consecutive_failures + 1
      → confirm_down s now ≡ ok t
      → Step s now t failed
  confirm_down-Step e l h = confirmed e l (created _ (confirm h))

  count_failure-Step : is_down s.state ≡ false → count_failure s now ≡ ok t → Step s now t failed
  unfolding count_failure
  count_failure-Step e h = elim (Bool-cases (ltb (s.consecutive_failures + 1) 3)) [
    | inl few ↦ counting e (ltb→lt _ _ few) (created _ (rw few at h))
    | inr third ↦ confirm_down-Step e (ground arith) (rw third at h)
  ]

  success_from-Step :
      (st : DeadManState) → s.state ≡ st → success_from st s now ≡ ok t → Step s now t healthy
  unfolding success_from
  success_from-Step unknown e h = baseline e (created _ h)
  success_from-Step up e h = steady e (created _ h)
  success_from-Step down e h = elim (Bool-cases (ltb (s.consecutive_successes + 1) 2)) [
    | inl few ↦ recovering e (ltb→lt _ _ few) (created _ (rw few at h))
    | inr second ↦ recover-Step s.current_down refl e (ground arith) (rw second at h)
  ]

  failure_from-Step :
      (st : DeadManState) → s.state ≡ st → failure_from st s now ≡ ok t → Step s now t failed
  unfolding failure_from
  failure_from-Step down e h = hold e (created _ h)
  failure_from-Step unknown e h = count_failure-Step (rw e) h
  failure_from-Step up e h = count_failure-Step (rw e) h

  -- Every successful advance is a row of the diagram.
  pub advance-Step :
      (o : DeadManProbeOutcome) → advance_deadman_status s o now ≡ ok t → Step s now t o
  unfolding advance_deadman_status advance_success advance_failure
  advance-Step healthy h = success_from-Step s.state refl (>>-eq-ok _ _ (>>-eq-ok _ _ h).1).1
  advance-Step failed h = failure_from-Step s.state refl (>>-eq-ok _ _ (>>-eq-ok _ _ h).1).1

  -- A successful advance saw an aware clock value that is not before the anchor.
  pub advance-clock :
      (o : DeadManProbeOutcome)
      → advance_deadman_status s o now ≡ ok t
      → (is_aware now ≡ true) × (precedes now s.state_changed_at ≡ false)
  unfolding advance_deadman_status
  advance-clock o h = (ground arith, ground arith)
