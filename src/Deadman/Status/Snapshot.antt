-- ===== src/Deadman/Status/Snapshot.antt =====
-- The invariants that the docstring of `DeadManStatus` names, as a predicate, and the proof that
-- `__post_init__` accepts exactly the statuses that satisfy it.
use hermes_sentinel.Base.{
  ℕ, suc, ◌+◌, ◌≤◌, ◌<◌, ◌≡◌, ◌↔◌, refl, Bool, true, false, List, [], ◌∷◌, Option, none, some,
  length, All, arith,
}
use hermes_sentinel.Result.{ok}
use hermes_sentinel.DateTime.{DateTime, is_aware}
use hermes_sentinel.Deadman.Types.{
  DeadManState, DeadManNotification, DeadManCurrentDown, unknown, up, down, down_kind,
}
use hermes_sentinel.Deadman.Status.{
  DeadManStatus, last_of, check_streaks, check_no_recovered, check_kinds, check_dates, check_anchor,
  check_unknown,
}

abbrev pub Streaks : DeadManState → ℕ → ℕ → Type 0
Streaks down failures successes = (failures ≡ 0) × (successes < 2)
Streaks _ failures successes = (successes ≡ 0) × (failures < 3)

-- The ids are the last ones that were allocated, each exactly once and in order.
abbrev pub Consecutive : List DeadManNotification → ℕ → Type 0
Consecutive [] next = Unit
Consecutive (n ∷ ns) next = (n.notification_id + suc (length ns) ≡ next) × Consecutive ns next

abbrev pub AllDown : List DeadManNotification → Type 0
AllDown ns = All (λ n. n.kind ≡ down_kind) ns

-- RECOVERED? DOWN*
abbrev pub Grammar : List DeadManNotification → Type 0
Grammar [] = Unit
Grammar (n ∷ ns) = AllDown ns

abbrev pub DatedBy : DateTime → List DeadManNotification → Type 0
DatedBy anchor ns = All (λ n. n.transition.at.instant ≤ anchor.instant) ns

abbrev pub Anchored : DeadManState → Option DateTime → List DeadManNotification → Type 0
Anchored state none ns = state ≡ unknown
Anchored state (some anchor) ns = (is_aware anchor ≡ true) × DatedBy anchor ns

abbrev pub Initial : DeadManState → Option DateTime → List DeadManNotification → ℕ → Type 0
Initial unknown anchor ns next = (anchor ≡ none) × (ns ≡ []) × (next ≡ 1)
Initial _ anchor ns next = Unit

-- The newest pending intent is the DOWN intent of the current outage, dated at its beginning.
abbrev pub OpenedBy : Option DateTime → DeadManNotification → Type 0
OpenedBy none n = ⊥
OpenedBy (some anchor) n = (n.kind ≡ down_kind) × (n.transition.at.instant ≡ anchor.instant)

abbrev pub Outage : Bool → Option DateTime → List DeadManNotification → Type 0
Outage true anchor ns = ns ≡ []
Outage false anchor [] = ⊥
Outage false anchor (n ∷ ns) = OpenedBy anchor (last_of n ns)

abbrev pub Bound :
    DeadManState
    → Option DeadManCurrentDown
    → Option DateTime
    → List DeadManNotification
    → ℕ
    → Type 0
Bound down none anchor ns next = ⊥
Bound down (some c) anchor ns next =
    (c.notification_id + 1 ≡ next) × Outage c.acknowledged anchor ns
Bound _ none anchor ns next = Unit
Bound _ (some c) anchor ns next = ⊥

pub record IsSnapshot (s : DeadManStatus) : Type 0 where
  pub streaks : Streaks s.state s.consecutive_failures s.consecutive_successes
  pub ids : Consecutive s.pending_notifications s.next_notification_id
  pub allocated : 1 ≤ s.next_notification_id
  pub grammar : Grammar s.pending_notifications
  pub anchored : Anchored s.state s.state_changed_at s.pending_notifications
  pub initial : Initial s.state s.state_changed_at s.pending_notifications s.next_notification_id
  pub bound :
      Bound s.state s.current_down s.state_changed_at s.pending_notifications s.next_notification_id

pub check_streaks_iff :
    (st : DeadManState) (f g : ℕ) → (check_streaks st f g ≡ ok tt) ↔ Streaks st f g
unfolding check_streaks
check_streaks_iff unknown f g = (λ h. ground arith, λ h. ground arith)
check_streaks_iff up f g = (λ h. ground arith, λ h. ground arith)
check_streaks_iff down f g = (λ h. ground arith, λ h. ground arith)

check_no_recovered_iff :
    (ns : List DeadManNotification) → (check_no_recovered ns ≡ ok tt) ↔ AllDown ns
unfolding check_no_recovered
check_no_recovered_iff [] = (λ h. tt, λ h. refl)
check_no_recovered_iff (n ∷ ns) =
    (λ h. ground (arith, check_no_recovered_iff ns), λ h. ground (arith, check_no_recovered_iff ns))

pub check_kinds_iff : (ns : List DeadManNotification) → (check_kinds ns ≡ ok tt) ↔ Grammar ns
unfolding check_kinds
check_kinds_iff [] = (λ h. tt, λ h. refl)
check_kinds_iff (n ∷ ns) = check_no_recovered_iff ns

check_dates_iff :
    (a : DateTime) (ns : List DeadManNotification) → (check_dates a ns ≡ ok tt) ↔ DatedBy a ns
unfolding check_dates
check_dates_iff a [] = (λ h. tt, λ h. refl)
check_dates_iff a (n ∷ ns) =
    (λ h. ground (arith, check_dates_iff a ns), λ h. ground (arith, check_dates_iff a ns))

pub check_anchor_iff :
    (st : DeadManState) (a : Option DateTime) (ns : List DeadManNotification)
    → (check_anchor st a ns ≡ ok tt) ↔ Anchored st a ns
unfolding check_anchor
check_anchor_iff st none ns = (λ h. ground arith, λ h. ground arith)
check_anchor_iff st (some a) ns =
    (λ h. ground (arith, check_dates_iff a ns), λ h. ground (arith, check_dates_iff a ns))

pub check_unknown_iff :
    (st : DeadManState) (a : Option DateTime) (ns : List DeadManNotification) (next : ℕ)
    → (check_unknown st a ns next ≡ ok tt) ↔ Initial st a ns next
unfolding check_unknown
check_unknown_iff unknown none [] next = (λ h. ground arith, λ h. ground arith)
check_unknown_iff unknown none (n ∷ ns) next = (λ h. ground arith, λ h. ground arith)
check_unknown_iff unknown (some a) ns next = (λ h. ground arith, λ h. ground arith)
check_unknown_iff up a ns next = (λ h. tt, λ h. refl)
check_unknown_iff down a ns next = (λ h. tt, λ h. refl)
