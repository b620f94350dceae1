-- ===== src/Deadman/Debounce.antt =====
-- The debounce of src/hermes_sentinel/deadman.py against a description by the outcomes alone.
use hermes_sentinel.Base.{
  ℕ, suc, ◌≤◌, ◌≡◌, refl, List, [], ◌∷◌, Bool, true, false, Option, none, some, leb, arith,
  if◌then◌else◌,
}
use hermes_sentinel.Result.{Result, ok, ◌>>=◌, >>=-eq-ok}
use hermes_sentinel.DateTime.{DateTime, is_aware}
use hermes_sentinel.Deadman.Types.{
  DeadManState, DeadManProbeOutcome, unknown, up, down, healthy, failed,
}
use hermes_sentinel.Deadman.Status.{DeadManStatus, initial_deadman_status}
use hermes_sentinel.Deadman.Status.Valid.{IsStatus, initial-IsStatus}
use hermes_sentinel.Deadman.Machine.{advance_deadman_status, precedes}
use hermes_sentinel.Deadman.Machine.Preserves.{advance-Yields}
use hermes_sentinel.Deadman.Machine.Step.{
  Step, baseline, steady, recovering, recovered_untold, recovered_told, hold, counting, confirmed,
  advance-Step,
}

abbrev pub Observation : Type 0
Observation = DeadManProbeOutcome × DateTime

-- The status after the observations, the newest first.
unfoldable pub after : List Observation → Result DeadManStatus
after [] = ok initial_deadman_status
after ((o, now) ∷ h) = do s ← after h; advance_deadman_status s o now

abbrev pub outcomes : List Observation → List DeadManProbeOutcome
outcomes [] = []
outcomes ((o, now) ∷ h) = o ∷ outcomes h

-- how many of the newest outcomes failed, or were healthy, in a row
abbrev pub failing : List DeadManProbeOutcome → ℕ
failing [] = 0
failing (failed ∷ h) = suc (failing h)
failing (healthy ∷ h) = 0

abbrev pub passing : List DeadManProbeOutcome → ℕ
passing [] = 0
passing (healthy ∷ h) = suc (passing h)
passing (failed ∷ h) = 0

-- The newest confirmation, looking back: three failures in a row, and not two successes in a row.
abbrev pub is_out : List DeadManProbeOutcome → Bool
is_out [] = false
is_out (o ∷ h) =
    let before = is_out h in
    if leb 3 (failing (o ∷ h)) then true else if leb 2 (passing (o ∷ h)) then false else before

abbrev pub was_healthy : List DeadManProbeOutcome → Bool
was_healthy [] = false
was_healthy (healthy ∷ h) = true
was_healthy (failed ∷ h) = was_healthy h

-- The state as the outcomes alone determine it.
abbrev pub liveness : List DeadManProbeOutcome → DeadManState
liveness h = if is_out h then down else if was_healthy h then up else unknown

abbrev Streak : DeadManState → List DeadManProbeOutcome → DeadManStatus → Type 0
Streak down h s = s.consecutive_successes ≡ passing h
Streak _ h s = s.consecutive_failures ≡ failing h

record Tracks (h : List DeadManProbeOutcome) (s : DeadManStatus) : Type 0 where
  state : s.state ≡ liveness h
  streak : Streak s.state h s

Step-Tracks :
    (s : DeadManStatus) (now : DateTime) (t : DeadManStatus) {o : DeadManProbeOutcome}
    (h : List DeadManProbeOutcome)
    → Step s now t o
    → Tracks h s
    → Tracks (o ∷ h) t
Step-Tracks s now t h (baseline e r) k = ground arith
Step-Tracks s now t h (steady e r) k = ground arith
Step-Tracks s now t h (recovering e l r) k = ground arith
Step-Tracks s now t h (recovered_untold c e l b a r) k = ground arith
Step-Tracks s now t h (recovered_told c e l b a r) k = ground arith
Step-Tracks s now t h (hold e r) k = ground arith
Step-Tracks s now t h (counting e l r) k = ground arith
Step-Tracks s now t h (confirmed e l r) k = ground arith

after-Tracks : (h : List Observation) (s : DeadManStatus) → after h ≡ ok s → Tracks (outcomes h) s
unfolding after initial_deadman_status
after-Tracks [] s e = ground arith
after-Tracks ((o, now) ∷ h) t e =
    let (s, before, step) = >>=-eq-ok (after h) (λ s. advance_deadman_status s o now) e in
    Step-Tracks s now t (outcomes h) (advance-Step s now t o step) (after-Tracks h s before)

-- Aware clock values that never go back, the newest first.
abbrev Newest : DateTime → List Observation → Type 0
Newest now [] = Unit
Newest now ((o, t) ∷ h) = t.instant ≤ now.instant

abbrev pub Ordered : List Observation → Type 0
Ordered [] = Unit
Ordered ((o, now) ∷ h) = (is_aware now ≡ true) × Newest now h × Ordered h

abbrev NotAfter : Option DateTime → DateTime → Type 0
NotAfter none d = Unit
NotAfter (some a) d = a.instant ≤ d.instant

NotAfter-precedes : (a : Option DateTime) (now : DateTime) → NotAfter a now → precedes now a ≡ false
NotAfter-precedes none now h = refl
NotAfter-precedes (some a) now h = ground arith

-- no anchor after any of the observations
abbrev AnchoredBefore : Option DateTime → List Observation → Type 0
AnchoredBefore a [] = a ≡ none
AnchoredBefore a ((o, now) ∷ h) = NotAfter a now

AnchoredBefore-NotAfter :
    (a : Option DateTime) (h : List Observation) (now : DateTime)
    → Newest now h
    → AnchoredBefore a h
    → NotAfter a now
AnchoredBefore-NotAfter a [] now n b = rw b tt
AnchoredBefore-NotAfter none (x ∷ h) now n b = tt
AnchoredBefore-NotAfter (some a) ((o, t) ∷ h) now n b = omega arith

Step-NotAfter :
    (s : DeadManStatus) (now : DateTime) (t : DeadManStatus) {o : DeadManProbeOutcome}
    → Step s now t o
    → NotAfter s.state_changed_at now
    → NotAfter t.state_changed_at now
Step-NotAfter s now t (baseline e r) n = ground arith
Step-NotAfter s now t (steady e r) n = ground arith
Step-NotAfter s now t (recovering e l r) n = ground arith
Step-NotAfter s now t (recovered_untold c e l b a r) n = ground arith
Step-NotAfter s now t (recovered_told c e l b a r) n = ground arith
Step-NotAfter s now t (hold e r) n = ground arith
Step-NotAfter s now t (counting e l r) n = ground arith
Step-NotAfter s now t (confirmed e l r) n = ground arith

after_total :
    (h : List Observation)
    → Ordered h
    → (s : DeadManStatus) × (after h ≡ ok s) × IsStatus s × AnchoredBefore s.state_changed_at h
unfolding after
after_total [] k =
    (initial_deadman_status, refl, initial-IsStatus, unfold initial_deadman_status in refl)
after_total ((o, now) ∷ h) k =
    let (s, e, v, a) = after_total h k.2 in
    let n = AnchoredBefore-NotAfter s.state_changed_at h now k.1 a in
    let (t, f, w) = advance-Yields s now v k.0 (NotAfter-precedes s.state_changed_at now n) o in
    (t, rw e f, w, Step-NotAfter s now t (advance-Step s now t o f) n)

-- Any observations with aware clock values that never go back are accepted from the initial status.
-- The state reached is the one that the outcomes alone determine: DOWN if and only if the newest
-- confirmation was three failures in a row and not two successes in a row, and otherwise UP if and
-- only if some outcome was healthy.
pub after-liveness :
    (h : List Observation)
    → Ordered h
    → (s : DeadManStatus) × (after h ≡ ok s) × IsStatus s × (s.state ≡ liveness (outcomes h))
after-liveness h k = let (s, e, v, _) = after_total h k in (s, e, v, (after-Tracks h s e).state)
