-- ===== src/Runtime/Schedule.antt =====
-- The schedule that the loop of src/hermes_sentinel/runtime.py keeps.
use hermes_sentinel.Base.{
  ◌≡◌, refl, sym, subst, inl, inr, Bool-cases, Bool, true, false, List, [], ◌∷◌, Option, none, some,
  All, if◌then◌else◌, arith,
}
use hermes_sentinel.Result.{Result, ok, err, ◌>>◌, >>-eq-ok}
use hermes_sentinel.Float.{Float, le, lt, is_finite, zero_float}
use hermes_sentinel.Runtime.{
  FloatArithmetic, Pass, Turn, returned, Step, leave, fail, proceed, require_positive,
  SentinelRuntime, create_runtime, deadline_after, accept_timeout, step, loop, run_forever,
  monitored, answered, check_schedule, followed,
}
use hermes_sentinel.Runtime.Floats.{is_number, lt-le_trans, not_le}

is_finite-is_number : (a : Float) → is_finite a ≡ true → is_number a ≡ true
is_finite-is_number a h = ground arith

module _ (arithmetic : FloatArithmetic) where
  open arithmetic use {add, subtract, next_after, add_number, next_after_above}

  -- For a finite completion and a finite interval, the deadline is strictly later than the completion,
  -- however the sum is rounded.
  pub deadline_after_later :
      (completion interval : Float)
      → is_finite completion ≡ true
      → is_finite interval ≡ true
      → lt completion (deadline_after arithmetic completion interval) ≡ true
  unfolding deadline_after
  deadline_after_later completion interval p q =
      let sum = add completion interval in
      elim (Bool-cases (le sum completion)) [
        | inl h ↦ rw h (next_after_above completion p)
        | inr h ↦ rw h (
            not_le sum completion (add_number completion interval p q)
              (is_finite-is_number completion p) h)
      ]

  -- what the constructor established
  abbrev pub IsPositive : Float → Type 0
  IsPositive value = (is_finite value ≡ true) × (le value zero_float ≡ false)

  require_positive-IsPositive : (value : Float) → require_positive value ≡ ok tt → IsPositive value
  unfolding require_positive
  require_positive-IsPositive value h = (ground arith, ground arith)

  create_runtime-IsPositive :
      (monitor poll : Float) (runtime : SentinelRuntime)
      → create_runtime monitor poll ≡ ok runtime
      → IsPositive runtime.monitor_interval_seconds × IsPositive runtime.poll_interval_seconds
  unfolding create_runtime
  create_runtime-IsPositive monitor poll runtime h =
      let made : SentinelRuntime = record {
        monitor_interval_seconds = monitor;
        poll_interval_seconds = poll;
      } in
      let (m, h1) = >>-eq-ok (require_positive monitor) (require_positive poll >> ok made) h in
      let (p, h2) = >>-eq-ok (require_positive poll) (ok made) h1 in
      let same : made ≡ runtime = cc in
      subst (λ r. IsPositive r.monitor_interval_seconds × IsPositive r.poll_interval_seconds) same
        (require_positive-IsPositive monitor m, require_positive-IsPositive poll p)

  module _ (runtime : SentinelRuntime) where
    accept_timeout_bounds :
        (due now : Float)
        → IsPositive runtime.poll_interval_seconds
        → (le zero_float (accept_timeout arithmetic runtime due now) ≡ true)
          × (le (accept_timeout arithmetic runtime due now) runtime.poll_interval_seconds ≡ true)
    unfolding accept_timeout
    accept_timeout_bounds due now (p, q) =
        let gap = subtract due now in (ground arith, ground arith)

    -- Against the last completion, none being that no cycle has run yet: whether a cycle ran in this turn,
    -- and when the schedule was checked.
    abbrev pub OnSchedule : Option Float → Option Float → Float → Type 0
    OnSchedule none none at = ⊥
    OnSchedule none (some c) at = Unit
    OnSchedule (some last) none at =
        le (deadline_after arithmetic last runtime.monitor_interval_seconds) at ≡ false
    OnSchedule (some last) (some c) at =
        (le (deadline_after arithmetic last runtime.monitor_interval_seconds) at ≡ true)
        × (lt last at ≡ true)

    abbrev latest : Option Float → Option Float → Option Float
    latest last none = last
    latest last (some c) = some c

    abbrev pub Timely : Option Float → List Turn → Type 0
    Timely last [] = Unit
    Timely last (t ∷ ts) =
        OnSchedule last t.completed_at t.checked_at
        × (le zero_float t.timeout ≡ true)
        × (le t.timeout runtime.poll_interval_seconds ≡ true)
        × Timely (latest last t.completed_at) ts

    abbrev pub FiniteClock : Pass → Type 0
    FiniteClock pass = (is_finite pass.now ≡ true) × (is_finite pass.completion ≡ true)

    abbrev InBounds : Turn → Type 0
    InBounds t =
        (le zero_float t.timeout ≡ true) × (le t.timeout runtime.poll_interval_seconds ≡ true)

    -- the next due point belongs to the last completion
    abbrev Due : Option Float → Option Float → Type 0
    Due none none = Unit
    Due (some c) (some d) =
        (d ≡ deadline_after arithmetic c runtime.monitor_interval_seconds) × (lt c d ≡ true)
    Due _ _ = ⊥

    abbrev Stepped : Option Float → Step → Type 0
    Stepped last (leave exit) = Unit
    Stepped last (fail t e) = OnSchedule last t.completed_at t.checked_at × InBounds t
    Stepped last (proceed t d) =
        (OnSchedule last t.completed_at t.checked_at × InBounds t)
        × Due (latest last t.completed_at) (some d)

    module _ (monitor : IsPositive runtime.monitor_interval_seconds)
        (poll : IsPositive runtime.poll_interval_seconds) where
      answered-Stepped :
          (last : Option Float) (turn : Turn) (due : Float) (answer : Result (Unit {0}))
          → OnSchedule last turn.completed_at turn.checked_at
          → InBounds turn
          → Due (latest last turn.completed_at) (some due)
          → Stepped last (answered arithmetic runtime turn due answer)
      answered-Stepped last turn due (ok done) on bounds next = ((on, bounds), next)
      answered-Stepped last turn due (err e) on bounds next = (on, bounds)

      monitored-Stepped :
          (last : Option Float) (pass : Pass) (answer : Result (Unit {0}))
          → OnSchedule last (some pass.completion) pass.now
          → FiniteClock pass
          → Stepped last (monitored arithmetic runtime pass answer)
      monitored-Stepped last pass (err e) on clock = tt
      monitored-Stepped last pass (ok done) on (_, finite) =
          let interval = runtime.monitor_interval_seconds in
          let next = deadline_after arithmetic pass.completion interval in
          answered-Stepped last _ next pass.request on
            (accept_timeout_bounds next pass.completion poll)
            (refl, deadline_after_later pass.completion interval finite monitor.0)

      -- the schedule check against the due point d of the last completion c
      later-Stepped :
          (c d : Float) (pass : Pass)
          → Due (some c) (some d)
          → FiniteClock pass
          → Stepped (some c) (check_schedule arithmetic runtime pass d)
      later-Stepped c d pass (p, q) clock = elim (Bool-cases (le d pass.now)) [
        | inl h ↦ rw h (
            monitored-Stepped (some c) pass pass.cycle
              (rw (sym p) (h, lt-le_trans c d pass.now q h)) clock)
        | inr h ↦ rw h (
            answered-Stepped (some c) _ d pass.request (rw (sym p) h)
              (accept_timeout_bounds d pass.now poll) (p, q))
      ]

      first-Stepped :
          (pass : Pass)
          → FiniteClock pass
          → Stepped none (check_schedule arithmetic runtime pass pass.now)
      first-Stepped pass clock =
          let due = is_finite-is_number pass.now clock.0 in
          rw due (monitored-Stepped none pass pass.cycle tt clock)

      unless_stopped :
          (last : Option Float) (stop : Bool) (s : Step)
          → Stepped last s
          → Stepped last (if stop then leave returned else s)
      unless_stopped last true s h = tt
      unless_stopped last false s h = h

      step-Stepped :
          (last next : Option Float) (pass : Pass)
          → Due last next
          → FiniteClock pass
          → Stepped last (step arithmetic runtime next pass)
      unfolding step
      step-Stepped none none pass due clock =
          unless_stopped none pass.stop _ (first-Stepped pass clock)
      step-Stepped (some c) (some d) pass due clock =
          unless_stopped (some c) pass.stop _ (later-Stepped c d pass due clock)
      step-Stepped none (some d) pass due clock = absurd due
      step-Stepped (some c) none pass due clock = absurd due

      loop-Timely :
          (last next : Option Float) (passes : List Pass)
          → Due last next
          → All FiniteClock passes
          → Timely last (loop arithmetic runtime next passes).0
      unfolding loop
      loop-Timely last next [] due clocks = tt
      loop-Timely last next (pass ∷ passes) due (clock, clocks) =
          go (step arithmetic runtime next pass) (step-Stepped last next pass due clock)
            (λ l d k. loop-Timely l (some d) passes k clocks)
        where
          go :
              (s : Step)
              → Stepped last s
              → ((l : Option Float) (d : Float)
                  → Due l (some d)
                  → Timely l (loop arithmetic runtime (some d) passes).0)
              → Timely last
                  (followed arithmetic runtime s (λ d. loop arithmetic runtime (some d) passes)).0
          go (leave exit) h rest = tt
          go (fail t e) (on, (low, high)) rest = (on, low, high, tt)
          go (proceed t d) ((on, (low, high)), next) rest =
              (on, low, high, rest (latest last t.completed_at) d next)

    -- For a runtime that was constructed and a clock that reads finite values: a cycle runs before the
    -- first accept wait, and after that exactly in the turns whose clock reading has reached the deadline
    -- of the last completion, so it is strictly later than that completion; every accept wait is between
    -- 0 and the poll interval.
    pub run_forever-Timely :
        (monitor poll : Float) (passes : List Pass)
        → create_runtime monitor poll ≡ ok runtime
        → All FiniteClock passes
        → Timely none (run_forever arithmetic runtime passes).0
    unfolding run_forever
    run_forever-Timely monitor poll passes made clocks =
        let (m, p) = create_runtime-IsPositive monitor poll runtime made in
        loop-Timely m p none none passes tt clocks
