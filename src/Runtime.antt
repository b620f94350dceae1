-- ===== src/Runtime.antt =====
-- The loop of the central process, `SentinelRuntime` of src/hermes_sentinel/runtime.py. What the
-- collaborators answer in one pass of the loop is an argument, so a run is a list of passes.
pub mod Floats
pub mod Schedule
pub mod Stops
use hermes_sentinel.Base.{
  ◌≡◌, Bool, true, false, not, List, [], ◌∷◌, Option, none, some, if◌then◌else◌,
}
use hermes_sentinel.Result.{Error, Result, ok, err, value_error, guard, ◌>>=◌, ◌>>◌}
use hermes_sentinel.Float.{Float, nan, le, lt, is_finite, zero_float}

-- Float arithmetic: a sum of finite floats may overflow, but it is a number, and `math.nextafter` towards
-- infinity is above a finite float.
pub record FloatArithmetic : Type 0 where
  pub add : Float → Float → Float
  pub subtract : Float → Float → Float
  pub next_after : Float → Float
  pub add_number :
      (a b : Float) → is_finite a ≡ true → is_finite b ≡ true → le (add a b) (add a b) ≡ true
  pub next_after_above : (a : Float) → is_finite a ≡ true → lt a (next_after a) ≡ true

-- one pass: what the stop predicate, the clock, the cycle, the clock again and the server answer
pub record Pass : Type 0 where
  pub stop : Bool
  pub now : Float
  pub cycle : Result (Unit {0})
  pub completion : Float
  pub request : Result (Unit {0})

-- One accept wait: the clock when the schedule was checked, the completion of a cycle that ran, and
-- `timeout`.
pub record Turn : Type 0 where
  pub checked_at : Float
  pub completed_at : Option Float
  pub timeout : Float

-- how the list of passes was used up: the loop returned, an exception escaped, or it goes on
pub data Exit : Type 0 where
  returned : Exit
  escaped : Error → Exit
  running : Exit

pub data Step : Type 0 where
  leave : Exit → Step
  fail : Turn → Error → Step
  proceed : Turn → Float → Step

-- `_require_positive`
unfoldable pub require_positive : Float → Result (Unit {0})
require_positive value = do
  guard (is_finite value) value_error
  guard (not (le value zero_float)) value_error

-- `max(a, b)` and `min(a, b)`
abbrev pub maximum : Float → Float → Float
maximum a b = if lt a b then b else a

abbrev pub minimum : Float → Float → Float
minimum a b = if lt b a then b else a

pub record SentinelRuntime : Type 0 where
  pub monitor_interval_seconds : Float
  pub poll_interval_seconds : Float

-- `__init__`
unfoldable pub create_runtime : Float → Float → Result SentinelRuntime
unfolding require_positive
create_runtime monitor poll =
    require_positive monitor
    >> (require_positive poll
        >> ok (record { monitor_interval_seconds = monitor; poll_interval_seconds = poll }))

module _ (arithmetic : FloatArithmetic) where
  open arithmetic use {add, subtract, next_after}

  unfoldable pub deadline_after : Float → Float → Float
  deadline_after completion interval =
      let deadline = add completion interval in
      if le deadline completion then next_after completion else deadline

  module _ (runtime : SentinelRuntime) where
    open runtime use {monitor_interval_seconds, poll_interval_seconds}

    unfoldable pub accept_timeout : Float → Float → Float
    accept_timeout due now = minimum poll_interval_seconds (maximum (subtract due now) zero_float)

    abbrev answered : Turn → Float → Result (Unit {0}) → Step
    answered turn due (ok done) = proceed turn due
    answered turn due (err e) = fail turn e

    -- the end of a pass: the clock as last read, and the next due point
    abbrev serve : Pass → Option Float → Float → Float → Step
    serve pass completed now due =
        answered
          (record {
            checked_at = pass.now;
            completed_at = completed;
            timeout = accept_timeout due now;
          })
          due pass.request

    -- the pass of a cycle that ended so
    abbrev monitored : Pass → Result (Unit {0}) → Step
    monitored pass (err e) = leave (escaped e)
    monitored pass (ok done) =
        serve pass (some pass.completion) pass.completion
          (deadline_after pass.completion monitor_interval_seconds)

    abbrev check_schedule : Pass → Float → Step
    check_schedule pass due =
        if le due pass.now then monitored pass pass.cycle else serve pass none pass.now due

    -- one pass of the loop
    unfoldable pub step : Option Float → Pass → Step
    unfolding accept_timeout deadline_after
    step next_due pass =
        if pass.stop
        then leave returned
        else check_schedule pass (elim next_due [ none ↦ pass.now | some due ↦ due ])

    -- what follows a pass, given the rest of the loop
    abbrev followed : Step → (Float → List Turn × Exit) → List Turn × Exit
    followed (leave exit) rest = ([], exit)
    followed (fail turn e) rest = (turn ∷ [], escaped e)
    followed (proceed turn due) rest = (turn ∷ (rest due).0, (rest due).1)

    -- the `while` loop of `run_forever`, with the accept waits it came to
    unfoldable pub loop : Option Float → List Pass → List Turn × Exit
    unfolding step
    loop next_due [] = ([], running)
    loop next_due (pass ∷ passes) = followed (step next_due pass) (λ due. loop (some due) passes)

    -- `run_forever`
    unfoldable pub run_forever : List Pass → List Turn × Exit
    unfolding loop
    run_forever passes = loop none passes
