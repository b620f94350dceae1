-- ===== src/Application.antt =====
-- The composition of src/hermes_sentinel/application.py and the process of
-- src/hermes_sentinel/process.py: which resources are opened and closed, and which signal handlers are
-- installed. What the operating system answers to each call is an argument.
pub mod Process
pub mod Cleanup
use hermes_sentinel.Base.{Bool, List, [], ◌∷◌, ◌++◌}
use hermes_sentinel.Result.{Error, Result, ok, err}
use hermes_sentinel.Settings.{CentralSettings}
use hermes_sentinel.Runtime.{SentinelRuntime, create_runtime}

-- the steps that open or close a resource, in the order of their calls
pub data Action : Type 0 where
  opened_connection bound_server closed_server closed_connection : Action

-- What the calls of one build and one close come to. `before_bind` and `after_bind` are what the
-- constructors of the collaborators raise, if any does; the closes of a rollback may fail too, which
-- is swallowed.
pub record BuildCalls : Type 0 where
  pub connect : Result (Unit {0})
  pub before_bind : Result (Unit {0})
  pub bind : Result (Unit {0})
  pub after_bind : Result (Unit {0})
  pub close_server : Result (Unit {0})
  pub close_connection : Result (Unit {0})

module _ (calls : BuildCalls) where
  open calls use {connect, before_bind, bind, after_bind, close_server, close_connection}

  abbrev pub Built : Type 0
  Built = Result SentinelRuntime × List Action

  -- the inner `try`, with the listener bound
  unfoldable pub compose : Result (Unit {0}) → Result SentinelRuntime → List Action → Built
  compose (err e) runtime log = (err e, log ++ (closed_server ∷ closed_connection ∷ []))
  compose (ok done) (err e) log = (err e, log ++ (closed_server ∷ closed_connection ∷ []))
  compose (ok done) (ok runtime) log = (ok runtime, log)

  -- the outer `try`, with the connection open
  unfoldable pub bind_and_compose :
      Result (Unit {0}) → Result (Unit {0}) → Result SentinelRuntime → List Action → Built
  unfolding compose
  bind_and_compose (err e) bound runtime log = (err e, log ++ (closed_connection ∷ []))
  bind_and_compose (ok done) (err e) runtime log = (err e, log ++ (closed_connection ∷ []))
  bind_and_compose (ok done) (ok bound) runtime log =
      compose after_bind runtime (log ++ (bound_server ∷ []))

  abbrev pub connected : Result (Unit {0}) → Result SentinelRuntime → Built
  connected (err e) runtime = (err e, [])
  connected (ok done) runtime = bind_and_compose before_bind bind runtime (opened_connection ∷ [])

  -- `build_application`
  unfoldable pub build_application : CentralSettings → Built
  unfolding bind_and_compose
  build_application settings =
      connected connect
        (create_runtime settings.monitor_interval_seconds settings.poll_interval_seconds)

  -- of two failures in `try` and `finally`, the later one surfaces
  abbrev finally : Result (Unit {0}) → Result (Unit {0}) → Result (Unit {0})
  finally first (err e) = err e
  finally first (ok done) = first

  -- `SentinelApplication.close`
  unfoldable pub close : List Action → Result (Unit {0}) × List Action
  close log =
      (finally close_server close_connection, log ++ (closed_server ∷ closed_connection ∷ []))
