-- ===== src/Application/Cleanup.antt =====
-- The resources and the signal handlers on every path of src/hermes_sentinel/process.py.
use hermes_sentinel.Base.{◌≡◌, refl, inl, inr, List, [], ◌∷◌, Any, Option}
use hermes_sentinel.Result.{Result, ok, err}
use hermes_sentinel.Result.Ensures.{Ensures-ok}
use hermes_sentinel.Config.{require_positive}
use hermes_sentinel.Settings.{SettingsFormats, Environment, CentralSettings}
use hermes_sentinel.Settings.Load.{load_central_settings}
use hermes_sentinel.Settings.Loaded.{load_central_settings-Ensures}
use hermes_sentinel.Runtime.{
  FloatArithmetic, Pass, Exit, returned, escaped, running, SentinelRuntime, create_runtime,
  run_forever,
}
use hermes_sentinel.Runtime as Runtime
use hermes_sentinel.Application.{
  Action, opened_connection, bound_server, closed_server, closed_connection, BuildCalls, compose,
  bind_and_compose, build_application, close, connected,
}
use hermes_sentinel.Application.Process.{
  stop_request, Handlers, found, SignalCalls, Ending, ended, still_running, first_installed,
  run_loaded, install_stop_handlers, restore_stop_handlers, restoring, leave_context, leave_loop,
  run_application, run_installed, run_process,
}

require_positive_lem : (v : _) → require_positive v ≡ ok tt → Runtime.require_positive v ≡ ok tt
unfolding require_positive Runtime.require_positive
require_positive_lem v h = h

-- The intervals of settings that were loaded are ones that the runtime accepts.
pub create_runtime-loaded :
    (formats : SettingsFormats) (env : Option Environment) (s : CentralSettings)
    → load_central_settings formats env ≡ ok s
    → create_runtime s.monitor_interval_seconds s.poll_interval_seconds
      ≡ ok (record {
        monitor_interval_seconds = s.monitor_interval_seconds;
        poll_interval_seconds = s.poll_interval_seconds;
      })
unfolding create_runtime
create_runtime-loaded formats env s h =
    let central = Ensures-ok (load_central_settings-Ensures formats env) h in
    let m = require_positive_lem s.monitor_interval_seconds central.monitor in
    let p = require_positive_lem s.poll_interval_seconds central.poll in rw m (rw p refl)

-- nothing opened; the connection only; both, each closed once, the listener before the connection
abbrev pub all_closed : List Action
all_closed = opened_connection ∷ bound_server ∷ closed_server ∷ closed_connection ∷ []

abbrev pub balanced : List (List Action)
balanced = [] ∷ (opened_connection ∷ closed_connection ∷ []) ∷ all_closed ∷ []

abbrev pub Closed : Result (Unit {0}) → List Action → Type 0
Closed (ok done) log = log ≡ all_closed
Closed (err e) log = Any (λ l. log ≡ l) balanced

-- an ended process holds nothing, and a running one both resources and both handlers
abbrev pub Clean : Ending → List Action → Handlers → Type 0
Clean (ended r) log h = Closed r log × (h ≡ found)
Clean still_running log h =
    (log ≡ opened_connection ∷ bound_server ∷ [])
    × (h ≡ record { sigterm = stop_request; sigint = stop_request })

abbrev both_installed : Handlers
both_installed = record { sigterm = stop_request; sigint = stop_request }

module _ (signals : SignalCalls) (sigterm : signals.restore_sigterm ≡ ok tt)
    (sigint : signals.restore_sigint ≡ ok tt) where
  restoring-Clean :
      (body : Result (Unit {0})) (log : List Action) (h : Handlers)
      → Closed body log
      → let x = restoring signals body log h in Clean x.0 x.1 x.2
  unfolding restoring restore_stop_handlers
  restoring-Clean (ok done) log h c = rw sigint (rw sigterm (c, refl))
  restoring-Clean (err e) log h c = rw sigterm (rw sigint (c, refl))

  module _ (calls : BuildCalls) where
    leave_context-Closed :
        (body : Result (Unit {0})) (closed : Result (Unit {0}))
        → Closed (leave_context signals calls body closed) all_closed
    leave_context-Closed (ok done) (ok d) = refl
    leave_context-Closed (err e) (ok d) = inr (inr (inl refl))
    leave_context-Closed body (err e) = inr (inr (inl refl))

    leave_loop-Clean :
        (exit : Exit)
        → let x =
            leave_loop signals calls exit (opened_connection ∷ bound_server ∷ []) both_installed in
          Clean x.0 x.1 x.2
    unfolding leave_loop close
    leave_loop-Clean running = (refl, refl)
    leave_loop-Clean returned =
        restoring-Clean _ all_closed both_installed (leave_context-Closed (ok tt) _)
    leave_loop-Clean (escaped e) =
        restoring-Clean _ all_closed both_installed (leave_context-Closed (err e) _)

    -- what a build leaves open
    abbrev Held : Result SentinelRuntime → List Action → Type 0
    Held (ok runtime) log = log ≡ opened_connection ∷ bound_server ∷ []
    Held (err e) log = Any (λ l. log ≡ l) balanced

    compose-Held :
        (after : Result (Unit {0})) (runtime : Result SentinelRuntime)
        → let x = compose calls after runtime (opened_connection ∷ bound_server ∷ []) in
          Held x.0 x.1
    unfolding compose
    compose-Held (err e) runtime = inr (inr (inl refl))
    compose-Held (ok done) (err e) = inr (inr (inl refl))
    compose-Held (ok done) (ok runtime) = refl

    bind_and_compose-Held :
        (before bound : Result (Unit {0})) (runtime : Result SentinelRuntime)
        → let x = bind_and_compose calls before bound runtime (opened_connection ∷ []) in
          Held x.0 x.1
    unfolding bind_and_compose
    bind_and_compose-Held (err e) bound runtime = inr (inl refl)
    bind_and_compose-Held (ok done) (err e) runtime = inr (inl refl)
    bind_and_compose-Held (ok done) (ok bound) runtime = compose-Held calls.after_bind runtime

    connected-Held :
        (opened : Result (Unit {0})) (runtime : Result SentinelRuntime)
        → let x = connected calls opened runtime in Held x.0 x.1
    connected-Held (err e) runtime = inl refl
    connected-Held (ok done) runtime = bind_and_compose-Held calls.before_bind calls.bind runtime

    module _ (arithmetic : FloatArithmetic) (passes : List Pass) where
      run_application-Clean :
          (r : Result SentinelRuntime) (log : List Action)
          → Held r log
          → let x = run_application signals calls arithmetic passes r log both_installed in
            Clean x.0 x.1 x.2
      unfolding run_application
      run_application-Clean (err e) log h = restoring-Clean (err e) log both_installed h
      run_application-Clean (ok runtime) log h =
          rw h (leave_loop-Clean (run_forever arithmetic runtime passes).1)

      -- the answers of the two installations
      installed-Clean :
          (s : CentralSettings)
          → let i = install_stop_handlers signals in
            let x = run_installed signals calls arithmetic passes s i.0 i.1 in Clean x.0 x.1 x.2
      unfolding install_stop_handlers run_installed build_application
      installed-Clean s = go signals.install_sigterm signals.install_sigint
        where
          go :
              (a b : Result (Unit {0}))
              → let i = first_installed signals a b in
                let x = run_installed signals calls arithmetic passes s i.0 i.1 in Clean x.0 x.1 x.2
          go (err e) b = (inl refl, refl)
          go (ok done) (err e) = rw sigterm (inl refl, refl)
          go (ok done) (ok d) = run_application-Clean _ _ (
              connected-Held calls.connect
                (create_runtime s.monitor_interval_seconds s.poll_interval_seconds))

      -- If the two restorations of the signal handlers succeed, then on every path the process ends with
      -- the handlers that it found, and with nothing open: what was opened was closed once, the listener
      -- before the connection; it ends normally only after both were opened and closed. While the loop
      -- goes on, both are open and both handlers are the stop request.
      pub run_process-Clean :
          (formats : SettingsFormats) (env : Option Environment)
          → let x = run_process signals calls arithmetic passes formats env in Clean x.0 x.1 x.2
      unfolding run_process
      run_process-Clean formats env = go (load_central_settings formats env)
        where
          go :
              (r : Result CentralSettings)
              → let x = run_loaded signals calls arithmetic passes r in Clean x.0 x.1 x.2
          go (err e) = (inl refl, refl)
          go (ok settings) = installed-Clean settings
