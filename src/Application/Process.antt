-- ===== src/Application/Process.antt =====
-- `run_process` of src/hermes_sentinel/process.py.
use hermes_sentinel.Base.{List, [], Option}
use hermes_sentinel.Result.{Result, ok, err}
use hermes_sentinel.Settings.{SettingsFormats, Environment, CentralSettings}
use hermes_sentinel.Settings.Load.{load_central_settings}
use hermes_sentinel.Runtime.{
  FloatArithmetic, Pass, Exit, returned, escaped, running, SentinelRuntime, run_forever,
}
use hermes_sentinel.Application.{Action, BuildCalls, build_application, close}

-- the handler of a signal: the one found at the start, or the stop request
pub data Handler : Type 0 where
  previous stop_request : Handler

pub record Handlers : Type 0 where
  pub sigterm : Handler
  pub sigint : Handler

abbrev pub found : Handlers
found = record { sigterm = previous; sigint = previous }

-- what the calls that install and restore a handler come to
pub record SignalCalls : Type 0 where
  pub install_sigterm : Result (Unit {0})
  pub install_sigint : Result (Unit {0})
  pub restore_sigint : Result (Unit {0})
  pub restore_sigterm : Result (Unit {0})

-- how the process stands: it ended so, or the loop goes on
pub data Ending : Type 0 where
  ended : Result (Unit {0}) → Ending
  still_running : Ending

abbrev pub restored : Result (Unit {0}) → Handler → Handler
restored (ok done) handler = previous
restored (err e) handler = handler

module _ (signals : SignalCalls) where
  open signals use {install_sigterm, install_sigint, restore_sigint, restore_sigterm}

  abbrev second_installed : Result (Unit {0}) → Result (Unit {0}) × Handlers
  second_installed (ok done) = (ok tt, record { sigterm = stop_request; sigint = stop_request })
  second_installed (err e) =
      (err e, record { sigterm = restored restore_sigterm stop_request; sigint = previous })

  abbrev pub first_installed : Result (Unit {0}) → Result (Unit {0}) → Result (Unit {0}) × Handlers
  first_installed (ok done) second = second_installed second
  first_installed (err e) second = (err e, found)

  -- `_install_stop_handlers`, from the handlers found
  unfoldable pub install_stop_handlers : Result (Unit {0}) × Handlers
  install_stop_handlers = first_installed install_sigterm install_sigint

  -- `_restore_stop_handlers`, newest first: the handlers, and the first failure
  unfoldable pub restore_stop_handlers : Handlers → Result (Unit {0}) × Handlers
  restore_stop_handlers h = (
    elim restore_sigint [ err e ↦ err e | ok done ↦ restore_sigterm ],
    record {
      sigterm = restored restore_sigterm h.sigterm;
      sigint = restored restore_sigint h.sigint;
    },
  )

  abbrev pub Process : Type 0
  Process = Ending × List Action × Handlers

  -- an exception of the `try` block stays the primary one
  abbrev finish : Result (Unit {0}) → Result (Unit {0}) → Result (Unit {0})
  finish (err e) restore = err e
  finish (ok done) restore = restore

  unfoldable pub restoring : Result (Unit {0}) → List Action → Handlers → Process
  unfolding restore_stop_handlers
  restoring body log h = let x = restore_stop_handlers h in (ended (finish body x.0), log, x.1)

  module _ (calls : BuildCalls) where
    -- an exception of `close` replaces one of the loop
    abbrev pub leave_context : Result (Unit {0}) → Result (Unit {0}) → Result (Unit {0})
    leave_context body (err e) = err e
    leave_context body (ok done) = body

    unfoldable pub leave_loop : Exit → List Action → Handlers → Process
    unfolding restoring close
    leave_loop running log h = (still_running, log, h)
    leave_loop returned log h =
        let x = close calls log in restoring (leave_context (ok tt) x.0) x.1 h
    leave_loop (escaped e) log h =
        let x = close calls log in restoring (leave_context (err e) x.0) x.1 h

    module _ (arithmetic : FloatArithmetic) (passes : List Pass) where
      unfoldable pub run_application : Result SentinelRuntime → List Action → Handlers → Process
      unfolding leave_loop
      run_application (err e) log h = restoring (err e) log h
      run_application (ok runtime) log h =
          leave_loop (run_forever arithmetic runtime passes).1 log h

      unfoldable pub run_installed : CentralSettings → Result (Unit {0}) → Handlers → Process
      unfolding run_application build_application
      run_installed settings (err e) h = (ended (err e), [], h)
      run_installed settings (ok done) h =
          let x = build_application calls settings in run_application x.0 x.1 h

      abbrev pub run_loaded : Result CentralSettings → Process
      run_loaded (err e) = (ended (err e), [], found)
      run_loaded (ok settings) =
          run_installed settings install_stop_handlers.0 install_stop_handlers.1

      -- `run_process`
      unfoldable pub run_process : SettingsFormats → Option Environment → Process
      unfolding run_installed install_stop_handlers
      run_process formats env = run_loaded (load_central_settings formats env)
