-- ===== src/Deadman/Process/Exits.antt =====
-- What the exit code of `run_deadman_process` of src/hermes_sentinel/deadman_process.py tells, and what
-- the process does to the state file and the deliveries.
use hermes_sentinel.Base.{ℕ, ◌≡◌, ◌⊎◌, inl, inr, refl, Option}
use hermes_sentinel.Result.{Result, Error, ok, err}
use hermes_sentinel.Result.Ensures.{Ensures, Ensures-ok}
use hermes_sentinel.Settings as Settings
use hermes_sentinel.Settings.{SettingsFormats}
use hermes_sentinel.Settings.Bounded.{Bounded}
use hermes_sentinel.Deadman.Status.{DeadManStatus}
use hermes_sentinel.Deadman.Snapshot.{TextFormats}
use hermes_sentinel.Deadman.Store.{ByteFormats}
use hermes_sentinel.Deadman.Runtime.{Environment, DeadManCycleResult, World, run_deadman_cycle}
use hermes_sentinel.Deadman.Runtime.Effect.{Holds, Effect, unchanged, cycle-Effect}
use hermes_sentinel.Deadman.Config.{UrlFormats, DeadManRuntimeSettings, load_deadman_settings}
use hermes_sentinel.Deadman.Process.{
  IsDeadman, load_deadman_settings-Ensures, exit_code, run_configured, run_deadman_process,
}

module _ {texts : TextFormats} (bytes : ByteFormats texts) (urls : UrlFormats) where
  -- the settings are valid, the adapters are built, and the cycle returns
  pub record Completes (loaded : Result DeadManRuntimeSettings) (setup : Result (Unit {0}))
      (cycle : Environment) (w : World bytes) : Type 0 where
    pub settings : DeadManRuntimeSettings
    pub loads : loaded ≡ ok settings
    pub valid : IsDeadman urls settings
    pub builds : setup ≡ ok tt
    pub result : DeadManCycleResult
    pub returns : (run_deadman_cycle bytes cycle w).1 ≡ ok result

  abbrev pub Exits :
      Result DeadManRuntimeSettings
      → Result (Unit {0})
      → Environment
      → DeadManStatus
      → World bytes
      → World bytes × ℕ
      → Type 0
  Exits loaded setup cycle s w x =
      Effect bytes s w x.0
      × (((x.1 ≡ 0) × Completes loaded setup cycle w)
          ⊎ ((x.1 ≡ 1) × (¬ Completes loaded setup cycle w)))

  exit_code_cases :
      (r : Result DeadManCycleResult)
      → ((exit_code r ≡ 0) × (result : DeadManCycleResult) × (r ≡ ok result))
        ⊎ ((exit_code r ≡ 1) × (e : Error) × (r ≡ err e))
  exit_code_cases (ok result) = inl (refl, result, refl)
  exit_code_cases (err e) = inr (refl, e, refl)

  run_configured-Exits :
      (loaded : Result DeadManRuntimeSettings) (setup : Result (Unit {0})) (cycle : Environment)
      (s : DeadManStatus) (w : World bytes)
      → Ensures (IsDeadman urls) Bounded loaded
      → Holds bytes s w
      → Exits loaded setup cycle s w (run_configured bytes loaded setup cycle w)
  unfolding run_configured
  run_configured-Exits (err e) setup cycle s w v h =
      (unchanged h refl, inr (refl, λ c. let p = c.loads in cc))
  run_configured-Exits (ok settings) (err e) cycle s w v h =
      (unchanged h refl, inr (refl, λ c. let p = c.builds in cc))
  run_configured-Exits (ok settings) (ok tt) cycle s w v h = (
    cycle-Effect bytes cycle s w h,
    elim (exit_code_cases (run_deadman_cycle bytes cycle w).1) [
      | inl (exit, result, returned) ↦ inl (
        exit,
        record {
          settings = settings;
          loads = refl;
          valid = Ensures-ok v refl;
          builds = refl;
          result = result;
          returns = returned;
        },
      )
      | inr (exit, e, raised) ↦ inr (exit, λ c. let p = c.returns in cc)
    ],
  )

  -- A process on a world whose state file holds `s` exits with 0 or with 1. It exits with 0 exactly
  -- when the environment gives valid settings, the adapters are built and the cycle returns.
  -- Whatever the exit code, its effect on the state file and on the deliveries is one that a cycle
  -- may have: nothing is delivered that was not durable first, and no intent leaves the durable queue
  -- undelivered.
  pub run_deadman_process-Exits :
      (formats : SettingsFormats) (env : Option Settings.Environment) (setup : Result (Unit {0}))
      (cycle : Environment) (s : DeadManStatus) (w : World bytes)
      → Holds bytes s w
      → Exits
          (load_deadman_settings urls formats env)
          setup
          cycle
          s
          w
          (run_deadman_process bytes urls formats env setup cycle w)
  unfolding run_deadman_process
  run_deadman_process-Exits formats env setup cycle s w h =
      run_configured-Exits (load_deadman_settings urls formats env) setup cycle s w
        (load_deadman_settings-Ensures urls formats env) h
