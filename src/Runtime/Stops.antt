-- ===== src/Runtime/Stops.antt =====
-- How the loop of src/hermes_sentinel/runtime.py ends.
use hermes_sentinel.Base.{
  suc, ◌≡◌, refl, ap, inl, inr, Bool-cases, true, false, List, [], ◌∷◌, ◌++◌, Option, none, some,
  All, length,
}
use hermes_sentinel.Result.{ok}
use hermes_sentinel.Float.{Float, le}
use hermes_sentinel.Runtime.{
  FloatArithmetic, Pass, Turn, returned, proceed, SentinelRuntime, step, loop, run_forever,
}

-- a pass that neither stops nor raises
abbrev pub IsUneventful : Pass → Type 0
IsUneventful pass = (pass.stop ≡ false) × (pass.cycle ≡ ok tt) × (pass.request ≡ ok tt)

module _ (arithmetic : FloatArithmetic) (runtime : SentinelRuntime) where
  step-proceed :
      (next : Option Float) (pass : Pass)
      → IsUneventful pass
      → (turn : Turn) × (due : Float) × (step arithmetic runtime next pass ≡ proceed turn due)
  unfolding step
  step-proceed next pass (s, c, r) =
      elim (Bool-cases (le (elim next [ none ↦ pass.now | some due ↦ due ]) pass.now)) [
        | inl h ↦ rw s (rw h (rw c (rw r (_, _, refl))))
        | inr h ↦ rw s (rw h (rw r (_, _, refl)))
      ]

  loop_returns :
      (next : Option Float) (front : List Pass) (last : Pass) (rest : List Pass)
      → All IsUneventful front
      → last.stop ≡ true
      → let x = loop arithmetic runtime next (front ++ (last ∷ rest)) in
        (x.1 ≡ returned) × (length x.0 ≡ length front)
  unfolding loop step
  loop_returns next [] last rest all stop = rw stop (refl, refl)
  loop_returns next (pass ∷ front) last rest (quiet, all) stop =
      let (turn, due, e) = step-proceed next pass quiet in
      let (p, q) = loop_returns (some due) front last rest all stop in
      rw (e, loop) (p, ap (λ n. suc n) q)

  -- As long as nothing is raised, the loop serves once in each pass, and it returns at the first pass
  -- whose stop predicate holds, whatever would follow.
  pub run_forever_returns :
      (front : List Pass) (last : Pass) (rest : List Pass)
      → All IsUneventful front
      → last.stop ≡ true
      → let x = run_forever arithmetic runtime (front ++ (last ∷ rest)) in
        (x.1 ≡ returned) × (length x.0 ≡ length front)
  unfolding run_forever
  run_forever_returns front last rest all stop = loop_returns none front last rest all stop
