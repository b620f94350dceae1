-- ===== src/Deadman/Prober.antt =====
-- `DeadManProber.probe` of src/hermes_sentinel/deadman_probe.py: one attempt and its observation.
use hermes_sentinel.Base.{ℕ, ◌≡◌, ◌↔◌, refl, List, [], ◌∷◌, Any, arith}
use hermes_sentinel.Result.{Result, ok, err}
use hermes_sentinel.Server.Dispatch.{read}
use hermes_sentinel.Deadman.Types.{DeadManProbeOutcome, healthy, failed}
use hermes_sentinel.Deadman.Probe.{DeadManProbeResponse, create_response, classify_deadman_probe}
use hermes_sentinel.Deadman.Probe.Signature.{ListsPost, classify-healthy_iff}

-- The status, the Allow values and the bytes of a response, or an expected transport failure while they
-- are read.
pub data Observable : Type 0 where
  unreadable : Observable
  readable : ℕ → List (List ℕ) → List ℕ → Observable

-- what `open` comes to: an expected transport failure, or a response, returned or as an `HTTPError`
pub data Opened : Type 0 where
  unreachable : Opened
  acquired : Observable → Opened

abbrev pub outcome_of : Result DeadManProbeResponse → DeadManProbeOutcome
outcome_of (ok r) = classify_deadman_probe r
outcome_of (err e) = failed

-- `_observe`, with `_BODY_SAMPLE_BYTES`
unfoldable pub observe : Observable → DeadManProbeOutcome
observe unreadable = failed
observe (readable status allow stream) =
    outcome_of
      (create_response (record { status = status; allow_headers = allow; body = read 1 stream }))

-- `probe`, of what the transport does: the outcome, and how often a response was closed
unfoldable pub probe : Opened → DeadManProbeOutcome × ℕ
unfolding observe
probe unreachable = (failed, 0)
probe (acquired o) = (observe o, 1)

-- a live endpoint: 405, POST in an Allow header, and no byte of a body
abbrev pub Live : Opened → Type 0
Live (acquired (readable status allow stream)) =
    (status ≡ 405) × Any ListsPost allow × (stream ≡ [])
Live _ = ⊥

read-empty : (stream : List ℕ) → read 1 stream ≡ [] → stream ≡ []
unfolding read
read-empty [] h = refl
read-empty (b ∷ bs) h = cc

observe_sound :
    (status : ℕ) (allow : List (List ℕ)) (stream : List ℕ)
    → observe (readable status allow stream) ≡ healthy
    → Live (acquired (readable status allow stream))
unfolding observe create_response
observe_sound status allow stream h =
    let r : DeadManProbeResponse = record {
      status = status;
      allow_headers = allow;
      body = read 1 stream;
    } in
    let classified : classify_deadman_probe r ≡ healthy = ground arith in
    let (s, a, b) = (classify-healthy_iff r).0 classified in (s, a, read-empty stream b)

observe_complete :
    (status : ℕ) (allow : List (List ℕ)) (stream : List ℕ)
    → Live (acquired (readable status allow stream))
    → observe (readable status allow stream) ≡ healthy
unfolding observe create_response read
observe_complete status allow stream (s, a, b) =
    let r : DeadManProbeResponse = record { status = 405; allow_headers = allow; body = [] } in
    let classified = (classify-healthy_iff r).1 (refl, a, refl) in rw s (rw b classified)

-- The probe always has an outcome. It is healthy just when a response was acquired and read whose status
-- is 405, with POST in an Allow header, and without a byte of a body; an acquired response is closed
-- once.
pub probe-Live : (opened : Opened) → ((probe opened).0 ≡ healthy) ↔ Live opened
unfolding probe observe
probe-Live unreachable = ((λ h. cc), (λ h. absurd h))
probe-Live (acquired unreadable) = ((λ h. cc), (λ h. absurd h))
probe-Live (acquired (readable status allow stream)) =
    (observe_sound status allow stream, observe_complete status allow stream)
