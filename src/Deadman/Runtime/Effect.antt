-- ===== src/Deadman/Runtime/Effect.antt =====
-- What one cycle of src/hermes_sentinel/deadman_runtime.py does to the durable state and to the
-- deliveries, whatever fails on the way.
use hermes_sentinel.Base.{
  ◌≡◌, ◌⊎◌, inl, inr, refl, ap, ◌∙◌, List, [], ◌∷◌, Bool, false, ◌&&◌, Option, Bool-cases, arith,
}
use hermes_sentinel.Result.{Result, ok, err, state_store_error}
use hermes_sentinel.Result.Ensures.{Ensures-ok}
use hermes_sentinel.DateTime.{DateTime}
use hermes_sentinel.Deadman.Types.{DeadManProbeOutcome, DeadManNotification}
use hermes_sentinel.Deadman.Status.{DeadManStatus}
use hermes_sentinel.Deadman.Status.Valid.{IsStatus}
use hermes_sentinel.Deadman.Machine.{advance_deadman_status}
use hermes_sentinel.Deadman.Machine.Queue.{advance-IsStatus}
use hermes_sentinel.Deadman.Machine.Acknowledge.{
  without_head, without_head-IsStatus, acknowledge-head,
}
use hermes_sentinel.Deadman.Snapshot.{TextFormats}
use hermes_sentinel.Deadman.Snapshot.Canonical.{canonical}
use hermes_sentinel.Deadman.Store.{ByteFormats, SaveFaults, load, load_target}
use hermes_sentinel.Deadman.Store.Durable.{load-Ensures, fits, faultless, save-load, save_refused}
use hermes_sentinel.Deadman.Runtime.{
  Environment, require_aware_now, World, save_state, send, deliver_oldest, proceed, lift, ◌>>=◌,
  run_deadman_cycle,
}

module _ {formats : TextFormats} (bytes : ByteFormats formats) where
  -- the status that a load from the world's state file returns
  abbrev pub Holds : DeadManStatus → World bytes → Type 0
  Holds s w = load bytes false w.disk ≡ ok s

  -- The effect of a cycle on a world whose state file holds `s`.
  pub data Effect (s : DeadManStatus) (w w' : World bytes) : Type 0 where
    -- the state file and the deliveries are as before
    unchanged : Holds s w' → w'.delivered ≡ w.delivered → Effect s w w'
    -- the advanced status is durable, and nothing was delivered
    persisted :
        (o : DeadManProbeOutcome) (now : DateTime) (t : DeadManStatus)
        → advance_deadman_status s o now ≡ ok t
        → Holds (canonical t) w'
        → w'.delivered ≡ w.delivered
        → Effect s w w'
    -- the oldest intent was delivered, behind a durable status that has it, and stays pending
    delivered :
        (o : DeadManProbeOutcome) (now : DateTime) (t : DeadManStatus) (n : DeadManNotification)
        (ns : List DeadManNotification) (file : Option bytes.Bytes)
        → advance_deadman_status s o now ≡ ok t
        → t.pending_notifications ≡ n ∷ ns
        → load_target bytes file ≡ ok (canonical t)
        → w'.delivered ≡ (n, file) ∷ w.delivered
        → Holds (canonical t) w'
        → Effect s w w'
    -- the oldest intent was delivered in the same way, and its acknowledgement is durable
    acknowledged :
        (o : DeadManProbeOutcome) (now : DateTime) (t : DeadManStatus) (n : DeadManNotification)
        (ns : List DeadManNotification) (file : Option bytes.Bytes)
        → advance_deadman_status s o now ≡ ok t
        → t.pending_notifications ≡ n ∷ ns
        → load_target bytes file ≡ ok (canonical t)
        → w'.delivered ≡ (n, file) ∷ w.delivered
        → Holds (canonical (without_head t n ns)) w'
        → Effect s w w'

  -- what a save does to a world, in the two cases
  record Saved (faults : SaveFaults) (t : DeadManStatus) (w : World bytes) : Type 0 where
    returns : (save_state bytes faults t w).1 ≡ ok tt
    holds : Holds (canonical t) (save_state bytes faults t w).0
    quiet : (save_state bytes faults t w).0.delivered ≡ w.delivered

  record NotSaved (faults : SaveFaults) (t : DeadManStatus) (w : World bytes) : Type 0 where
    raises : (save_state bytes faults t w).1 ≡ err state_store_error
    same : (save_state bytes faults t w).0.disk.target ≡ w.disk.target
    quiet : (save_state bytes faults t w).0.delivered ≡ w.delivered

  save_state_cases :
      (faults : SaveFaults) (t : DeadManStatus) (w : World bytes)
      → IsStatus t
      → Saved faults t w ⊎ NotSaved faults t w
  unfolding save_state
  save_state_cases faults t w v = elim (Bool-cases (fits bytes t && faultless bytes faults)) [
    | inl good ↦
        let (r, h) = save-load bytes faults t w.disk v (ground arith) (ground arith) in
        inl (record { returns = r; holds = h; quiet = refl })
    | inr bad ↦
        let (r, h) = save_refused bytes faults t w.disk bad in
        inr (record { raises = r; same = h; quiet = refl })
  ]

  Holds-same :
      (s : DeadManStatus) (w w' : World bytes)
      → w'.disk.target ≡ w.disk.target
      → Holds s w
      → Holds s w'
  unfolding load
  Holds-same s w w' e h = rw e h

  Holds-target :
      (s : DeadManStatus) (w : World bytes) → Holds s w → load_target bytes w.disk.target ≡ ok s
  unfolding load
  Holds-target s w h = h

  pub Holds-IsStatus : (s : DeadManStatus) (w : World bytes) → Holds s w → IsStatus s
  Holds-IsStatus s w h = Ensures-ok (load-Ensures bytes false w.disk) h

  module _ (delivers : Bool) (second_save : SaveFaults) (s t : DeadManStatus)
      (o : DeadManProbeOutcome) (now : DateTime) (step : advance_deadman_status s o now ≡ ok t)
      (v : IsStatus t) (w : World bytes) where
    -- the delivery of the oldest intent, from a world that holds the advanced status
    deliver_oldest-Effect :
        (q : List DeadManNotification) (u : World bytes)
        → t.pending_notifications ≡ q
        → Holds (canonical t) u
        → u.delivered ≡ w.delivered
        → Effect s w (deliver_oldest bytes delivers second_save t q u).0
    unfolding deliver_oldest send
    deliver_oldest-Effect [] u queue h quiet = persisted o now t step h quiet
    deliver_oldest-Effect (n ∷ ns) u queue h quiet = elim (Bool-cases delivers) [
      | inr lost ↦ rw lost (persisted o now t step h quiet)
      | inl sent ↦
          let after = without_head-IsStatus t n ns v queue in
          let (acked, _) = acknowledge-head t n ns v queue in
          let u' : World bytes = record u { delivered = (n, u.disk.target) ∷ u.delivered } in
          elim (save_state_cases second_save (without_head t n ns) u' after) [
            | inl saved ↦
                rw (sent, acked, saved.returns)
                  (acknowledged o now t n ns u.disk.target step queue
                    (Holds-target (canonical t) u h)
                    (saved.quiet ∙ ap (λ l. (n, u.disk.target) ∷ l) quiet) saved.holds)
            | inr failed ↦
                rw (sent, acked, failed.raises)
                  (delivered o now t n ns u.disk.target step queue (Holds-target (canonical t) u h)
                    (failed.quiet ∙ ap (λ l. (n, u.disk.target) ∷ l) quiet)
                    (Holds-same (canonical t) u
                      (save_state bytes second_save (without_head t n ns) u').0 failed.same h))
          ]
    ]

  -- from the advanced status on: the first save, and the delivery behind it
  saved-Effect :
      (env : Environment) (s t : DeadManStatus) (o : DeadManProbeOutcome) (now : DateTime)
      (w : World bytes)
      → advance_deadman_status s o now ≡ ok t
      → IsStatus t
      → Holds s w
      → Effect s w
          (proceed bytes
            (save_state bytes env.first_save t w).0
            (save_state bytes env.first_save t w).1
            (λ _. deliver_oldest bytes env.delivers env.second_save t t.pending_notifications)).0
  saved-Effect env s t o now w step v h = elim (save_state_cases env.first_save t w v) [
    | inl saved ↦ rw (saved.returns) (
        deliver_oldest-Effect env.delivers env.second_save s t o now step v w
          t.pending_notifications (save_state bytes env.first_save t w).0 refl saved.holds
          saved.quiet)
    | inr failed ↦ rw (failed.raises) (
        unchanged (Holds-same s w (save_state bytes env.first_save t w).0 failed.same h)
          failed.quiet)
  ]

  cycle_from :
      (env : Environment) (s : DeadManStatus) (w : World bytes)
      → Holds s w
      → (r : Result DeadManProbeOutcome) (c : Result DateTime)
      → Effect s w
          (proceed bytes w r (λ o. ◌>>=◌ bytes (lift bytes c) (λ now.
            ◌>>=◌ bytes (lift bytes (advance_deadman_status s o now)) (λ t.
              ◌>>=◌ bytes (save_state bytes env.first_save t) (λ _.
                deliver_oldest bytes env.delivers env.second_save t t.pending_notifications))))).0
  cycle_from env s w h (err e) c = unchanged h refl
  cycle_from env s w h (ok o) (err e) = unchanged h refl
  cycle_from env s w h (ok o) (ok now) = go (advance_deadman_status s o now) refl
    where
      go :
          (a : Result DeadManStatus)
          → advance_deadman_status s o now ≡ a
          → Effect s w
              (proceed bytes w a (λ t. ◌>>=◌ bytes (save_state bytes env.first_save t) (λ _.
                deliver_oldest bytes env.delivers env.second_save t t.pending_notifications))).0
      go (err e) p = unchanged h refl
      go (ok t) p =
          saved-Effect env s t o now w p (advance-IsStatus s o now t (Holds-IsStatus s w h) p) h

  -- On a world whose state file holds a status, whatever fails during a cycle, its effect is one of
  -- four: the file still holds that status and nothing was delivered; the advanced status
  -- became durable; or, behind that durable status, its oldest pending intent was delivered once,
  -- and the intent either stays pending on disk or its acknowledgement became durable. In no case is
  -- a delivery made that was not durable first, and no intent leaves the durable queue undelivered.
  pub cycle-Effect :
      (env : Environment) (s : DeadManStatus) (w : World bytes)
      → Holds s w
      → Effect s w (run_deadman_cycle bytes env w).0
  unfolding run_deadman_cycle load
  cycle-Effect env s w h = elim (Bool-cases env.read_fails) [
    | inl fails ↦ rw fails (unchanged h refl)
    | inr reads ↦ rw (reads, h) (cycle_from env s w h env.probe (require_aware_now env.clock))
  ]
