-- ===== src/Deadman/Runtime/Completes.antt =====
-- What one cycle of src/hermes_sentinel/deadman_runtime.py returns when nothing fails.
use hermes_sentinel.Base.{
  ◌≡◌, refl, ap, ◌∙◌, List, [], ◌∷◌, true, false, Option, none, some, length,
}
use hermes_sentinel.Result.{Result, ok}
use hermes_sentinel.DateTime.{DateTime, is_aware}
use hermes_sentinel.Deadman.Types.{DeadManProbeOutcome, DeadManNotification}
use hermes_sentinel.Deadman.Status.{DeadManStatus}
use hermes_sentinel.Deadman.Status.Valid.{IsStatus}
use hermes_sentinel.Deadman.Machine.{advance_deadman_status, precedes}
use hermes_sentinel.Deadman.Machine.Preserves.{advance-Yields}
use hermes_sentinel.Deadman.Machine.Acknowledge.{
  without_head, without_head-IsStatus, acknowledge-head,
}
use hermes_sentinel.Deadman.Snapshot.{TextFormats}
use hermes_sentinel.Deadman.Snapshot.Canonical.{canonical}
use hermes_sentinel.Deadman.Store.{ByteFormats, SaveFaults}
use hermes_sentinel.Deadman.Store.Durable.{fits, faultless, save-load}
use hermes_sentinel.Deadman.Runtime.{
  DeadManCycleResult, Environment, require_aware_now, World, save_state, send, deliver_oldest,
  proceed, run_deadman_cycle,
}
use hermes_sentinel.Deadman.Runtime.Effect.{Holds, Holds-IsStatus}

module _ {formats : TextFormats} (bytes : ByteFormats formats) where
  -- the advanced status, and it without its oldest intent, are within the limit of the file
  abbrev pub Fits : DeadManStatus → List DeadManNotification → Type 0
  Fits t [] = fits bytes t ≡ true
  Fits t (n ∷ ns) = (fits bytes t ≡ true) × (fits bytes (without_head t n ns) ≡ true)

  -- What a cycle that reaches its end did and returned, for the queue of the advanced status.
  abbrev pub Done :
      DeadManStatus
      → List DeadManNotification
      → World bytes
      → World bytes
      → DeadManCycleResult
      → Type 0
  Done t [] w w' r =
      Holds bytes (canonical t) w'
      × (w'.delivered ≡ w.delivered)
      × (r.pending_count ≡ 0)
      × (r.delivered_notification_id ≡ none)
  Done t (n ∷ ns) w w' r =
      Holds bytes (canonical (without_head t n ns)) w'
      × (file : Option bytes.Bytes) × (w'.delivered ≡ (n, file) ∷ w.delivered)
      × (r.pending_count ≡ length ns)
      × (r.delivered_notification_id ≡ some n.notification_id)

  abbrev Finishes :
      DeadManStatus
      → List DeadManNotification
      → World bytes
      → World bytes × Result DeadManCycleResult
      → Type 0
  Finishes t q w x = (r : DeadManCycleResult) × (x.1 ≡ ok r) × Done t q w x.0 r

  save_state-load :
      (faults : SaveFaults) (t : DeadManStatus) (w : World bytes)
      → IsStatus t
      → fits bytes t ≡ true
      → faultless bytes faults ≡ true
      → ((save_state bytes faults t w).1 ≡ ok tt)
        × Holds bytes (canonical t) (save_state bytes faults t w).0
        × ((save_state bytes faults t w).0.delivered ≡ w.delivered)
  unfolding save_state
  save_state-load faults t w v f n =
      let (r, h) = save-load bytes faults t w.disk v f n in (r, h, refl)

  module _ (second_save : SaveFaults) (quiet : faultless bytes second_save ≡ true)
      (t : DeadManStatus) (v : IsStatus t) (w u : World bytes)
      (same : u.delivered ≡ w.delivered) where
    deliver_oldest-Finishes :
        (q : List DeadManNotification)
        → t.pending_notifications ≡ q
        → Fits t q
        → Holds bytes (canonical t) u
        → Finishes t q w (deliver_oldest bytes true second_save t q u)
    unfolding deliver_oldest send
    deliver_oldest-Finishes [] queue f h = (_, refl, (h, same, refl, refl))
    deliver_oldest-Finishes (n ∷ ns) queue f h =
        let after = without_head-IsStatus t n ns v queue in
        let (acked, _) = acknowledge-head t n ns v queue in
        let u' : World bytes = record u { delivered = (n, u.disk.target) ∷ u.delivered } in
        let (r, held, kept) =
          save_state-load second_save (without_head t n ns) u' after f.1 quiet in
        let result : DeadManCycleResult = record {
          state = t.state;
          pending_count = length ns;
          delivered_notification_id = some n.notification_id;
          acknowledged_notification_id = some n.notification_id;
        } in
        rw (acked, r)
          (
            result,
            refl,
            (held, u.disk.target, kept ∙ ap (λ l. (n, u.disk.target) ∷ l) same, refl, refl),
          )

  clock_accepts : (now : DateTime) → is_aware now ≡ true → require_aware_now (some now) ≡ ok now
  unfolding require_aware_now
  clock_accepts now h = rw h refl

  saved-Finishes :
      (first second_save : SaveFaults) (t : DeadManStatus) (w : World bytes)
      → IsStatus t
      → Fits t t.pending_notifications
      → fits bytes t ≡ true
      → faultless bytes first ≡ true
      → faultless bytes second_save ≡ true
      → Finishes t t.pending_notifications w (
          proceed bytes
            (save_state bytes first t w).0
            (save_state bytes first t w).1
            (λ _. deliver_oldest bytes true second_save t t.pending_notifications))
  saved-Finishes first second_save t w v f g a b =
      let (r, held, kept) = save_state-load first t w v g a in
      rw r (
        deliver_oldest-Finishes second_save b t v w (save_state bytes first t w).0 kept
          t.pending_notifications refl f held)

  Fits-first : (t : DeadManStatus) (q : List DeadManNotification) → Fits t q → fits bytes t ≡ true
  Fits-first t [] f = f
  Fits-first t (n ∷ ns) f = f.0

  -- When nothing fails, the clock value is aware and not before the anchor, and the advanced status
  -- is within the limit of the file, with and without its oldest intent, a cycle on a world whose
  -- file holds `s` returns. With nothing pending after the advance, nothing is delivered and the
  -- advanced status is durable. Otherwise the oldest intent is delivered, once, its acknowledgement
  -- is durable, and the result names its id and counts the intents that are left.
  pub cycle_completes :
      (env : Environment) (s : DeadManStatus) (w : World bytes) (o : DeadManProbeOutcome)
      (now : DateTime)
      → Holds bytes s w
      → env.read_fails ≡ false
      → env.probe ≡ ok o
      → env.clock ≡ some now
      → is_aware now ≡ true
      → precedes now s.state_changed_at ≡ false
      → env.delivers ≡ true
      → faultless bytes env.first_save ≡ true
      → faultless bytes env.second_save ≡ true
      → ((t : DeadManStatus)
          → advance_deadman_status s o now ≡ ok t
          → Fits t t.pending_notifications)
      → (t : DeadManStatus) × (advance_deadman_status s o now ≡ ok t)
        × (r : DeadManCycleResult) × ((run_deadman_cycle bytes env w).1 ≡ ok r)
        × Done t t.pending_notifications w (run_deadman_cycle bytes env w).0 r
  unfolding run_deadman_cycle
  cycle_completes env s w o now h reads probed clock aware order delivers first second_save fit =
      let (t, step, v) = advance-Yields s now (Holds-IsStatus bytes s w h) aware order o in
      let (r, e, d) =
        saved-Finishes env.first_save env.second_save t w v (fit t step)
          (Fits-first t t.pending_notifications (fit t step)) first second_save in
      (
        t,
        step,
        r,
        rw (reads, h, probed, clock, clock_accepts now aware, step, delivers) e,
        rw (reads, h, probed, clock, clock_accepts now aware, step, delivers) d,
      )
