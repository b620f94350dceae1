-- ===== src/Deadman/Runtime.antt =====
-- `run_deadman_cycle` of src/hermes_sentinel/deadman_runtime.py: one cycle against a world of the
-- state file and the delivered notifications. What the environment does is an argument.
pub mod Effect
pub mod Completes
use hermes_sentinel.Base.{
  ℕ, List, [], ◌∷◌, ◌++◌, Bool, true, false, Option, none, some, length, if◌then◌else◌,
}
use hermes_sentinel.Result.{Result, ok, err, Error, runtime_error, telegram_delivery_error}
use hermes_sentinel.DateTime.{DateTime, is_aware}
use hermes_sentinel.Deadman.Types.{DeadManState, DeadManProbeOutcome, DeadManNotification}
use hermes_sentinel.Deadman.Status.{DeadManStatus}
use hermes_sentinel.Deadman.Machine.{advance_deadman_status, acknowledge_deadman_notification}
use hermes_sentinel.Deadman.Snapshot.{TextFormats}
use hermes_sentinel.Deadman.Store.{ByteFormats, SaveFaults, Disk, load, save}

pub record DeadManCycleResult : Type 0 where
  pub state : DeadManState
  pub pending_count : ℕ
  pub delivered_notification_id : Option ℕ
  pub acknowledged_notification_id : Option ℕ

-- What one cycle meets: the state file's readability, the prober's outcome or defect, the value of
-- the clock (none: no datetime), the faults of both saves, and whether the delivery succeeds.
pub record Environment : Type 0 where
  pub read_fails : Bool
  pub probe : Result DeadManProbeOutcome
  pub clock : Option DateTime
  pub first_save : SaveFaults
  pub delivers : Bool
  pub second_save : SaveFaults

-- `_require_aware_now`
unfoldable pub require_aware_now : Option DateTime → Result DateTime
require_aware_now none = err runtime_error
require_aware_now (some now) = if is_aware now then ok now else err runtime_error

module _ {formats : TextFormats} (bytes : ByteFormats formats) where
  -- `delivered` lists the successful sends, the last one first, each with the state file of its
  -- moment.
  pub record World : Type 0 where
    pub disk : Disk bytes
    pub delivered : List (DeadManNotification × Option bytes.Bytes)

  -- a call that changes the world and returns or raises
  abbrev pub Call : Type 0 → Type 0
  Call A = World → World × Result A

  abbrev pub proceed : {A B : Type 0} → World → Result A → (A → Call B) → World × Result B
  proceed w (ok a) f = f a w
  proceed w (err e) f = (w, err e)

  infixl 5 ◌>>=◌
  abbrev pub ◌>>=◌ : {A B : Type 0} → Call A → (A → Call B) → Call B
  ◌>>=◌ m f w = proceed (m w).0 (m w).1 f

  abbrev pub pure : {A : Type 0} → A → Call A
  pure a w = (w, ok a)

  abbrev pub lift : {A : Type 0} → Result A → Call A
  lift r w = (w, r)

  unfoldable pub save_state : SaveFaults → DeadManStatus → Call (Unit {0})
  save_state faults s w =
      (record w { disk = (save bytes faults s w.disk).0 }, (save bytes faults s w.disk).1)

  -- `sender.send`
  unfoldable pub send : Bool → DeadManNotification → Call (Unit {0})
  send delivers n w =
      if delivers
      then (record w { delivered = (n, w.disk.target) ∷ w.delivered }, ok tt)
      else (w, err telegram_delivery_error)

  -- steps 6 to 8, for the queue of the advanced status
  unfoldable pub deliver_oldest :
      Bool → SaveFaults → DeadManStatus → List DeadManNotification → Call DeadManCycleResult
  deliver_oldest delivers second_save advanced [] = pure (record {
    state = advanced.state;
    pending_count = 0;
    delivered_notification_id = none;
    acknowledged_notification_id = none;
  })
  deliver_oldest delivers second_save advanced (oldest ∷ rest) = do
    _ ← send delivers oldest
    acknowledged ← lift (acknowledge_deadman_notification advanced oldest.notification_id)
    _ ← save_state second_save acknowledged
    pure (record {
      state = acknowledged.state;
      pending_count = length acknowledged.pending_notifications;
      delivered_notification_id = some oldest.notification_id;
      acknowledged_notification_id = some oldest.notification_id;
    })

  unfoldable pub run_deadman_cycle : Environment → Call DeadManCycleResult
  run_deadman_cycle env w =
      (do
        status ← lift (load bytes env.read_fails w.disk)
        outcome ← lift env.probe
        now ← lift (require_aware_now env.clock)
        advanced ← lift (advance_deadman_status status outcome now)
        _ ← save_state env.first_save advanced
        deliver_oldest env.delivers env.second_save advanced advanced.pending_notifications)
        w
