-- ===== src/Tests/Outage.antt =====
-- One outage, from its third failed probe to the acknowledgement of its intent.
use hermes_sentinel.Base.{
  ◌+◌, ◌≡◌, refl, List, [], ◌∷◌, ◌++◌, true, false, none, some, arith, ◌≢◌, ◌↔◌,
}
use hermes_sentinel.Result.{ok, err, state_store_error}
use hermes_sentinel.Deadman.Types.{
  DeadManNotification, unknown, down, failed, down_kind, require_aware, require_notification_id,
  check_transition, check_notification, create_transition, create_notification, create_current_down,
  check_current_down,
}
use hermes_sentinel.Deadman.Status.{
  DeadManStatus, check_status, create_status, check_streaks, check_increasing, check_suffix,
  check_no_recovered, check_kinds, check_dates, check_anchor, check_unknown, check_outage,
  check_binding,
}
use hermes_sentinel.Deadman.Status.Checked.{check_status_iff}
use hermes_sentinel.Deadman.Status.Valid.{IsStatus}
use hermes_sentinel.Deadman.Status.Valid.{Yields}
use hermes_sentinel.Deadman.Machine.{
  advance_deadman_status, advance_failure, failure_from, count_failure, confirm_down,
  acknowledge_deadman_notification,
}
use hermes_sentinel.Deadman.Machine.Preserves.{advance-Yields}
use hermes_sentinel.Deadman.Snapshot.Encode.{encode_deadman_status}
use hermes_sentinel.Deadman.Snapshot.Decode.{decode_deadman_status}
use hermes_sentinel.Deadman.Snapshot.RoundTrip.{decode-encode}
use hermes_sentinel.Deadman.Store.{SaveFaults, load, load_target, load_bytes, decode_text, save}
use hermes_sentinel.Deadman.Runtime.{Environment, World, DeadManCycleResult, run_deadman_cycle}
use hermes_sentinel.Deadman.Runtime.Effect.{Holds, Effect, cycle-Effect}
use hermes_sentinel.Deadman.Runtime.Completes.{Fits, Done, cycle_completes}
use hermes_sentinel.Result.Ensures.{Ensures}
use hermes_sentinel.Json.{text}
use hermes_sentinel.Deadman.Status.Snapshot.{IsSnapshot}
use hermes_sentinel.Deadman.Machine.Queue.{advance-owed, owed}
use hermes_sentinel.Deadman.Machine.Acknowledge.{without_head, acknowledge-head}
use hermes_sentinel.Deadman.Snapshot.Fields.{DecodeError}
use hermes_sentinel.Deadman.Snapshot.Sound.{decode_deadman_status-Ensures}
use hermes_sentinel.Deadman.Store.Durable.{StoreError, save-load, save_refused, load-Ensures}
use hermes_sentinel.Tests.Samples.{at, sample_formats, sample_bytes}

-- two failures counted, nothing confirmed
abbrev pub counted : DeadManStatus
counted = record {
  state = unknown;
  consecutive_failures = 2;
  consecutive_successes = 0;
  state_changed_at = none;
  pending_notifications = [];
  next_notification_id = 1;
  current_down = none;
}

abbrev first_intent : DeadManNotification
first_intent = record {
  notification_id = 1;
  kind = down_kind;
  transition = record { from_state = unknown; to_state = down; at = at 30 };
}

-- the outage of the third failure, its intent pending
abbrev outage : DeadManStatus
outage = record {
  state = down;
  consecutive_failures = 0;
  consecutive_successes = 0;
  state_changed_at = some (at 30);
  pending_notifications = first_intent ∷ [];
  next_notification_id = 2;
  current_down = some (record { notification_id = 1; acknowledged = false });
}

counted-IsStatus : IsStatus counted
unfolding check_status check_streaks check_increasing check_suffix check_no_recovered check_kinds
    check_dates check_anchor check_unknown check_outage check_binding require_notification_id
counted-IsStatus = record {
  snapshot = (check_status_iff counted).0 refl;
  intents = tt;
  binding = tt;
}

outage-IsStatus : IsStatus outage
unfolding check_status check_streaks check_increasing check_suffix check_no_recovered check_kinds
    check_dates check_anchor check_unknown check_outage check_binding require_notification_id
    require_aware check_notification check_transition check_current_down
outage-IsStatus = record {
  snapshot = (check_status_iff outage).0 refl;
  intents = (record { notification = refl; transition = refl }, tt);
  binding = refl;
}

advance-Yields_example : Yields (advance_deadman_status counted failed (at 30))
advance-Yields_example = advance-Yields counted (at 30) counted-IsStatus refl refl failed

abbrev no_faults : SaveFaults
no_faults = record {
  create_fails = false;
  write_fails = false;
  replace_fails = false;
  remove_fails = false;
}

abbrev disk_full : SaveFaults
disk_full = record no_faults { write_fails = true }

-- the state file holds `counted`
abbrev pub world : World sample_bytes
world = record {
  disk = record { target = some (encode_deadman_status sample_formats counted); leftovers = 0 };
  delivered = [];
}

pub counted-Holds : Holds sample_bytes counted world
unfolding load load_target load_bytes decode_text
counted-Holds = let back = decode-encode sample_formats counted counted-IsStatus in rw back refl

-- the third failure, and a disk that is full when the acknowledgement is saved
abbrev pub crashing : Environment
crashing = record {
  read_fails = false;
  probe = ok failed;
  clock = some (at 30);
  first_save = no_faults;
  delivers = true;
  second_save = disk_full;
}

cycle-Effect_example :
    Effect sample_bytes counted world (run_deadman_cycle sample_bytes crashing world).0
cycle-Effect_example = cycle-Effect sample_bytes crashing counted world counted-Holds

advanced_is_outage : advance_deadman_status counted failed (at 30) ≡ ok outage
unfolding advance_deadman_status advance_failure failure_from count_failure confirm_down
    check_status check_streaks check_increasing check_suffix check_no_recovered check_kinds
    check_dates check_anchor check_unknown check_outage check_binding require_notification_id
    require_aware create_status create_transition create_notification create_current_down
    check_notification check_transition check_current_down
advanced_is_outage = refl

abbrev quiet : Environment
quiet = record crashing { second_save = no_faults }

always-Fits : (q : List DeadManNotification) (t : DeadManStatus) → Fits sample_bytes t q
always-Fits [] t = refl
always-Fits (n ∷ ns) t = (refl, refl)

cycle_completes_example :
    (t : DeadManStatus) × (advance_deadman_status counted failed (at 30) ≡ ok t)
    × (r : DeadManCycleResult) × ((run_deadman_cycle sample_bytes quiet world).1 ≡ ok r)
    × Done sample_bytes t t.pending_notifications world
        (run_deadman_cycle sample_bytes quiet world).0
        r
cycle_completes_example =
    cycle_completes sample_bytes quiet counted world failed (at 30) counted-Holds refl refl refl
      refl refl refl refl refl (λ t h. always-Fits t.pending_notifications t)

advance-owed_example :
    (outage.pending_notifications ≡ counted.pending_notifications ++ owed counted (at 30) outage)
    × (outage.next_notification_id ≡ counted.next_notification_id + 1)
advance-owed_example = advance-owed counted failed (at 30) outage advanced_is_outage

acknowledge-head_example :
    (acknowledge_deadman_notification outage 1 ≡ ok (without_head outage first_intent []))
    × IsStatus (without_head outage first_intent [])
acknowledge-head_example = acknowledge-head outage first_intent [] outage-IsStatus refl

two_is_new : 2 ≢ first_intent.notification_id
two_is_new h = omega arith

check_status_iff_example : (check_status outage ≡ ok tt) ↔ IsSnapshot outage
check_status_iff_example = check_status_iff outage

decode-encode_example :
    decode_deadman_status sample_formats (encode_deadman_status sample_formats outage) ≡ ok outage
decode-encode_example = decode-encode sample_formats outage outage-IsStatus

decode_deadman_status-Ensures_example :
    Ensures IsStatus DecodeError (decode_deadman_status sample_formats (text "{"))
decode_deadman_status-Ensures_example = decode_deadman_status-Ensures sample_formats (text "{")

save-load_example :
    ((save sample_bytes no_faults outage world.disk).1 ≡ ok tt)
    × (load sample_bytes false (save sample_bytes no_faults outage world.disk).0 ≡ ok outage)
save-load_example = save-load sample_bytes no_faults outage world.disk outage-IsStatus refl refl

save_refused_example :
    ((save sample_bytes disk_full outage world.disk).1 ≡ err state_store_error)
    × ((save sample_bytes disk_full outage world.disk).0.target ≡ world.disk.target)
save_refused_example = save_refused sample_bytes disk_full outage world.disk refl

load-Ensures_example :
    Ensures IsStatus (StoreError sample_bytes) (load sample_bytes false world.disk)
load-Ensures_example = load-Ensures sample_bytes false world.disk
