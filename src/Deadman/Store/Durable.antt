-- ===== src/Deadman/Store/Durable.antt =====
-- What a save leaves on the disk, and what a later load reads.
use hermes_sentinel.Base.{◌≡◌, refl, Bool, true, false, Option, none, some, ltb, arith, not, ◌&&◌}
use hermes_sentinel.Result.{Result, ok, err, Error, state_store_error}
use hermes_sentinel.Result.Ensures.{Ensures, returns, raises, Ensures-if}
use hermes_sentinel.Deadman.Status.{DeadManStatus}
use hermes_sentinel.Deadman.Status.Valid.{IsStatus, initial-IsStatus}
use hermes_sentinel.Deadman.Snapshot.{TextFormats}
use hermes_sentinel.Deadman.Snapshot.Encode.{encode_deadman_status}
use hermes_sentinel.Deadman.Snapshot.Fields.{DecodeError}
use hermes_sentinel.Deadman.Snapshot.Sound.{decode_deadman_status-Ensures}
use hermes_sentinel.Deadman.Snapshot.Canonical.{canonical}
use hermes_sentinel.Deadman.Snapshot.RoundTrip.{decode-encode}
use hermes_sentinel.Deadman.Store.{
  ByteFormats, SaveFaults, Disk, max_deadman_state_bytes, decode_text, load_bytes, load_target,
  store_error_of, load, save, remove_quietly,
}

module _ {formats : TextFormats} (bytes : ByteFormats formats) where
  open bytes use {Bytes, decode_utf8, decode-encode_utf8}

  abbrev pub StoreError : Error → Type 0
  StoreError e = e ≡ state_store_error

  decode_text-Ensures :
      (o : Option formats.Text) → Ensures IsStatus StoreError (decode_text bytes o)
  unfolding decode_text
  decode_text-Ensures none = raises refl
  decode_text-Ensures (some t) = go (decode_deadman_status-Ensures formats t)
    where
      go :
          {r : Result DeadManStatus}
          → Ensures IsStatus DecodeError r
          → Ensures IsStatus StoreError (store_error_of r)
      go (returns v) = returns v
      go (raises p) = rw p (raises refl)

  -- Loading returns a status object or raises `DeadManStateStoreError`, whatever the disk holds.
  pub load-Ensures :
      (read_fails : Bool) (d : Disk bytes) → Ensures IsStatus StoreError (load bytes read_fails d)
  unfolding load load_target
  load-Ensures true d = raises refl
  load-Ensures false d = go d.target
    where
      go : (o : Option Bytes) → Ensures IsStatus StoreError (load_target bytes o)
      go none = returns initial-IsStatus
      go (some raw) =
          Ensures-if (ltb max_deadman_state_bytes (bytes.size raw)) (raises refl)
            (decode_text-Ensures (decode_utf8 raw))

  -- the encoded status is within `MAX_DEADMAN_STATE_BYTES`
  abbrev pub fits : DeadManStatus → Bool
  fits s = not (
      ltb max_deadman_state_bytes
        (bytes.size (bytes.encode_utf8 (encode_deadman_status formats s))))

  abbrev pub faultless : SaveFaults → Bool
  faultless f = not f.create_fails && not f.write_fails && not f.replace_fails

  -- Without a fault, saving a status object that fits succeeds, and loading returns its canonical
  -- form.
  pub save-load :
      (faults : SaveFaults) (s : DeadManStatus) (d : Disk bytes)
      → IsStatus s
      → fits s ≡ true
      → faultless faults ≡ true
      → ((save bytes faults s d).1 ≡ ok tt)
        × (load bytes false (save bytes faults s d).0 ≡ ok (canonical s))
  unfolding save load load_target load_bytes decode_text
  save-load faults s d v f n = (
    ground arith,
    ground (arith, decode-encode_utf8 (encode_deadman_status formats s), decode-encode formats s v),
  )

  -- A save that does not fit, or meets a fault, raises `DeadManStateStoreError` and leaves the state
  -- file as it was.
  pub save_refused :
      (faults : SaveFaults) (s : DeadManStatus) (d : Disk bytes)
      → (fits s && faultless faults) ≡ false
      → ((save bytes faults s d).1 ≡ err state_store_error)
        × ((save bytes faults s d).0.target ≡ d.target)
  unfolding save remove_quietly
  save_refused faults s d n = (ground arith, ground arith)
