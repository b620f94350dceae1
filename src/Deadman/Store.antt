-- ===== src/Deadman/Store.antt =====
-- `DeadManStateStore` of src/hermes_sentinel/deadman_store.py: a file that is replaced atomically.
-- Bytes and UTF-8 are parameters. What the operating system refuses is an argument of each call.
pub mod Durable
use hermes_sentinel.Base.{
  ℕ, suc, ◌+◌, ◌≡◌, Bool, true, false, Option, none, some, ltb, if◌then◌else◌,
}
use hermes_sentinel.Result.{Result, ok, err, state_store_error, state_decode_error}
use hermes_sentinel.Deadman.Status.{DeadManStatus, initial_deadman_status}
use hermes_sentinel.Deadman.Snapshot.{TextFormats}
use hermes_sentinel.Deadman.Snapshot.Encode.{encode_deadman_status}
use hermes_sentinel.Deadman.Snapshot.Decode.{decode_deadman_status}

-- `str.encode("utf-8")` and `bytes.decode("utf-8")`
pub record ByteFormats (formats : TextFormats) : Type 1 where
  pub Bytes : Type 0
  pub size : Bytes → ℕ
  pub encode_utf8 : formats.Text → Bytes
  pub decode_utf8 : Bytes → Option formats.Text
  pub decode-encode_utf8 : (t : formats.Text) → decode_utf8 (encode_utf8 t) ≡ some t

-- `MAX_DEADMAN_STATE_BYTES`
abbrev pub max_deadman_state_bytes : ℕ
max_deadman_state_bytes = 1048576

-- Which of the system calls of one `save` fail with an `OSError`.
pub record SaveFaults : Type 0 where
  pub create_fails : Bool
  pub write_fails : Bool
  pub replace_fails : Bool
  pub remove_fails : Bool

-- `except DeadManStateDecodeError as error: raise DeadManStateStoreError(...)`
abbrev pub store_error_of : Result DeadManStatus → Result DeadManStatus
store_error_of (ok s) = ok s
store_error_of (err state_decode_error) = err state_store_error
store_error_of (err e) = err e

module _ {formats : TextFormats} (bytes : ByteFormats formats) where
  open bytes use {Bytes, size, encode_utf8, decode_utf8}

  -- the state file, and how many temporary files earlier saves left behind
  pub record Disk : Type 0 where
    pub target : Option Bytes
    pub leftovers : ℕ

  unfoldable pub decode_text : Option formats.Text → Result DeadManStatus
  decode_text none = err state_store_error
  decode_text (some t) = store_error_of (decode_deadman_status formats t)

  unfoldable pub load_bytes : Bytes → Result DeadManStatus
  unfolding decode_text
  load_bytes raw =
      if ltb max_deadman_state_bytes (size raw)
      then err state_store_error
      else decode_text (decode_utf8 raw)

  unfoldable pub load_target : Option Bytes → Result DeadManStatus
  unfolding load_bytes
  load_target none = ok initial_deadman_status
  load_target (some raw) = load_bytes raw

  -- `load`: `read_fails` is an `OSError` other than `FileNotFoundError`
  unfoldable pub load : Bool → Disk → Result DeadManStatus
  unfolding load_target
  load read_fails d = if read_fails then err state_store_error else load_target d.target

  -- `_remove_quietly`
  remove_quietly : Bool → Disk → Disk
  remove_quietly remove_fails d =
      if remove_fails then record d { leftovers = d.leftovers + 1 } else d

  -- `save`: the disk afterwards, and what the call returns or raises
  unfoldable pub save : SaveFaults → DeadManStatus → Disk → Disk × Result (Unit {0})
  unfolding remove_quietly
  save faults s d =
      let data_bytes = encode_utf8 (encode_deadman_status formats s) in
      if ltb max_deadman_state_bytes (size data_bytes)
      then (d, err state_store_error)
      else if faults.create_fails
      then (d, err state_store_error)
      else if faults.write_fails
      then (remove_quietly faults.remove_fails d, err state_store_error)
      else if faults.replace_fails
      then (remove_quietly faults.remove_fails d, err state_store_error)
      else (record d { target = some data_bytes }, ok tt)
