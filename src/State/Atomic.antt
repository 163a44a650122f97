-- ===== src/State/Atomic.antt =====
-- internal/state/atomic.go: WriteFileAtomic and the JSON files.
pub mod Laws
use gobot.Prelude.{Bool, true, false, Option, none, some, String, if◌then◌else◌}
use gobot.State.Types.{Err, not_exist, os_error, json_error, wrapped, Result, ok, err}
use Prim.Native.String.{◌++◌}

-- The system calls of WriteFileAtomic.
pub data Call : Type 0 where
  mkdir_all create_temp write chmod sync close rename remove : Call

-- The target path and the temporary file beside it.
pub record Slot : Type 0 where
  pub target : Option String
  pub temp : Option String

-- The deferred os.Remove of the temporary path, whose error is ignored.
pub clean_up : (Call → Bool) → Slot → Slot
clean_up fails s = if fails remove then s else record s { temp = none }

-- `fails` says which call returns an error, and `part` is what a failed write leaves in the
-- temporary file.
unfoldable pub write_file_atomic : (Call → Bool) → String → String → Slot → Result (Unit {0}) × Slot
unfolding clean_up
write_file_atomic fails part text s =
    let created = record s { temp = some "" } in
    let torn = record s { temp = some part } in
    let written = record s { temp = some text } in
    if fails mkdir_all
    then (err (wrapped "creating directory" os_error), s)
    else if fails create_temp
    then (err (wrapped "creating temp file" os_error), s)
    else if fails write
    then (err (wrapped "writing to temp file" os_error), clean_up fails torn)
    else if fails chmod
    then (err (wrapped "setting file permissions" os_error), clean_up fails written)
    else if fails sync
    then (err (wrapped "syncing temp file" os_error), clean_up fails written)
    else if fails close
    then (err (wrapped "closing temp file" os_error), clean_up fails written)
    else if fails rename
    then (err (wrapped "renaming temp file" os_error), clean_up fails written)
    else (ok tt, clean_up fails (record s { target = written.temp; temp = none }))

-- ReadFileJSON over what os.ReadFile finds at the path.
unfoldable pub read_file_json {ℓ} : {A : Type ℓ} → (String → Option A) → Option String → Result A
read_file_json decode none = err (wrapped "reading file" not_exist)
read_file_json decode (some text) = elim (decode text) [
  | none ↦ err (wrapped "unmarshaling JSON" json_error)
  | some v ↦ ok v
]

-- WriteFileJSON; `encoded` is the result of json.MarshalIndent.
unfoldable pub write_file_json :
    (Call → Bool) → String → Option String → Slot → Result (Unit {0}) × Slot
unfolding write_file_atomic
write_file_json fails part none s = (err (wrapped "marshaling JSON" json_error), s)
write_file_json fails part (some text) s = write_file_atomic fails part (text ++ "\n") s
