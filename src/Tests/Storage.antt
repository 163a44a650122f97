-- ===== src/Tests/Storage.antt =====
-- Runs of internal/state: saves, status updates and archives of one workflow.
use gobot.Prelude.{
  ◌≡◌, ◌≢◌, refl, Bool, true, false, none, some, [], ◌∷◌, String, str_eq, arith, if◌then◌else◌,
}
use gobot.Prelude.Int.{ℤ, pos, add64}
use gobot.State.Types.{Status, running, paused, WorkflowState, Codec, not_exist, wrapped, ok, err}
use gobot.State.Atomic.{Call, write_file_atomic}
use gobot.State.Atomic.Laws.{IsWhole, write-all_or_nothing}
use gobot.State.Journal.{AppendIo}
use gobot.State.Manager.{Disk, Io, save_checkpoint, load_with_recovery, update_status, archive}
use gobot.State.Manager.Update.{update_status-load, Reads}
use gobot.State.Manager.Save.{Saves, bumped, save_checkpoint-load}
use gobot.State.Manager.Archive.{archive-load}

abbrev state : Status → ℤ → ℤ → WorkflowState
state status version updated = record {
  id = "w";
  status = status;
  version = version;
  created_at = pos 1;
  updated_at = updated;
  data_json = "{}";
}

-- The texts "1" and "2" stand for the states with these versions, and "pause" for the entry, whose
-- payload reads back without its space.
abbrev codec : Codec
codec = record {
  encode_state = λ s. some "2";
  decode_state = λ t.
      if str_eq t "1\n"
      then some (state running (pos 1) (pos 1))
      else some (state paused (pos 2) (pos 9));
  encode_entry = λ e. some "pause";
  decode_entry = λ t. some (record {
    timestamp = pos 5;
    operation = "status_change";
    payload = "{\"status\":\"paused\"}";
  });
  status_payload = λ s. "{\"status\": \"paused\"}";
  decode_status = λ t. if str_eq t "{\"status\":\"paused\"}" then some paused else none;
}

abbrev io : Io
io = record { locks = true; fails = λ c. false; part = ""; removes = true }

abbrev append_io : AppendIo
append_io = record { opens = true; torn = none; syncs = true }

abbrev disk : Disk
disk = record {
  checkpoint = λ id. if str_eq id "w" then some "1\n" else none;
  journal = λ id. none;
  archived = λ id. none;
}

abbrev paused_disk : Disk
paused_disk = record disk {
  journal = λ id. if str_eq id "w" then some (record { lines = "pause" ∷ []; tail = "" }) else none;
}

saves : Saves codec io (bumped (pos 9) (state paused (pos 1) (pos 5))) "2"
unfolding add64
saves = record { locked = refl; writes = λ c ne. refl; encoded = refl; decoded = refl }

save_checkpoint-load_example :
    let out = save_checkpoint codec io (pos 9) (state paused (pos 1) (pos 5)) paused_disk in
    (out.0 ≡ ok tt)
    × (out.1 ≡ bumped (pos 9) (state paused (pos 1) (pos 5)))
    × (load_with_recovery codec "w" out.2 ≡ ok (bumped (pos 9) (state paused (pos 1) (pos 5))))
    × ((j : String)
        → j ≢ "w"
        → load_with_recovery codec j out.2 ≡ load_with_recovery codec j paused_disk)
save_checkpoint-load_example =
    save_checkpoint-load codec io (pos 9) (state paused (pos 1) (pos 5)) "2" paused_disk saves refl

reads : Reads codec (pos 5) paused "pause" "{\"status\":\"paused\"}"
reads = record { encoded = refl; decoded = refl; fits = omega arith; payload = refl }

update_status-load_example :
    let out = update_status codec append_io (pos 5) "w" paused disk in
    (out.0 ≡ ok tt)
    × (load_with_recovery codec "w" out.1 ≡ ok (state paused (pos 1) (pos 5)))
    × ((j : String) → j ≢ "w" → load_with_recovery codec j out.1 ≡ load_with_recovery codec j disk)
unfolding load_with_recovery
update_status-load_example =
    update_status-load codec append_io (pos 5) "w" paused "pause" "{\"status\":\"paused\"}" disk
      (state running (pos 1) (pos 1)) (record { opened = refl; whole = refl; synced = refl }) reads
      refl refl

-- The write has done its work when Chmod fails, and then os.Remove fails too.
abbrev failing : Call → Bool
failing Call.chmod = true
failing Call.remove = true
failing _ = false

write-all_or_nothing_example :
    IsWhole failing "new"
      (some "old")
      (write_file_atomic failing "ne" "new" (record { target = some "old"; temp = none }))
write-all_or_nothing_example = write-all_or_nothing failing "ne" "new" (some "old")

archive-Saves : Saves codec io (state paused (pos 2) (pos 9)) "2"
archive-Saves = record { locked = refl; writes = λ c ne. refl; encoded = refl; decoded = refl }

abbrev newer_disk : Disk
newer_disk = record disk { checkpoint = λ id. if str_eq id "w" then some "2\n" else none }

archive-load_example :
    let out = archive codec io "w" newer_disk in
    (out.0 ≡ ok tt)
    × ((file : String) × (out.1.archived "w" ≡ some file)
        × (codec.decode_state file ≡ some (state paused (pos 2) (pos 9))))
    × (load_with_recovery codec "w" out.1
        ≡ err (wrapped "reading checkpoint" (wrapped "reading file" not_exist)))
    × ((j : String)
        → j ≢ "w"
        → (load_with_recovery codec j out.1 ≡ load_with_recovery codec j newer_disk)
          × (out.1.archived j ≡ newer_disk.archived j))
unfolding load_with_recovery
archive-load_example =
    archive-load codec io "w" "2" newer_disk (state paused (pos 2) (pos 9)) refl archive-Saves refl
