-- ===== src/Tests/Sessions.antt =====
-- Runs of internal/context/manager.go and internal/agent/session_history.go: saves of checkpoints,
-- turns and compactions of one session.
use gobot.Prelude.{
  ◌≤◌, ◌≡◌, ◌≢◌, refl, ap, subst, inl, inr, Bool, true, false, none, some, [], ◌∷◌, String, str_eq,
  length, if◌then◌else◌, arith,
}
use gobot.Prelude.Int.{ℤ, pos, leb_ℤ}
use gobot.Prelude.Results.{ok}
use gobot.Agent.Message.{Message, user, assistant}
use gobot.Context.Checkpoints.{
  Checkpoint, Db, Codec, Query, thread_snapshot, latest, save_snapshot, load_latest, is_completed,
  of_thread, order_newest,
}
use gobot.Context.Checkpoints.Saving.{IsValid}
use gobot.Context.Checkpoints.Loading.{save_snapshot-load, save_snapshot-overtaken}
use gobot.Context.Checkpoints.Retention.{save_snapshot-retention}
use gobot.Agent.Session.{text_message}
use gobot.Agent.Session.Laws.{IsStore}
use gobot.Agent.Session.Durable.{checkpoint_manager, stored, IsSound, IsStorable}
use gobot.Agent.Session.Durable.Contract.{checkpoint_manager-IsStore}

abbrev hello : Message
hello = text_message user "hello" "t0"

abbrev reply : Message
reply = text_message assistant "hi" "t1"

-- The one text that this codec writes reads back as one message.
abbrev codec : Codec
codec = record {
  marshal = λ ms. some "[hello]";
  unmarshal = λ text. some (hello ∷ []);
  checksum = λ text. "sum";
  format_time = λ t. "time";
  parse_time = λ text. some (pos 0);
  parse_metadata = λ text. text;
}

abbrev row : ℤ → Checkpoint
row iteration = record {
  checkpoint_id = 1;
  thread_id = "s";
  iteration = iteration;
  state = "[hello]";
  checksum = none;
}

-- One thread with one checkpoint of this iteration.
abbrev db : ℤ → Db
db iteration = record {
  threads = λ id.
      if str_eq id "s"
      then some (record {
        status = "active";
        model = "m";
        metadata = "{}";
        updated_at = pos 1;
        estimated_tokens = none;
        last_compacted_at = none;
      })
      else none;
  checkpoints = row iteration ∷ [];
  next_id = 2;
}

abbrev works : Query → Bool
works q = false

db-IsValid : (iteration : ℤ) → IsValid (db iteration)
db-IsValid iteration = record {
  below = λ c i. elim i [
    | inl e ↦ let key = ap (λ r. r.checkpoint_id) e in omega arith
    | inr none_left ↦ absurd none_left
  ];
  distinct = (λ d i. absurd i, tt);
}

save_snapshot-load_example :
    let out = save_snapshot codec works (pos 5) "s" (pos 2) (hello ∷ []) (db (pos 1)) in
    (out.0 ≡ ok true)
    × (load_latest codec works "s" out.1
        ≡ ok (some (thread_snapshot codec "s" out.1 (pos 2) (hello ∷ []))))
    × ((j : String)
        → j ≢ "s"
        → load_latest codec works j out.1 ≡ load_latest codec works j (db (pos 1)))
    × IsValid out.1
unfolding is_completed latest order_newest
save_snapshot-load_example =
    save_snapshot-load codec works (pos 5) "s" (pos 2) (hello ∷ []) "[hello]" (db (pos 1))
      (λ q. refl) (refl, refl) (db-IsValid (pos 1)) refl
      (λ c e.
        let same : row (pos 1) ≡ c = ground arith in
        subst (λ r. leb_ℤ r.iteration (pos 2) ≡ true) same refl)

save_snapshot-overtaken_example :
    let out = save_snapshot codec works (pos 5) "s" (pos 1) (hello ∷ []) (db (pos 7)) in
    (out.0 ≡ ok true)
    × (load_latest codec works "s" out.1 ≡ load_latest codec works "s" (db (pos 7)))
unfolding latest order_newest
save_snapshot-overtaken_example =
    save_snapshot-overtaken codec works (pos 5) "s" (pos 1) (hello ∷ []) "[hello]" (db (pos 7))
      (row (pos 7)) (λ q. refl) (refl, refl) (db-IsValid (pos 7)) refl refl

save_snapshot-retention_example :
    length (
      of_thread "s"
        (save_snapshot codec works (pos 5) "s" (pos 2) (hello ∷ []) (db (pos 1))).1.checkpoints)
    ≤ 10
save_snapshot-retention_example =
    save_snapshot-retention codec works (pos 5) "s" (pos 2) (hello ∷ []) "[hello]" (db (pos 1))
      (λ q. refl) (refl, refl) (db-IsValid (pos 1))

checkpoint_manager-IsStore_example :
    IsStore
      (checkpoint_manager codec (λ i q. false) (pos 5))
      (IsSound codec)
      (IsStorable codec)
      (stored codec)
checkpoint_manager-IsStore_example = checkpoint_manager-IsStore codec (λ i q. false) (pos 5)
