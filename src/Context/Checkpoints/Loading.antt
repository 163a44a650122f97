-- ===== src/Context/Checkpoints/Loading.antt =====
-- Checkpoints: what threads load to after a call of SaveSnapshot.
use gobot.Prelude.{
  ◌≡◌, ◌≢◌, refl, sym, ◌∙◌, subst, inl, inr, Bool, true, false, some, List, ◌∷◌, String, eq_iff,
  In-filter, arith, Option-cases,
}
use gobot.Prelude.Int.{ℤ, ltb_ℤ, leb_ℤ}
use gobot.Prelude.Results.{Err, ok, err}
use gobot.Agent.Message.{Message}
use gobot.Context.Checkpoints.{
  Checkpoint, Db, Codec, thread_snapshot, Query, is_newer, of_thread, is_of, latest, saved,
  save_snapshot, is_completed, load_latest, checksum_agrees,
}
use gobot.Context.Checkpoints.Newest.{AtTop, Unique, first-AtTop}
use gobot.Context.Checkpoints.Latest.{first-latest}
use gobot.Context.Checkpoints.Saving.{IsValid, saved-IsValid, new_row, Distinct-Unique}
use gobot.Context.Checkpoints.Saved.{
  Encodes, load-same, load-top, save_snapshot-saved, saved-latest, of_thread-new, new_row-AtTop,
  saved-SameThread, saved-latest_other,
}

-- Where no query fails, the messages are written as a text that reads back as them, the keys are
-- valid, the thread is not completed and its latest iteration is not above the new one, a save
-- reports success, the thread then loads to exactly this iteration and these messages, every other
-- thread loads as before, and the keys are valid again.
pub save_snapshot-load :
    (codec : Codec) (fails : Query → Bool) (now : ℤ) (id : String) (iteration : ℤ)
    (messages : List Message) (state : String) (db : Db)
    → ((q : Query) → fails q ≡ false)
    → Encodes codec messages state
    → IsValid db
    → is_completed fails id db ≡ false
    → ((c : Checkpoint) → latest id db ≡ some c → leb_ℤ c.iteration iteration ≡ true)
    → let out = save_snapshot codec fails now id iteration messages db in
      (out.0 ≡ ok true)
      × (load_latest codec fails id out.1
          ≡ ok (some (thread_snapshot codec id out.1 iteration messages)))
      × ((j : String) → j ≢ id → load_latest codec fails j out.1 ≡ load_latest codec fails j db)
      × IsValid out.1
save_snapshot-load codec fails now id iteration messages state db works enc v active le =
    let e = save_snapshot-saved codec fails now id iteration messages state db works enc in
    let db' = saved codec now id iteration state db in
    let top =
      saved-latest codec now id iteration state db (new_row codec id iteration state db)
        (new_row-AtTop codec id iteration state db v le) in
    let same = saved-SameThread codec now id id iteration state db in
    let sum : checksum_agrees codec (new_row codec id iteration state db) ≡ true =
      unfold checksum_agrees in
      ground (arith, eq_iff (codec.checksum state) (codec.checksum state)) in
    (
      rw e refl,
      rw e (
          load-top codec fails id db' (new_row codec id iteration state db) messages works
            (same.0 fails ∙ active) top sum enc.1),
      λ j ne. rw e (
          load-same codec fails j db' db
            (saved-latest_other codec now id j iteration state db (ground (arith, eq_iff id j)))
            (saved-SameThread codec now id j iteration state db)),
      rw e (saved-IsValid codec now id iteration state db v),
    )

-- Where no query fails, the messages are written as a text that reads back as them and the keys are
-- valid, a save with an iteration below the latest one of its thread reports success, and the
-- thread loads as before it.
pub save_snapshot-overtaken :
    (codec : Codec) (fails : Query → Bool) (now : ℤ) (id : String) (iteration : ℤ)
    (messages : List Message) (state : String) (db : Db) (c : Checkpoint)
    → ((q : Query) → fails q ≡ false)
    → Encodes codec messages state
    → IsValid db
    → latest id db ≡ some c
    → ltb_ℤ iteration c.iteration ≡ true
    → let out = save_snapshot codec fails now id iteration messages db in
      (out.0 ≡ ok true) × (load_latest codec fails id out.1 ≡ load_latest codec fails id db)
unfolding is_newer
save_snapshot-overtaken codec fails now id iteration messages state db c works enc v top lt =
    let e = save_snapshot-saved codec fails now id iteration messages state db works enc in
    let row = new_row codec id iteration state db in
    let unique : Unique (of_thread id db.checkpoints) = λ a b i j.
      (Distinct-Unique db.checkpoints v.distinct) a b (In-filter (is_of id) a db.checkpoints i).0
        (In-filter (is_of id) b db.checkpoints j).0 in
    let (i, h) = first-AtTop c (of_thread id db.checkpoints) unique (first-latest id db c top) in
    let newer : is_newer c row ≡ true = ground arith in
    let still : AtTop c (of_thread id (row ∷ db.checkpoints)) =
      subst (AtTop c) (sym (of_thread-new codec id iteration state db))
        (inr i, λ d j. elim j [ inl new ↦ inr (rw new newer) | inr old ↦ h d old ]) in
    (
      rw e refl,
      rw e (
          load-same codec fails id (saved codec now id iteration state db) db
            (saved-latest codec now id iteration state db c still ∙ sym top)
            (saved-SameThread codec now id id iteration state db)),
    )

-- A save that reports an error, at whichever step, leaves the database as it was.
pub save_snapshot-err :
    (codec : Codec) (fails : Query → Bool) (now : ℤ) (id : String) (iteration : ℤ)
    (messages : List Message) (db : Db) (x : Err)
    → (save_snapshot codec fails now id iteration messages db).0 ≡ err x
    → (save_snapshot codec fails now id iteration messages db).1 ≡ db
unfolding save_snapshot
save_snapshot-err codec fails now id iteration messages db x h =
    elim (Option-cases (codec.marshal messages)) [
      | inl bad ↦ ground arith
      | inr (state, e) ↦ elim (Option-cases (codec.unmarshal state)) [
        | inl bad ↦ ground arith
        | inr (m, good) ↦ ground arith
      ]
    ]
