-- ===== src/Context/Checkpoints/Saved.antt =====
-- Checkpoints: the rows and the threads that a committed save leaves.
use gobot.Prelude.{
  ◌≡◌, refl, ap, sym, ◌∙◌, subst, inl, inr, Bool, true, false, some, List, ◌∷◌, String, str_eq,
  eq_iff, In, In-filter, filter-keep, filter-skip, arith, Option-cases,
}
use gobot.Prelude.Int.{ℤ, leb_ℤ}
use gobot.Prelude.Results.{ok}
use gobot.Agent.Message.{Message}
use gobot.Context.Checkpoints.{
  Checkpoint, Db, Codec, Query, is_newer, order_newest, of_thread, is_of, latest, prune_checkpoints,
  saved, save_snapshot, is_completed, with_thread, load_latest, checksum_agrees, thread_snapshot,
}
use gobot.Context.Checkpoints.Newest.{AtTop, StartsWith, AtTop-first}
use gobot.Context.Checkpoints.Latest.{latest-first, latest-bounds}
use gobot.Context.Checkpoints.Saving.{
  IsValid, new_row, pruned, saved-checkpoints, Distinct-Unique, prune-AtTop, prune-other,
  SameThread, touch-SameThread,
}

-- The messages are written as the text, which reads back as them.
abbrev pub Encodes : Codec → List Message → String → Type 0
Encodes codec messages state =
    (codec.marshal messages ≡ some state) × (codec.unmarshal state ≡ some messages)

pub load-same :
    (codec : Codec) (fails : Query → Bool) (j : String) (a b : Db)
    → latest j a ≡ latest j b
    → SameThread j a b
    → load_latest codec fails j a ≡ load_latest codec fails j b
unfolding load_latest
load-same codec fails j a b rows (status, thread) =
    let completed = status fails in
    elim (Option-cases (latest j b)) [
      | inl missing ↦ rw (completed, rows, missing) refl
      | inr (c, e) ↦ elim (Option-cases (codec.unmarshal c.state)) [
        | inl bad ↦ rw (completed, rows, e, bad) refl
        | inr (m, good) ↦
            let last = thread codec fails c.iteration m in rw (completed, rows, e, good, last) refl
      ]
    ]

-- The top row of a thread loads.
pub load-top :
    (codec : Codec) (fails : Query → Bool) (id : String) (db : Db) (c : Checkpoint)
    (messages : List Message)
    → ((q : Query) → fails q ≡ false)
    → is_completed fails id db ≡ false
    → latest id db ≡ some c
    → checksum_agrees codec c ≡ true
    → codec.unmarshal c.state ≡ some messages
    → load_latest codec fails id db ≡ ok (some (thread_snapshot codec id db c.iteration messages))
unfolding load_latest with_thread
load-top codec fails id db c messages works active top sum good =
    let a = works Query.select_latest in
    let b = works Query.select_thread in rw (active, a, top, sum, good, b) refl

pub save_snapshot-saved :
    (codec : Codec) (fails : Query → Bool) (now : ℤ) (id : String) (iteration : ℤ)
    (messages : List Message) (state : String) (db : Db)
    → ((q : Query) → fails q ≡ false)
    → Encodes codec messages state
    → save_snapshot codec fails now id iteration messages db
      ≡ (ok true, saved codec now id iteration state db)
unfolding save_snapshot
save_snapshot-saved codec fails now id iteration messages state db works (written, reads) =
    rw
      (
        save_snapshot,
        written,
        reads,
        works Query.begin_tx,
        works Query.insert_checkpoint,
        works Query.prune_exec,
        works Query.touch_thread_exec,
        works Query.commit_tx,
      )
      refl

-- The thread's rows after a save, when one row is at the top of the old rows and the new one.
pub saved-latest :
    (codec : Codec) (now : ℤ) (id : String) (iteration : ℤ) (state : String) (db : Db)
    (c : Checkpoint)
    → AtTop c (of_thread id (new_row codec id iteration state db ∷ db.checkpoints))
    → latest id (saved codec now id iteration state db) ≡ some c
saved-latest codec now id iteration state db c top =
    let row = new_row codec id iteration state db in
    let rows = saved-checkpoints codec now id iteration state db in
    latest-first id (saved codec now id iteration state db) c (
      subst (λ cs. StartsWith c (order_newest (of_thread id cs))) (sym rows)
        (AtTop-first c (of_thread id (prune_checkpoints id (row ∷ db.checkpoints)))
          (prune-AtTop id c (row ∷ db.checkpoints) top)))

pub of_thread-new :
    (codec : Codec) (id : String) (iteration : ℤ) (state : String) (db : Db)
    → of_thread id (new_row codec id iteration state db ∷ db.checkpoints)
      ≡ new_row codec id iteration state db ∷ of_thread id db.checkpoints
of_thread-new codec id iteration state db =
    filter-keep (is_of id) (new_row codec id iteration state db) db.checkpoints
      (ground (arith, eq_iff id id))

-- The new row is at the top, if its iteration is not below the others'.
pub new_row-AtTop :
    (codec : Codec) (id : String) (iteration : ℤ) (state : String) (db : Db)
    → IsValid db
    → ((c : Checkpoint) → latest id db ≡ some c → leb_ℤ c.iteration iteration ≡ true)
    → AtTop
        (new_row codec id iteration state db)
        (of_thread id (new_row codec id iteration state db ∷ db.checkpoints))
unfolding is_newer
new_row-AtTop codec id iteration state db v h =
    let row = new_row codec id iteration state db in
    let above : (d : Checkpoint) → In d (of_thread id db.checkpoints) → is_newer row d ≡ true =
      λ d i.
        let le = latest-bounds id db iteration (Distinct-Unique db.checkpoints v.distinct) h d i in
        let lt = v.below d (In-filter (is_of id) d db.checkpoints i).0 in ground (arith, le, lt) in
    subst (AtTop row) (sym (of_thread-new codec id iteration state db))
      (inl refl, λ d i. elim i [ inl same ↦ inl same | inr old ↦ inr (above d old) ])

pub saved-SameThread :
    (codec : Codec) (now : ℤ) (id j : String) (iteration : ℤ) (state : String) (db : Db)
    → SameThread j (saved codec now id iteration state db) db
unfolding saved is_completed with_thread
saved-SameThread codec now id j iteration state db =
    touch-SameThread now id j (pruned codec id iteration state db)

pub latest-rows :
    (j : String) (a b : Db)
    → of_thread j a.checkpoints ≡ of_thread j b.checkpoints
    → latest j a ≡ latest j b
unfolding latest
latest-rows j a b e = rw (latest, e) refl

pub saved-latest_other :
    (codec : Codec) (now : ℤ) (id j : String) (iteration : ℤ) (state : String) (db : Db)
    → str_eq id j ≡ false
    → latest j (saved codec now id iteration state db) ≡ latest j db
unfolding prune_checkpoints
saved-latest_other codec now id j iteration state db ne =
    let row = new_row codec id iteration state db in
    let rows = saved-checkpoints codec now id iteration state db in
    let skip = filter-skip (is_of j) row db.checkpoints ne in
    let kept = prune-other id j (row ∷ db.checkpoints) (row ∷ db.checkpoints) ne in
    latest-rows j (saved codec now id iteration state db) db (ap (of_thread j) rows ∙ kept ∙ skip)
