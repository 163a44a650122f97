-- ===== src/Context/Checkpoints/Saving.antt =====
-- Checkpoints: what a thread loads to after a save.
use gobot.Prelude.{
  suc, ◌<◌, ◌==◌, ◌≡◌, ◌≢◌, refl, ap, sym, ◌∙◌, subst, inl, inr, Bool, true, false, ◌||◌, not, some,
  List, [], ◌∷◌, String, str_eq, eq_iff, filter, In, In-filter, filter-In, filter-keep, filter-skip,
  arith, Bool-cases, Option-cases,
}
use gobot.Prelude.Int.{ℤ}
use gobot.Agent.Message.{Message}
use gobot.Context.Checkpoints.{
  Checkpoint, Db, Codec, Query, order_newest, of_thread, is_of, kept_ids, is_in, prune_checkpoints,
  touch_thread, saved, is_completed, with_thread,
}
use gobot.Context.Checkpoints.Newest.{AtTop, StartsWith, Unique, AtTop-first}

-- No key stands twice.
abbrev pub Distinct : List Checkpoint → Type 0
Distinct [] = Unit
Distinct (c ∷ cs) = ((d : Checkpoint) → In d cs → c.checkpoint_id ≢ d.checkpoint_id) × Distinct cs

-- Keys are given once, each below the next one.
pub record IsValid (db : Db) : Type 0 where
  pub below : (c : Checkpoint) → In c db.checkpoints → c.checkpoint_id < db.next_id
  pub distinct : Distinct db.checkpoints

pub Distinct-Unique : (cs : List Checkpoint) → Distinct cs → Unique cs
Distinct-Unique [] h c d i j e = absurd i
Distinct-Unique (x ∷ xs) (h, t) c d (inl a) (inl b) e = a ∙ sym b
Distinct-Unique (x ∷ xs) (h, t) c d (inl a) (inr b) e =
    absurd (h d b (sym (ap (λ r. r.checkpoint_id) a) ∙ e))
Distinct-Unique (x ∷ xs) (h, t) c d (inr a) (inl b) e =
    absurd (h c a (sym (ap (λ r. r.checkpoint_id) b) ∙ sym e))
Distinct-Unique (x ∷ xs) (h, t) c d (inr a) (inr b) e = Distinct-Unique xs t c d a b e

pub filter-Distinct :
    (p : Checkpoint → Bool) (cs : List Checkpoint) → Distinct cs → Distinct (filter p cs)
filter-Distinct p [] h = tt
filter-Distinct p (c ∷ cs) (h, t) = elim (Bool-cases (p c)) [
  | inl keep ↦
      subst Distinct (sym (filter-keep p c cs keep))
        (λ d i. h d (In-filter p d cs i).0, filter-Distinct p cs t)
  | inr skip ↦ subst Distinct (sym (filter-skip p c cs skip)) (filter-Distinct p cs t)
]

-- The row that a save inserts.
abbrev pub new_row : Codec → String → ℤ → String → Db → Checkpoint
new_row codec id iteration state db = record {
  checkpoint_id = db.next_id;
  thread_id = id;
  iteration = iteration;
  state = state;
  checksum = some (codec.checksum state);
}

kept-first :
    (id : String) (c : Checkpoint) (cs : List Checkpoint)
    → StartsWith c (order_newest (of_thread id cs))
    → is_in c.checkpoint_id (kept_ids id cs) ≡ true
unfolding kept_ids is_in
kept-first id c cs (ds, e) =
    let same : (c.checkpoint_id == c.checkpoint_id) ≡ true = ground arith in rw (e, same) refl

-- The prune leaves the top row of the thread where it is.
pub prune-AtTop :
    (id : String) (c : Checkpoint) (cs : List Checkpoint)
    → AtTop c (of_thread id cs)
    → AtTop c (of_thread id (prune_checkpoints id cs))
unfolding prune_checkpoints
prune-AtTop id c cs (i, h) =
    let (present, own) = In-filter (is_of id) c cs i in
    let keeps : Checkpoint → Bool =
      λ c. not (is_of id c) || is_in c.checkpoint_id (kept_ids id cs) in
    let kept = kept-first id c cs (AtTop-first c (of_thread id cs) (i, h)) in
    let stays : keeps c ≡ true = ground arith in
    (
      filter-In (is_of id) c (filter keeps cs) (filter-In keeps c cs present stays) own,
      λ d j.
          let (k, own') = In-filter (is_of id) d (filter keeps cs) j in
          h d (filter-In (is_of id) d cs (In-filter keeps d cs k).0 own'),
    )

-- Other threads keep their rows.
pub prune-other :
    (id j : String) (cs ds : List Checkpoint)
    → str_eq id j ≡ false
    → of_thread j (filter (λ c. not (is_of id c) || is_in c.checkpoint_id (kept_ids id ds)) cs)
      ≡ of_thread j cs
prune-other id j [] ds ne = refl
prune-other id j (c ∷ cs) ds ne =
    let rest = prune-other id j cs ds ne in
    let apart : is_of id c ≡ true → is_of j c ≡ false =
      λ h. ground (arith, eq_iff c.thread_id id, eq_iff c.thread_id j, eq_iff id j) in
    elim (Bool-cases (is_of id c)) [
      | inl own ↦ ground (arith, apart own)
      | inr other ↦ ground arith
    ]

touch-checkpoints :
    (now : ℤ) (id : String) (db : Db) → (touch_thread now id db).checkpoints ≡ db.checkpoints
unfolding touch_thread
touch-checkpoints now id db = elim (Option-cases (db.threads id)) [
  | inl missing ↦ ground arith
  | inr (t, e) ↦ ground arith
]

touch-next_id : (now : ℤ) (id : String) (db : Db) → (touch_thread now id db).next_id ≡ db.next_id
unfolding touch_thread
touch-next_id now id db = elim (Option-cases (db.threads id)) [
  | inl missing ↦ ground arith
  | inr (t, e) ↦ ground arith
]

-- The database within the transaction, before the thread is touched.
abbrev pub pruned : Codec → String → ℤ → String → Db → Db
pruned codec id iteration state db = record db {
  checkpoints = prune_checkpoints id (new_row codec id iteration state db ∷ db.checkpoints);
  next_id = suc db.next_id;
}

pub saved-checkpoints :
    (codec : Codec) (now : ℤ) (id : String) (iteration : ℤ) (state : String) (db : Db)
    → (saved codec now id iteration state db).checkpoints
      ≡ prune_checkpoints id (new_row codec id iteration state db ∷ db.checkpoints)
unfolding saved
saved-checkpoints codec now id iteration state db =
    touch-checkpoints now id (pruned codec id iteration state db)

pub with_new-Distinct :
    (codec : Codec) (id : String) (iteration : ℤ) (state : String) (db : Db)
    → IsValid db
    → Distinct (new_row codec id iteration state db ∷ db.checkpoints)
with_new-Distinct codec id iteration state db v =
    (λ d i e. let lt = v.below d i in absurd (omega arith), v.distinct)

pub prune-In :
    (id : String) (c : Checkpoint) (cs : List Checkpoint) → In c (prune_checkpoints id cs) → In c cs
unfolding prune_checkpoints
prune-In id c cs i = (In-filter _ c cs i).0

prune-Distinct :
    (id : String) (cs : List Checkpoint) → Distinct cs → Distinct (prune_checkpoints id cs)
unfolding prune_checkpoints
prune-Distinct id cs h = filter-Distinct _ cs h

-- A save keeps the keys distinct and below the next one.
pub saved-IsValid :
    (codec : Codec) (now : ℤ) (id : String) (iteration : ℤ) (state : String) (db : Db)
    → IsValid db
    → IsValid (saved codec now id iteration state db)
saved-IsValid codec now id iteration state db v =
    let row = new_row codec id iteration state db in
    let rows = saved-checkpoints codec now id iteration state db in
    let back : (c : Checkpoint)
        → In c (saved codec now id iteration state db).checkpoints
        → In c (row ∷ db.checkpoints) =
      λ c i. prune-In id c (row ∷ db.checkpoints) (subst (In c) rows i) in
    let next : (saved codec now id iteration state db).next_id ≡ suc db.next_id =
      unfold saved in touch-next_id now id (pruned codec id iteration state db) in
    record {
      below = λ c i. elim (back c i) [
        | inl same ↦ omega (arith, next, ap (λ r. r.checkpoint_id) same)
        | inr old ↦ omega (arith, next, v.below c old)
      ];
      distinct = subst Distinct (sym rows) (
          prune-Distinct id (row ∷ db.checkpoints)
            (with_new-Distinct codec id iteration state db v));
    }

-- A thread's status, model and metadata, which a save leaves alone.
abbrev pub SameThread : String → Db → Db → Type 0
SameThread j a b =
    ((fails : Query → Bool) → is_completed fails j a ≡ is_completed fails j b)
    × ((codec : Codec) (fails : Query → Bool) (iteration : ℤ) (messages : List Message)
        → with_thread codec fails j a iteration messages
          ≡ with_thread codec fails j b iteration messages)

pub touch-SameThread :
    (now : ℤ) (id j : String) (db : Db) → SameThread j (touch_thread now id db) db
unfolding touch_thread is_completed with_thread
touch-SameThread now id j db = elim (Option-cases (db.threads id)) [
  | inl missing ↦ (λ f. ground arith, λ c f i m. ground arith)
  | inr (t, e) ↦ elim (Bool-cases (str_eq j id)) [
    | inl same ↦
        let here : db.threads j ≡ some t = ground (arith, eq_iff j id) in
        (λ f. ground arith, λ c f i m. ground arith)
    | inr other ↦ (λ f. ground arith, λ c f i m. ground arith)
  ]
]
