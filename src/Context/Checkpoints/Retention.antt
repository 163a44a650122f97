-- ===== src/Context/Checkpoints/Retention.antt =====
-- Checkpoints: how many rows of a thread a save leaves.
use gobot.Prelude.{
  ℕ, zero, suc, ◌≤◌, ◌==◌, ◌≡◌, ◌≢◌, refl, ap, inl, inr, Bool, true, false, ◌||◌, not, List, [],
  ◌∷◌, map, String, filter, take, length, In, In-filter, if◌then◌else◌, arith, Bool-cases,
}
use gobot.Prelude.Int.{ℤ}
use gobot.Agent.Message.{Message}
use gobot.Context.Checkpoints.{
  Checkpoint, Db, Codec, Query, order_newest, of_thread, is_of, kept_ids, is_in, prune_checkpoints,
  save_snapshot, max_checkpoints_per_thread,
}
use gobot.Context.Checkpoints.Saving.{
  IsValid, Distinct, filter-Distinct, new_row, with_new-Distinct, saved-checkpoints,
}
use gobot.Context.Checkpoints.Saved.{Encodes, save_snapshot-saved}

-- A list of keys without the first of its places for one key.
abbrev without : ℕ → List ℕ → List ℕ
without k [] = []
without k (j ∷ js) = let rest = without k js in if k == j then js else j ∷ rest

length-without : (k : ℕ) (js : List ℕ) → is_in k js ≡ true → suc (length (without k js)) ≡ length js
unfolding is_in
length-without k [] h = absurd (ground arith)
length-without k (j ∷ js) h = elim (Bool-cases (k == j)) [
  | inl same ↦ ground arith
  | inr other ↦ let rest = length-without k js (ground arith) in ground arith
]

is_in-without : (k i : ℕ) (js : List ℕ) → is_in i js ≡ true → k ≢ i → is_in i (without k js) ≡ true
unfolding is_in
is_in-without k i [] h ne = absurd (ground arith)
is_in-without k i (j ∷ js) h ne = elim (Bool-cases (i == j)) [
  | inl same ↦ ground arith
  | inr other ↦ let rest = is_in-without k i js (ground arith) ne in ground arith
]

-- Rows with distinct keys out of a list of keys are not more than it.
Distinct-length :
    (cs : List Checkpoint) (js : List ℕ)
    → Distinct cs
    → ((c : Checkpoint) → In c cs → is_in c.checkpoint_id js ≡ true)
    → length cs ≤ length js
Distinct-length [] js d h = omega arith
Distinct-length (c ∷ cs) js (ne, d) h =
    let shorter = length-without c.checkpoint_id js (h c (inl refl)) in
    let rest =
      Distinct-length cs (without c.checkpoint_id js) d
        (λ e i. is_in-without c.checkpoint_id e.checkpoint_id js (h e (inr i)) (ne e i)) in
    omega arith

length-take-le {ℓ} : {A : Type ℓ} (n : ℕ) (xs : List A) → length (take n xs) ≤ n
length-take-le zero xs = omega arith
length-take-le (suc n) [] = omega arith
length-take-le (suc n) (x ∷ xs) = omega (arith, length-take-le n xs)

length-map {ℓ ℓ'} :
    {A : Type ℓ} {B : Type ℓ'} (f : A → B) (xs : List A) → length (map f xs) ≡ length xs
length-map f [] = refl
length-map f (x ∷ xs) = ap suc (length-map f xs)

kept_ids-length :
    (id : String) (cs : List Checkpoint) → length (kept_ids id cs) ≤ max_checkpoints_per_thread
unfolding kept_ids
kept_ids-length id cs = omega (
  arith,
  length-map (λ c. c.checkpoint_id) (take 10 (order_newest (of_thread id cs))),
  length-take-le 10 (order_newest (of_thread id cs)),
)

prune-length :
    (id : String) (cs : List Checkpoint)
    → Distinct cs
    → length (of_thread id (prune_checkpoints id cs)) ≤ max_checkpoints_per_thread
unfolding prune_checkpoints
prune-length id cs d =
    let keeps : Checkpoint → Bool =
      λ c. not (is_of id c) || is_in c.checkpoint_id (kept_ids id cs) in
    let in_keys : (c : Checkpoint)
        → In c (of_thread id (filter keeps cs))
        → is_in c.checkpoint_id (kept_ids id cs) ≡ true =
      λ c i.
        let (j, own) = In-filter (is_of id) c (filter keeps cs) i in
        let (_, kept) = In-filter keeps c cs j in ground (arith, own, kept) in
    let few =
      Distinct-length (of_thread id (filter keeps cs)) (kept_ids id cs)
        (filter-Distinct (is_of id) (filter keeps cs) (filter-Distinct keeps cs d)) in_keys in
    omega (arith, few, kept_ids-length id cs)

-- Where no query fails, the messages are written as a text that reads back as them and the keys are
-- valid, a save leaves at most ten rows of its thread.
pub save_snapshot-retention :
    (codec : Codec) (fails : Query → Bool) (now : ℤ) (id : String) (iteration : ℤ)
    (messages : List Message) (state : String) (db : Db)
    → ((q : Query) → fails q ≡ false)
    → Encodes codec messages state
    → IsValid db
    → length (of_thread id (save_snapshot codec fails now id iteration messages db).1.checkpoints)
      ≤ 10
save_snapshot-retention codec fails now id iteration messages state db works enc v =
    let e = save_snapshot-saved codec fails now id iteration messages state db works enc in
    let rows = saved-checkpoints codec now id iteration state db in
    let row = new_row codec id iteration state db in
    rw (e, rows)
      (prune-length id (row ∷ db.checkpoints) (with_new-Distinct codec id iteration state db v))
