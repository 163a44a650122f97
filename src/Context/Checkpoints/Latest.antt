-- ===== src/Context/Checkpoints/Latest.antt =====
-- Checkpoints: the latest row of a thread.
use gobot.Prelude.{
  ◌≡◌, refl, subst, inl, inr, true, none, some, [], ◌∷◌, String, In, In-filter, arith, Option-cases,
}
use gobot.Prelude.Int.{ℤ, leb_ℤ}
use gobot.Context.Checkpoints.{Checkpoint, Db, is_newer, order_newest, of_thread, is_of, latest}
use gobot.Context.Checkpoints.Newest.{StartsWith, Unique, In-order_newest, first-AtTop}

pub latest-first :
    (id : String) (db : Db) (c : Checkpoint)
    → StartsWith c (order_newest (of_thread id db.checkpoints))
    → latest id db ≡ some c
unfolding latest
latest-first id db c (ds, e) = rw (latest, e) refl

pub first-latest :
    (id : String) (db : Db) (c : Checkpoint)
    → latest id db ≡ some c
    → StartsWith c (order_newest (of_thread id db.checkpoints))
unfolding latest
first-latest id db c h =
    elim (order_newest (of_thread id db.checkpoints))
        as (λ l. elim l [ [] ↦ none | c ∷ cs ↦ some c ] ≡ some c → StartsWith c l) [
          | [] ↦ λ e. absurd (ground arith)
          | d ∷ ds ↦ λ e. (ds, ground arith)
        ]
      h

pub latest-none :
    (id : String) (db : Db) → latest id db ≡ none → order_newest (of_thread id db.checkpoints) ≡ []
unfolding latest
latest-none id db h =
    elim (order_newest (of_thread id db.checkpoints))
        as (λ l. elim l [ [] ↦ none | c ∷ cs ↦ some c ] ≡ none → l ≡ []) [
          | [] ↦ λ e. refl
          | d ∷ ds ↦ λ e. absurd (ground arith)
        ]
      h

newer_bounds :
    (c d : Checkpoint) (iteration : ℤ)
    → is_newer c d ≡ true
    → leb_ℤ c.iteration iteration ≡ true
    → leb_ℤ d.iteration iteration ≡ true
unfolding is_newer
newer_bounds c d iteration h le = ground arith

-- A bound on the latest iteration is one on every iteration of the thread.
pub latest-bounds :
    (id : String) (db : Db) (iteration : ℤ)
    → Unique db.checkpoints
    → ((c : Checkpoint) → latest id db ≡ some c → leb_ℤ c.iteration iteration ≡ true)
    → (d : Checkpoint) → In d (of_thread id db.checkpoints)
    → leb_ℤ d.iteration iteration ≡ true
latest-bounds id db iteration unique h d i = elim (Option-cases (latest id db)) [
  | inl e ↦ absurd (subst (In d) (latest-none id db e) (In-order_newest d _ i))
  | inr (c, e) ↦
      let unique' : Unique (of_thread id db.checkpoints) = λ a b j k.
        unique a b (In-filter (is_of id) a db.checkpoints j).0
          (In-filter (is_of id) b db.checkpoints k).0 in
      let (_, top) = first-AtTop c (of_thread id db.checkpoints) unique' (first-latest id db c e) in
      let le = h c e in
      elim (top d i) [ inl same ↦ rw same le | inr newer ↦ newer_bounds c d iteration newer le ]
]
