-- ===== src/Context/Checkpoints/Newest.antt =====
-- Checkpoints: the row that the ordering of the queries puts first.
use gobot.Prelude.{
  ◌≡◌, refl, ap, sym, ◌∙◌, subst, ◌⊎◌, inl, inr, true, false, List, [], ◌∷◌, In, arith, Bool-cases,
}
use gobot.Context.Checkpoints.{Checkpoint, is_newer, insert_newest, order_newest}

-- `c` is among the rows, and newer than every other one.
abbrev pub AtTop : Checkpoint → List Checkpoint → Type 0
AtTop c cs = In c cs × ((d : Checkpoint) → In d cs → (d ≡ c) ⊎ (is_newer c d ≡ true))

is_newer_asym : (c d : Checkpoint) → is_newer c d ≡ true → is_newer d c ≡ false
unfolding is_newer
is_newer_asym c d h = ground arith

is_newer_trans :
    (c d e : Checkpoint) → is_newer d c ≡ false → is_newer e d ≡ false → is_newer e c ≡ false
unfolding is_newer
is_newer_trans c d e h k = ground arith

insert_newest-first :
    (c d : Checkpoint) (ds : List Checkpoint)
    → is_newer c d ≡ true
    → insert_newest c (d ∷ ds) ≡ c ∷ d ∷ ds
unfolding insert_newest
insert_newest-first c d ds h = rw h refl

insert_newest-later :
    (c d : Checkpoint) (ds : List Checkpoint)
    → is_newer c d ≡ false
    → insert_newest c (d ∷ ds) ≡ d ∷ insert_newest c ds
unfolding insert_newest
insert_newest-later c d ds h = rw h refl

insert_newest-In :
    (c d : Checkpoint) (ds : List Checkpoint) → In d (insert_newest c ds) → (d ≡ c) ⊎ In d ds
unfolding insert_newest
insert_newest-In c d [] h = h
insert_newest-In c d (e ∷ es) h = elim (Bool-cases (is_newer c e)) [
  | inl first ↦ subst (In d) (insert_newest-first c e es first) h
  | inr later ↦
      let cases : (d ≡ e) ⊎ In d (insert_newest c es) =
        subst (In d) (insert_newest-later c e es later) h in
      elim cases [
        | inl same ↦ inr (inl same)
        | inr rest ↦ elim (insert_newest-In c d es rest) [ inl s ↦ inl s | inr t ↦ inr (inr t) ]
      ]
]

pub order_newest-In : (d : Checkpoint) (cs : List Checkpoint) → In d (order_newest cs) → In d cs
unfolding order_newest
order_newest-In d [] h = h
order_newest-In d (c ∷ cs) h = elim (insert_newest-In c d (order_newest cs) h) [
  | inl s ↦ inl s
  | inr t ↦ inr (order_newest-In d cs t)
]

-- The first row of a list that ends with a rest.
abbrev pub StartsWith : Checkpoint → List Checkpoint → Type 0
StartsWith c cs = (ds : List Checkpoint) × (cs ≡ c ∷ ds)

insert-top :
    (c : Checkpoint) (ds : List Checkpoint)
    → ((d : Checkpoint) → In d ds → (d ≡ c) ⊎ (is_newer c d ≡ true))
    → StartsWith c (insert_newest c ds)
unfolding insert_newest
insert-top c [] h = ([], refl)
insert-top c (d ∷ ds) h = elim (Bool-cases (is_newer c d)) [
  | inl first ↦ (d ∷ ds, insert_newest-first c d ds first)
  | inr later ↦ elim (h d (inl refl)) [
    | inl same ↦ (
      insert_newest c ds,
      insert_newest-later c d ds later ∙ ap (λ e. e ∷ insert_newest c ds) same,
    )
    | inr newer ↦ absurd (ground arith)
  ]
]

-- The row at the top comes first in the order.
pub AtTop-first :
    (c : Checkpoint) (cs : List Checkpoint) → AtTop c cs → StartsWith c (order_newest cs)
unfolding order_newest
AtTop-first c [] (i, h) = absurd i
AtTop-first c (d ∷ ds) (inl same, h) =
    subst (λ e. StartsWith c (insert_newest e (order_newest ds))) same
      (insert-top c (order_newest ds) (λ e i. h e (inr (order_newest-In e ds i))))
AtTop-first c (d ∷ ds) (inr i, h) =
    let (es, first) = AtTop-first c ds (i, λ e j. h e (inr j)) in
    elim (h d (inl refl)) [
      | inl same ↦
          subst (λ e. StartsWith c (insert_newest e (order_newest ds))) (sym same)
            (insert-top c (order_newest ds) (λ e j. h e (inr (order_newest-In e ds j))))
      | inr newer ↦ (
        insert_newest d es,
        ap (insert_newest d) first ∙ insert_newest-later d c es (is_newer_asym c d newer),
      )
    ]

In-insert_newest :
    (c d : Checkpoint) (ds : List Checkpoint) → (d ≡ c) ⊎ In d ds → In d (insert_newest c ds)
unfolding insert_newest
In-insert_newest c d [] h = h
In-insert_newest c d (e ∷ es) h = elim (Bool-cases (is_newer c e)) [
  | inl first ↦ subst (In d) (sym (insert_newest-first c e es first)) h
  | inr later ↦
      let inside : (d ≡ e) ⊎ In d (insert_newest c es) = elim h [
        | inl same ↦ inr (In-insert_newest c d es (inl same))
        | inr (inl same) ↦ inl same
        | inr (inr rest) ↦ inr (In-insert_newest c d es (inr rest))
      ] in
      subst (In d) (sym (insert_newest-later c e es later)) inside
]

pub In-order_newest : (d : Checkpoint) (cs : List Checkpoint) → In d cs → In d (order_newest cs)
unfolding order_newest
In-order_newest d [] h = h
In-order_newest d (c ∷ cs) (inl s) = In-insert_newest c d (order_newest cs) (inl s)
In-order_newest d (c ∷ cs) (inr t) =
    In-insert_newest c d (order_newest cs) (inr (In-order_newest d cs t))

-- No row is newer than one before it.
abbrev Ordered : List Checkpoint → Type 0
Ordered [] = Unit
Ordered (c ∷ cs) = ((d : Checkpoint) → In d cs → is_newer d c ≡ false) × Ordered cs

insert_newest-Ordered :
    (c : Checkpoint) (ds : List Checkpoint) → Ordered ds → Ordered (insert_newest c ds)
unfolding insert_newest
insert_newest-Ordered c [] h = (λ d i. absurd i, tt)
insert_newest-Ordered c (d ∷ ds) (h, t) = elim (Bool-cases (is_newer c d)) [
  | inl first ↦
      let below : (e : Checkpoint) → In e (d ∷ ds) → is_newer e c ≡ false = λ e i. elim i [
        | inl same ↦ rw same (is_newer_asym c d first)
        | inr rest ↦ is_newer_trans c d e (is_newer_asym c d first) (h e rest)
      ] in
      subst Ordered (sym (insert_newest-first c d ds first)) (below, (h, t))
  | inr later ↦
      let below : (e : Checkpoint) → In e (insert_newest c ds) → is_newer e d ≡ false = λ e i.
        elim (insert_newest-In c e ds i) [ inl same ↦ rw same later | inr rest ↦ h e rest ] in
      subst Ordered (sym (insert_newest-later c d ds later)) (below, insert_newest-Ordered c ds t)
]

order_newest-Ordered : (cs : List Checkpoint) → Ordered (order_newest cs)
unfolding order_newest
order_newest-Ordered [] = tt
order_newest-Ordered (c ∷ cs) = insert_newest-Ordered c (order_newest cs) (order_newest-Ordered cs)

-- Distinct rows have distinct keys.
abbrev pub Unique : List Checkpoint → Type 0
Unique cs = (c d : Checkpoint) → In c cs → In d cs → c.checkpoint_id ≡ d.checkpoint_id → c ≡ d

same_place :
    (c d : Checkpoint)
    → is_newer d c ≡ false
    → (is_newer c d ≡ true) ⊎ (c.checkpoint_id ≡ d.checkpoint_id)
unfolding is_newer
same_place c d h = ground arith

-- The first row is at the top.
pub first-AtTop :
    (c : Checkpoint) (cs : List Checkpoint)
    → Unique cs
    → StartsWith c (order_newest cs)
    → AtTop c cs
first-AtTop c cs unique (ds, e) =
    let inside = order_newest-In c cs (subst (In c) (sym e) (inl refl)) in
    let (below, _) = subst Ordered e (order_newest-Ordered cs) in
    (
      inside,
      λ d i.
          let placed : (d ≡ c) ⊎ In d ds = subst (In d) e (In-order_newest d cs i) in
          elim placed [
            | inl same ↦ inl same
            | inr rest ↦ elim (same_place c d (below d rest)) [
              | inl newer ↦ inr newer
              | inr key ↦ inl (sym (unique c d inside i key))
            ]
          ],
    )
