-- ===== src/Prelude/Lists.antt =====
-- Lists measured and indexed by native numbers, under the library's names.
use Prim.Native.Nat.{ℕ, zero, suc, ◌+◌, ◌-◌, ◌<◌, ◌≤◌}
use mathlib.Core.Logic.{◌⊎◌, inl, inr}
use mathlib.Core.Path.{◌≡◌, refl, ap, sym, ◌∙◌, subst}
use mathlib.Core.List.{List, [], ◌∷◌, ◌++◌}
use mathlib.Core.Bool.{Bool, true, false}
use gobot.Prelude.Tests.{if◌then◌else◌, Bool-cases}
use mathlib.Core.Option.{Option, none, some}
use native.Mathlib.Omega.{arith}

module _ {ℓ} {A : Type ℓ} where
  abbrev pub length : List A → ℕ
  length [] = 0
  length (x ∷ xs) = suc (length xs)

  abbrev pub get_elem? : List A → ℕ → Option A
  get_elem? [] i = none
  get_elem? (x ∷ xs) zero = some x
  get_elem? (x ∷ xs) (suc i) = get_elem? xs i

  abbrev pub get_or : List A → ℕ → A → A
  get_or [] i d = d
  get_or (x ∷ xs) zero d = x
  get_or (x ∷ xs) (suc i) d = get_or xs i d

  -- A write out of bounds changes nothing.
  abbrev pub set : List A → ℕ → A → List A
  set [] i v = []
  set (x ∷ xs) zero v = v ∷ xs
  set (x ∷ xs) (suc i) v = x ∷ set xs i v

  abbrev pub drop : ℕ → List A → List A
  drop zero xs = xs
  drop (suc n) [] = []
  drop (suc n) (x ∷ xs) = drop n xs

  abbrev pub take : ℕ → List A → List A
  take zero xs = []
  take (suc n) [] = []
  take (suc n) (x ∷ xs) = x ∷ take n xs

  abbrev pub filter : (A → Bool) → List A → List A
  filter p [] = []
  filter p (x ∷ xs) = let rest = filter p xs in if p x then x ∷ rest else rest

  abbrev pub replicate : ℕ → A → List A
  replicate zero a = []
  replicate (suc n) a = a ∷ replicate n a

  pub length-append : (xs ys : List A) → length (xs ++ ys) ≡ length xs + length ys
  length-append [] ys = omega arith
  length-append (x ∷ xs) ys = omega (arith, length-append xs ys)

module _ {ℓ} {A : Type ℓ} where
  pub length-set : (xs : List A) (i : ℕ) (v : A) → length (set xs i v) ≡ length xs
  length-set [] i v = refl
  length-set (x ∷ xs) zero v = refl
  length-set (x ∷ xs) (suc i) v = ap suc (length-set xs i v)

  pub length-replicate : (n : ℕ) (a : A) → length (replicate n a) ≡ n
  length-replicate zero a = refl
  length-replicate (suc n) a = ap suc (length-replicate n a)

  pub length-drop : (n : ℕ) (xs : List A) → length (drop n xs) ≡ length xs - n
  length-drop zero xs = omega arith
  length-drop (suc n) [] = omega arith
  length-drop (suc n) (x ∷ xs) = omega (arith, length-drop n xs)

module _ {ℓ} {A : Type ℓ} where
  -- A suffix by its first index.
  pub drop-cons :
      (i : ℕ) (xs : List A) {x : A} {ys : List A}
      → drop i xs ≡ x ∷ ys
      → (get_elem? xs i ≡ some x) × (drop (suc i) xs ≡ ys)
  drop-cons zero [] h = cc
  drop-cons zero (a ∷ xs) h = (cc, cc)
  drop-cons (suc i) [] h = cc
  drop-cons (suc i) (a ∷ xs) h = drop-cons i xs h

  pub drop-nil : (i j : ℕ) (xs : List A) → drop i xs ≡ [] → i ≤ j → get_elem? xs j ≡ none
  drop-nil zero j [] h le = refl
  drop-nil zero j (a ∷ xs) h le = cc
  drop-nil (suc i) j [] h le = refl
  drop-nil (suc i) zero (a ∷ xs) h le = absurd (omega arith)
  drop-nil (suc i) (suc j) (a ∷ xs) h le = drop-nil i j xs h (omega arith)

  pub get_or-set_self :
      (xs : List A) (i : ℕ) (v d : A) → i < length xs → get_or (set xs i v) i d ≡ v
  get_or-set_self [] i v d h = absurd (omega arith)
  get_or-set_self (x ∷ xs) zero v d h = refl
  get_or-set_self (x ∷ xs) (suc i) v d h = get_or-set_self xs i v d (omega arith)

  pub get_or-set :
      (xs : List A) (i j : ℕ) (v d : A)
      → (get_or (set xs i v) j d ≡ get_or xs j d) ⊎ ((i ≡ j) × (get_or (set xs i v) j d ≡ v))
  get_or-set [] i j v d = inl refl
  get_or-set (x ∷ xs) zero zero v d = inr (refl, refl)
  get_or-set (x ∷ xs) zero (suc j) v d = inl refl
  get_or-set (x ∷ xs) (suc i) zero v d = inl refl
  get_or-set (x ∷ xs) (suc i) (suc j) v d = elim (get_or-set xs i j v d) [
    | inl e ↦ inl e
    | inr (e, f) ↦ inr (ap suc e, f)
  ]

  pub get_elem?-lt : (xs : List A) (i : ℕ) {x : A} → get_elem? xs i ≡ some x → i < length xs
  get_elem?-lt [] i h = cc
  get_elem?-lt (a ∷ xs) zero h = omega arith
  get_elem?-lt (a ∷ xs) (suc i) h = omega (arith, get_elem?-lt xs i h)

module _ {ℓ} {A : Type ℓ} where
  -- The last `n` entries of a list.
  unfoldable pub last_of : ℕ → List A → List A
  last_of n xs = drop (length xs - n) xs

  pub drop-suc : (n : ℕ) (xs : List A) → drop 1 (drop n xs) ≡ drop (suc n) xs
  drop-suc zero xs = refl
  drop-suc (suc n) [] = refl
  drop-suc (suc n) (x ∷ xs) = drop-suc n xs

  pub drop-append : (n : ℕ) (xs ys : List A) → n ≤ length xs → drop n (xs ++ ys) ≡ drop n xs ++ ys
  drop-append zero xs ys le = refl
  drop-append (suc n) [] ys le = absurd (omega arith)
  drop-append (suc n) (x ∷ xs) ys le = drop-append n xs ys (omega arith)

  -- The lists around a place, and a write between two lists.
  pub set-append :
      (xs : List A) (y v : A) (ys : List A) → set (xs ++ y ∷ ys) (length xs) v ≡ xs ++ v ∷ ys
  set-append [] y v ys = refl
  set-append (x ∷ xs) y v ys = ap (λ r. x ∷ r) (set-append xs y v ys)

  pub drop-empty : (n : ℕ) → drop {A = A} n [] ≡ []
  drop-empty zero = refl
  drop-empty (suc n) = refl

  pub drop-length_append : (xs ys : List A) → drop (length xs) (xs ++ ys) ≡ ys
  drop-length_append [] ys = refl
  drop-length_append (x ∷ xs) ys = drop-length_append xs ys

  pub take-length_append : (xs ys : List A) → take (length xs) (xs ++ ys) ≡ xs
  take-length_append [] ys = refl
  take-length_append (x ∷ xs) ys = ap (λ r. x ∷ r) (take-length_append xs ys)

module _ {ℓ} {A : Type ℓ} where
  pub length-last_of : (n : ℕ) (xs : List A) → length (last_of n xs) ≡ length xs - (length xs - n)
  unfolding last_of
  length-last_of n xs = length-drop (length xs - n) xs

  -- One more entry: the list still has room for it, or the oldest goes.
  pub last_of-room :
      (n : ℕ) (x : A) (xs : List A)
      → length xs < n
      → last_of n (xs ++ x ∷ []) ≡ last_of n xs ++ x ∷ []
  unfolding last_of
  last_of-room n x xs lt =
      let longer = length-append xs (x ∷ []) in
      let old : length xs - n ≡ 0 = omega arith in
      let new : length (xs ++ x ∷ []) - n ≡ 0 = omega (arith, longer) in rw (old, new)

  pub last_of-full :
      (n : ℕ) (x : A) (xs : List A)
      → 1 ≤ n
      → n ≤ length xs
      → last_of n (xs ++ x ∷ []) ≡ drop 1 (last_of n xs) ++ x ∷ []
  unfolding last_of
  last_of-full n x xs pos le =
      let longer = length-append xs (x ∷ []) in
      let one_more : length (xs ++ x ∷ []) - n ≡ suc (length xs - n) = omega (arith, longer) in
      let lhs = ap (λ r. r ++ x ∷ []) (drop-suc (length xs - n) xs) in
      rw one_more (drop-append (suc (length xs - n)) xs (x ∷ []) (omega arith) ∙ sym lhs)

module _ {A : Type 0} where
  -- Membership with its place.
  abbrev pub In : A → List A → Type 0
  In x [] = ⊥
  In x (y ∷ ys) = (x ≡ y) ⊎ In x ys

  pub In-get_elem? : (x : A) (xs : List A) → In x xs → (i : ℕ) × (get_elem? xs i ≡ some x)
  In-get_elem? x [] h = absurd h
  In-get_elem? x (y ∷ ys) (inl e) = (0, cc)
  In-get_elem? x (y ∷ ys) (inr h) = let (i, e) = In-get_elem? x ys h in (suc i, e)

module _ {ℓ} {A : Type ℓ} where
  pub filter-keep :
      (p : A → Bool) (x : A) (xs : List A) → p x ≡ true → filter p (x ∷ xs) ≡ x ∷ filter p xs
  filter-keep p x xs h = rw h refl

  pub filter-skip :
      (p : A → Bool) (x : A) (xs : List A) → p x ≡ false → filter p (x ∷ xs) ≡ filter p xs
  filter-skip p x xs h = rw h refl

module _ {A : Type 0} where
  pub In-filter : (p : A → Bool) (x : A) (xs : List A) → In x (filter p xs) → In x xs × (p x ≡ true)
  In-filter p x [] h = absurd h
  In-filter p x (y ∷ ys) h = elim (Bool-cases (p y)) [
    | inl keep ↦
        let cases : (x ≡ y) ⊎ In x (filter p ys) = subst (In x) (filter-keep p y ys keep) h in
        elim cases [
          | inl e ↦ (inl e, rw e keep)
          | inr t ↦ let (i, k) = In-filter p x ys t in (inr i, k)
        ]
    | inr skip ↦
        let (i, k) = In-filter p x ys (subst (In x) (filter-skip p y ys skip) h) in (inr i, k)
  ]

  pub filter-In : (p : A → Bool) (x : A) (xs : List A) → In x xs → p x ≡ true → In x (filter p xs)
  filter-In p x [] h k = absurd h
  filter-In p x (y ∷ ys) (inl e) k = subst (In x) (sym (filter-keep p y ys (rw (sym e) k))) (inl e)
  filter-In p x (y ∷ ys) (inr h) k = elim (Bool-cases (p y)) [
    | inl keep ↦ subst (In x) (sym (filter-keep p y ys keep)) (inr (filter-In p x ys h k))
    | inr skip ↦ subst (In x) (sym (filter-skip p y ys skip)) (filter-In p x ys h k)
  ]
