-- ===== src/Dashboard/Hub/Channels.antt =====
-- Hub: the channels of its subscribers.
use gobot.Prelude.{
  ℕ, ◌<◌, ◌≤◌, ◌≡◌, refl, ap, sym, ◌∙◌, subst, inl, inr, true, false, some, List, [], ◌∷◌, ◌++◌,
  ◌==◌, ltb, length, if◌then◌else◌, arith, Bool-cases,
}
use gobot.Dashboard.Hub.{Chan, Hub, store, send, close_chan, for_each, member, remove}

-- The channels are different, have been given out and are open.
abbrev pub Open {ℓ} : {A : Type ℓ} → (ℕ → Chan A) → ℕ → List ℕ → Type 0
Open heap next [] = Unit {0}
Open heap next (c ∷ cs) =
    (c < next) × ((heap c).is_closed ≡ false) × (member c cs ≡ false) × Open heap next cs

abbrev pub IsValid {ℓ} : {A : Type ℓ} → Hub A → Type 0
IsValid h = Open h.heap h.next h.subscribers

pub Open-same {ℓ} :
    {A : Type ℓ} (heap heap' : ℕ → Chan A) (next next' : ℕ) (cs : List ℕ)
    → next ≤ next'
    → ((k : ℕ) → k < next → (heap' k).is_closed ≡ (heap k).is_closed)
    → Open heap next cs
    → Open heap' next' cs
Open-same heap heap' next next' [] le same h = tt
Open-same heap heap' next next' (c ∷ cs) le same (lt, o, fresh, h) =
    (omega arith, same c lt ∙ o, fresh, Open-same heap heap' next next' cs le same h)

pub Open-store {ℓ} :
    {A : Type ℓ} (heap : ℕ → Chan A) (next c : ℕ) (ch : Chan A) (cs : List ℕ)
    → member c cs ≡ false
    → Open heap next cs
    → Open (store c ch heap) next cs
unfolding store member
Open-store heap next c ch [] m h = tt
Open-store heap next c ch (d ∷ cs) m (lt, o, fresh, h) =
    (lt, ground arith, fresh, Open-store heap next c ch cs (ground arith) h)

pub Open-remove {ℓ} :
    {A : Type ℓ} (heap : ℕ → Chan A) (next c : ℕ) (cs : List ℕ)
    → Open heap next cs
    → Open heap next (remove c cs)
      × (member c (remove c cs) ≡ false)
      × ((k : ℕ) → member k cs ≡ false → member k (remove c cs) ≡ false)
unfolding remove member
Open-remove heap next c [] h = (tt, refl, λ k e. e)
Open-remove heap next c (d ∷ cs) (lt, o, fresh, h) =
    let (opens, gone, others) = Open-remove heap next c cs h in
    elim (Bool-cases (d == c)) [
      | inl here ↦ (ground arith, ground arith, λ k e. ground (arith, others k))
      | inr away ↦
          let same : remove c (d ∷ cs) ≡ d ∷ remove c cs = ground arith in
          let there : Open heap next (d ∷ remove c cs) = (lt, o, others d fresh, opens) in
          (subst (Open heap next) (sym same) there, ground arith, λ k e. ground (arith, others k))
    ]

pub store-is_closed {ℓ} :
    {A : Type ℓ} (c : ℕ) (ch : Chan A) (heap : ℕ → Chan A) (k : ℕ)
    → ch.is_closed ≡ (heap c).is_closed
    → (store c ch heap k).is_closed ≡ (heap k).is_closed
unfolding store
store-is_closed c ch heap k e = elim (Bool-cases (k == c)) [
  | inl same ↦ let eq : k ≡ c = ground arith in ground (arith, ap (λ x. (heap x).is_closed) eq)
  | inr other ↦ ground arith
]

pub for_each-send {ℓ} :
    {A : Type ℓ} (entry : A) (next : ℕ) (cs : List ℕ) (heap : ℕ → Chan A)
    → Open heap next cs
    → (heap' : ℕ → Chan A) × (for_each (send entry) cs heap ≡ some heap')
      × ((k : ℕ) → (heap' k).is_closed ≡ (heap k).is_closed)
unfolding for_each send
for_each-send entry next [] heap h = (heap, refl, λ k. refl)
for_each-send entry next (c ∷ cs) heap (lt, o, fresh, h) =
    let ch' =
      if ltb (length (heap c).queue) 100
      then record (heap c) { queue = (heap c).queue ++ entry ∷ [] }
      else heap c in
    let sends : send entry (heap c) ≡ some ch' = ground arith in
    let still : ch'.is_closed ≡ false = ground arith in
    let (heap', done, same) =
      for_each-send entry next cs (store c ch' heap) (Open-store heap next c ch' cs fresh h) in
    (heap', ground arith, λ k. same k ∙ store-is_closed c ch' heap k (still ∙ sym o))

pub for_each-close {ℓ} :
    {A : Type ℓ} (next : ℕ) (cs : List ℕ) (heap : ℕ → Chan A)
    → Open heap next cs
    → (heap' : ℕ → Chan A) × (for_each close_chan cs heap ≡ some heap')
unfolding for_each close_chan
for_each-close next [] heap h = (heap, refl)
for_each-close next (c ∷ cs) heap (lt, o, fresh, h) =
    let ch' = record (heap c) { is_closed = true } in
    let closes_it : close_chan (heap c) ≡ some ch' = ground arith in
    let (heap', done) =
      for_each-close next cs (store c ch' heap) (Open-store heap next c ch' cs fresh h) in
    (heap', ground arith)

pub Open-fresh {ℓ} :
    {A : Type ℓ} (heap : ℕ → Chan A) (next bound : ℕ) (cs : List ℕ)
    → next ≤ bound
    → Open heap next cs
    → member bound cs ≡ false
unfolding member
Open-fresh heap next bound [] le h = refl
Open-fresh heap next bound (c ∷ cs) le (lt, o, fresh, h) =
    let differs : (c == bound) ≡ false = ground arith in
    ground (arith, Open-fresh heap next bound cs le h)

pub Open-member {ℓ} :
    {A : Type ℓ} (heap : ℕ → Chan A) (next c : ℕ) (cs : List ℕ)
    → Open heap next cs
    → member c cs ≡ true
    → (heap c).is_closed ≡ false
unfolding member
Open-member heap next c [] h m = cc
Open-member heap next c (d ∷ cs) (lt, o, fresh, h) m = elim (Bool-cases (d == c)) [
  | inl here ↦ let same : d ≡ c = ground arith in subst (λ k. (heap k).is_closed ≡ false) same o
  | inr away ↦ Open-member heap next c cs h (ground arith)
]
