-- ===== src/Dashboard/Hub.antt =====
-- internal/dashboard/hub.go: Hub. A channel is a number, and its queue lies on the heap that the
-- hub and its subscribers share; an operation that panics gives `none`. The mutex makes each
-- operation one step.
pub mod Channels
pub mod Safe
pub mod Backlog
use gobot.Prelude.{
  ℕ, suc, ◌+◌, ◌-◌, Bool, true, false, Option, none, some, List, [], ◌∷◌, ◌++◌, ◌==◌, ltb, leb,
  length, drop, if◌then◌else◌,
}
use gobot.Prelude.Int.{ℤ, leb_ℤ, pos, pos_part}

pub record Chan {ℓ} (A : Type ℓ) : Type ℓ where
  pub queue : List A
  pub is_closed : Bool

pub record Hub {ℓ} (A : Type ℓ) : Type ℓ where
  -- The heap: `next` is the first channel that `make` has not given out.
  pub next : ℕ
  pub heap : ℕ → Chan A
  pub subscribers : List ℕ
  pub buffer : List A
  pub buf_size : ℕ
  pub closed : Bool

unfoldable pub store {ℓ} : {A : Type ℓ} → ℕ → Chan A → (ℕ → Chan A) → ℕ → Chan A
store c ch heap k = if k == c then ch else heap k

-- `select { case sub <- entry: default: }` on a channel of capacity 100.
unfoldable pub send {ℓ} : {A : Type ℓ} → A → Chan A → Option (Chan A)
send entry ch =
    if ch.is_closed
    then none
    else if ltb (length ch.queue) 100
    then some (record ch { queue = ch.queue ++ entry ∷ [] })
    else some ch

unfoldable pub close_chan {ℓ} : {A : Type ℓ} → Chan A → Option (Chan A)
close_chan ch = if ch.is_closed then none else some (record ch { is_closed = true })

-- A loop over the subscribers that acts on each channel.
unfoldable pub for_each {ℓ} :
    {A : Type ℓ} → (Chan A → Option (Chan A)) → List ℕ → (ℕ → Chan A) → Option (ℕ → Chan A)
unfolding store
for_each act [] heap = some heap
for_each act (c ∷ cs) heap = elim (act (heap c)) [
  | none ↦ none
  | some ch ↦ for_each act cs (store c ch heap)
]

unfoldable pub new_hub {ℓ} : {A : Type ℓ} → ℤ → Hub A
new_hub buffer_size = record {
  next = 0;
  heap = λ c. record { queue = []; is_closed = false };
  subscribers = [];
  buffer = [];
  buf_size = if leb_ℤ buffer_size (pos 0) then 1000 else pos_part buffer_size;
  closed = false;
}

-- The ring buffer: the oldest entry leaves when it is full.
unfoldable pub push {ℓ} : {A : Type ℓ} → ℕ → A → List A → List A
push buf_size entry buffer =
    (if leb buf_size (length buffer) then drop 1 buffer else buffer) ++ entry ∷ []

unfoldable pub emit {ℓ} : {A : Type ℓ} → A → Hub A → Option (Hub A)
unfolding for_each send push
emit entry h = if h.closed then some h else elim (for_each (send entry) h.subscribers h.heap) [
  | none ↦ none
  | some heap' ↦ some (record h { heap = heap'; buffer = push h.buf_size entry h.buffer })
]

-- The new channel with the backlog; a closed hub gives nil.
unfoldable pub subscribe {ℓ} : {A : Type ℓ} → Hub A → Option (ℕ × List A) × Hub A
unfolding store
subscribe h = if h.closed then (none, h) else (
  some (h.next, h.buffer),
  record h {
    next = suc h.next;
    heap = store h.next (record { queue = []; is_closed = false }) h.heap;
    subscribers = h.next ∷ h.subscribers;
  },
)

unfoldable pub member : ℕ → List ℕ → Bool
member c [] = false
member c (d ∷ ds) = if d == c then true else member c ds

unfoldable pub remove : ℕ → List ℕ → List ℕ
remove c [] = []
remove c (d ∷ ds) = let rest = remove c ds in if d == c then rest else d ∷ rest

unfoldable pub unsubscribe {ℓ} : {A : Type ℓ} → ℕ → Hub A → Option (Hub A)
unfolding member remove store close_chan
unsubscribe c h =
    if member c h.subscribers
    then elim (close_chan (h.heap c)) [
      | none ↦ none
      | some ch ↦ some (record h { heap = store c ch h.heap; subscribers = remove c h.subscribers })
    ]
    else some h

unfoldable pub close_hub {ℓ} : {A : Type ℓ} → Hub A → Option (Hub A)
unfolding for_each close_chan
close_hub h = if h.closed then some h else elim (for_each close_chan h.subscribers h.heap) [
  | none ↦ none
  | some heap' ↦ some (record h { closed = true; heap = heap'; subscribers = []; buffer = [] })
]

-- What the program does with a hub; `receive` is a client that takes an entry from its channel.
pub data Operation {ℓ} (A : Type ℓ) : Type ℓ where
  emits : A → Operation A
  subscribes : Operation A
  unsubscribes : ℕ → Operation A
  receives : ℕ → Operation A
  closes : Operation A

unfoldable pub step {ℓ} : {A : Type ℓ} → Operation A → Hub A → Option (Hub A)
unfolding emit subscribe unsubscribe close_hub store
step (emits entry) h = emit entry h
step subscribes h = some (subscribe h).1
step (unsubscribes c) h = unsubscribe c h
step (receives c) h =
    let ch = h.heap c in
    some (record h { heap = store c (record ch { queue = drop 1 ch.queue }) h.heap })
step closes h = close_hub h

unfoldable pub run {ℓ} : {A : Type ℓ} → List (Operation A) → Hub A → Option (Hub A)
unfolding step
run [] h = some h
run (o ∷ os) h = elim (step o h) [ none ↦ none | some h' ↦ run os h' ]
