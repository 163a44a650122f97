-- ===== src/Dashboard/Hub/Safe.antt =====
-- Hub: sends and closes under any sequence of operations.
use gobot.Prelude.{
  ℕ, suc, ◌≡◌, refl, sym, subst, inl, inr, true, false, Option, some, List, [], ◌∷◌, drop, arith,
  Bool-cases,
}
use gobot.Prelude.Int.{ℤ}
use gobot.Dashboard.Hub.{
  Chan, Hub, store, close_chan, new_hub, emit, push, subscribe, member, remove, unsubscribe,
  close_hub, Operation, emits, subscribes, unsubscribes, receives, closes, step, run,
}
use gobot.Dashboard.Hub.Channels.{
  IsValid, Open-same, Open-store, Open-remove, store-is_closed, for_each-send, for_each-close,
  Open-fresh, Open-member,
}

abbrev Steps {ℓ} : {A : Type ℓ} → Option (Hub A) → Type ℓ
Steps {A} r = (h : Hub A) × (r ≡ some h) × IsValid h

emit-Steps {ℓ} : {A : Type ℓ} (entry : A) (h : Hub A) → IsValid h → Steps (emit entry h)
unfolding emit
emit-Steps entry h v = elim (Bool-cases h.closed) [
  | inl shut ↦ (h, ground arith, v)
  | inr live ↦
      let (heap', done, same) = for_each-send entry h.next h.subscribers h.heap v in
      (
        record h { heap = heap'; buffer = push h.buf_size entry h.buffer },
        ground arith,
        Open-same h.heap heap' h.next h.next h.subscribers (omega arith) (λ k lt. same k) v,
      )
]

subscribe-IsValid {ℓ} : {A : Type ℓ} (h : Hub A) → IsValid h → IsValid (subscribe h).1
unfolding subscribe
subscribe-IsValid {A} h v = elim (Bool-cases h.closed) [
  | inl shut ↦ let same : (subscribe h).1 ≡ h = ground arith in subst IsValid (sym same) v
  | inr live ↦
      let new : Chan A = record { queue = []; is_closed = false } in
      let opened = record h {
        next = suc h.next;
        heap = store h.next new h.heap;
        subscribers = h.next ∷ h.subscribers;
      } in
      let same : (subscribe h).1 ≡ opened = ground arith in
      let fresh = Open-fresh h.heap h.next h.next h.subscribers (omega arith) v in
      let there = Open-store h.heap h.next h.next new h.subscribers fresh v in
      let later =
        Open-same opened.heap opened.heap h.next (suc h.next) h.subscribers (omega arith)
          (λ k lt. refl) there in
      let new_open : (opened.heap h.next).is_closed ≡ false = unfold store in ground arith in
      subst IsValid (sym same) (omega arith, new_open, fresh, later)
]

unsubscribe-Steps {ℓ} : {A : Type ℓ} (c : ℕ) (h : Hub A) → IsValid h → Steps (unsubscribe c h)
unfolding unsubscribe close_chan
unsubscribe-Steps c h v = elim (Bool-cases (member c h.subscribers)) [
  | inr absent ↦ (h, ground arith, v)
  | inl there ↦
      let is_open = Open-member h.heap h.next c h.subscribers v there in
      let (opens, gone, others) = Open-remove h.heap h.next c h.subscribers v in
      let closed_chan = record (h.heap c) { is_closed = true } in
      (
        record h { heap = store c closed_chan h.heap; subscribers = remove c h.subscribers },
        ground arith,
        Open-store h.heap h.next c closed_chan (remove c h.subscribers) gone opens,
      )
]

close_hub-Steps {ℓ} : {A : Type ℓ} (h : Hub A) → IsValid h → Steps (close_hub h)
unfolding close_hub
close_hub-Steps h v = elim (Bool-cases h.closed) [
  | inl shut ↦ (h, ground arith, v)
  | inr live ↦
      let (heap', done) = for_each-close h.next h.subscribers h.heap v in
      (record h { closed = true; heap = heap'; subscribers = []; buffer = [] }, ground arith, tt)
]

receive-IsValid {ℓ} : {A : Type ℓ} (c : ℕ) (h : Hub A) → IsValid h → Steps (step (receives c) h)
unfolding step
receive-IsValid c h v =
    let ch' = record (h.heap c) { queue = drop 1 (h.heap c).queue } in
    (
      record h { heap = store c ch' h.heap },
      refl,
      Open-same h.heap (store c ch' h.heap) h.next h.next h.subscribers (omega arith)
          (λ k lt. store-is_closed c ch' h.heap k refl) v,
    )

-- An operation on a valid hub does not panic, and leaves a valid hub.
pub step-IsValid {ℓ} :
    {A : Type ℓ} (o : Operation A) (h : Hub A)
    → IsValid h
    → (h' : Hub A) × (step o h ≡ some h') × IsValid h'
unfolding step
step-IsValid (emits entry) h v = emit-Steps entry h v
step-IsValid subscribes h v = ((subscribe h).1, refl, subscribe-IsValid h v)
step-IsValid (unsubscribes c) h v = unsubscribe-Steps c h v
step-IsValid (receives c) h v = receive-IsValid c h v
step-IsValid closes h v = close_hub-Steps h v

run-IsValid {ℓ} :
    {A : Type ℓ} (os : List (Operation A)) (h : Hub A)
    → IsValid h
    → (h' : Hub A) × (run os h ≡ some h') × IsValid h'
unfolding run
run-IsValid [] h v = (h, refl, v)
run-IsValid (o ∷ os) h v =
    let (h', steps, v') = step-IsValid o h v in
    let (last, runs, valid) = run-IsValid os h' v' in (last, ground arith, valid)

-- A new hub runs any sequence of operations, of any clients in any order, without a send on a
-- closed channel and without closing a channel twice, and every subscriber's channel is then open.
pub run-safe {ℓ} :
    {A : Type ℓ} (buffer_size : ℤ) (os : List (Operation A))
    → (h : Hub A) × (run os (new_hub buffer_size) ≡ some h) × IsValid h
unfolding new_hub
run-safe buffer_size os = run-IsValid os (new_hub buffer_size) tt
