-- ===== src/Agent/Approval/Granted.antt =====
-- internal/agent/hitl.go: what the reachable states and the store say of an approval.
use gobot.Prelude.{
  ℕ, ◌≡◌, ◌≢◌, refl, sym, ◌∙◌, subst, inl, inr, Bool, true, false, Option, none, some, ◌∷◌, String,
  eq_iff, arith, In, if◌then◌else◌,
}
use gobot.Agent.Approval.{
  ApprovalStatus, approved, rejected, pending, sending, is_decided, is_delivery, upsert, Hitl,
  save_hitl_approval, Phase, idle, registered, announcing, waiting, rechecking, selecting, leaving,
  finished, pressed, saved, found, by_status, by_decision, System, moves, Step, register,
  read_status, announce, announced, poll_channel, recheck, receive_early, receive, fail_registered,
  fail_announcing, fail_rechecking, expire, leave, press, save, look_up, look_up_missing, notify,
  start, Reachable, begin, after,
}
use gobot.Agent.Approval.Valid.{Owned, Good, IsValid, Grows, moves-Good, stays-IsValid}
use gobot.Agent.Approval.Moves.{
  save-IsValid, take-IsValid, notify-IsValid, release-IsValid, register-IsValid,
}

by_status-Good :
    (s : System) (id : String) (ch : ℕ) (status : Option ApprovalStatus)
    → Owned s.hitl id ch
    → (status ≡ some approved → In id s.presses)
    → Good s.presses s.hitl (by_status id ch status)
unfolding by_status
by_status-Good s id ch none o h = o
by_status-Good s id ch (some approved) o h = λ e. h refl
by_status-Good s id ch (some rejected) o h = λ e. cc
by_status-Good s id ch (some pending) o h = o
by_status-Good s id ch (some sending) o h = o
by_status-Good s id ch (some (ApprovalStatus.other t)) o h = o

by_decision-Good :
    (s : System) (id : String) (ch : ℕ) (status : Option ApprovalStatus)
    → Owned s.hitl id ch
    → (status ≡ some approved → In id s.presses)
    → Good s.presses s.hitl (by_decision id ch status)
unfolding by_decision
by_decision-Good s id ch none o h = o
by_decision-Good s id ch (some approved) o h = λ e. h refl
by_decision-Good s id ch (some rejected) o h = λ e. cc
by_decision-Good s id ch (some pending) o h = o
by_decision-Good s id ch (some sending) o h = o
by_decision-Good s id ch (some (ApprovalStatus.other t)) o h = o

at-Good :
    (s : System) (g : ℕ) (p : Phase) → IsValid s → s.goroutines g ≡ p → Good s.presses s.hitl p
at-Good s g p v e = subst (Good s.presses s.hitl) e (v.all_good g)

-- What a request's own channel holds is a decision for it.
received :
    (s : System) (id : String) (ch : ℕ) (d : Bool)
    → IsValid s
    → Owned s.hitl id ch
    → s.hitl.buffer ch ≡ some d
    → Good s.presses s.hitl (leaving id ch (some d))
received s id ch d v (o, lt) held =
    λ e. subst (λ i. In i s.presses) o (v.buffers_pressed ch (held ∙ e))

press-IsValid :
    (s : System) (g : ℕ) (d : Bool) (id : String)
    → IsValid s
    → IsValid (record (moves s g (pressed id d) s.hitl) {
      presses = if d then id ∷ s.presses else s.presses;
    })
press-IsValid s g false id v = stays-IsValid s g (pressed id false) v (λ e. cc)
press-IsValid s g true id v =
    let w : Grows s.presses (id ∷ s.presses) s.hitl s.hitl = record {
      more = omega arith;
      same = λ ch lt. refl;
      kept = λ i there. inr there;
    } in
    record {
      rows_pressed = λ j e. inr (v.rows_pressed j e);
      buffers_pressed = λ ch e. inr (v.buffers_pressed ch e);
      waiters_owned = v.waiters_owned;
      all_good = moves-Good s g (pressed id true) s.hitl (id ∷ s.presses) v w (λ e. inl refl);
    }

decision-approved : (d : Bool) → (if d then approved else rejected) ≡ approved → d ≡ true
decision-approved true e = refl
decision-approved false e = cc

step-IsValid : {s s' : System} → Step s s' → IsValid s → IsValid s'
step-IsValid {s = s} (register g id ch h at e) v = register-IsValid s g ch id h v e
step-IsValid {s = s} (read_status g id ch at) v =
    stays-IsValid s g (by_status id ch (s.hitl.rows id)) v (
      by_status-Good s id ch (s.hitl.rows id) (at-Good s g (registered id ch) v at)
        (v.rows_pressed id))
step-IsValid {s = s} (announce g id ch writes at) v =
    save-IsValid s g (announcing id ch) writes id sending v (at-Good s g (announcing id ch) v at)
      (λ e. cc)
step-IsValid {s = s} (announced g id ch writes at) v =
    save-IsValid s g (waiting id ch) writes id pending v (at-Good s g (announcing id ch) v at)
      (λ e. cc)
step-IsValid {s = s} (poll_channel g id ch at empty) v =
    stays-IsValid s g (rechecking id ch) v (at-Good s g (waiting id ch) v at)
step-IsValid {s = s} (recheck g id ch at) v =
    stays-IsValid s g (by_decision id ch (s.hitl.rows id)) v (
      by_decision-Good s id ch (s.hitl.rows id) (at-Good s g (rechecking id ch) v at)
        (v.rows_pressed id))
step-IsValid {s = s} (receive_early g id ch d at held) v =
    take-IsValid s g ch (leaving id ch (some d)) v
      (received s id ch d v (at-Good s g (waiting id ch) v at) held)
step-IsValid {s = s} (receive g id ch d at held) v =
    take-IsValid s g ch (leaving id ch (some d)) v
      (received s id ch d v (at-Good s g (selecting id ch) v at) held)
step-IsValid {s = s} (fail_registered g id ch at) v =
    stays-IsValid s g (leaving id ch none) v (λ e. cc)
step-IsValid {s = s} (fail_announcing g id ch at) v =
    stays-IsValid s g (leaving id ch none) v (λ e. cc)
step-IsValid {s = s} (fail_rechecking g id ch at) v =
    stays-IsValid s g (leaving id ch none) v (λ e. cc)
step-IsValid {s = s} (expire g id ch at) v = stays-IsValid s g (leaving id ch none) v (λ e. cc)
step-IsValid {s = s} (leave g id ch verdict at) v =
    release-IsValid s g ch id (finished id verdict) v (at-Good s g (leaving id ch verdict) v at)
step-IsValid {s = s} (press g parts d id at e) v = press-IsValid s g d id v
step-IsValid {s = s} (save g id d writes at) v =
    let good = at-Good s g (pressed id d) v at in
    save-IsValid s g (saved id d) writes id (if d then approved else rejected) v good
      (λ e. good (decision-approved d e))
step-IsValid {s = s} (look_up g id d ch at there) v =
    let good = at-Good s g (saved id d) v at in
    let (o, lt) = v.waiters_owned id ch there in
    stays-IsValid s g (found ch d) v (lt, λ e. subst (λ i. In i s.presses) (sym o) (good e))
step-IsValid {s = s} (look_up_missing g id d at missing) v = stays-IsValid s g idle v tt
step-IsValid {s = s} (notify g ch d at) v =
    notify-IsValid s g ch d v (at-Good s g (found ch d) v at)

Reachable-IsValid : {s : System} → Reachable s → IsValid s
unfolding start
Reachable-IsValid begin = record {
  rows_pressed = λ id e. cc;
  buffers_pressed = λ ch e. cc;
  waiters_owned = λ id ch e. cc;
  all_good = λ g. tt;
}
Reachable-IsValid (after r step) = step-IsValid step (Reachable-IsValid r)

-- In every reachable state, a request that RequestApproval has answered with an approval is one
-- whose ID the human has pressed "approve" for, and so is every request that the store has as
-- approved.
pub Reachable-granted :
    (s : System)
    → Reachable s
    → ((g : ℕ) (id : String) → s.goroutines g ≡ finished id (some true) → In id s.presses)
      × ((id : String) → s.hitl.rows id ≡ some approved → In id s.presses)
Reachable-granted s r = (
  λ g id at. at-Good s g (finished id (some true)) (Reachable-IsValid r) at refl,
  (Reachable-IsValid r).rows_pressed,
)

upsert-decided :
    (status : ApprovalStatus) (old : Option ApprovalStatus)
    → is_decided status ≡ true
    → upsert status old ≡ status
unfolding upsert is_decided is_delivery
upsert-decided approved none h = refl
upsert-decided approved (some old) h = refl
upsert-decided rejected none h = refl
upsert-decided rejected (some old) h = refl
upsert-decided pending old h = cc
upsert-decided sending old h = cc
upsert-decided (ApprovalStatus.other t) old h = cc

-- A status of delivery, "sending" or "pending", never replaces a decision in the store, and a
-- decision that is saved is stored, whatever was there.
pub save_hitl_approval-decided :
    (id : String) (status : ApprovalStatus) (h : Hitl)
    → ((old : ApprovalStatus)
        → h.rows id ≡ some old
        → is_decided old ≡ true
        → is_delivery status ≡ true
        → (save_hitl_approval true id status h).rows id ≡ some old)
      × (is_decided status ≡ true → (save_hitl_approval true id status h).rows id ≡ some status)
      × ((other : String)
          → other ≢ id
          → (save_hitl_approval true id status h).rows other ≡ h.rows other)
unfolding save_hitl_approval upsert
save_hitl_approval-decided id status h = (
  λ old there decided delivery. ground (arith, eq_iff id id),
  λ decided. let stored = upsert-decided status (h.rows id) decided in ground (arith, eq_iff id id),
  λ other ne. ground (arith, eq_iff other id),
)
