-- ===== src/Agent/Approval.antt =====
-- internal/agent/hitl.go: approvals of tool calls by a human, with SaveHITLApproval of
-- internal/context/manager.go. The goroutines of requests and callbacks run interleaved: each critical section of the
-- mutex, each operation of a channel and each access of the store is one step. An approval request
-- is known by its ID, and a channel of capacity 1 by a number.
pub mod Valid
pub mod Moves
pub mod Granted
pub mod Hook
use gobot.Prelude.{
  ℕ, suc, Bool, true, false, not, ◌&&◌, ◌||◌, Option, none, some, List, [], ◌∷◌, String, str_eq,
  ◌==◌, ◌≡◌, if◌then◌else◌,
}

-- The status column: `other` is any text beside the four constants.
pub data ApprovalStatus : Type 0 where
  approved rejected pending sending : ApprovalStatus
  other : String → ApprovalStatus

unfoldable pub is_decided : ApprovalStatus → Bool
is_decided approved = true
is_decided rejected = true
is_decided _ = false

unfoldable pub is_delivery : ApprovalStatus → Bool
is_delivery pending = true
is_delivery sending = true
is_delivery _ = false

-- The upsert: a row that exists changes unless a delivery status would replace a decision.
unfoldable pub upsert : ApprovalStatus → Option ApprovalStatus → ApprovalStatus
unfolding is_delivery is_decided
upsert status none = status
upsert status (some old) = if not (is_delivery status) || not (is_decided old) then status else old

-- The store's rows, the waiters, and the channels: whose they are and what they hold.
pub record Hitl : Type 0 where
  pub rows : String → Option ApprovalStatus
  pub waiters : String → Option ℕ
  pub next : ℕ
  pub owner : ℕ → String
  pub buffer : ℕ → Option Bool

-- SaveHITLApproval, `writes` telling whether the statement is executed without an error.
unfoldable pub save_hitl_approval : Bool → String → ApprovalStatus → Hitl → Hitl
unfolding upsert
save_hitl_approval writes id status h =
    if writes
    then record h { rows = λ j. if str_eq j id then some (upsert status (h.rows id)) else h.rows j }
    else h

-- `none` is the error of a request that is already pending.
unfoldable pub register_waiter : String → Hitl → Option (ℕ × Hitl)
register_waiter id h = elim (h.waiters id) [
  | some ch ↦ none
  | none ↦ some (
    h.next,
    record h {
      waiters = λ j. if str_eq j id then some h.next else h.waiters j;
      next = suc h.next;
      owner = λ k. if k == h.next then id else h.owner k;
      buffer = λ k. if k == h.next then none else h.buffer k;
    },
  )
]

unfoldable pub release_waiter : String → ℕ → Hitl → Hitl
release_waiter id ch h = elim (h.waiters id) [
  | none ↦ h
  | some k ↦
      if k == ch then record h { waiters = λ j. if str_eq j id then none else h.waiters j } else h
]

-- A full channel keeps what it holds.
unfoldable pub notify_hitl_waiter : ℕ → Bool → Hitl → Hitl
notify_hitl_waiter ch decision h = elim (h.buffer ch) [
  | some held ↦ h
  | none ↦ record h { buffer = λ k. if k == ch then some decision else h.buffer k }
]

unfoldable pub take_from : ℕ → Hitl → Hitl
take_from ch h = record h { buffer = λ k. if k == ch then none else h.buffer k }

-- The action and the request ID of a callback's data, split at its colons; `none` is ignored.
unfoldable pub parse_callback : List String → Option (Bool × String)
parse_callback [] = none
parse_callback (prefix ∷ []) = none
parse_callback (prefix ∷ action ∷ []) = none
parse_callback (prefix ∷ action ∷ id ∷ rest) =
    if str_eq prefix "hitl" then some (str_eq action "approve", id) else none

-- Where a goroutine stands in RequestApproval, where a verdict of `none` is an error, or in
-- HandleCallback: before the save, before the lookup of the waiter and before the notification.
pub data Phase : Type 0 where
  idle : Phase
  registered announcing waiting rechecking selecting : String → ℕ → Phase
  leaving : String → ℕ → Option Bool → Phase
  finished : String → Option Bool → Phase
  pressed saved : String → Bool → Phase
  found : ℕ → Bool → Phase

-- The switch on the status after the waiter is registered; `none` is no row.
unfoldable pub by_status : String → ℕ → Option ApprovalStatus → Phase
by_status id ch (some approved) = leaving id ch (some true)
by_status id ch (some rejected) = leaving id ch (some false)
by_status id ch (some pending) = waiting id ch
by_status id ch (some sending) = announcing id ch
by_status id ch (some (ApprovalStatus.other _)) = announcing id ch
by_status id ch none = announcing id ch

-- The second reading of the status, in waitForApproval.
unfoldable pub by_decision : String → ℕ → Option ApprovalStatus → Phase
by_decision id ch (some approved) = leaving id ch (some true)
by_decision id ch (some rejected) = leaving id ch (some false)
by_decision id ch (some pending) = selecting id ch
by_decision id ch (some sending) = selecting id ch
by_decision id ch (some (ApprovalStatus.other _)) = selecting id ch
by_decision id ch none = selecting id ch

-- The goroutines by number, and the IDs that the human has pressed "approve" for.
pub record System : Type 0 where
  pub hitl : Hitl
  pub goroutines : ℕ → Phase
  pub presses : List String

abbrev pub moves : System → ℕ → Phase → Hitl → System
moves s g phase h = record s {
  hitl = h;
  goroutines = λ k. if k == g then phase else s.goroutines k;
}

pub data Step : System → System → Type 0 where
  register :
      {s : System} (g : ℕ) (id : String) (ch : ℕ) (h : Hitl)
      → s.goroutines g ≡ idle
      → register_waiter id s.hitl ≡ some (ch, h)
      → Step s (moves s g (registered id ch) h)
  read_status :
      {s : System} (g : ℕ) (id : String) (ch : ℕ)
      → s.goroutines g ≡ registered id ch
      → Step s (moves s g (by_status id ch (s.hitl.rows id)) s.hitl)
  -- The statuses "sending" and "pending" around a message that is sent.
  announce :
      {s : System} (g : ℕ) (id : String) (ch : ℕ) (writes : Bool)
      → s.goroutines g ≡ announcing id ch
      → Step s (moves s g (announcing id ch) (save_hitl_approval writes id sending s.hitl))
  announced :
      {s : System} (g : ℕ) (id : String) (ch : ℕ) (writes : Bool)
      → s.goroutines g ≡ announcing id ch
      → Step s (moves s g (waiting id ch) (save_hitl_approval writes id pending s.hitl))
  poll_channel :
      {s : System} (g : ℕ) (id : String) (ch : ℕ)
      → s.goroutines g ≡ waiting id ch
      → s.hitl.buffer ch ≡ none
      → Step s (moves s g (rechecking id ch) s.hitl)
  recheck :
      {s : System} (g : ℕ) (id : String) (ch : ℕ)
      → s.goroutines g ≡ rechecking id ch
      → Step s (moves s g (by_decision id ch (s.hitl.rows id)) s.hitl)
  receive_early :
      {s : System} (g : ℕ) (id : String) (ch : ℕ) (decision : Bool)
      → s.goroutines g ≡ waiting id ch
      → s.hitl.buffer ch ≡ some decision
      → Step s (moves s g (leaving id ch (some decision)) (take_from ch s.hitl))
  receive :
      {s : System} (g : ℕ) (id : String) (ch : ℕ) (decision : Bool)
      → s.goroutines g ≡ selecting id ch
      → s.hitl.buffer ch ≡ some decision
      → Step s (moves s g (leaving id ch (some decision)) (take_from ch s.hitl))
  -- A status that cannot be read, a message that cannot be sent, the context or the timer: an error.
  fail_registered :
      {s : System} (g : ℕ) (id : String) (ch : ℕ)
      → s.goroutines g ≡ registered id ch
      → Step s (moves s g (leaving id ch none) s.hitl)
  fail_announcing :
      {s : System} (g : ℕ) (id : String) (ch : ℕ)
      → s.goroutines g ≡ announcing id ch
      → Step s (moves s g (leaving id ch none) s.hitl)
  fail_rechecking :
      {s : System} (g : ℕ) (id : String) (ch : ℕ)
      → s.goroutines g ≡ rechecking id ch
      → Step s (moves s g (leaving id ch none) s.hitl)
  expire :
      {s : System} (g : ℕ) (id : String) (ch : ℕ)
      → s.goroutines g ≡ selecting id ch
      → Step s (moves s g (leaving id ch none) s.hitl)
  leave :
      {s : System} (g : ℕ) (id : String) (ch : ℕ) (verdict : Option Bool)
      → s.goroutines g ≡ leaving id ch verdict
      → Step s (moves s g (finished id verdict) (release_waiter id ch s.hitl))
  press :
      {s : System} (g : ℕ) (parts : List String) (decision : Bool) (id : String)
      → s.goroutines g ≡ idle
      → parse_callback parts ≡ some (decision, id)
      → Step s (record (moves s g (pressed id decision) s.hitl) {
        presses = if decision then id ∷ s.presses else s.presses;
      })
  save :
      {s : System} (g : ℕ) (id : String) (decision writes : Bool)
      → s.goroutines g ≡ pressed id decision
      → Step s (
          moves s g
            (saved id decision)
            (save_hitl_approval writes id (if decision then approved else rejected) s.hitl))
  look_up :
      {s : System} (g : ℕ) (id : String) (decision : Bool) (ch : ℕ)
      → s.goroutines g ≡ saved id decision
      → s.hitl.waiters id ≡ some ch
      → Step s (moves s g (found ch decision) s.hitl)
  look_up_missing :
      {s : System} (g : ℕ) (id : String) (decision : Bool)
      → s.goroutines g ≡ saved id decision
      → s.hitl.waiters id ≡ none
      → Step s (moves s g idle s.hitl)
  notify :
      {s : System} (g ch : ℕ) (decision : Bool)
      → s.goroutines g ≡ found ch decision
      → Step s (moves s g idle (notify_hitl_waiter ch decision s.hitl))

unfoldable pub start : System
start = record {
  hitl = record {
    rows = λ id. none;
    waiters = λ id. none;
    next = 0;
    owner = λ k. "";
    buffer = λ k. none;
  };
  goroutines = λ g. idle;
  presses = [];
}

pub data Reachable : System → Type 0 where
  begin : Reachable start
  after : {s s' : System} → Reachable s → Step s s' → Reachable s'
