-- ===== src/Agent/Approval/Valid.antt =====
-- internal/agent/hitl.go: the invariant of the approvals.
use gobot.Prelude.{
  ℕ, ◌<◌, ◌≤◌, ◌≡◌, refl, ap, sym, ◌∙◌, subst, inl, inr, true, some, List, String, ◌==◌, arith, In,
  Bool-cases, if◌then◌else◌,
}
use gobot.Agent.Approval.{
  approved, Hitl, Phase, idle, registered, announcing, waiting, rechecking, selecting, leaving,
  finished, pressed, saved, found, System, moves,
}

-- A channel that was made for the request.
abbrev pub Owned : Hitl → String → ℕ → Type 0
Owned h id ch = (h.owner ch ≡ id) × (ch < h.next)

-- What a goroutine has is the request's own channel, and an approval only for a pressed ID.
abbrev pub Good : List String → Hitl → Phase → Type 0
Good ps h idle = Unit {0}
Good ps h (registered id ch) = Owned h id ch
Good ps h (announcing id ch) = Owned h id ch
Good ps h (waiting id ch) = Owned h id ch
Good ps h (rechecking id ch) = Owned h id ch
Good ps h (selecting id ch) = Owned h id ch
Good ps h (leaving id ch v) = v ≡ some true → In id ps
Good ps h (finished id v) = v ≡ some true → In id ps
Good ps h (pressed id d) = d ≡ true → In id ps
Good ps h (saved id d) = d ≡ true → In id ps
Good ps h (found ch d) = (ch < h.next) × (d ≡ true → In (h.owner ch) ps)

pub record IsValid (s : System) : Type 0 where
  pub rows_pressed : (id : String) → s.hitl.rows id ≡ some approved → In id s.presses
  pub buffers_pressed : (ch : ℕ) → s.hitl.buffer ch ≡ some true → In (s.hitl.owner ch) s.presses
  pub waiters_owned : (id : String) (ch : ℕ) → s.hitl.waiters id ≡ some ch → Owned s.hitl id ch
  pub all_good : (g : ℕ) → Good s.presses s.hitl (s.goroutines g)

-- The channels that exist keep their owners, and nothing is unpressed.
pub record Grows (ps ps' : List String) (h h' : Hitl) : Type 0 where
  pub more : h.next ≤ h'.next
  pub same : (ch : ℕ) → ch < h.next → h'.owner ch ≡ h.owner ch
  pub kept : (id : String) → In id ps → In id ps'

pub Grows-refl :
    (ps : List String) (h h' : Hitl) → h'.next ≡ h.next → h'.owner ≡ h.owner → Grows ps ps h h'
Grows-refl ps h h' n o = record {
  more = omega arith;
  same = λ ch lt. ap (λ f. f ch) o;
  kept = λ id i. i;
}

pub Owned-Grows :
    (ps ps' : List String) (h h' : Hitl) (id : String) (ch : ℕ)
    → Grows ps ps' h h'
    → Owned h id ch
    → Owned h' id ch
Owned-Grows ps ps' h h' id ch w (o, lt) = let more = w.more in (w.same ch lt ∙ o, omega arith)

pub Good-Grows :
    (ps ps' : List String) (h h' : Hitl) (p : Phase)
    → Grows ps ps' h h'
    → Good ps h p
    → Good ps' h' p
Good-Grows ps ps' h h' idle w good = tt
Good-Grows ps ps' h h' (registered id ch) w good = Owned-Grows ps ps' h h' id ch w good
Good-Grows ps ps' h h' (announcing id ch) w good = Owned-Grows ps ps' h h' id ch w good
Good-Grows ps ps' h h' (waiting id ch) w good = Owned-Grows ps ps' h h' id ch w good
Good-Grows ps ps' h h' (rechecking id ch) w good = Owned-Grows ps ps' h h' id ch w good
Good-Grows ps ps' h h' (selecting id ch) w good = Owned-Grows ps ps' h h' id ch w good
Good-Grows ps ps' h h' (leaving id ch v) w good = λ e. w.kept id (good e)
Good-Grows ps ps' h h' (finished id v) w good = λ e. w.kept id (good e)
Good-Grows ps ps' h h' (pressed id d) w good = λ e. w.kept id (good e)
Good-Grows ps ps' h h' (saved id d) w good = λ e. w.kept id (good e)
Good-Grows ps ps' h h' (found ch d) w (lt, good) =
    let more = w.more in
    (omega arith, λ e. subst (λ o. In o ps') (sym (w.same ch lt)) (w.kept (h.owner ch) (good e)))

-- All goroutines stay good when one of them moves.
pub moves-Good :
    (s : System) (g : ℕ) (p : Phase) (h' : Hitl) (ps' : List String)
    → IsValid s
    → Grows s.presses ps' s.hitl h'
    → Good ps' h' p
    → (k : ℕ) → Good ps' h' (if k == g then p else s.goroutines k)
moves-Good s g p h' ps' v w good k = elim (Bool-cases (k == g)) [
  | inl here ↦ rw here good
  | inr away ↦ rw away (Good-Grows s.presses ps' s.hitl h' (s.goroutines k) w (v.all_good k))
]

-- A step that leaves the shared state alone.
pub stays-IsValid :
    (s : System) (g : ℕ) (p : Phase)
    → IsValid s
    → Good s.presses s.hitl p
    → IsValid (moves s g p s.hitl)
stays-IsValid s g p v good = record {
  rows_pressed = v.rows_pressed;
  buffers_pressed = v.buffers_pressed;
  waiters_owned = v.waiters_owned;
  all_good =
      moves-Good s g p s.hitl s.presses v (Grows-refl s.presses s.hitl s.hitl refl refl) good;
}
