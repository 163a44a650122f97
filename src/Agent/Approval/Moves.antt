-- ===== src/Agent/Approval/Moves.antt =====
-- internal/agent/hitl.go: the invariant of the approvals under each operation.
use gobot.Prelude.{
  ℕ, suc, ◌≡◌, refl, sym, subst, ◌⊎◌, inl, inr, Bool, true, false, not, ◌||◌, Option, none, some,
  String, str_eq, eq_iff, ◌==◌, arith, In, Bool-cases, Option-cases, if◌then◌else◌,
}
use gobot.Agent.Approval.{
  ApprovalStatus, approved, is_decided, is_delivery, upsert, Hitl, save_hitl_approval,
  register_waiter, release_waiter, notify_hitl_waiter, take_from, Phase, idle, registered, found,
  System, moves,
}
use gobot.Agent.Approval.Valid.{
  Owned, Good, IsValid, Grows, Grows-refl, Owned-Grows, Good-Grows, moves-Good, stays-IsValid,
}

upsert-approved :
    (status : ApprovalStatus) (old : Option ApprovalStatus)
    → upsert status old ≡ approved
    → (status ≡ approved) ⊎ (old ≡ some approved)
unfolding upsert
upsert-approved status none e = inl e
upsert-approved status (some o) e =
    elim (Bool-cases (not (is_delivery status) || not (is_decided o))) [
      | inl replaces ↦ inl (ground arith)
      | inr keeps ↦ inr (ground arith)
    ]

pub save-IsValid :
    (s : System) (g : ℕ) (p : Phase) (writes : Bool) (id : String) (status : ApprovalStatus)
    → IsValid s
    → Good s.presses s.hitl p
    → (status ≡ approved → In id s.presses)
    → IsValid (moves s g p (save_hitl_approval writes id status s.hitl))
unfolding save_hitl_approval
save-IsValid s g p false id status v good allowed = stays-IsValid s g p v good
save-IsValid s g p true id status v good allowed =
    let h' = save_hitl_approval true id status s.hitl in
    let w = Grows-refl s.presses s.hitl h' refl refl in
    record {
      rows_pressed = λ j e. elim (Bool-cases (str_eq j id)) [
        | inl here ↦
            let same : j ≡ id = ground (arith, eq_iff j id) in
            let stored : upsert status (s.hitl.rows id) ≡ approved = ground arith in
            subst (λ i. In i s.presses) (sym same)
              (elim (upsert-approved status (s.hitl.rows id) stored) [
                | inl new ↦ allowed new
                | inr old ↦ v.rows_pressed id old
              ])
        | inr away ↦ v.rows_pressed j (ground arith)
      ];
      buffers_pressed = v.buffers_pressed;
      waiters_owned = v.waiters_owned;
      all_good =
          moves-Good s g p h' s.presses v w (Good-Grows s.presses s.presses s.hitl h' p w good);
    }

pub take-IsValid :
    (s : System) (g ch : ℕ) (p : Phase)
    → IsValid s
    → Good s.presses s.hitl p
    → IsValid (moves s g p (take_from ch s.hitl))
unfolding take_from
take-IsValid s g ch p v good =
    let h' = take_from ch s.hitl in
    let w = Grows-refl s.presses s.hitl h' refl refl in
    record {
      rows_pressed = v.rows_pressed;
      buffers_pressed = λ k e. elim (Bool-cases (k == ch)) [
        | inl here ↦ ground arith
        | inr away ↦ v.buffers_pressed k (ground arith)
      ];
      waiters_owned = v.waiters_owned;
      all_good =
          moves-Good s g p h' s.presses v w (Good-Grows s.presses s.presses s.hitl h' p w good);
    }

pub notify-IsValid :
    (s : System) (g ch : ℕ) (decision : Bool)
    → IsValid s
    → Good s.presses s.hitl (found ch decision)
    → IsValid (moves s g idle (notify_hitl_waiter ch decision s.hitl))
unfolding notify_hitl_waiter
notify-IsValid s g ch decision v (lt, good) = elim (Option-cases (s.hitl.buffer ch)) [
  | inr (held, full) ↦
      let same : notify_hitl_waiter ch decision s.hitl ≡ s.hitl = ground arith in
      subst (λ h. IsValid (moves s g idle h)) (sym same) (stays-IsValid s g idle v tt)
  | inl empty ↦
      let h' : Hitl = record (s.hitl) {
        buffer = λ k. if k == ch then some decision else s.hitl.buffer k;
      } in
      let same : notify_hitl_waiter ch decision s.hitl ≡ h' = ground arith in
      let w = Grows-refl s.presses s.hitl h' refl refl in
      let valid : IsValid (moves s g idle h') = record {
        rows_pressed = v.rows_pressed;
        buffers_pressed = λ k e. elim (Bool-cases (k == ch)) [
          | inl here ↦
              let eq : k ≡ ch = ground arith in
              subst (λ c. In (s.hitl.owner c) s.presses) (sym eq) (good (ground arith))
          | inr away ↦ v.buffers_pressed k (ground arith)
        ];
        waiters_owned = v.waiters_owned;
        all_good = moves-Good s g idle h' s.presses v w tt;
      } in
      subst (λ h. IsValid (moves s g idle h)) (sym same) valid
]

pub release-IsValid :
    (s : System) (g ch : ℕ) (id : String) (p : Phase)
    → IsValid s
    → Good s.presses s.hitl p
    → IsValid (moves s g p (release_waiter id ch s.hitl))
unfolding release_waiter
release-IsValid s g ch id p v good = elim (Option-cases (s.hitl.waiters id)) [
  | inl missing ↦
      let same : release_waiter id ch s.hitl ≡ s.hitl = ground arith in
      subst (λ h. IsValid (moves s g p h)) (sym same) (stays-IsValid s g p v good)
  | inr (k, there) ↦ elim (Bool-cases (k == ch)) [
    | inr another ↦
        let same : release_waiter id ch s.hitl ≡ s.hitl = ground arith in
        subst (λ h. IsValid (moves s g p h)) (sym same) (stays-IsValid s g p v good)
    | inl own ↦
        let h' : Hitl = record (s.hitl) {
          waiters = λ j. if str_eq j id then none else s.hitl.waiters j;
        } in
        let same : release_waiter id ch s.hitl ≡ h' = ground arith in
        let w = Grows-refl s.presses s.hitl h' refl refl in
        let valid : IsValid (moves s g p h') = record {
          rows_pressed = v.rows_pressed;
          buffers_pressed = v.buffers_pressed;
          waiters_owned = λ j c e. elim (Bool-cases (str_eq j id)) [
            | inl here ↦ ground arith
            | inr away ↦ v.waiters_owned j c (ground arith)
          ];
          all_good =
              moves-Good s g p h' s.presses v w (Good-Grows s.presses s.presses s.hitl h' p w good);
        } in
        subst (λ h. IsValid (moves s g p h)) (sym same) valid
  ]
]

pub register-IsValid :
    (s : System) (g ch : ℕ) (id : String) (h : Hitl)
    → IsValid s
    → register_waiter id s.hitl ≡ some (ch, h)
    → IsValid (moves s g (registered id ch) h)
unfolding register_waiter
register-IsValid s g ch id h v e = elim (Option-cases (s.hitl.waiters id)) [
  | inr (k, there) ↦ ground arith
  | inl missing ↦
      let n = s.hitl.next in
      let h' : Hitl = record (s.hitl) {
        waiters = λ j. if str_eq j id then some n else s.hitl.waiters j;
        next = suc n;
        owner = λ k. if k == n then id else s.hitl.owner k;
        buffer = λ k. if k == n then none else s.hitl.buffer k;
      } in
      let same : ◌≡◌ {A = ℕ × Hitl} (n, h') (ch, h) = ground arith in
      let w : Grows s.presses s.presses s.hitl h' = record {
        more = omega arith;
        same = λ k lt. let ne : (k == n) ≡ false = ground arith in ground arith;
        kept = λ i there. there;
      } in
      let self : (n == n) ≡ true = ground arith in
      let mine : Owned h' id n = (ground arith, omega arith) in
      let valid : IsValid (moves s g (registered id n) h') = record {
        rows_pressed = v.rows_pressed;
        buffers_pressed = λ k q. elim (Bool-cases (k == n)) [
          | inl here ↦ ground arith
          | inr away ↦
              subst (λ o. In o s.presses) (rw away refl) (v.buffers_pressed k (ground arith))
        ];
        waiters_owned = λ j c q. elim (Bool-cases (str_eq j id)) [
          | inl here ↦
              let eq : j ≡ id = ground (arith, eq_iff j id) in
              let eqc : n ≡ c = ground arith in
              subst (λ i. Owned h' i c) (sym eq) (subst (Owned h' id) eqc mine)
          | inr away ↦
              Owned-Grows s.presses s.presses s.hitl h' j c w (v.waiters_owned j c (ground arith))
        ];
        all_good = moves-Good s g (registered id n) h' s.presses v w mine;
      } in
      subst (λ r. IsValid (moves s g (registered id r.0) r.1)) same valid
]
