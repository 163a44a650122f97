-- ===== src/Agent/Pruning/Exact.antt =====
-- PruneMessages: exactly which messages stay.
use gobot.Prelude.{
  ◌≡◌, ◌≢◌, refl, ap, ◌∙◌, ◌⊎◌, inl, inr, Bool, true, false, Option, none, some, List, [], ◌∷◌,
  ◌++◌, String, str_eq, eq_iff, arith, Bool-cases, Option-cases, replicate, length,
  length-replicate,
}
use mathlib.Core.List.{Perm}
use gobot.Prelude.Int.{ℤ, pos, leb_ℤ, ltb_ℤ, ◌-ℤ◌, ◌≤ℤ◌, ◌<ℤ◌}
use gobot.Agent.Message.{Message, is_assistant}
use gobot.Agent.Compaction.{Pruning, select, apply_keep_last_assistants}
use gobot.Agent.Compaction.Select.{length-apply_keep_last}
use gobot.Agent.Pruning.{
  mark_leading_assistants_dropped, parse_ttl, survives_cutoff, apply_ttl_pruning, prune_marks,
  prune_messages,
}
use gobot.Agent.Pruning.Laws.{StartsWithoutAssistant, leading-StartsWithoutAssistant, prune-perm}

abbrev pub AllAssistants : List Message → Type 0
AllAssistants [] = Unit {0}
AllAssistants (m ∷ ms) = (is_assistant m.role ≡ true) × AllAssistants ms

-- The leading run of assistant turns of the marked messages is what loses its marks.
leading-append :
    (ms : List Message) (keep : List Bool)
    → (lead : List Message) × (select ms keep
        ≡ lead ++ select ms (mark_leading_assistants_dropped ms keep))
      × AllAssistants lead
unfolding select mark_leading_assistants_dropped
leading-append [] keep = ([], refl, tt)
leading-append (m ∷ ms) [] = ([], refl, tt)
leading-append (m ∷ ms) (false ∷ keep) = leading-append ms keep
leading-append (m ∷ ms) (true ∷ keep) = elim (Bool-cases (is_assistant m.role)) [
  | inl call ↦
      let (lead, e, all) = leading-append ms keep in
      (m ∷ lead, rw call (ap (λ l. m ∷ l) e), (call, all))
  | inr no_call ↦ ([], rw no_call refl, tt)
]

module _ (parse_rfc3339 : String → Option ℤ) where
  -- Without a time that can be read, a message does not age.
  abbrev pub IsYoung : ℤ → Message → Type 0
  IsYoung cutoff m =
      (m.created_at ≡ "")
      ⊎ (parse_rfc3339 m.created_at ≡ none)
      ⊎ ((t : ℤ) × (parse_rfc3339 m.created_at ≡ some t) × (cutoff <ℤ t))

  abbrev pub IsOld : ℤ → Message → Type 0
  IsOld cutoff m =
      (m.created_at ≢ "") × ((t : ℤ) × (parse_rfc3339 m.created_at ≡ some t) × (t ≤ℤ cutoff))

  -- The messages, in order, that are young or have a mark; the others are old and have none.
  pub data Survivors (cutoff : ℤ) : List Message → List Bool → List Message → Type 0 where
    nil : Survivors cutoff [] [] []
    stays :
        {m : Message} {k : Bool} {ms ws : List Message} {keep : List Bool}
        → IsYoung cutoff m ⊎ (k ≡ true)
        → Survivors cutoff ms keep ws
        → Survivors cutoff (m ∷ ms) (k ∷ keep) (m ∷ ws)
    goes :
        {m : Message} {k : Bool} {ms ws : List Message} {keep : List Bool}
        → IsOld cutoff m
        → k ≡ false
        → Survivors cutoff ms keep ws
        → Survivors cutoff (m ∷ ms) (k ∷ keep) ws

module _ (parse_duration : String → Option ℤ) (parse_rfc3339 : String → Option ℤ) where
  age-cases :
      (cutoff : ℤ) (m : Message)
      → ((survives_cutoff parse_duration parse_rfc3339 cutoff m ≡ true)
          × IsYoung parse_rfc3339 cutoff m)
        ⊎ ((survives_cutoff parse_duration parse_rfc3339 cutoff m ≡ false)
            × IsOld parse_rfc3339 cutoff m)
  unfolding survives_cutoff
  age-cases cutoff m = elim (Bool-cases (str_eq m.created_at "")) [
    | inl blank ↦ inl (rw (survives_cutoff, blank) refl, inl ((eq_iff m.created_at "").0 blank))
    | inr dated ↦ elim (Option-cases (parse_rfc3339 m.created_at)) [
      | inl bad ↦ inl (rw (survives_cutoff, dated, bad) refl, inr (inl bad))
      | inr (t, read) ↦ elim (Bool-cases (ltb_ℤ cutoff t)) [
        | inl newer ↦
            inl (rw (survives_cutoff, dated, read, newer) refl, inr (inr (t, read, ground arith)))
        | inr older ↦
            let not_blank : m.created_at ≢ "" = λ e. ground (arith, eq_iff m.created_at "") in
            let old : IsOld parse_rfc3339 cutoff m = (not_blank, (t, read, ground arith)) in
            inr (rw (survives_cutoff, dated, read, older) refl, old)
      ]
    ]
  ]

  ttl-Survivors :
      (cutoff : ℤ) (ms : List Message) (keep : List Bool)
      → length keep ≡ length ms
      → Survivors parse_rfc3339 cutoff ms keep
          (select ms (apply_ttl_pruning parse_duration parse_rfc3339 ms keep cutoff))
  unfolding select apply_ttl_pruning
  ttl-Survivors cutoff [] [] len = Survivors.nil
  ttl-Survivors cutoff [] (k ∷ keep) len = absurd (omega arith)
  ttl-Survivors cutoff (m ∷ ms) [] len = absurd (omega arith)
  ttl-Survivors cutoff (m ∷ ms) (k ∷ keep) len =
      let rest = ttl-Survivors cutoff ms keep (omega arith) in
      elim (age-cases cutoff m) [
        | inl (stay, young) ↦ rw stay (Survivors.stays (inl young) rest)
        | inr (go, old) ↦ elim (Bool-cases k) [
          | inl marked ↦ rw (go, marked) (Survivors.stays (inr refl) rest)
          | inr bare ↦ rw (go, bare) (Survivors.goes old refl rest)
        ]
      ]

  prune-positive :
      (ms : List Message) (cfg : Pruning) (now ttl : ℤ)
      → parse_ttl parse_duration parse_rfc3339 cfg.ttl ≡ some ttl
      → pos 0 <ℤ ttl
      → (prune_messages parse_duration parse_rfc3339 ms cfg now).0
        ≡ select ms
            (prune_marks parse_duration parse_rfc3339 ms (now -ℤ ttl) cfg.keep_last_assistants)
  unfolding prune_messages parse_ttl
  prune-positive ms cfg now ttl parsed positive = elim (Bool-cases (str_eq cfg.ttl "")) [
    | inl blank ↦ absurd (ground arith)
    | inr set_ttl ↦
        let later : leb_ℤ ttl (pos 0) ≡ false = ground arith in
        let read : parse_duration cfg.ttl ≡ some ttl = rw set_ttl at parsed in
        rw (set_ttl, read, later) refl
  ]

  -- Under a TTL that parses to a positive duration, the survivors of a history are the messages that
  -- are younger than the TTL, have no time that can be read, or are marked by
  -- applyKeepLastAssistants, in order, and no others. What stays is the survivors less their leading
  -- run of assistant turns, and it does not begin with one; what is dropped is the rest of the
  -- history, each message as often as it is there.
  pub prune-Survivors :
      (ms : List Message) (cfg : Pruning) (now ttl : ℤ)
      → parse_ttl parse_duration parse_rfc3339 cfg.ttl ≡ some ttl
      → pos 0 <ℤ ttl
      → let out = prune_messages parse_duration parse_rfc3339 ms cfg now in
        let safe =
          apply_keep_last_assistants ms (replicate (length ms) false) cfg.keep_last_assistants in
        (survivors lead : List Message) × Survivors parse_rfc3339 (now -ℤ ttl) ms safe survivors
        × (survivors ≡ lead ++ out.0)
        × AllAssistants lead
        × StartsWithoutAssistant out.0
        × Perm (out.0 ++ out.1) ms
  unfolding prune_messages prune_marks parse_ttl
  prune-Survivors ms cfg now ttl parsed positive =
      let blank = replicate (length ms) false in
      let safe = apply_keep_last_assistants ms blank cfg.keep_last_assistants in
      let aged = apply_ttl_pruning parse_duration parse_rfc3339 ms safe (now -ℤ ttl) in
      let (lead, e, all) = leading-append ms aged in
      let same = prune-positive ms cfg now ttl parsed positive in
      (
        select ms aged,
        lead,
        ttl-Survivors (now -ℤ ttl) ms safe (
            length-apply_keep_last ms blank cfg.keep_last_assistants
            ∙ length-replicate (length ms) false),
        rw same e,
        all,
        rw same (leading-StartsWithoutAssistant ms aged),
        prune-perm parse_duration parse_rfc3339 ms cfg now,
      )
