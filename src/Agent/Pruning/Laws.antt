-- ===== src/Agent/Pruning/Laws.antt =====
-- What PruneMessages drops and what it leaves at the head.
use gobot.Prelude.{
  ◌≡◌, refl, ap, ◌⊎◌, inl, inr, ◌≢◌, Bool, true, false, ◌&&◌, Option, some, List, [], ◌∷◌, ◌++◌,
  String, str_eq, arith, suc, ◌∙◌, append-nil, subst, In, Bool-cases, Option-cases, replicate,
  length, length-replicate, if◌then◌else◌,
}
use mathlib.Core.List.{Perm, perm_middle}
use mathlib.Core.List.Perm
use gobot.Prelude.Int.{ℤ, pos, leb_ℤ, ◌-ℤ◌, ◌<ℤ◌}
use gobot.Agent.Message.{Message, is_assistant}
use gobot.Agent.Compaction.{Pruning, select, apply_keep_last_assistants}
use gobot.Agent.Compaction.Select.{length-apply_keep_last}
use gobot.Agent.Pruning.{
  unselect, mark_leading_assistants_dropped, parse_ttl, survives_cutoff, apply_ttl_pruning,
  prune_marks, prune_messages,
}

-- The history does not begin with an assistant turn.
abbrev pub StartsWithoutAssistant : List Message → Type 0
StartsWithoutAssistant [] = Unit {0}
StartsWithoutAssistant (m ∷ ms) = is_assistant m.role ≡ false

pub leading-StartsWithoutAssistant :
    (ms : List Message) (keep : List Bool)
    → StartsWithoutAssistant (select ms (mark_leading_assistants_dropped ms keep))
unfolding select mark_leading_assistants_dropped
leading-StartsWithoutAssistant [] keep = tt
leading-StartsWithoutAssistant (m ∷ ms) [] = tt
leading-StartsWithoutAssistant (m ∷ ms) (false ∷ keep) = leading-StartsWithoutAssistant ms keep
leading-StartsWithoutAssistant (m ∷ ms) (true ∷ keep) = elim (Bool-cases (is_assistant m.role)) [
  | inl call ↦ rw call (leading-StartsWithoutAssistant ms keep)
  | inr no_call ↦ rw no_call no_call
]

select-unselect-perm :
    (ms : List Message) (keep : List Bool)
    → length keep ≡ length ms
    → Perm (select ms keep ++ unselect ms keep) ms
unfolding select unselect
select-unselect-perm [] keep len = Perm.refl []
select-unselect-perm (m ∷ ms) [] len = absurd (omega arith)
select-unselect-perm (m ∷ ms) (true ∷ keep) len =
    Perm.cons m (select-unselect-perm ms keep (omega arith))
select-unselect-perm (m ∷ ms) (false ∷ keep) len =
    Perm.trans (perm_middle (select ms keep) (unselect ms keep))
      (Perm.cons m (select-unselect-perm ms keep (omega arith)))

leading_cases :
    (x : Message) (ms : List Message) (b : Bool) (marks : List Bool) (m : Message)
    → In m (unselect (x ∷ ms) (mark_leading_assistants_dropped (x ∷ ms) (b ∷ marks)))
    → ((m ≡ x) × ((b ≡ false) ⊎ (is_assistant x.role ≡ true)))
      ⊎ (In m (unselect ms (mark_leading_assistants_dropped ms marks)) ⊎ In m (unselect ms marks))
unfolding unselect mark_leading_assistants_dropped
leading_cases x ms false marks m (inl e) = inl (e, inl refl)
leading_cases x ms false marks m (inr h) = inr (inl h)
leading_cases x ms true marks m h = elim (Bool-cases (is_assistant x.role)) [
  | inr no_call ↦ inr (inr (rw no_call at h))
  | inl call ↦
      let h' : In m (x ∷ unselect ms (mark_leading_assistants_dropped ms marks)) = rw call at h in
      elim h' [ inl e ↦ inl (e, inr call) | inr later ↦ inr (inl later) ]
]

length-leading :
    (ms : List Message) (keep : List Bool)
    → length (mark_leading_assistants_dropped ms keep) ≡ length keep
unfolding mark_leading_assistants_dropped
length-leading [] keep = refl
length-leading (m ∷ ms) [] = refl
length-leading (m ∷ ms) (k ∷ keep) = ground (arith, length-leading ms keep)

module _ (parse_duration : String → Option ℤ) (parse_rfc3339 : String → Option ℤ) where
  -- PruneMessages changes nothing, or splits the history by its marks for a positive TTL.
  abbrev pub Split : List Message → Pruning → ℤ → Type 0
  Split ms cfg now =
      (prune_messages parse_duration parse_rfc3339 ms cfg now ≡ (ms, []))
      ⊎ ((ttl : ℤ) × (pos 0 <ℤ ttl)
          × (parse_ttl parse_duration parse_rfc3339 cfg.ttl ≡ some ttl)
          × (let keep =
                prune_marks parse_duration parse_rfc3339 ms (now -ℤ ttl) cfg.keep_last_assistants in
              prune_messages parse_duration parse_rfc3339 ms cfg now
              ≡ (select ms keep, unselect ms keep)))

  pub prune-Split : (ms : List Message) (cfg : Pruning) (now : ℤ) → Split ms cfg now
  unfolding prune_messages
  prune-Split ms cfg now =
      elim (Bool-cases (str_eq cfg.ttl "" && leb_ℤ cfg.keep_last_assistants (pos 0))) [
        | inl off ↦ inl (rw off)
        | inr on ↦ elim (Option-cases (parse_ttl parse_duration parse_rfc3339 cfg.ttl)) [
          | inl bad ↦ inl (rw (on, bad))
          | inr (ttl, e) ↦ elim (Bool-cases (leb_ℤ ttl (pos 0))) [
            | inl none_left ↦ inl (rw (on, e, none_left))
            | inr positive ↦ inr (ttl, ground arith, e, rw (on, e, positive))
          ]
        ]
      ]

  length-ttl :
      (ms : List Message) (keep : List Bool) (cutoff : ℤ)
      → length (apply_ttl_pruning parse_duration parse_rfc3339 ms keep cutoff) ≡ length keep
  unfolding apply_ttl_pruning
  length-ttl [] keep cutoff = refl
  length-ttl (m ∷ ms) [] cutoff = refl
  length-ttl (m ∷ ms) (k ∷ keep) cutoff = ap suc (length-ttl ms keep cutoff)

  length-prune_marks :
      (ms : List Message) (cutoff n : ℤ)
      → length (prune_marks parse_duration parse_rfc3339 ms cutoff n) ≡ length ms
  unfolding prune_marks
  length-prune_marks ms cutoff n =
      let blank = replicate (length ms) false in
      let safe = apply_keep_last_assistants ms blank n in
      length-leading ms (apply_ttl_pruning parse_duration parse_rfc3339 ms safe cutoff)
      ∙ length-ttl ms safe cutoff
      ∙ length-apply_keep_last ms blank n
      ∙ length-replicate (length ms) false

  -- What stays and what is dropped are together the history, each message as often.
  pub prune-perm :
      (ms : List Message) (cfg : Pruning) (now : ℤ)
      → let out = prune_messages parse_duration parse_rfc3339 ms cfg now in Perm (out.0 ++ out.1) ms
  prune-perm ms cfg now = elim (prune-Split ms cfg now) [
    | inl same ↦ rw (same, append-nil) (Perm.refl ms)
    | inr (ttl, _, _, split) ↦ rw split (
        select-unselect-perm ms
          (prune_marks parse_duration parse_rfc3339 ms (now -ℤ ttl) cfg.keep_last_assistants)
          (length-prune_marks ms (now -ℤ ttl) cfg.keep_last_assistants))
  ]

  unselected_ttl :
      (ms : List Message) (keep : List Bool) (cutoff : ℤ) (m : Message)
      → In m (unselect ms (apply_ttl_pruning parse_duration parse_rfc3339 ms keep cutoff))
      → survives_cutoff parse_duration parse_rfc3339 cutoff m ≡ false
  unfolding unselect apply_ttl_pruning
  unselected_ttl [] keep cutoff m h = absurd h
  unselected_ttl (x ∷ ms) [] cutoff m h = absurd h
  unselected_ttl (x ∷ ms) (k ∷ keep) cutoff m h =
      elim (Bool-cases (survives_cutoff parse_duration parse_rfc3339 cutoff x)) [
        | inl young ↦ unselected_ttl ms keep cutoff m (rw young at h)
        | inr old ↦ elim (Bool-cases k) [
          | inl safe ↦ unselected_ttl ms keep cutoff m (rw (old, safe) at h)
          | inr unsafe ↦
              elim (let h' : In m (
                    x
                    ∷ unselect ms (apply_ttl_pruning parse_duration parse_rfc3339 ms keep cutoff)) =
                  rw (old, unsafe) at h in
                h') [ inl here ↦ rw here old | inr later ↦ unselected_ttl ms keep cutoff m later ]
        ]
      ]

  unselected_leading :
      (ms : List Message) (keep : List Bool) (cutoff : ℤ) (m : Message)
      → In m (
          unselect ms (
            mark_leading_assistants_dropped ms
              (apply_ttl_pruning parse_duration parse_rfc3339 ms keep cutoff)))
      → (survives_cutoff parse_duration parse_rfc3339 cutoff m ≡ false)
        ⊎ (is_assistant m.role ≡ true)
  unfolding unselect mark_leading_assistants_dropped apply_ttl_pruning
  unselected_leading [] keep cutoff m h = absurd h
  unselected_leading (x ∷ ms) [] cutoff m h = absurd h
  unselected_leading (x ∷ ms) (k ∷ keep) cutoff m h =
      elim (leading_cases x ms
        (if survives_cutoff parse_duration parse_rfc3339 cutoff x then true else k)
        (apply_ttl_pruning parse_duration parse_rfc3339 ms keep cutoff) m h) [
          | inl (here, inl unmarked) ↦ inl (rw here (ground arith))
          | inl (here, inr call) ↦ inr (rw here call)
          | inr (inl later) ↦ unselected_leading ms keep cutoff m later
          | inr (inr later) ↦ inl (unselected_ttl ms keep cutoff m later)
        ]

  -- A history of which something was dropped does not begin with an assistant turn.
  pub prune-StartsWithoutAssistant :
      (ms : List Message) (cfg : Pruning) (now : ℤ)
      → let out = prune_messages parse_duration parse_rfc3339 ms cfg now in
        out.1 ≢ [] → StartsWithoutAssistant out.0
  unfolding prune_marks
  prune-StartsWithoutAssistant ms cfg now cut = elim (prune-Split ms cfg now) [
    | inl same ↦ absurd (cut (rw same))
    | inr (ttl, _, _, split) ↦ rw split (leading-StartsWithoutAssistant ms _)
  ]

  -- Where the TTL parses, a dropped message is too old or an assistant turn.
  pub prune-dropped :
      (ms : List Message) (cfg : Pruning) (now ttl : ℤ) (m : Message)
      → parse_ttl parse_duration parse_rfc3339 cfg.ttl ≡ some ttl
      → In m (prune_messages parse_duration parse_rfc3339 ms cfg now).1
      → (survives_cutoff parse_duration parse_rfc3339 (now -ℤ ttl) m ≡ false)
        ⊎ (is_assistant m.role ≡ true)
  unfolding prune_marks
  prune-dropped ms cfg now ttl m e h = elim (prune-Split ms cfg now) [
    | inl same ↦ absurd (subst (λ o. In m o.1) same h)
    | inr (t, _, e', split) ↦
        let here : t ≡ ttl = ground arith in
        let h' = subst (λ o. In m o.1) split h in
        let safe =
          apply_keep_last_assistants ms (replicate (length ms) false) cfg.keep_last_assistants in
        subst
          (λ u.
            (survives_cutoff parse_duration parse_rfc3339 (now -ℤ u) m ≡ false)
            ⊎ (is_assistant m.role ≡ true))
          here (unselected_leading ms safe (now -ℤ t) m h')
  ]
