-- ===== src/Agent/Pruning.antt =====
-- internal/agent/compaction.go, PruneMessages: dropping messages by age.
-- Times are nanoseconds. `time.ParseDuration` and `time.Parse(time.RFC3339, …)` are parameters.
pub mod Laws
pub mod Orphans
pub mod Exact
use gobot.Prelude.{
  ℕ, Bool, true, false, not, ◌&&◌, ◌||◌, Option, none, some, List, [], ◌∷◌, String, str_eq,
  if◌then◌else◌, length, replicate,
}
use gobot.Prelude.Int.{ℤ, pos, leb_ℤ, ltb_ℤ, ◌-ℤ◌}
use gobot.Agent.Message.{Message, is_assistant}
use gobot.Agent.Compaction.{Pruning, apply_keep_last_assistants, select}

-- The messages that are not marked, in order.
pub unselect : List Message → List Bool → List Message
unselect [] keep = []
unselect (m ∷ ms) [] = []
unselect (m ∷ ms) (k ∷ keep) = let rest = unselect ms keep in if k then rest else m ∷ rest

-- markLeadingAssistantsDropped, over messages and marks at once: among the kept messages the
-- leading run of assistant turns loses its marks.
pub mark_leading_assistants_dropped : List Message → List Bool → List Bool
mark_leading_assistants_dropped [] keep = keep
mark_leading_assistants_dropped (m ∷ ms) [] = []
mark_leading_assistants_dropped (m ∷ ms) (k ∷ keep) =
    let rest = mark_leading_assistants_dropped ms keep in
    if not k then false ∷ rest else if is_assistant m.role then false ∷ rest else true ∷ keep

module _ (parse_duration : String → Option ℤ) (parse_rfc3339 : String → Option ℤ) where
  -- parseTTL: an empty text is the duration 0, and `none` is a parse error.
  unfoldable pub parse_ttl : String → Option ℤ
  parse_ttl s = if str_eq s "" then some (pos 0) else parse_duration s

  -- The body of applyTTLPruning for one message: it survives by its age alone.
  unfoldable pub survives_cutoff : ℤ → Message → Bool
  survives_cutoff cutoff m =
      if str_eq m.created_at ""
      then true
      else elim (parse_rfc3339 m.created_at) [ none ↦ true | some t ↦ ltb_ℤ cutoff t ]

  pub apply_ttl_pruning : List Message → List Bool → ℤ → List Bool
  unfolding survives_cutoff
  apply_ttl_pruning [] keep cutoff = keep
  apply_ttl_pruning (m ∷ ms) [] cutoff = []
  apply_ttl_pruning (m ∷ ms) (k ∷ keep) cutoff =
      (if survives_cutoff cutoff m then true else k) ∷ apply_ttl_pruning ms keep cutoff

  -- The marks at the end of PruneMessages.
  unfoldable pub prune_marks : List Message → ℤ → ℤ → List Bool
  unfolding apply_ttl_pruning mark_leading_assistants_dropped apply_keep_last_assistants
  prune_marks messages cutoff keep_last =
      let blank = replicate (length messages) false in
      let safe = apply_keep_last_assistants messages blank keep_last in
      mark_leading_assistants_dropped messages (apply_ttl_pruning messages safe cutoff)

  -- The messages that stay and those that are dropped.
  unfoldable pub prune_messages : List Message → Pruning → ℤ → List Message × List Message
  unfolding parse_ttl prune_marks unselect select
  prune_messages messages cfg now =
      if str_eq cfg.ttl "" && leb_ℤ cfg.keep_last_assistants (pos 0)
      then (messages, [])
      else elim (parse_ttl cfg.ttl) [
        | none ↦ (messages, [])
        | some ttl ↦
            let keep = prune_marks messages (now -ℤ ttl) cfg.keep_last_assistants in
            if leb_ℤ ttl (pos 0)
            then (messages, [])
            else (select messages keep, unselect messages keep)
      ]
