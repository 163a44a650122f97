-- ===== src/Agent/Pruning/Orphans.antt =====
-- PruneMessages: tool calls and their responses.
use gobot.Prelude.{
  ◌≡◌, ◌∙◌, ◌≢◌, Bool, true, false, some, List, [], ◌∷◌, String, arith, length, replicate,
  length-replicate, Option, str_eq, eq_iff,
}
use gobot.Prelude.Int.{ℤ, pos, leb_ℤ, ◌-ℤ◌, ◌<ℤ◌}
use gobot.Agent.Message.{Message, is_assistant}
use gobot.Agent.Compaction.{Pruning, select, apply_keep_last_assistants}
use gobot.Agent.Compaction.Select.{length-apply_keep_last}
use gobot.Agent.Compaction.Chain.{answers}
use gobot.Agent.Compaction.Chain.Pairs.{calls, answers-not_assistant}
use gobot.Agent.Pruning.{
  mark_leading_assistants_dropped, survives_cutoff, apply_ttl_pruning, prune_marks, prune_messages,
}

module _ (parse_duration : String → Option ℤ) (parse_rfc3339 : String → Option ℤ) where
  orphan_marks :
      (a r : Message) (rest : List Message) (keep : List Bool) (cutoff : ℤ)
      → length keep ≡ length (a ∷ r ∷ rest)
      → is_assistant a.role ≡ true
      → is_assistant r.role ≡ false
      → survives_cutoff parse_duration parse_rfc3339 cutoff r ≡ true
      → let marks =
          mark_leading_assistants_dropped
            (a ∷ r ∷ rest)
            (apply_ttl_pruning parse_duration parse_rfc3339 (a ∷ r ∷ rest) keep cutoff) in
        (tail : List Message) × (select (a ∷ r ∷ rest) marks ≡ r ∷ tail)
  unfolding select mark_leading_assistants_dropped apply_ttl_pruning
  orphan_marks a r rest [] cutoff len call resp young = absurd (omega arith)
  orphan_marks a r rest (k ∷ []) cutoff len call resp young = absurd (omega arith)
  orphan_marks a r rest (k ∷ l ∷ keep) cutoff len call resp young =
      (select rest (apply_ttl_pruning parse_duration parse_rfc3339 rest keep cutoff), ground arith)

  -- A history that begins with a tool call and its recent response is pruned, under any positive
  -- TTL, to one that begins with the response, the call being dropped.
  pub prune-orphans_response :
      (a r : Message) (rest : List Message) (id : String) (cfg : Pruning) (now ttl : ℤ)
      → calls id a ≡ true
      → answers id r ≡ true
      → cfg.ttl ≢ ""
      → parse_duration cfg.ttl ≡ some ttl
      → pos 0 <ℤ ttl
      → survives_cutoff parse_duration parse_rfc3339 (now -ℤ ttl) r ≡ true
      → (tail : List Message) × ((prune_messages parse_duration parse_rfc3339
            (a ∷ r ∷ rest)
            cfg
            now).0
          ≡ r ∷ tail)
  unfolding prune_messages prune_marks
  prune-orphans_response a r rest id cfg now ttl cl an set_ttl parsed positive young =
      let ms = a ∷ r ∷ rest in
      let blank = replicate (length ms) false in
      let safe = apply_keep_last_assistants ms blank cfg.keep_last_assistants in
      let (tail, e) =
        orphan_marks a r rest safe (now -ℤ ttl)
          (length-apply_keep_last ms blank cfg.keep_last_assistants
            ∙ length-replicate (length ms) false)
          (ground arith) (answers-not_assistant id r an) young in
      let full : str_eq cfg.ttl "" ≡ false = ground (arith, eq_iff cfg.ttl "") in
      let later : leb_ℤ ttl (pos 0) ≡ false = ground arith in (tail, rw (full, parsed, later) e)
