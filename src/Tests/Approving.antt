-- ===== src/Tests/Approving.antt =====
-- A run of internal/agent/hitl.go: a request is announced and then approved.
use gobot.Prelude.{◌≡◌, refl, true, false, none, some, [], ◌∷◌, String, In, str_eq, ℕ}
use gobot.Agent.Approval.{
  approved, pending, Hitl, save_hitl_approval, register_waiter, notify_hitl_waiter, release_waiter,
  take_from, System, moves, registered, waiting, leaving, finished, pressed, saved, found, idle,
  register, read_status, announced, press, save, look_up, notify, receive_early, leave, start,
  Reachable, begin, after, parse_callback, by_status,
}
use gobot.Agent.Approval.Hook.{HitlConfig, hitl_pre_tool_hook, hitl_pre_tool_hook-proceeds}
use gobot.Agent.Approval.Granted.{Reachable-granted}

abbrev h1 : Hitl
h1 = elim (register_waiter "q" start.hitl) [ none ↦ start.hitl | some (ch, h) ↦ h ]

abbrev s1 : System
s1 = moves start 0 (registered "q" 0) h1

abbrev s2 : System
s2 = moves s1 0 (by_status "q" 0 (s1.hitl.rows "q")) s1.hitl

abbrev s3 : System
s3 = moves s2 0 (waiting "q" 0) (save_hitl_approval true "q" pending s2.hitl)

abbrev s4 : System
s4 = record (moves s3 1 (pressed "q" true) s3.hitl) { presses = "q" ∷ [] }

abbrev s5 : System
s5 = moves s4 1 (saved "q" true) (save_hitl_approval false "q" approved s4.hitl)

abbrev s6 : System
s6 = moves s5 1 (found 0 true) s5.hitl

abbrev s7 : System
s7 = moves s6 1 idle (notify_hitl_waiter 0 true s6.hitl)

abbrev s8 : System
s8 = moves s7 0 (leaving "q" 0 (some true)) (take_from 0 s7.hitl)

abbrev s9 : System
s9 = moves s8 0 (finished "q" (some true)) (release_waiter "q" 0 s8.hitl)

s3-Reachable : Reachable s3
unfolding start register_waiter by_status save_hitl_approval
s3-Reachable =
    after (after (after begin (register 0 "q" 0 h1 refl refl)) (read_status 0 "q" 0 refl))
      (announced 0 "q" 0 true refl)

s7-Reachable : Reachable s7
unfolding start register_waiter by_status save_hitl_approval parse_callback notify_hitl_waiter
s7-Reachable =
    after
      (after
        (after (after s3-Reachable (press 1 ("hitl" ∷ "approve" ∷ "q" ∷ []) true "q" refl refl))
          (save 1 "q" true false refl))
        (look_up 1 "q" true 0 refl refl))
      (notify 1 0 true refl)

s9-Reachable : Reachable s9
unfolding start register_waiter by_status save_hitl_approval parse_callback notify_hitl_waiter
s9-Reachable =
    after (after s7-Reachable (receive_early 0 "q" 0 true refl refl))
      (leave 0 "q" 0 (some true) refl)

Reachable-granted_example :
    ((g : ℕ) (id : String) → s9.goroutines g ≡ finished id (some true) → In id s9.presses)
    × ((id : String) → s9.hitl.rows id ≡ some approved → In id s9.presses)
Reachable-granted_example = Reachable-granted s9 s9-Reachable

-- A manager for which the tool "shell" is risky.
abbrev config : HitlConfig
config = record {
  high_risk_tools = λ t. str_eq t "shell";
  channel_enabled = false;
  side_effecting = none;
  has_api = true;
}

hitl_pre_tool_hook-proceeds_example :
    (config.has_api ≡ true) × ((chat : String) × (some "1" ≡ some chat)) × (some true ≡ some true)
unfolding hitl_pre_tool_hook
hitl_pre_tool_hook-proceeds_example =
    hitl_pre_tool_hook-proceeds (λ key. false) (λ key. true) (λ key. some "1")
      (λ key tool. some true) config "telegram:1" "shell" refl refl refl
