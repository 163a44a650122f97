-- ===== src/Agent/Approval/Hook.antt =====
-- internal/agent/hitl.go: HITLManager.PreToolHook, and RequestApproval up to the registration of
-- its waiter. The predicates on session keys and the chat ID in one are parameters.
use gobot.Prelude.{
  ◌≡◌, inl, inr, Bool, true, false, not, ◌&&◌, Option, none, some, String, arith, Bool-cases,
  Option-cases, if◌then◌else◌,
}

-- The manager's configuration; `side_effecting` may be nil.
pub record HitlConfig : Type 0 where
  pub high_risk_tools : String → Bool
  pub channel_enabled : Bool
  pub side_effecting : Option (String → Bool)
  pub has_api : Bool

-- What a request gives: an answer, or an error.
pub data Answer : Type 0 where
  answer : Bool → Answer
  unsupported_channel no_api lifecycle_error : Answer

pub data HookResult : Type 0 where
  proceeds permission_denied : HookResult
  errs : Answer → HookResult

module _ (is_cron is_telegram : String → Bool) (chat_id : String → Option String)
    (lifecycle : String → String → Option Bool) where
  -- `lifecycle` is the rest of RequestApproval, from the registration of the waiter on.
  unfoldable pub request_approval : HitlConfig → String → String → Answer
  request_approval cfg session_key tool_name =
      if is_cron session_key then answer true else elim (chat_id session_key) [
        | none ↦ unsupported_channel
        | some chat ↦ if not cfg.has_api then no_api else elim (lifecycle session_key tool_name) [
          | none ↦ lifecycle_error
          | some approved ↦ answer approved
        ]
      ]

  unfoldable pub channel_required : HitlConfig → String → String → Bool
  channel_required cfg session_key tool_name =
      cfg.channel_enabled
      && is_telegram session_key
      && elim cfg.side_effecting [ none ↦ false | some predicate ↦ predicate tool_name ]

  unfoldable pub hitl_pre_tool_hook : HitlConfig → String → String → HookResult
  unfolding request_approval channel_required
  hitl_pre_tool_hook cfg session_key tool_name =
      if not (cfg.high_risk_tools tool_name) && not (channel_required cfg session_key tool_name)
      then proceeds
      else if is_cron session_key
      then proceeds
      else elim (request_approval cfg session_key tool_name) [
        | answer approved ↦ if approved then proceeds else permission_denied
        | unsupported_channel ↦ errs unsupported_channel
        | no_api ↦ errs no_api
        | lifecycle_error ↦ errs lifecycle_error
      ]

  -- A high-risk tool runs in a session that is not a cron session only if the manager has an API,
  -- the session has a chat, and the request's lifecycle ends with an approval.
  pub hitl_pre_tool_hook-proceeds :
      (cfg : HitlConfig) (session_key tool_name : String)
      → cfg.high_risk_tools tool_name ≡ true
      → is_cron session_key ≡ false
      → hitl_pre_tool_hook cfg session_key tool_name ≡ proceeds
      → (cfg.has_api ≡ true)
        × ((chat : String) × (chat_id session_key ≡ some chat))
        × (lifecycle session_key tool_name ≡ some true)
  unfolding hitl_pre_tool_hook
  hitl_pre_tool_hook-proceeds cfg session_key tool_name risky no_cron h =
      elim (Option-cases (chat_id session_key)) [
        | inl no_chat ↦ ground arith
        | inr (chat, found) ↦ elim (Bool-cases cfg.has_api) [
          | inr missing ↦ ground arith
          | inl api ↦ elim (Option-cases (lifecycle session_key tool_name)) [
            | inl fails ↦ ground arith
            | inr (approved, ends) ↦ elim (Bool-cases approved) [
              | inl granted ↦ (api, (chat, found), ground arith)
              | inr refused ↦ ground arith
            ]
          ]
        ]
      ]
