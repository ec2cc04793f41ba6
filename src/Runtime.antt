-- ===== src/Runtime.antt =====
-- crates/ai-runtime/src/lib.rs: the state of the runtime, its requests and its events.
pub mod Effects
pub mod Culprit
pub mod Handle
pub mod Rounds
pub mod Requests
pub mod Confirm
pub mod Verdicts
pub mod Answered
pub mod Answers
pub mod Kept
pub mod Safety
pub mod Trail
pub mod Limits
pub mod MockPlanner
pub mod Unasked
use saaios.Prelude.{
  ℕ, suc, String, Bool, true, false, ◌&&◌, ◌||◌, Option, none, some, List, [], ◌∷◌, ◌++◌, map,
  if◌then◌else◌, ◌+++◌, contains,
}
use saaios.Crates.{Crates}
use saaios.Protocol.{
  MessageKind, ConfirmScope, PolicyVerdict, allow, deny, ask_user, Envelope, envelope,
  ToolCallResult, DiagnoseResult, ConfirmationRequest, Result, ok, err,
}
use saaios.Jsonl.{Codec, Log}
use saaios.Registry
use saaios.Registry.{ToolRegistry, ToolSpec}
use saaios.Policy
use saaios.Policy.{PolicyEngine, PolicyDecision, decision, hard_deny, is_dangerous, decide}
use saaios.Audit.{AuditRecord, append_envelope}
use saaios.Conversation
use saaios.Conversation.{ChatMessage, ConversationStore}
use saaios.Memory.{MemoryFact, MemoryStore}
use Effects.{Action, pure, fail, gets, modify, ◌>>=◌, ◌>>◌}

module _ (C : Crates) where
  open C use {Value, Uuid, to_text, to_lowercase, str, obj, bool, new_v4, show_uuid}

  pub record ProposedToolCall : Type 0 where
    pub call_id : Uuid
    pub name : String
    pub arguments : Value

  pub record ModelResponse : Type 0 where
    pub assistant_text : Option String
    pub tool_calls : List ProposedToolCall

  pub record ToolDefinition : Type 0 where
    pub name : String
    pub description : String
    pub parameters : Value

  pub record PendingConfirmation : Type 0 where
    pub call_id : Uuid
    pub tool : String
    pub arguments : Value
    pub summary : String

  pub data RuntimeEvent : Type 0 where
    assistant : String → RuntimeEvent
    tool_call : Uuid → String → Value → RuntimeEvent
    tool_result : Uuid → String → Bool → Option String → RuntimeEvent
    policy : Uuid → String → String → String → RuntimeEvent
    confirmation : ConfirmationRequest C → RuntimeEvent
    completed : DiagnoseResult C → RuntimeEvent

  pub record HandleOutcome : Type 0 where
    pub correlation_id : Uuid
    pub session_id : Uuid
    pub diagnose : DiagnoseResult C
    pub pending_confirmation : Option PendingConfirmation
    pub events : List RuntimeEvent

  -- The second `looks_like_injection`, of this crate; the engine's has one text more.
  unfoldable pub looks_like_injection : Value → Bool
  looks_like_injection args =
      let s = to_lowercase (to_text args) in
      contains s "ignore policies" || contains s "kill -9 1" || contains s "rm -rf"

  module _ (S : Type 0) where
    -- What the runtime is given: the text form of audit records and facts, the memory store among
    -- what the tools share, read and put back, and the model, whose n-th answer may depend on
    -- anything outside.
    pub record Services : Type 0 where
      pub audit_codec : Codec (AuditRecord C)
      pub memory_codec : Codec (MemoryFact C)
      pub memory_of : S → Option (MemoryStore C)
      pub with_memory : MemoryStore C → S → S
      pub complete : ℕ → List ChatMessage → List ToolDefinition → Result String ModelResponse

    -- The runtime, with what it shares: the audit file, the envelopes sent to the bus so far, how
    -- often identifiers, the clock and the model have been drawn on, and what the tools act on.
    pub record AiRuntime : Type 0 where
      pub tools : ToolRegistry C S
      pub policy : PolicyEngine
      pub audit : Log
      pub sent : List (Envelope C)
      pub conversations : ConversationStore C.uuid_key
      pub max_concurrent_requests : ℕ
      pub request_slots : ℕ
      pub max_tool_iters : ℕ
      pub drawn : ℕ
      pub machine : S

module _ (C : Crates) (S : Type 0) where
  open C use {Value, Uuid, str, obj, bool, new_v4, show_uuid}

  abbrev pub Rt : Type 0
  Rt = AiRuntime C S

  abbrev pub advance : Rt → Rt
  advance rt = record rt { drawn = suc rt.drawn }

  -- `Envelope::new` with the next identifier.
  unfoldable pub draft : MessageKind → Uuid → Option Uuid → Value → Action Rt (Envelope C)
  draft kind correlation_id causation_id payload rt =
      (ok (envelope C rt.drawn kind correlation_id causation_id payload), advance rt)

  -- `Uuid::new_v4()`
  unfoldable pub fresh : Action Rt Uuid
  fresh rt = (ok (new_v4 rt.drawn), advance rt)

  unfoldable pub publish : Envelope C → Rt → Rt
  publish env rt = record rt { sent = rt.sent ++ env ∷ [] }

  -- `self.audit.append_envelope(&env)?`
  unfoldable pub audit : Services C S → Envelope C → Action Rt (Unit {0})
  audit services env rt =
      let (done, log) = append_envelope C services.audit_codec rt.audit env in
      (done, record rt { audit = log })

  -- ... and `self.bus.publish_envelope(env)`
  unfoldable pub emit : Services C S → Envelope C → Action Rt (Unit {0})
  emit services env = do audit services env; modify (publish env)

  abbrev pub id_value : Uuid → Value
  id_value id = str (show_uuid id)

  abbrev pub option_str : Option String → Value
  option_str none = C.null
  option_str (some s) = str s

  -- `serde_json::to_value` of a `ToolCallResult`
  abbrev pub result_value : ToolCallResult C → Value
  result_value r = obj (
      ("call_id", id_value r.call_id)
      ∷ ("tool", str r.tool)
      ∷ ("ok", bool r.ok)
      ∷ ("output", r.output)
      ∷ ("error", option_str r.error)
      ∷ [])

  unfoldable pub record_tool_result : Services C S → Uuid → Uuid → ToolCallResult C → Action Rt Uuid
  record_tool_result services correlation_id causation_id result = do
    env ← draft MessageKind.tool_result correlation_id (some causation_id) (result_value result)
    emit services env
    pure env.msg_id

  unfoldable pub tool_definitions : Rt → List (ToolDefinition C)
  tool_definitions rt =
      map (λ s. record { name = s.name; description = s.description; parameters = s.input_schema })
        (Registry.list C S rt.tools)

  -- The decision on a proposed call: the checks of the runtime, then those of the engine.
  decide_known : Rt → ToolSpec C → String → Value → PolicyDecision
  decide_known rt spec tool_name args =
      if hard_deny tool_name
      then decision deny ("tool `" +++ tool_name +++ "` hard-denied")
      else if looks_like_injection C args && is_dangerous tool_name
      then decision deny "rejected suspicious arguments"
      else decide C rt.policy spec args

  unfoldable pub decide_call : Rt → String → Value → PolicyDecision
  unfolding decide_known
  decide_call rt tool_name args = elim (Registry.get C S rt.tools tool_name) [
    | some tool ↦ decide_known rt tool.spec tool_name args
    | none ↦ decision deny ("unknown tool `" +++ tool_name +++ "`")
  ]
