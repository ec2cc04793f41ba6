-- ===== src/Runtime/Confirm.antt =====
-- `confirm_in_session` of crates/ai-runtime/src/lib.rs: the user's answer to a confirmation request;
-- and the runtime's small operations on what it holds.
use saaios.Prelude.{
  ℕ, ◌-◌, String, Bool, true, false, Option, none, some, List, [], ◌∷◌, if◌then◌else◌, ◌+++◌,
  length, drop, ltb, unwrap_or,
}
use saaios.Crates.{Crates}
use saaios.Protocol.{
  PolicyVerdict, allow, deny, ask_user, ConfirmScope, once, session, cancel, ToolCallResult, Result,
  ok, err, confirmation_response,
}
use saaios.Jsonl
use saaios.Registry
use saaios.Registry.{ToolOutput, ToolExecutor}
use saaios.Policy
use saaios.Audit.{AuditRecord}
use saaios.Conversation
use saaios.Runtime.{Services, Rt, draft, emit, id_value, record_tool_result}
use saaios.Runtime.Effects.{Action, pure, fail, gets, modify, ◌>>=◌, ◌>>◌}
use saaios.Runtime.Handle.{message, run_tool}

abbrev scope_text : ConfirmScope → String
scope_text once = "once"
scope_text session = "session"
scope_text cancel = "cancel"

-- `!matches!(scope, ConfirmScope::Cancel)`
abbrev pub is_confirmed : ConfirmScope → Bool
is_confirmed cancel = false
is_confirmed _ = true

module _ (C : Crates) (S : Type 0) (services : Services C S) where
  open C use {Value, Uuid, str, obj, bool, to_text}

  abbrev M : Type 0 → Type 0
  M A = Action (Rt C S) A

  -- `self.conversations.append` where there is a session.
  unfoldable pub tell : Option Uuid → String → M (Unit {0})
  tell none content = pure tt
  tell (some sid) content = modify λ rt. record rt {
    conversations = Conversation.append C.uuid_key rt.conversations sid (message "user" content);
  }

  unfoldable pub grant : ConfirmScope → String → M (Unit {0})
  grant session tool = modify λ rt. record rt { policy = Policy.grant_session rt.policy tool }
  grant _ tool = pure tt

  abbrev pub cancelled : Uuid → String → ToolCallResult C
  cancelled call_id tool = record {
    call_id = call_id;
    tool = tool;
    ok = false;
    output = obj [];
    error = some "user cancelled";
  }

  unfoldable pub when_cancelled : Option Uuid → Uuid → String → M (ToolCallResult C)
  when_cancelled session_id call_id tool = do
    tell session_id ("tool_result:" +++ tool +++ " CANCELLED by user")
    pure (cancelled call_id tool)

  abbrev result_text : String → ToolOutput C → String
  result_text tool output =
      if output.ok
      then "tool_result:" +++ tool +++ " " +++ to_text output.value
      else "tool_result:" +++ tool +++ " ERROR: " +++ unwrap_or output.error "failed"

  abbrev pub result_of : Uuid → String → ToolOutput C → ToolCallResult C
  result_of call_id tool output = record {
    call_id = call_id;
    tool = tool;
    ok = output.ok;
    output = output.value;
    error = output.error;
  }

  -- From `self.tools.execute` to the end.
  unfoldable pub execute_confirmed :
      Uuid → Option Uuid → Uuid → Uuid → String → Value → M (ToolCallResult C)
  execute_confirmed correlation_id session_id conf_msg_id call_id tool arguments = do
    output ← run_tool C S services correlation_id call_id tool arguments
    record_tool_result C S services correlation_id conf_msg_id (result_of call_id tool output)
    tell session_id (result_text tool output)
    pure (result_of call_id tool output)

  -- `policy.decide` on the tool that stands under the name: its verdict, or none without a tool.
  unfoldable pub reconsidered : String → Value → Rt C S → Option PolicyVerdict
  reconsidered tool arguments rt = elim (Registry.get C S rt.tools tool) [
    | none ↦ none
    | some found ↦ some (Policy.decide C rt.policy found.spec arguments).verdict
  ]

  unfoldable pub by_reconsidered :
      Option PolicyVerdict → String → M (ToolCallResult C) → M (ToolCallResult C)
  by_reconsidered none tool go = fail ("unknown tool " +++ tool)
  by_reconsidered (some deny) tool go = fail "policy denied after confirmation"
  by_reconsidered (some allow) tool go = go
  by_reconsidered (some ask_user) tool go = go

  unfoldable pub when_confirmed :
      Uuid → Option Uuid → Uuid → Uuid → String → Value → ConfirmScope → M (ToolCallResult C)
  when_confirmed correlation_id session_id conf_msg_id call_id tool arguments scope = do
    grant scope tool
    verdict ← gets (reconsidered tool arguments)
    by_reconsidered verdict tool
        (execute_confirmed correlation_id session_id conf_msg_id call_id tool arguments)

  unfoldable pub confirm_in_session :
      Uuid → Option Uuid → Uuid → String → Value → ConfirmScope → M (ToolCallResult C)
  confirm_in_session correlation_id session_id call_id tool arguments scope = do
    conf_env ← draft C S confirmation_response correlation_id none (
        obj (
          ("call_id", id_value C S call_id)
          ∷ ("confirmed", bool (is_confirmed scope))
          ∷ ("scope", str (scope_text scope))
          ∷ []))
    emit C S services conf_env
    (if is_confirmed scope
        then when_confirmed correlation_id session_id conf_env.msg_id call_id tool arguments scope
        else when_cancelled session_id call_id tool)

  unfoldable pub confirm : Uuid → Uuid → String → Value → ConfirmScope → M (ToolCallResult C)
  confirm correlation_id call_id tool arguments scope =
      confirm_in_session correlation_id none call_id tool arguments scope

  abbrev last_records :
      ℕ → Result String (List (AuditRecord C)) → Result String (List (AuditRecord C))
  last_records limit (ok all) =
      ok (if ltb limit (length all) then drop (length all - limit) all else all)
  last_records limit (err e) = err e

  unfoldable pub audit_tail : Rt C S → ℕ → Result String (List (AuditRecord C))
  audit_tail rt limit = last_records limit (Jsonl.read_all services.audit_codec rt.audit)

  unfoldable pub clear_session_grants : Rt C S → Rt C S
  clear_session_grants rt = record rt { policy = Policy.clear_session_grants rt.policy }

  unfoldable pub reset_chat_session : Rt C S → Uuid → Rt C S × Bool
  reset_chat_session rt session_id =
      let (store, had) = Conversation.reset C.uuid_key rt.conversations session_id in
      (record rt { conversations = store }, had)
