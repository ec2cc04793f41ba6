-- ===== src/Runtime/Rounds.antt =====
-- The loop of `handle_user_text_inner` of crates/ai-runtime/src/lib.rs.
use saaios.Prelude.{
  ℕ, zero, suc, String, ◌||◌, ◌⊎◌, inl, inr, Option, none, some, List, [], ◌∷◌, ◌++◌, if◌then◌else◌,
  ◌+++◌, str_eq, is_empty,
}
use saaios.Crates.{Crates}
use saaios.Protocol.{
  allow, deny, ask_user, ConfirmationRequest, assistant_message, confirmation_request, MessageKind,
}
use saaios.Policy.{PolicyDecision}
use saaios.Runtime.{
  ProposedToolCall, ModelResponse, PendingConfirmation, RuntimeEvent, HandleOutcome, Services, Rt,
  draft, emit, id_value, record_tool_result, tool_definitions, decide_call, advance,
}
use saaios.Runtime.Effects.{Action, pure, gets, ◌>>=◌, ◌>>◌}
use saaios.Runtime.Culprit.{top_process}
use saaios.Runtime.Handle.{
  message, Turn, told, noted, caused, blamed, fill_culprit_from_messages, verdict_text,
  persist_history, run_tool, when_denied,
}

module _ (C : Crates) (S : Type 0) (services : Services C S) where
  open C use {Value, Uuid, str, obj, to_text}

  abbrev M : Type 0 → Type 0
  M A = Action (Rt C S) A

  abbrev asking : ProposedToolCall C → String
  asking call =
      "Выполнить `" +++ call.name +++ "` с аргументами " +++ to_text call.arguments +++ "?"

  abbrev pub pending_of : ProposedToolCall C → PendingConfirmation C
  pending_of call = record {
    call_id = call.call_id;
    tool = call.name;
    arguments = call.arguments;
    summary = asking call;
  }

  abbrev confirmation_of : ProposedToolCall C → ConfirmationRequest C
  confirmation_of call = record {
    call_id = call.call_id;
    tool = call.name;
    summary = asking call;
    arguments = call.arguments;
  }

  -- `PolicyVerdict::AskUser`: the request ends here, and waits for the user.
  unfoldable pub when_asked :
      Uuid → Uuid → Turn C → ProposedToolCall C → M (Turn C ⊎ HandleOutcome C)
  when_asked correlation_id session_id t call = do
    let proposed = record t.diagnose {
      proposed_action =
          some (record { tool = call.name; arguments = call.arguments; summary = asking call });
    }
    env ← draft C S confirmation_request correlation_id (some t.last_causation) (
        obj (
          ("call_id", id_value C S call.call_id)
          ∷ ("tool", str call.name)
          ∷ ("summary", str (asking call))
          ∷ ("arguments", call.arguments)
          ∷ []))
    emit C S services env
    persist_history C S services session_id t.messages
    pure (
        inr (record {
          correlation_id = correlation_id;
          session_id = session_id;
          diagnose = fill_culprit_from_messages C t.messages proposed;
          pending_confirmation = some (pending_of call);
          events = t.events ++ RuntimeEvent.confirmation (confirmation_of call) ∷ [];
        }))

  abbrev called : Turn C → String → Turn C
  called t tool = record t {
    called_metrics = t.called_metrics || str_eq tool "system.metrics";
    called_process_list = t.called_process_list || str_eq tool "process.list";
  }

  -- `PolicyVerdict::Allow`: the tool runs.
  unfoldable pub when_allowed : Uuid → Turn C → ProposedToolCall C → M (Turn C ⊎ HandleOutcome C)
  when_allowed correlation_id t call = do
    output ← run_tool C S services correlation_id call.call_id call.name call.arguments
    id ← record_tool_result C S services correlation_id t.last_causation (record {
      call_id = call.call_id;
      tool = call.name;
      ok = output.ok;
      output = output.value;
      error = output.error;
    })
    let t1 = caused C (called t call.name) id
    let t2 = record t1 {
      diagnose =
          if str_eq call.name "process.list"
          then blamed C t1.diagnose (top_process C output.value)
          else t1.diagnose;
    }
    pure (
        inl (
          noted C
            (told C t2
              (message "user" ("tool_result:" +++ call.name +++ " " +++ to_text output.value)))
            (RuntimeEvent.tool_result call.call_id call.name output.ok output.error)))

  unfoldable pub by_verdict :
      Uuid → Uuid → Turn C → ProposedToolCall C → PolicyDecision → M (Turn C ⊎ HandleOutcome C)
  by_verdict correlation_id session_id t call decision = elim decision.verdict [
    | deny ↦ when_denied C S services correlation_id t call decision.reason
    | ask_user ↦ when_asked correlation_id session_id t call
    | allow ↦ when_allowed correlation_id t call
  ]

  -- One proposed call: recorded, decided, and dealt with by the verdict.
  unfoldable pub handle_call :
      Uuid → Uuid → Turn C → ProposedToolCall C → M (Turn C ⊎ HandleOutcome C)
  handle_call correlation_id session_id t call = do
    tool_env ← draft C S MessageKind.tool_call correlation_id (some t.last_causation) (
        obj (
          ("call_id", id_value C S call.call_id)
          ∷ ("tool", str call.name)
          ∷ ("arguments", call.arguments)
          ∷ []))
    emit C S services tool_env
    decision ← gets (λ rt. decide_call C S rt call.name call.arguments)
    decision_env ← draft C S MessageKind.policy_decision correlation_id (some tool_env.msg_id) (
        obj (
          ("call_id", id_value C S call.call_id)
          ∷ ("tool", str call.name)
          ∷ ("verdict", str (verdict_text C decision.verdict))
          ∷ ("reason", str decision.reason)
          ∷ []))
    emit C S services decision_env
    by_verdict correlation_id session_id
        (noted C
          (noted C (caused C t decision_env.msg_id)
            (RuntimeEvent.tool_call call.call_id call.name call.arguments))
          (RuntimeEvent.policy call.call_id call.name (verdict_text C decision.verdict)
            decision.reason))
        call decision

  -- `for call in response.tool_calls`: a request that waits for the user leaves the loop.
  unfoldable pub handle_calls :
      Uuid → Uuid → List (ProposedToolCall C) → Turn C → M (Turn C ⊎ HandleOutcome C)
  handle_calls correlation_id session_id [] t = pure (inl t)
  handle_calls correlation_id session_id (call ∷ calls) t = do
    next ← handle_call correlation_id session_id t call
    elim next [
      | inl t' ↦ handle_calls correlation_id session_id calls t'
      | inr outcome ↦ pure (inr outcome)
    ]

  -- `if let Some(text) = response.assistant_text`
  unfoldable pub say : Uuid → Turn C → Option String → M (Turn C)
  say correlation_id t none = pure t
  say correlation_id t (some text) = do
    env ←
        draft C S assistant_message correlation_id (some t.last_causation)
          (obj (("text", str text) ∷ []))
    emit C S services env
    let t1 = caused C t env.msg_id
    let t2 = record t1 { diagnose = record t1.diagnose { summary = text } }
    pure (noted C (told C t2 (message "assistant" text)) (RuntimeEvent.assistant text))

  unfoldable pub ask_model : Turn C → M (ModelResponse C)
  ask_model t rt = (services.complete rt.drawn t.messages (tool_definitions C S rt), advance C S rt)

  -- A round without calls ends the loop; so does a call that waits for the user.
  unfoldable pub after_answer :
      Uuid
      → Uuid
      → (Turn C → M (Turn C ⊎ HandleOutcome C))
      → ModelResponse C
      → Turn C
      → M (Turn C ⊎ HandleOutcome C)
  after_answer correlation_id session_id again response t =
      if is_empty response.tool_calls
      then pure (inl t)
      else (handle_calls correlation_id session_id response.tool_calls t >>= λ next. elim next [
        | inl t2 ↦ again t2
        | inr outcome ↦ pure (inr outcome)
      ])

  -- `for iter in 0..self.budgets.max_tool_iters`, with the rounds that are left.
  unfoldable pub rounds : ℕ → Uuid → Uuid → Turn C → M (Turn C ⊎ HandleOutcome C)
  rounds zero correlation_id session_id t = pure (inl t)
  rounds (suc left) correlation_id session_id t = do
    response ← ask_model t
    t1 ← say correlation_id t response.assistant_text
    after_answer correlation_id session_id (rounds left correlation_id session_id) response t1
