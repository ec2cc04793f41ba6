-- ===== src/Runtime/Answered.antt =====
-- `confirm_in_session` of crates/ai-runtime/src/lib.rs by the kinds of steps that it is made of.
use saaios.Prelude.{String, ◌≡◌, ◌≢◌, refl, sym, Option, none, some, if◌then◌else◌}
use saaios.Crates.{Crates}
use saaios.Protocol.{
  Envelope, PolicyVerdict, allow, deny, ask_user, ConfirmScope, once, session, cancel, MessageKind,
  ToolCallResult,
}
use saaios.Policy
use saaios.Policy.{PolicyEngine}
use saaios.Runtime.{Services, Rt, draft, emit, record_tool_result}
use saaios.Runtime.Effects.{
  Action, Keeps, keeps_rules, Keeps-bind, Keeps-modify, Keeps-gets-bind, Keeps-pure, Keeps-fail,
}
use saaios.Runtime.Handle.{run_tool}
use saaios.Runtime.Confirm.{
  tell, grant, when_cancelled, execute_confirmed, reconsidered, by_reconsidered, when_confirmed,
  confirm_in_session, is_confirmed,
}
use saaios.Conversation
use saaios.Conversation.{ChatMessage}
use saaios.Runtime.{advance}

module _ (C : Crates) (S : Type 0) (services : Services C S) (P : Rt C S → Type 0) where
  -- The steps of an answer of a given scope. Only the session scope grants, and a tool is run only
  -- if the answer is no cancellation and the engine does not deny the call.
  pub record Steps (scope : ConfirmScope) : Type 0 where
    pub on_advance : (r : Rt C S) → P r → P (advance C S r)
    pub on_emit : (env : Envelope C) → Keeps P (emit C S services env)
    pub on_append :
        (id : C.Uuid) (m : ChatMessage) (r : Rt C S)
        → P r
        → P (record r { conversations = Conversation.append C.uuid_key r.conversations id m })
    pub on_grant :
        (tool : String) (r : Rt C S)
        → scope ≡ session
        → P r
        → P (record r { policy = Policy.grant_session r.policy tool })
    pub on_run :
        (r : Rt C S) (tool : String) (args : C.Value) (correlation_id call_id : C.Uuid)
        → scope ≢ cancel
        → P r
        → reconsidered C S services tool args r ≢ some deny
        → Keeps P (run_tool C S services correlation_id call_id tool args)

  module _ {scope : ConfirmScope} (steps : Steps scope) where
    draft-kept :
        (kind : MessageKind) (id : C.Uuid) (cause : Option C.Uuid) (payload : C.Value)
        → Keeps P (draft C S kind id cause payload)
    unfolding draft
    draft-kept kind id cause payload = record { at = steps.on_advance }

    tell-kept :
        (session_id : Option C.Uuid) (content : String)
        → Keeps P (tell C S services session_id content)
    unfolding tell
    tell-kept none content = Keeps-pure tt
    tell-kept (some sid) content = Keeps-modify _ (steps.on_append sid _)

    record_tool_result-kept :
        (id cause : C.Uuid) (result : ToolCallResult C)
        → Keeps P (record_tool_result C S services id cause result)
    unfolding record_tool_result
    record_tool_result-kept id cause result = search (keeps_rules, draft-kept, steps.on_emit)

    when_cancelled-kept :
        (session_id : Option C.Uuid) (call_id : C.Uuid) (tool : String)
        → Keeps P (when_cancelled C S services session_id call_id tool)
    unfolding when_cancelled
    when_cancelled-kept session_id call_id tool = search (keeps_rules, tell-kept)

    execute_confirmed-kept :
        (id : C.Uuid) (session_id : Option C.Uuid) (cause call_id : C.Uuid) (tool : String)
        (args : C.Value)
        → Keeps P (run_tool C S services id call_id tool args)
        → Keeps P (execute_confirmed C S services id session_id cause call_id tool args)
    unfolding execute_confirmed
    execute_confirmed-kept id session_id cause call_id tool args run = Keeps-bind _ _ run (λ output.
        Keeps-bind _ _ (record_tool_result-kept id cause _)
          (λ _. Keeps-bind _ _ (tell-kept session_id _) (λ _. Keeps-pure _)))

    by_reconsidered-kept :
        (o : Option PolicyVerdict) (tool : String) (go : Action (Rt C S) (ToolCallResult C))
        → (o ≢ some deny → Keeps P go)
        → Keeps P (by_reconsidered C S services o tool go)
    unfolding by_reconsidered
    by_reconsidered-kept none tool go h = Keeps-fail _
    by_reconsidered-kept (some deny) tool go h = Keeps-fail _
    by_reconsidered-kept (some allow) tool go h = h (λ e. cc)
    by_reconsidered-kept (some ask_user) tool go h = h (λ e. cc)

    grant-kept :
        (s : ConfirmScope) (tool : String) → s ≡ scope → Keeps P (grant C S services s tool)
    unfolding grant
    grant-kept session tool e = Keeps-modify _ (λ r p. steps.on_grant tool r (sym e) p)
    grant-kept once tool e = Keeps-pure tt
    grant-kept cancel tool e = Keeps-pure tt

    when_confirmed-kept :
        (id : C.Uuid) (session_id : Option C.Uuid) (cause call_id : C.Uuid) (tool : String)
        (args : C.Value)
        → scope ≢ cancel
        → Keeps P (when_confirmed C S services id session_id cause call_id tool args scope)
    unfolding when_confirmed
    when_confirmed-kept id session_id cause call_id tool args n =
        Keeps-bind _ _ (grant-kept scope tool refl) (λ _. Keeps-gets-bind _ _ (λ r p.
          by_reconsidered-kept _ tool _ (λ d.
            execute_confirmed-kept id session_id cause call_id tool args
              (steps.on_run r tool args id call_id n p d))))

    answered-kept :
        (s : ConfirmScope) {A : Type 0} (m n : Action (Rt C S) A)
        → (s ≢ cancel → Keeps P m)
        → Keeps P n
        → Keeps P (if is_confirmed s then m else n)
    answered-kept once m n h k = h (λ e. cc)
    answered-kept session m n h k = h (λ e. cc)
    answered-kept cancel m n h k = k

    -- An answer keeps what its steps keep.
    pub confirm-kept :
        (id : C.Uuid) (session_id : Option C.Uuid) (call_id : C.Uuid) (tool : String)
        (args : C.Value)
        → Keeps P (confirm_in_session C S services id session_id call_id tool args scope)
    unfolding confirm_in_session
    confirm-kept id session_id call_id tool args = Keeps-bind _ _ (draft-kept _ _ _ _) (λ env.
        Keeps-bind _ _ (steps.on_emit env) (λ _.
          answered-kept scope _ _ (when_confirmed-kept id session_id env.msg_id call_id tool args)
            (when_cancelled-kept session_id call_id tool)))
