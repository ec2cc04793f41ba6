-- ===== src/Runtime/Kept.antt =====
-- A request of crates/ai-runtime/src/lib.rs by the kinds of steps that it is made of.
use saaios.Prelude.{
  Bool-cases, ℕ, zero, suc, String, ◌≡◌, refl, Option, none, some, ◌⊎◌, inl, inr, List, [], ◌∷◌,
  is_empty, ◌==◌, drop,
}
use saaios.Crates.{Crates}
use saaios.Protocol.{Envelope, PolicyVerdict, allow, deny, ask_user, MessageKind, ToolCallResult}
use saaios.Conversation
use saaios.Conversation.{ChatMessage}
use saaios.Runtime.{
  Services, Rt, advance, draft, fresh, emit, record_tool_result, decide_call, ProposedToolCall,
}
use saaios.Runtime.Effects.{
  Action, Keeps, keeps_rules, Keeps-bind, Keeps-gets-bind, Keeps-modify, Keeps-pure, Keeps-if, pure,
}
use saaios.Runtime.Handle.{Turn, persist_history, run_tool, when_denied}
use saaios.Runtime.Rounds.{
  when_asked, when_allowed, by_verdict, handle_call, handle_calls, say, ask_model, after_answer,
  rounds,
}
use saaios.Runtime.Requests.{
  complete, handle_user_text_inner, acquire_slot, release_slot, released,
  handle_user_text_in_session,
}

module _ (C : Crates) (S : Type 0) (services : Services C S) (P : Rt C S → Type 0) where
  -- The steps of a request. A tool is run only on the decision to allow it.
  pub record Steps : Type 0 where
    pub on_advance : (r : Rt C S) → P r → P (advance C S r)
    pub on_emit : (env : Envelope C) → Keeps P (emit C S services env)
    pub on_save :
        (id : C.Uuid) (messages : List ChatMessage) (r : Rt C S)
        → P r
        → P (record r { conversations = Conversation.save C.uuid_key r.conversations id messages })
    pub on_run :
        (r : Rt C S) (tool : String) (args : C.Value) (correlation_id call_id : C.Uuid)
        → P r
        → (decide_call C S r tool args).verdict ≡ allow
        → Keeps P (run_tool C S services correlation_id call_id tool args)

  module _ (steps : Steps) where
    pub draft-kept :
        (kind : MessageKind) (id : C.Uuid) (cause : Option C.Uuid) (payload : C.Value)
        → Keeps P (draft C S kind id cause payload)
    unfolding draft
    draft-kept kind id cause payload = record { at = steps.on_advance }

    pub fresh-kept : Keeps P (fresh C S)
    unfolding fresh
    fresh-kept = record { at = steps.on_advance }

    pub record_tool_result-kept :
        (id cause : C.Uuid) (result : ToolCallResult C)
        → Keeps P (record_tool_result C S services id cause result)
    unfolding record_tool_result
    record_tool_result-kept id cause result = search (keeps_rules, draft-kept, steps.on_emit)

    persist_history-kept :
        (id : C.Uuid) (messages : List ChatMessage)
        → Keeps P (persist_history C S services id messages)
    unfolding persist_history
    persist_history-kept id messages = Keeps-modify _ (steps.on_save id (drop 1 messages))

    on_verdict-kept :
        (v : PolicyVerdict) {A : Type 0} (x y z : Action (Rt C S) A)
        → Keeps P x
        → Keeps P y
        → (v ≡ allow → Keeps P z)
        → Keeps P (elim v [ deny ↦ x | ask_user ↦ y | allow ↦ z ])
    on_verdict-kept deny x y z h k l = h
    on_verdict-kept ask_user x y z h k l = k
    on_verdict-kept allow x y z h k l = l refl

    when_denied-kept :
        (id : C.Uuid) (t : Turn C) (call : ProposedToolCall C) (reason : String)
        → Keeps P (when_denied C S services id t call reason)
    unfolding when_denied
    when_denied-kept id t call reason = search (keeps_rules, record_tool_result-kept)

    when_asked-kept :
        (id session_id : C.Uuid) (t : Turn C) (call : ProposedToolCall C)
        → Keeps P (when_asked C S services id session_id t call)
    unfolding when_asked
    when_asked-kept id session_id t call =
        search (keeps_rules, draft-kept, steps.on_emit, persist_history-kept)

    when_allowed-kept :
        (id : C.Uuid) (t : Turn C) (call : ProposedToolCall C)
        → Keeps P (run_tool C S services id call.call_id call.name call.arguments)
        → Keeps P (when_allowed C S services id t call)
    unfolding when_allowed
    when_allowed-kept id t call run = Keeps-bind _ _ run (λ output.
        Keeps-bind _ _ (record_tool_result-kept id t.last_causation _) (λ i. Keeps-pure _))

    by_verdict-kept :
        (r : Rt C S) (id session_id : C.Uuid) (t : Turn C) (call : ProposedToolCall C)
        → P r
        → Keeps P (
            by_verdict C S services id session_id t call
              (decide_call C S r call.name call.arguments))
    unfolding by_verdict
    by_verdict-kept r id session_id t call p =
        on_verdict-kept (decide_call C S r call.name call.arguments).verdict _ _ _
          (when_denied-kept id t call _) (when_asked-kept id session_id t call)
          (λ v.
            when_allowed-kept id t call
              (steps.on_run r call.name call.arguments id call.call_id p v))

    handle_call-kept :
        (id session_id : C.Uuid) (t : Turn C) (call : ProposedToolCall C)
        → Keeps P (handle_call C S services id session_id t call)
    unfolding handle_call
    handle_call-kept id session_id t call = Keeps-bind _ _ (draft-kept _ _ _ _) (λ tool_env.
        Keeps-bind _ _ (steps.on_emit tool_env) (λ _. Keeps-gets-bind _ _ (λ r p.
          Keeps-bind _ _ (draft-kept _ _ _ _) (λ env.
            Keeps-bind _ _ (steps.on_emit env) (λ _. by_verdict-kept r id session_id _ call p)))))

    on_next :
        {A X Y : Type 0} (next : X ⊎ Y) (f : X → Action (Rt C S) A) (g : Y → Action (Rt C S) A)
        → ((x : X) → Keeps P (f x))
        → ((y : Y) → Keeps P (g y))
        → Keeps P (elim next [ inl x ↦ f x | inr y ↦ g y ])
    on_next (inl x) f g h k = h x
    on_next (inr y) f g h k = k y

    handle_calls-kept :
        (id session_id : C.Uuid) (calls : List (ProposedToolCall C)) (t : Turn C)
        → Keeps P (handle_calls C S services id session_id calls t)
    unfolding handle_calls
    handle_calls-kept id session_id [] t = Keeps-pure _
    handle_calls-kept id session_id (call ∷ calls) t =
        Keeps-bind _ _ (handle_call-kept id session_id t call)
          (λ next. on_next next _ _ (handle_calls-kept id session_id calls) (λ o. Keeps-pure _))

    say-kept :
        (id : C.Uuid) (t : Turn C) (text : Option String) → Keeps P (say C S services id t text)
    unfolding say
    say-kept id t none = Keeps-pure _
    say-kept id t (some text) =
        Keeps-bind _ _ (draft-kept _ _ _ _)
          (λ env. Keeps-bind _ _ (steps.on_emit env) (λ _. Keeps-pure _))

    ask_model-kept : (t : Turn C) → Keeps P (ask_model C S services t)
    unfolding ask_model
    ask_model-kept t = record { at = steps.on_advance }

    rounds-kept :
        (left : ℕ) (id session_id : C.Uuid) (t : Turn C)
        → Keeps P (rounds C S services left id session_id t)
    unfolding rounds after_answer
    rounds-kept zero id session_id t = Keeps-pure _
    rounds-kept (suc left) id session_id t = Keeps-bind _ _ (ask_model-kept t) (λ response.
        Keeps-bind _ _ (say-kept id t response.assistant_text) (λ t1.
          Keeps-if (is_empty response.tool_calls) _ _ (Keeps-pure _) (
            Keeps-bind _ _ (handle_calls-kept id session_id response.tool_calls t1)
              (λ next. on_next next _ _ (rounds-kept left id session_id) (λ o. Keeps-pure _)))))

    complete-kept :
        (id session_id : C.Uuid) (t : Turn C) → Keeps P (complete C S services id session_id t)
    unfolding complete
    complete-kept id session_id t = Keeps-bind _ _ (draft-kept _ _ _ _) (λ done.
        Keeps-bind _ _ (steps.on_emit done)
          (λ _. Keeps-bind _ _ (persist_history-kept session_id t.messages) (λ _. Keeps-pure _)))

    pub inner-kept :
        (text : String) (id session_id : C.Uuid)
        → Keeps P (handle_user_text_inner C S services text id session_id)
    unfolding handle_user_text_inner
    inner-kept text id session_id = Keeps-bind _ _ (draft-kept _ _ _ _) (λ req.
        Keeps-bind _ _ (steps.on_emit req) (λ _. Keeps-gets-bind _ _ (λ r p.
          Keeps-gets-bind _ _ (λ r' p'.
            Keeps-bind _ _ (rounds-kept _ id session_id _)
              (λ next. on_next next _ _ (complete-kept id session_id) (λ o. Keeps-pure _))))))

    -- `P` does not depend on the free slots.
    abbrev pub FreeOfSlots : Type 0
    FreeOfSlots = (n : ℕ) (r : Rt C S) → P r → P (record r { request_slots = n })

    acquire_slot-kept : (id : C.Uuid) → FreeOfSlots → Keeps P (acquire_slot C S services id)
    unfolding acquire_slot
    acquire_slot-kept id on_slots = record {
      at = λ r p. elim (Bool-cases (r.request_slots == 0)) [
        | inl e ↦ rw e p
        | inr e ↦ rw e (on_slots _ r p)
      ];
    }

    released-kept :
        {A : Type 0} (m : Action (Rt C S) A)
        → FreeOfSlots
        → Keeps P m
        → Keeps P (released C S services m)
    unfolding released release_slot
    released-kept m on_slots h = record { at = λ r p. on_slots _ (m r).1 (h.at r p) }

    session_of-kept :
        (session_id : Option C.Uuid)
        → Keeps P (elim session_id [ some id ↦ pure id | none ↦ fresh C S ])
    session_of-kept none = fresh-kept
    session_of-kept (some id) = Keeps-pure id

    -- A request keeps what its steps keep.
    pub handle_user_text-kept :
        (text : String) (session_id : Option C.Uuid)
        → FreeOfSlots
        → Keeps P (handle_user_text_in_session C S services text session_id)
    unfolding handle_user_text_in_session
    handle_user_text-kept text session_id on_slots = Keeps-bind _ _ fresh-kept (λ id.
        Keeps-bind _ _ (session_of-kept session_id) (λ s.
          Keeps-bind _ _ (acquire_slot-kept id on_slots)
            (λ _. released-kept _ on_slots (inner-kept text id s))))
