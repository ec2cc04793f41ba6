-- ===== src/Runtime/Requests.antt =====
-- crates/ai-runtime/src/lib.rs: what stands around the loop of `handle_user_text_inner`, and its slot.
use saaios.Prelude.{
  suc, ◌-◌, String, false, inl, inr, Option, none, some, [], ◌∷◌, ◌++◌, if◌then◌else◌, ◌+++◌, ◌==◌,
}
use saaios.Crates.{Crates}
use saaios.Protocol.{Result, ok, err, user_request, diagnose_result}
use saaios.Conversation
use saaios.Conversation.{ChatMessage}
use saaios.Memory.{format_context}
use saaios.Runtime.{RuntimeEvent, HandleOutcome, Services, Rt, draft, fresh, emit}
use saaios.Runtime.Effects.{Action, pure, gets, ◌>>=◌, ◌>>◌}
use saaios.Runtime.Handle.{
  system_prompt, message, Turn, close_summary, diagnose_value, persist_history,
}
use saaios.Runtime.Rounds.{rounds}

module _ (C : Crates) (S : Type 0) (services : Services C S) where
  open C use {Value, Uuid, str, obj, to_text}

  abbrev M : Type 0 → Type 0
  M A = Action (Rt C S) A

  -- What follows the loop.
  unfoldable pub complete : Uuid → Uuid → Turn C → M (HandleOutcome C)
  complete correlation_id session_id t = do
    let diagnose = close_summary C t
    done ←
        draft C S diagnose_result correlation_id (some t.last_causation) (diagnose_value C diagnose)
    emit C S services done
    persist_history C S services session_id t.messages
    pure (record {
      correlation_id = correlation_id;
      session_id = session_id;
      diagnose = diagnose;
      pending_confirmation = none;
      events = t.events ++ RuntimeEvent.completed diagnose ∷ [];
    })

  abbrev remembered : Result String String → String
  remembered (ok text) = text
  remembered (err e) = ""

  -- The system prompt, with what `format_context` says if there is a memory and it can be read.
  abbrev system_text : Rt C S → String
  system_text rt = elim (services.memory_of rt.machine) [
    | none ↦ system_prompt
    | some store ↦ system_prompt +++ remembered (format_context C services.memory_codec store 12)
  ]

  abbrev opening : Rt C S → Uuid → String → Uuid → Turn C
  opening rt session_id text cause = record {
    messages =
        message "system" (system_text rt)
        ∷ (Conversation.get C.uuid_key rt.conversations session_id ++ message "user" text ∷ []);
    diagnose = record {
      summary = "";
      culprit_pid = none;
      culprit_name = none;
      proposed_action = none;
    };
    last_causation = cause;
    called_metrics = false;
    called_process_list = false;
    events = [];
  }

  unfoldable pub handle_user_text_inner : String → Uuid → Uuid → M (HandleOutcome C)
  handle_user_text_inner text correlation_id session_id = do
    req ← draft C S user_request correlation_id none (obj (("text", str text) ∷ []))
    emit C S services req
    start ← gets (λ rt. opening rt session_id text req.msg_id)
    limit ← gets (λ rt. rt.max_tool_iters)
    next ← rounds C S services limit correlation_id session_id start
    elim next [ inl t ↦ complete correlation_id session_id t | inr outcome ↦ pure outcome ]

  -- `try_acquire_owned`: no permit, no request.
  unfoldable pub acquire_slot : Uuid → M (Unit {0})
  acquire_slot correlation_id rt =
      if rt.request_slots == 0
      then (
        err (
            "AI runtime busy: max_concurrent_requests="
            +++ C.show_nat rt.max_concurrent_requests
            +++ " (correlation_id="
            +++ C.show_uuid correlation_id
            +++ ")"),
        rt,
      )
      else (ok tt, record rt { request_slots = rt.request_slots - 1 })

  -- `drop(permit)`
  unfoldable pub release_slot : Rt C S → Rt C S
  release_slot rt = record rt { request_slots = suc rt.request_slots }

  -- The permit is given back whether the request succeeded or not.
  unfoldable pub released : {A : Type 0} → M A → M A
  released m rt = let (x, rt') = m rt in (x, release_slot rt')

  unfoldable pub handle_user_text_in_session : String → Option Uuid → M (HandleOutcome C)
  handle_user_text_in_session text session_id = do
    correlation_id ← fresh C S
    session ← elim session_id [ some id ↦ pure id | none ↦ fresh C S ]
    acquire_slot correlation_id
    released (handle_user_text_inner text correlation_id session)
