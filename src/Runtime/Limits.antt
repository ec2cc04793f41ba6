-- ===== src/Runtime/Limits.antt =====
-- The budgets of crates/ai-runtime/src/lib.rs: the slots for requests at a time, and the length of
-- the histories.
use saaios.Prelude.{
  ℕ, suc, ◌-◌, ◌==◌, String, Bool-cases, false, ◌≡◌, refl, sym, ◌∙◌, subst, arith, Option, none,
  some, List, inl, inr,
}
use saaios.Crates.{Crates}
use saaios.Protocol.{Result, ok, err, Envelope, ConfirmScope}
use saaios.Registry.{ToolOutput, ToolError}
use saaios.Conversation
use saaios.Conversation.{ChatMessage}
use saaios.Conversation.Sessions.{IsBounded, step, step-IsBounded, saves, appends}
use saaios.Runtime.{Services, Rt, emit, audit, publish, fresh}
use saaios.Runtime.Effects.{Action, Keeps, Keeps-bind, Keeps-modify, ◌>>=◌, pure}
use saaios.Runtime.Handle.{run_tool, ran}
use saaios.Runtime.Requests.{
  handle_user_text_in_session, handle_user_text_inner, acquire_slot, released, release_slot,
}
use saaios.Runtime.Confirm.{confirm_in_session}
use saaios.Runtime.Kept
use saaios.Runtime.Answered

module _ (C : Crates) (S : Type 0) (services : Services C S) where
  module _ (P : Rt C S → Type 0)
      (free : (r r' : Rt C S)
        → r'.request_slots ≡ r.request_slots
        → r'.conversations ≡ r.conversations
        → P r
        → P r') where
    audit-kept : (env : Envelope C) → Keeps P (audit C S services env)
    unfolding audit
    audit-kept env = record { at = λ r p. free r (audit C S services env r).1 refl refl p }

    emit-kept : (env : Envelope C) → Keeps P (emit C S services env)
    unfolding emit publish
    emit-kept env =
        Keeps-bind _ _ (audit-kept env)
          (λ _. Keeps-modify _ (λ r p. free r (publish C S env r) refl refl p))

    ran-kept :
        (x : Result ToolError (ToolOutput C) × S) (r : Rt C S) → P r → P (ran C S services x r).1
    unfolding ran
    ran-kept (ok output, s) r p = free r (record r { machine = s }) refl refl p
    ran-kept (err e, s) r p = free r (record r { machine = s }) refl refl p

    run_tool-kept :
        (id call_id : C.Uuid) (tool : String) (args : C.Value)
        → Keeps P (run_tool C S services id call_id tool args)
    unfolding run_tool
    run_tool-kept id call_id tool args = record { at = λ r p. ran-kept _ r p }

  abbrev AllBounded : Rt C S → Type 0
  AllBounded rt = IsBounded C.uuid_key rt.conversations

  free-AllBounded :
      (r r' : Rt C S)
      → r'.request_slots ≡ r.request_slots
      → r'.conversations ≡ r.conversations
      → AllBounded r
      → AllBounded r'
  free-AllBounded r r' s c b = subst (IsBounded C.uuid_key) (sym c) b

  saved :
      (id : C.Uuid) (messages : List ChatMessage) (r : Rt C S)
      → AllBounded r
      → IsBounded C.uuid_key (Conversation.save C.uuid_key r.conversations id messages)
  unfolding step
  saved id messages r b = step-IsBounded C.uuid_key r.conversations (saves id messages) b

  told :
      (id : C.Uuid) (m : ChatMessage) (r : Rt C S)
      → AllBounded r
      → IsBounded C.uuid_key (Conversation.append C.uuid_key r.conversations id m)
  unfolding step
  told id m r b = step-IsBounded C.uuid_key r.conversations (appends id m) b

  -- After a request, successful or not, every history still fits the store's limit.
  pub handle_user_text-IsBounded :
      (rt : Rt C S) (text : String) (session_id : Option C.Uuid)
      → IsBounded C.uuid_key rt.conversations
      → IsBounded C.uuid_key
          (handle_user_text_in_session C S services text session_id rt).1.conversations
  handle_user_text-IsBounded rt text session_id b =
      (Kept.handle_user_text-kept C S services AllBounded
          (record {
            on_advance = λ r b. b;
            on_emit = emit-kept AllBounded free-AllBounded;
            on_save = λ id messages r b. saved id messages r b;
            on_run = λ r tool args id call_id b v.
                run_tool-kept AllBounded free-AllBounded id call_id tool args;
          })
          text session_id (λ n r b. b)).at
        rt b

  -- After an answer to a confirmation request, of whatever scope and successful or not, every history
  -- still fits the store's limit.
  pub confirm-IsBounded :
      (rt : Rt C S) (id : C.Uuid) (session_id : Option C.Uuid) (call_id : C.Uuid) (tool : String)
      (args : C.Value) (scope : ConfirmScope)
      → IsBounded C.uuid_key rt.conversations
      → IsBounded C.uuid_key
          (confirm_in_session C S services id session_id call_id tool args scope rt).1.conversations
  confirm-IsBounded rt id session_id call_id tool args scope b =
      (Answered.confirm-kept C S services AllBounded {scope = scope}
          (record {
            on_advance = λ r b. b;
            on_emit = emit-kept AllBounded free-AllBounded;
            on_append = λ id m r b. told id m r b;
            on_grant = λ tool r e b. b;
            on_run = λ r tool args id call_id n b d.
                run_tool-kept AllBounded free-AllBounded id call_id tool args;
          })
          id session_id call_id tool args).at
        rt b

  -- The slots of a runtime.
  abbrev HasSlots : ℕ → Rt C S → Type 0
  HasSlots n rt = rt.request_slots ≡ n

  free-HasSlots :
      (n : ℕ) (r r' : Rt C S)
      → r'.request_slots ≡ r.request_slots
      → r'.conversations ≡ r.conversations
      → HasSlots n r
      → HasSlots n r'
  free-HasSlots n r r' s c h = s ∙ h

  inner-HasSlots :
      (n : ℕ) (text : String) (id session_id : C.Uuid)
      → Keeps (HasSlots n) (handle_user_text_inner C S services text id session_id)
  inner-HasSlots n text id session_id =
      Kept.inner-kept C S services (HasSlots n)
        (record {
          on_advance = λ r h. h;
          on_emit = emit-kept (HasSlots n) (free-HasSlots n);
          on_save = λ id messages r h. h;
          on_run = λ r tool args id call_id b v.
              run_tool-kept (HasSlots n) (free-HasSlots n) id call_id tool args;
        })
        text id session_id

  back : {n k : ℕ} (slots : ℕ) → slots ≡ n → (slots == 0) ≡ false → k ≡ slots - 1 → suc k ≡ n
  back slots p e q = ground arith

  slotted :
      (n : ℕ) {A : Type 0} (id : C.Uuid) (m : Action (Rt C S) A)
      → ((k : ℕ) → Keeps (HasSlots k) m)
      → Keeps (HasSlots n) (acquire_slot C S services id >>= λ _. released C S services m)
  unfolding ◌>>=◌ acquire_slot released release_slot
  slotted n id m h = record {
    at = λ r p. elim (Bool-cases (r.request_slots == 0)) [
      | inl e ↦ rw e p
      | inr e ↦ rw e (
          back r.request_slots p e
            ((h (r.request_slots - 1)).at (record r { request_slots = r.request_slots - 1 }) refl))
    ];
  }

  session_of-HasSlots :
      (n : ℕ) (session_id : Option C.Uuid)
      → Keeps (HasSlots n) (elim session_id [ some id ↦ pure id | none ↦ fresh C S ])
  unfolding fresh pure
  session_of-HasSlots n none = record { at = λ r h. h }
  session_of-HasSlots n (some id) = record { at = λ r h. h }

  fresh-HasSlots : (n : ℕ) → Keeps (HasSlots n) (fresh C S)
  unfolding fresh
  fresh-HasSlots n = record { at = λ r h. h }

  -- A request gives back the slot that it takes, whether it is refused, fails or succeeds.
  pub handle_user_text-slots :
      (rt : Rt C S) (text : String) (session_id : Option C.Uuid)
      → (handle_user_text_in_session C S services text session_id rt).1.request_slots
        ≡ rt.request_slots
  unfolding handle_user_text_in_session
  handle_user_text-slots rt text session_id =
      (Keeps-bind _ _ (fresh-HasSlots rt.request_slots) (λ id.
          Keeps-bind _ _ (session_of-HasSlots rt.request_slots session_id)
            (λ s. slotted rt.request_slots id _ (λ k. inner-HasSlots k text id s)))).at
        rt refl
