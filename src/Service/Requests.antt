-- ===== src/Service/Requests.antt =====
-- What the requests of clients do to the runtime that they share, in
-- services/saaios-runtime/src/main.rs.
use saaios.Prelude.{
  ℕ, String, false, ◌≡◌, refl, sym, subst, Option, Option-cases, inl, inr, some, List, [], ◌∷◌,
}
use saaios.Crates.{Crates}
use saaios.Protocol.{ToolCallResult, ConfirmScope, Result, ok, err}
use saaios.Jsonl.Records.{IsCodec}
use saaios.Audit.{AuditRecord}
use saaios.Memory.{MemoryStore}
use saaios.Feed.{tail}
use saaios.Runtime.{Services, Rt, HandleOutcome}
use saaios.Runtime.Confirm
use saaios.Runtime.Trail.{IsRecorded, handle_user_text-IsRecorded, confirm-IsRecorded, same}
use saaios.Runtime.Safety.{IsGuarded}
use saaios.Runtime.Answers.{confirm-cancel}
use saaios.Service.{
  ClientRequest, ClientResponse, Service, scope_of, handle_client, serve, on_memory, diagnosed,
  confirmed, diagnose, confirm, chat_reset, audit_tail, memory_tail, events_tail, memory_remember,
  memory_recall, memory_forget, status, session_grants, clear_session_grants, ping,
}

module _ (C : Crates) (S : Type 0) (services : Services C S) where
  pub confirmed-runtime :
      (s : Service C S services) (id : C.Uuid) (session_id : Option C.Uuid)
      (x : Result String (ToolCallResult C) × Rt C S)
      → (confirmed C S services s id session_id x).1.runtime ≡ x.1
  confirmed-runtime s id session_id (ok result, rt) = refl
  confirmed-runtime s id session_id (err e, rt) = refl

  pub diagnosed-runtime :
      (s : Service C S services) (session_id : Option C.Uuid)
      (x : Result String (HandleOutcome C) × Rt C S)
      → (diagnosed C S services s session_id x).1.runtime ≡ x.1
  diagnosed-runtime s session_id (ok outcome, rt) = refl
  diagnosed-runtime s session_id (err e, rt) = refl

  -- A confirmation with `confirmed` false changes nothing of the machine, of the registered tools or of
  -- the session grants, whatever scope it names.
  pub handle_client-refused :
      (s : Service C S services) (correlation_id call_id : C.Uuid) (tool : String) (args : C.Value)
      (scope : ConfirmScope) (session_id : Option C.Uuid)
      → IsGuarded C S
          (λ m. m ≡ s.runtime.machine)
          s.runtime.tools
          s.runtime.policy
          (handle_client C S services
            (confirm correlation_id call_id tool args scope (some false) session_id)
            s).1.runtime
  unfolding handle_client scope_of
  handle_client-refused s correlation_id call_id tool args scope session_id =
      subst (IsGuarded C S (λ m. m ≡ s.runtime.machine) s.runtime.tools s.runtime.policy)
        (sym (confirmed-runtime s correlation_id session_id _))
        (confirm-cancel C S services s.runtime correlation_id session_id call_id tool args)

  module _ (base : List (AuditRecord C)) (laws : IsCodec services.audit_codec) where
    abbrev R : Rt C S → Type 0
    R = IsRecorded C S services base

    on_memory-IsRecorded :
        (op : MemoryStore C → ClientResponse C × MemoryStore C) (s : Service C S services)
        → R s.runtime
        → R (on_memory C S services op s).1.runtime
    unfolding on_memory
    on_memory-IsRecorded op s h = elim (Option-cases (services.memory_of s.runtime.machine)) [
      | inl e ↦ rw (e, on_memory) h
      | inr (store, e) ↦ rw (e, on_memory) (same C S services base laws h refl refl)
    ]

    tail-IsRecorded :
        (s : Service C S services) (limit : ℕ)
        → R s.runtime
        → R (handle_client C S services (events_tail limit) s).1.runtime
    unfolding handle_client
    tail-IsRecorded s limit h = elim (Option-cases (tail s.feed limit)) [
      | inl e ↦ rw (e, handle_client) h
      | inr (items, e) ↦ rw (e, handle_client) h
    ]

    request-IsRecorded :
        (request : ClientRequest C) (s : Service C S services)
        → R s.runtime
        → R (handle_client C S services request s).1.runtime
    unfolding handle_client Confirm.reset_chat_session Confirm.clear_session_grants
    request-IsRecorded ping s h = h
    request-IsRecorded status s h = h
    request-IsRecorded (events_tail limit) s h = tail-IsRecorded s limit h
    request-IsRecorded (diagnose text session_id stream) s h =
        subst R (sym (diagnosed-runtime s session_id _))
          (handle_user_text-IsRecorded C S services base laws s.runtime text session_id h)
    request-IsRecorded (chat_reset id) s h = same C S services base laws h refl refl
    request-IsRecorded (confirm id call_id tool args scope given session_id) s h =
        subst R (sym (confirmed-runtime s id session_id _)) (
          confirm-IsRecorded C S services base laws s.runtime id session_id call_id tool args
            (scope_of given scope) h)
    request-IsRecorded (audit_tail limit) s h = h
    request-IsRecorded (memory_remember key value tags) s h = on_memory-IsRecorded _ s h
    request-IsRecorded (memory_recall query) s h = on_memory-IsRecorded _ s h
    request-IsRecorded (memory_tail limit) s h = on_memory-IsRecorded _ s h
    request-IsRecorded (memory_forget key) s h = on_memory-IsRecorded _ s h
    request-IsRecorded session_grants s h = h
    request-IsRecorded clear_session_grants s h = same C S services base laws h refl refl

    -- On a machine that tears no write, after any requests of clients, one after the other and
    -- successful or not, the audit file holds the records that it began with and then those of all
    -- envelopes sent on the bus, in order, and nothing else.
    pub serve-IsRecorded :
        (requests : List (ClientRequest C)) (s : Service C S services)
        → R s.runtime
        → R (serve C S services requests s).runtime
    unfolding serve
    serve-IsRecorded [] s h = h
    serve-IsRecorded (request ∷ requests) s h =
        serve-IsRecorded requests (handle_client C S services request s).1
          (request-IsRecorded request s h)
