-- ===== src/Service.antt =====
-- `handle_client` of services/saaios-runtime/src/main.rs: one request of a client, read and
-- decoded, up to the response that is encoded and written. A streamed diagnosis does the same as
-- one that is not, with frames.
pub mod Requests
pub mod Guarded
pub mod Workers
pub mod Completed
use saaios.Prelude.{ℕ, suc, String, Bool, true, false, Option, none, some, List, [], ◌∷◌, ◌+++◌}
use saaios.Crates.{Crates}
use saaios.Protocol.{
  ConfirmScope, once, session, cancel, DiagnoseResult, ToolCallResult, Result, ok, err,
}
use saaios.Audit.{AuditRecord}
use saaios.Feed.{EventFeed, FeedItem, tail}
use saaios.Memory.{MemoryFact, MemoryStore, fact, remember, recall, forget, list_recent}
use saaios.Policy
use saaios.Runtime.{PendingConfirmation, RuntimeEvent, HandleOutcome, Services, Rt}
use saaios.Status.{RuntimeMeta, RuntimeStatusDto, status_of}
use saaios.Runtime.Effects.{Action}
use saaios.Runtime.Requests.{handle_user_text_in_session}
use saaios.Runtime.Confirm

-- `Some(false)` cancels, whatever the scope; otherwise the scope counts.
unfoldable pub scope_of : Option Bool → ConfirmScope → ConfirmScope
scope_of (some false) scope = cancel
scope_of (some true) scope = scope
scope_of none scope = scope

module _ (C : Crates) where
  open C use {Value, Uuid}

  pub data ClientRequest : Type 0 where
    diagnose : (text : String) → (session_id : Option Uuid) → (stream : Bool) → ClientRequest
    confirm :
        (correlation_id call_id : Uuid)
        → (tool : String) → (arguments : Value) → (scope : ConfirmScope) → (confirmed : Option Bool)
        → (session_id : Option Uuid) → ClientRequest
    chat_reset : Uuid → ClientRequest
    audit_tail memory_tail events_tail : (limit : ℕ) → ClientRequest
    memory_remember : (key value : String) → (tags : List String) → ClientRequest
    memory_recall : (query : String) → ClientRequest
    memory_forget : (key : String) → ClientRequest
    status session_grants clear_session_grants ping : ClientRequest

  pub record ClientResponse : Type 0 where
    pub ok : Bool
    pub correlation_id : Option Uuid
    pub session_id : Option Uuid
    pub diagnose : Option (DiagnoseResult C)
    pub pending : Option (PendingConfirmation C)
    pub error : Option String
    pub tool_result : Option (ToolCallResult C)
    pub audit_tail : Option (List (AuditRecord C))
    pub session_grants : Option (List String)
    pub memory_facts : Option (List (MemoryFact C))
    pub events : Option (List (FeedItem C))
    pub status : Option RuntimeStatusDto
    pub progress : Option (List (RuntimeEvent C))

  -- `..Default::default()`
  abbrev pub empty_response : Bool → ClientResponse
  empty_response b = record {
    ok = b;
    correlation_id = none;
    session_id = none;
    diagnose = none;
    pending = none;
    error = none;
    tool_result = none;
    audit_tail = none;
    session_grants = none;
    memory_facts = none;
    events = none;
    status = none;
    progress = none;
  }

  abbrev pub failed : String → ClientResponse
  failed e = record (empty_response false) { error = some e }

  abbrev with_facts : Result String (List (MemoryFact C)) → ClientResponse
  with_facts (ok facts) = record (empty_response true) { memory_facts = some facts }
  with_facts (err e) = failed e

  abbrev remembered : Result String (MemoryFact C) → ClientResponse
  remembered (ok f) = record (empty_response true) { memory_facts = some (f ∷ []) }
  remembered (err e) = failed e

  abbrev forgotten : String → Result String (Option (MemoryFact C)) → ClientResponse
  forgotten key (ok (some tomb)) = record (empty_response true) { memory_facts = some [] }
  forgotten key (ok none) = failed ("no fact for key=" +++ key)
  forgotten key (err e) = failed e

  abbrev with_tail : Result String (List (AuditRecord C)) → ClientResponse
  with_tail (ok records) = record (empty_response true) { audit_tail = some records }
  with_tail (err e) = failed e

  -- The fact that the console remembers.
  abbrev console_fact : ℕ → String → String → List String → MemoryFact C
  console_fact n key value tags = record (fact C n key value) {
    tags = tags;
    source = some "console";
  }

  module _ (S : Type 0) (services : Services C S) where
    -- What the clients share: the service's description, the runtime, the outcome of the last
    -- diagnosis, and the event feed.
    pub record Service : Type 0 where
      pub meta : RuntimeMeta
      pub runtime : Rt C S
      pub last_pending : Option (HandleOutcome C)
      pub feed : EventFeed (FeedItem C)

    abbrev grants : Rt C S → Option (List String)
    grants rt = some (Policy.session_grants rt.policy)

    abbrev pub diagnosed :
        Service → Option Uuid → Result String (HandleOutcome C) × Rt C S → ClientResponse × Service
    diagnosed s session_id (ok outcome, rt) = (
      record (empty_response true) {
        correlation_id = some outcome.correlation_id;
        session_id = some outcome.session_id;
        diagnose = some outcome.diagnose;
        pending = outcome.pending_confirmation;
        session_grants = grants rt;
        progress = some outcome.events;
      },
      record s { runtime = rt; last_pending = some outcome },
    )
    diagnosed s session_id (err e, rt) =
        (record (failed e) { session_id = session_id }, record s { runtime = rt })

    abbrev pub confirmed :
        Service
        → Uuid
        → Option Uuid
        → Result String (ToolCallResult C) × Rt C S
        → ClientResponse × Service
    confirmed s correlation_id session_id (ok result, rt) = (
      record (empty_response true) {
        correlation_id = some correlation_id;
        session_id = session_id;
        tool_result = some result;
        session_grants = grants rt;
      },
      record s { runtime = rt },
    )
    confirmed s correlation_id session_id (err e, rt) = (
      record (failed e) {
        correlation_id = some correlation_id;
        session_id = session_id;
        session_grants = grants rt;
      },
      record s { runtime = rt },
    )

    -- The store behind the tools, after an operation on it.
    abbrev pub stored : Service → MemoryStore C → Service
    stored s store = record s {
      runtime = record s.runtime { machine = services.with_memory store s.runtime.machine };
    }

    -- An operation on the memory, if there is one.
    unfoldable pub on_memory :
        (MemoryStore C → ClientResponse × MemoryStore C) → Service → ClientResponse × Service
    on_memory op s = elim (services.memory_of s.runtime.machine) [
      | none ↦ (failed "memory disabled (--no-memory)", s)
      | some store ↦ let (response, store') = op store in (response, stored s store')
    ]

    abbrev remember_op :
        String → String → List String → MemoryStore C → ClientResponse × MemoryStore C
    remember_op key value tags store =
        let (r, store') =
          remember C services.memory_codec (record store { drawn = suc store.drawn })
            (console_fact store.drawn key value tags) in
        (remembered r, store')

    abbrev forget_op : String → MemoryStore C → ClientResponse × MemoryStore C
    forget_op key store =
        let (r, store') = forget C services.memory_codec store key in (forgotten key r, store')

    abbrev pub answered : ClientResponse × Service → Option ClientResponse × Service
    answered (response, s) = (some response, s)

    -- A request, and the response to it. A panic on the feed's lock ends the client's task.
    unfoldable pub handle_client : ClientRequest → Service → Option ClientResponse × Service
    handle_client ping s = (some (empty_response true), s)
    handle_client status s =
        (some (record (empty_response true) { status = some (status_of C S s.meta s.runtime) }), s)
    handle_client (events_tail limit) s = elim (tail s.feed limit) [
      | none ↦ (none, s)
      | some items ↦ (some (record (empty_response true) { events = some items }), s)
    ]
    handle_client (diagnose text session_id stream) s = answered (
        diagnosed s session_id (handle_user_text_in_session C S services text session_id s.runtime))
    handle_client (chat_reset session_id) s = (
      some (record (empty_response true) { session_id = some session_id }),
      record s { runtime = (Confirm.reset_chat_session C S services s.runtime session_id).0 },
    )
    handle_client (confirm correlation_id call_id tool arguments scope confirmation session_id) s =
        answered (
          confirmed s correlation_id session_id (
            Confirm.confirm_in_session C S services correlation_id session_id call_id tool arguments
              (scope_of confirmation scope) s.runtime))
    handle_client (audit_tail limit) s =
        (some (with_tail (Confirm.audit_tail C S services s.runtime limit)), s)
    handle_client (memory_remember key value tags) s =
        answered (on_memory (remember_op key value tags) s)
    handle_client (memory_recall query) s =
        answered
          (on_memory (λ store. (with_facts (recall C services.memory_codec store query), store)) s)
    handle_client (memory_tail limit) s = answered (
        on_memory (λ store. (with_facts (list_recent C services.memory_codec store limit), store))
          s)
    handle_client (memory_forget key) s = answered (on_memory (forget_op key) s)
    handle_client session_grants s =
        (some (record (empty_response true) { session_grants = grants s.runtime }), s)
    handle_client clear_session_grants s = (
      some (record (empty_response true) { session_grants = some [] }),
      record s { runtime = Confirm.clear_session_grants C S services s.runtime },
    )

    -- Requests of any clients, one after the other.
    unfoldable pub serve : List ClientRequest → Service → Service
    serve [] s = s
    serve (request ∷ requests) s = serve requests (handle_client request s).1
