-- ===== src/Service/Guarded.antt =====
-- The machine under the requests of clients, in services/saaios-runtime/src/main.rs.
use saaios.Prelude.{
  ℕ, String, ◌≡◌, ◌≢◌, refl, sym, ◌∙◌, subst, Option, Option-cases, inl, inr, List, [], ◌∷◌,
}
use saaios.Crates.{Crates}
use saaios.Protocol.{allow, deny}
use saaios.Registry.{ToolRegistry}
use saaios.Registry.Keyed.{IsKeyed}
use saaios.Policy.{PolicyEngine}
use saaios.Memory.{MemoryStore}
use saaios.Feed.{tail}
use saaios.Runtime.{Services, Rt}
use saaios.Runtime.Confirm
use saaios.Runtime.Requests.{handle_user_text_in_session}
use saaios.Runtime.Safety.{Endures, handle_user_text-IsGuarded}
use saaios.Runtime.Answers.{MachineKept, confirm-Endures, under_any}
use saaios.Service.{
  ClientRequest, ClientResponse, Service, scope_of, handle_client, serve, on_memory, diagnose,
  confirm, chat_reset, audit_tail, memory_tail, events_tail, memory_remember, memory_recall,
  memory_forget, status, session_grants, clear_session_grants, ping,
}
use saaios.Service.Requests.{confirmed-runtime, diagnosed-runtime}

module _ (C : Crates) (S : Type 0) (services : Services C S) (P : S → Type 0)
    (tools : ToolRegistry C S) (policy : PolicyEngine) where
  abbrev K : Rt C S → Type 0
  K r = MachineKept C S services P tools policy r

  -- What the requests of clients may do to the machine.
  record IsSafe : Type 0 where
    pub keyed : IsKeyed C S tools
    pub lasts : Endures C S P tools policy (λ v. v ≢ deny)
    pub memory : (store : MemoryStore C) (m : S) → P m → P (services.with_memory store m)

  module _ (safe : IsSafe) where
    lasts_now : (r : Rt C S) → K r → Endures C S P r.tools r.policy (λ v. v ≢ deny)
    lasts_now r (p, t) =
        subst (λ x. Endures C S P x r.policy (λ v. v ≢ deny)) (sym t)
          (under_any C S services P tools policy r.policy safe.lasts)

    allowed_now : (r : Rt C S) → K r → Endures C S P r.tools r.policy (λ v. v ≡ allow)
    allowed_now r k name tool args ctx s e v p =
        lasts_now r k name tool args ctx s e (λ d. (let x = sym v ∙ d in cc)) p

    text-K :
        (r : Rt C S) (text : String) (session_id : Option C.Uuid)
        → K r
        → K (handle_user_text_in_session C S services text session_id r).1
    text-K r text session_id (p, t) =
        let g =
          handle_user_text-IsGuarded C S services P r text session_id
            (subst (IsKeyed C S) (sym t) safe.keyed) (allowed_now r (p, t)) p in
        (g.machine_ok, g.same_tools ∙ t)

    on_memory-K :
        (op : MemoryStore C → ClientResponse C × MemoryStore C) (s : Service C S services)
        → K s.runtime
        → K (on_memory C S services op s).1.runtime
    unfolding on_memory
    on_memory-K op s (p, t) = elim (Option-cases (services.memory_of s.runtime.machine)) [
      | inl e ↦ rw (e, on_memory) (p, t)
      | inr (store, e) ↦ rw (e, on_memory) (safe.memory (op store).1 s.runtime.machine p, t)
    ]

    tail-K :
        (s : Service C S services) (limit : ℕ)
        → K s.runtime
        → K (handle_client C S services (events_tail limit) s).1.runtime
    unfolding handle_client
    tail-K s limit h = elim (Option-cases (tail s.feed limit)) [
      | inl e ↦ rw (e, handle_client) h
      | inr (items, e) ↦ rw (e, handle_client) h
    ]

    request-K :
        (request : ClientRequest C) (s : Service C S services)
        → K s.runtime
        → K (handle_client C S services request s).1.runtime
    unfolding handle_client Confirm.reset_chat_session Confirm.clear_session_grants
    request-K ping s h = h
    request-K status s h = h
    request-K (events_tail limit) s h = tail-K s limit h
    request-K (diagnose text session_id stream) s h =
        subst K (sym (diagnosed-runtime C S services s session_id _))
          (text-K s.runtime text session_id h)
    request-K (chat_reset id) s h = h
    request-K (confirm id call_id tool args scope given session_id) s (p, t) =
        subst K (sym (confirmed-runtime C S services s id session_id _)) (
          let (p', t') =
            confirm-Endures C S services P s.runtime id session_id call_id tool args
              (scope_of given scope) (lasts_now s.runtime (p, t)) p in
          (p', t' ∙ t))
    request-K (audit_tail limit) s h = h
    request-K (memory_remember key value tags) s h = on_memory-K _ s h
    request-K (memory_recall query) s h = on_memory-K _ s h
    request-K (memory_tail limit) s h = on_memory-K _ s h
    request-K (memory_forget key) s h = on_memory-K _ s h
    request-K session_grants s h = h
    request-K clear_session_grants s h = h

    serve-K :
        (requests : List (ClientRequest C)) (s : Service C S services)
        → K s.runtime
        → K (serve C S services requests s).runtime
    unfolding serve
    serve-K [] s h = h
    serve-K (request ∷ requests) s h =
        serve-K requests (handle_client C S services request s).1 (request-K request s h)

module _ (C : Crates) (S : Type 0) where
  -- No sequence of clients' requests makes a denied call run: whatever property of the machine is kept
  -- by every run of a tool that the engine does not deny, and by putting the memory back, also holds
  -- after any requests, whatever the model answers and whatever the clients confirm or grant. The
  -- tools stand under their own names, and stay.
  pub serve-Endures :
      (services : Services C S) (P : S → Type 0) (s : Service C S services)
      (requests : List (ClientRequest C))
      → IsKeyed C S s.runtime.tools
      → Endures C S P s.runtime.tools s.runtime.policy (λ v. v ≢ deny)
      → ((store : MemoryStore C) (m : S) → P m → P (services.with_memory store m))
      → P s.runtime.machine
      → P (serve C S services requests s).runtime.machine
        × ((serve C S services requests s).runtime.tools ≡ s.runtime.tools)
  serve-Endures services P s requests keyed lasts memory p =
      serve-K C S services P s.runtime.tools s.runtime.policy
        (record { keyed = keyed; lasts = lasts; memory = memory }) requests s (p, refl)
