-- ===== src/Startup/Ready.antt =====
-- The state in which the service of services/saaios-runtime/src/main.rs starts.
use saaios.Prelude.{◌≤◌, ◌≡◌, refl, subst, String, false, [], Option-cases, inl, inr, arith}
use saaios.Crates.{Crates}
use saaios.Protocol.{Result, ok, err, ok_inj}
use saaios.Config.{ResolvedSettings}
use saaios.Conversation
use saaios.Conversation.Sessions.{IsBounded}
use saaios.Jsonl.{Log}
use saaios.Policy.{has_session_grant}
use saaios.Provider.{ProviderKind}
use saaios.Registry.Keyed.{IsKeyed}
use saaios.Startup.{
  Host, Built, Outside, Started, service_of, runtime_of, services_of, start, built, kind_of,
}
use saaios.Startup.Registered.{registry_of-IsKeyed}

module _ (C : Crates) (out : Outside C) where
  -- The tools stand under their own names, no tool is granted, the histories fit their store, a request
  -- can be taken, nothing has been sent, and the audit file and the host are as they were found.
  pub record IsReady (audit : Log) (host : Host C) (st : Started C out) : Type 0 where
    pub keyed : IsKeyed C (Host C) st.service.runtime.tools
    pub ungranted : (tool : String) → has_session_grant st.service.runtime.policy tool ≡ false
    pub bounded : IsBounded C.uuid_key st.service.runtime.conversations
    pub takes_one : 1 ≤ st.service.runtime.request_slots
    pub unsent : st.service.runtime.sent ≡ []
    pub same_audit : st.service.runtime.audit ≡ audit
    pub same_host : st.service.runtime.machine ≡ host

  service_of-IsReady :
      (settings : ResolvedSettings) (kind : ProviderKind) (provider : Built C) (audit : Log)
      (host : Host C)
      → IsReady audit host (record {
        services = services_of C out settings provider;
        service = service_of C out settings kind provider audit host;
      })
  unfolding service_of runtime_of has_session_grant Conversation.new
  service_of-IsReady settings kind provider audit host = record {
    keyed = registry_of-IsKeyed C out settings;
    ungranted = λ tool. refl;
    bounded = record { fits = tt; room = omega arith };
    takes_one = omega arith;
    unsent = refl;
    same_audit = refl;
    same_host = refl;
  }

  built-IsReady :
      (settings : ResolvedSettings) (kind : ProviderKind) (audit : Log) (host : Host C)
      (r : Result String (Built C)) (st : Started C out)
      → built C out settings kind audit host r ≡ ok st
      → IsReady audit host st
  unfolding built
  built-IsReady settings kind audit host (err e) st h = cc
  built-IsReady settings kind audit host (ok provider) st h =
      subst (IsReady audit host) (ok_inj h) (service_of-IsReady settings kind provider audit host)

  -- However it is configured, a service that starts is ready: its tools stand under their own names, no
  -- tool is granted for the session, the histories fit their store, at least one request can be
  -- taken, also where the settings allow none, and no envelope has been sent.
  pub start-IsReady :
      (settings : ResolvedSettings) (audit : Log) (host : Host C) (st : Started C out)
      → start C out settings audit host ≡ ok st
      → IsReady audit host st
  unfolding start
  start-IsReady settings audit host st h = elim (Option-cases (kind_of C out settings)) [
    | inl e ↦ absurd (let no = rw (start, e) at h in cc)
    | inr (kind, e) ↦
        built-IsReady settings kind audit host (out.build_provider kind) st (rw (start, e) at h)
  ]
