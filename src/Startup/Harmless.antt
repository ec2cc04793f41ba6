-- ===== src/Startup/Harmless.antt =====
-- The signals that the service of services/saaios-runtime/src/main.rs sends after its start.
use saaios.Prelude.{◌≡◌, ◌≢◌, subst, String, List, All, Option-cases, inl, inr}
use saaios.Crates.{Crates}
use saaios.Protocol.{Result, ok, err, ok_inj, deny}
use saaios.Config.{ResolvedSettings}
use saaios.Jsonl.{Log}
use saaios.Policy
use saaios.Provider.{ProviderKind}
use saaios.Runtime.Safety.{Endures}
use saaios.Service.{ClientRequest, serve}
use saaios.Service.Guarded.{serve-Endures}
use saaios.Tools.Linux.{linux_backend}
use saaios.Tools.Signals
use saaios.Tools.Signals.{IsHarmless, shows}
use saaios.Tools.Installed.{get-Tools}
use saaios.Startup.{
  Host, Built, Outside, Started, registry_of, services_of, runtime_of, service_of, start, built,
  kind_of,
}
use saaios.Startup.Registered.{registry_of-IsTool, registry_of-IsKeyed}

module _ (C : Crates) where
  module _ (out : Outside C) where
    abbrev pub IsQuiet : Host C → Type 0
    IsQuiet h = All (IsHarmless C out.machine) h.system.commands

    lasts :
        (settings : ResolvedSettings)
        → Endures C (Host C) IsQuiet (registry_of C out settings) Policy.new (λ v. v ≢ deny)
    lasts settings name tool args ctx h e v p =
        (get-Tools C (Host C) _ (registry_of C out settings) name tool
            (registry_of-IsTool C out (IsHarmless C out.machine) shows Unit
              (λ k pid signal.
                unfold linux_backend in (Signals.real_kill-P C out.machine pid signal))
              settings)
            e).safe
          (λ asks. tt) args ctx h p

    serves :
        (settings : ResolvedSettings) (kind : ProviderKind) (provider : Built C) (audit : Log)
        (host : Host C) (requests : List (ClientRequest C))
        → IsQuiet host
        → IsQuiet
            (serve C
              (Host C)
              (services_of C out settings provider)
              requests
              (service_of C out settings kind provider audit host)).runtime.machine
    unfolding service_of runtime_of
    serves settings kind provider audit host requests p =
        (serve-Endures C (Host C) (services_of C out settings provider) IsQuiet
          (service_of C out settings kind provider audit host) requests
          (registry_of-IsKeyed C out settings) (lasts settings) (λ store h q. q) p).0

    built-serves :
        (settings : ResolvedSettings) (kind : ProviderKind) (audit : Log) (host : Host C)
        (r : Result String (Built C)) (st : Started C out) (requests : List (ClientRequest C))
        → built C out settings kind audit host r ≡ ok st
        → IsQuiet host
        → IsQuiet (serve C (Host C) st.services requests st.service).runtime.machine
    unfolding built
    built-serves settings kind audit host (err e) st requests h p = cc
    built-serves settings kind audit host (ok provider) st requests h p =
        subst
          (λ (t : Started C out).
            IsQuiet (serve C (Host C) t.services requests t.service).runtime.machine)
          (ok_inj h) (serves settings kind provider audit host requests p)

    -- However the service is configured, with or without the memory, and whatever the provider: once it
    -- has started, no requests of any clients, and no answers of the model, make it start a program
    -- other than the four that show what there is, or `kill` with one of seven signals for a
    -- process other than the first and the service itself.
    pub start-IsQuiet :
        (settings : ResolvedSettings) (audit : Log) (host : Host C) (st : Started C out)
        (requests : List (ClientRequest C))
        → start C out settings audit host ≡ ok st
        → IsQuiet host
        → IsQuiet (serve C (Host C) st.services requests st.service).runtime.machine
    unfolding start
    start-IsQuiet settings audit host st requests h p =
        elim (Option-cases (kind_of C out settings)) [
          | inl e ↦ absurd (let no = rw (start, e) at h in cc)
          | inr (kind, e) ↦
              built-serves settings kind audit host (out.build_provider kind) st requests
                (rw (start, e) at h) p
        ]
