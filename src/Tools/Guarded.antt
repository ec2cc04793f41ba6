-- ===== src/Tools/Guarded.antt =====
-- The tools of crates/system-tools/src/lib.rs under the runtime and its policy.
use saaios.Prelude.{ℕ, ◌≡◌, ◌≢◌, sym, subst, String, true, some, List, [], All, one_of}
use saaios.Crates.{Crates}
use saaios.Protocol.{deny}
use saaios.Registry.{ToolRegistry, get}
use saaios.Registry.Keyed.{IsKeyed}
use saaios.Memory.{MemoryStore}
use saaios.Runtime.{Services}
use saaios.Runtime.Safety.{Endures}
use saaios.Service.{ClientRequest, Service, serve}
use saaios.Service.Guarded.{serve-Endures}
use saaios.Tools.{ToolsMode, mock, real_linux, install_system_tools}
use saaios.Tools.World.{Machine, World, Keeps, Keeps-bind, Keeps-pure}
use saaios.Tools.Linux.{linux_backend, backend_of}
use saaios.Tools.Mock.{mock_backend}
use saaios.Tools.Commands
use saaios.Tools.Commands.{readers}
use saaios.Tools.Signals
use saaios.Tools.Signals.{IsHarmless, shows}
use saaios.Tools.Installed.{
  Tools, IsSafeBackend, IsSystemTool, system_tools-IsSystemTool, install-Tools, get-Tools,
  install-IsKeyed,
}

module _ (C : Crates) (m : Machine) where
  -- The registry of a runtime without a memory.
  abbrev pub installed : ToolsMode → ToolRegistry C World
  installed mode = install_system_tools C World (backend_of C m) mode (record { tools = [] })

  module _ (Q : String × List String → Type 0)
      (reads : (program : String) (args : List String)
        → one_of program readers ≡ true
        → Q (program, args))
      (K : Type 0)
      (kills : K
        → (pid : ℕ) (signal : String)
        → Keeps (λ w. All Q w.commands) ((linux_backend C m).kill pid signal)) where
    abbrev P : World → Type 0
    P w = All Q w.commands

    linux-IsSafe : IsSafeBackend C World P (linux_backend C m) K
    unfolding linux_backend
    linux-IsSafe = record {
      metrics = (Commands.metrics-P C m Q reads).at;
      processes = (Commands.processes-P C m Q reads).at;
      network_status = (Keeps-bind _ _ (Commands.network-P C m Q reads) (λ a. Keeps-pure _)).at;
      disk = (Keeps-bind _ _ (Commands.disk-P C m Q reads) (λ a. Keeps-pure _)).at;
      temperature = (Keeps-bind _ _ (Commands.temperature-P C m Q reads) (λ a. Keeps-pure _)).at;
      journal = λ lines unit.
          (Keeps-bind _ _ (Commands.journal-P C m Q reads lines unit) (λ a. Keeps-pure _)).at;
      kill = λ k pid signal. (kills k pid signal).at;
    }

    mock-IsSafe : IsSafeBackend C World P (mock_backend C World) K
    unfolding mock_backend
    mock-IsSafe = record {
      metrics = λ s p. p;
      processes = λ s p. p;
      network_status = λ s p. p;
      disk = λ s p. p;
      temperature = λ s p. p;
      journal = λ lines unit s p. p;
      kill = λ k pid signal s p. p;
    }

    pub backend-IsSafe : (mode : ToolsMode) → IsSafeBackend C World P (backend_of C m mode) K
    backend-IsSafe mock = mock-IsSafe
    backend-IsSafe real_linux = linux-IsSafe

    installed-IsSystemTool :
        (mode : ToolsMode) → Tools C World (IsSystemTool C World P K) (installed mode)
    installed-IsSystemTool mode =
        install-Tools C World (IsSystemTool C World P K) (backend_of C m) mode _
          (system_tools-IsSystemTool C World P K (backend_of C m mode) (backend-IsSafe mode)) tt

  -- Registered under their names.
  installed-IsKeyed : (mode : ToolsMode) → IsKeyed C World (installed mode)
  installed-IsKeyed mode = install-IsKeyed C World (backend_of C m) mode

  -- The tools never send a signal that the tool refuses, whatever the clients request, confirm or grant
  -- and whatever the model answers: every program that was started shows what there is, or is `kill`
  -- with one of the seven signals for a process other than the first and the service itself.
  pub serve-IsHarmless :
      (services : Services C World) (s : Service C World services) (mode : ToolsMode)
      (requests : List (ClientRequest C))
      → s.runtime.tools ≡ installed mode
      → ((store : MemoryStore C) (w : World) → (services.with_memory store w).commands ≡ w.commands)
      → All (IsHarmless C m) s.runtime.machine.commands
      → All (IsHarmless C m) (serve C World services requests s).runtime.machine.commands
  serve-IsHarmless services s mode requests t memory p =
      (serve-Endures C World services Harmless s requests
        (subst (IsKeyed C World) (sym t) (installed-IsKeyed mode)) lasts
        (λ store w q. subst (All (IsHarmless C m)) (sym (memory store w)) q) p).0
    where
      Harmless : World → Type 0
      Harmless w = All (IsHarmless C m) w.commands

      lasts :
          Endures C World
            (λ w. All (IsHarmless C m) w.commands)
            s.runtime.tools
            s.runtime.policy
            (λ v. v ≢ deny)
      lasts name tool args ctx w e v q =
          let found : get C World (installed mode) name ≡ some tool =
            subst (λ reg. get C World reg name ≡ some tool) t e in
          let known =
            get-Tools C World (IsSystemTool C World Harmless Unit) (installed mode) name tool
              (installed-IsSystemTool (IsHarmless C m) shows Unit
                (λ k pid signal. unfold linux_backend in (Signals.real_kill-P C m pid signal)) mode)
              found in
          known.safe (λ asks. tt) args ctx w q
