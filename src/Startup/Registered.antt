-- ===== src/Startup/Registered.antt =====
-- The tools that the service of services/saaios-runtime/src/main.rs registers at its start.
use saaios.Prelude.{◌≡◌, refl, String, Bool, true, false, List, [], ℕ, All, if◌then◌else◌, one_of}
use saaios.Crates.{Crates}
use saaios.Config.{ResolvedSettings}
use saaios.Memory.{MemoryStore}
use saaios.Memory.Tools.{remember_tool, recall_tool, forget_tool}
use saaios.Registry.{ToolExecutor, ToolRegistry, register}
use saaios.Registry.Keyed.{IsKeyed, register-IsKeyed}
use saaios.Tools.{SystemBackend}
use saaios.Tools.World.{World, Keeps}
use saaios.Tools.Linux.{linux_backend, backend_of}
use saaios.Tools.Commands.{readers}
use saaios.Tools.Guarded.{backend-IsSafe}
use saaios.Tools.Installed.{
  Tools, IsSafeBackend, IsSystemTool, system_tools-IsSystemTool, install-Tools, register-Tools,
  install-IsKeyed,
}
use saaios.Startup.{Host, on_store, host_backend, Outside, registry_of, mode_of, install_memory}

module _ (C : Crates) where
  host-IsSafe :
      (Q : World → Type 0) (b : SystemBackend C World) (K : Type 0)
      → IsSafeBackend C World Q b K
      → IsSafeBackend C (Host C) (λ h. Q h.system) (host_backend C b) K
  host-IsSafe Q b K s = record {
    metrics = λ h p. s.metrics h.system p;
    processes = λ h p. s.processes h.system p;
    network_status = λ h p. s.network_status h.system p;
    disk = λ h p. s.disk h.system p;
    temperature = λ h p. s.temperature h.system p;
    journal = λ lines unit h p. s.journal lines unit h.system p;
    kill = λ k pid signal h p. s.kill k pid signal h.system p;
  }

  -- A tool of the memory leaves the machine alone.
  store-IsSystemTool :
      (Q : World → Type 0) (K : Type 0) (tool : ToolExecutor C (MemoryStore C))
      → tool.spec.requires_confirmation ≡ false
      → IsSystemTool C (Host C) (λ h. Q h.system) K (on_store C tool)
  store-IsSystemTool Q K tool e = record { asks = λ a. cc; safe = λ k args ctx h p. p }

  module _ (out : Outside C) where
    -- What the three registrations of the memory's tools keep.
    install_memory-keeps :
        (P : ToolRegistry C (Host C) → Type 0)
        → ((reg : ToolRegistry C (Host C)) (tool : ToolExecutor C (MemoryStore C))
            → tool.spec.requires_confirmation ≡ false
            → P reg
            → P (register C (Host C) reg (on_store C tool)))
        → (reg : ToolRegistry C (Host C)) → P reg
        → P (install_memory C out reg)
    unfolding install_memory
    install_memory-keeps P step reg p =
        step _ (forget_tool C out.memory_codec out.fact_value) refl (
          step _ (recall_tool C out.memory_codec out.fact_value) refl
            (step reg (remember_tool C out.memory_codec out.fact_value) refl p))

    enabled :
        (P : ToolRegistry C (Host C) → Type 0) (b : Bool) (x y : ToolRegistry C (Host C))
        → P x
        → P y
        → P (if b then x else y)
    enabled P true x y h k = h
    enabled P false x y h k = k

    pub registry_of-IsKeyed :
        (settings : ResolvedSettings) → IsKeyed C (Host C) (registry_of C out settings)
    unfolding registry_of
    registry_of-IsKeyed settings =
        let system =
          install-IsKeyed C (Host C) (λ mode. host_backend C (backend_of C out.machine mode))
            (mode_of settings.real_linux) in
        enabled (IsKeyed C (Host C)) settings.memory_enabled _ _
          (install_memory-keeps (IsKeyed C (Host C))
            (λ reg tool e h. register-IsKeyed C (Host C) reg (on_store C tool) h) _ system)
          system

    module _ (Q : String × List String → Type 0)
        (reads : (program : String) (args : List String)
          → one_of program readers ≡ true
          → Q (program, args))
        (K : Type 0)
        (kills : K
          → (pid : ℕ) (signal : String)
          → Keeps (λ w. All Q w.commands) ((linux_backend C out.machine).kill pid signal)) where
      abbrev pub IsTool : ToolExecutor C (Host C) → Type 0
      IsTool = IsSystemTool C (Host C) (λ h. All Q h.system.commands) K

      pub registry_of-IsTool :
          (settings : ResolvedSettings) → Tools C (Host C) IsTool (registry_of C out settings)
      unfolding registry_of
      registry_of-IsTool settings =
          let mode = mode_of settings.real_linux in
          let system =
            install-Tools C (Host C) IsTool (λ mode. host_backend C (backend_of C out.machine mode))
              mode (record { tools = [] })
              (system_tools-IsSystemTool C (Host C) (λ h. All Q h.system.commands) K
                (host_backend C (backend_of C out.machine mode))
                (host-IsSafe (λ w. All Q w.commands) _ K
                  (backend-IsSafe C out.machine Q reads K kills mode)))
              tt in
          enabled (Tools C (Host C) IsTool) settings.memory_enabled _ _
            (install_memory-keeps (Tools C (Host C) IsTool)
              (λ reg tool e h.
                register-Tools C (Host C) IsTool (on_store C tool) reg
                  (store-IsSystemTool (λ w. All Q w.commands) K tool e) h)
              _ system)
            system
