-- ===== src/Startup.antt =====
-- `main` of services/saaios-runtime/src/main.rs, up to the loop that serves the clients: the
-- service that the settings describe. Opening the files has been done; the demonstration of the
-- mock planner, which runs before if it is asked for (Runtime/MockPlanner), is left out of `start`.
pub mod Ready
pub mod Registered
pub mod Harmless
pub mod Readers
use saaios.Prelude.{
  ℕ, String, Bool, true, false, Option, none, some, List, [], ◌∷◌, map, max, if◌then◌else◌, ◌+++◌,
}
use saaios.Crates.{Crates}
use saaios.Protocol.{Result, ok, err}
use saaios.Jsonl.{Codec, Log}
use saaios.Audit.{AuditRecord}
use saaios.Config.{ResolvedSettings}
use saaios.Conversation
use saaios.Conversation.{ChatMessage}
use saaios.Feed
use saaios.Memory.{MemoryFact, MemoryStore}
use saaios.Memory.Tools.{remember_tool, recall_tool, forget_tool}
use saaios.Policy
use saaios.Policy.{sorted}
use saaios.Provider
use saaios.Provider.{ProviderKind}
use saaios.Registry.{ToolExecutor, ToolRegistry, ToolError, register, list}
use saaios.Runtime.{Services, Rt, ModelResponse, ToolDefinition}
use saaios.Service.{Service}
use saaios.Status.{Disk, TelemetryStats}
use saaios.Tools.{ToolsMode, Method, SystemBackend, install_system_tools}
use saaios.Tools.World.{World, Machine}
use saaios.Tools.Linux.{backend_of}

-- `{kind:?}` and `{tools_mode:?}`, in lower case.
abbrev kind_name : ProviderKind → String
kind_name ProviderKind.mock = "mock"
kind_name ProviderKind.remote = "remote"
kind_name ProviderKind.local = "local"
kind_name ProviderKind.auto = "auto"

abbrev mode_name : ToolsMode → String
mode_name ToolsMode.mock = "mock"
mode_name ToolsMode.real_linux = "reallinux"

abbrev pub mode_of : Bool → ToolsMode
mode_of true = ToolsMode.real_linux
mode_of false = ToolsMode.mock

module _ (C : Crates) where
  -- What all tools of the service act on: the machine, and the memory.
  pub record Host : Type 0 where
    pub system : World
    pub store : MemoryStore C

  -- A method of the machine, and a tool of the memory, on the host.
  abbrev on_system_of : {A : Type 0} → Host → Result ToolError A × World → Result ToolError A × Host
  on_system_of h (x, w) = (x, record h { system = w })

  abbrev pub on_system : {A : Type 0} → Method C World A → Method C Host A
  on_system run h = on_system_of h (run h.system)

  abbrev on_store_of : {A : Type 0} → Host → A × MemoryStore C → A × Host
  on_store_of h (x, store) = (x, record h { store = store })

  abbrev pub on_store : ToolExecutor C (MemoryStore C) → ToolExecutor C Host
  on_store tool = record {
    spec = tool.spec;
    run = λ args ctx h. on_store_of h (tool.run args ctx h.store);
  }

  abbrev pub host_backend : SystemBackend C World → SystemBackend C Host
  host_backend b = record {
    metrics = on_system b.metrics;
    processes = on_system b.processes;
    network_status = on_system b.network_status;
    disk = on_system b.disk;
    temperature = on_system b.temperature;
    journal = λ lines unit. on_system (b.journal lines unit);
    kill = λ pid signal. on_system (b.kill pid signal);
  }

  -- A provider as it is built: its name, and its n-th answer.
  pub record Built : Type 0 where
    pub name : String
    pub complete : ℕ → List ChatMessage → List (ToolDefinition C) → Result String (ModelResponse C)

  -- What the service finds outside of its settings.
  pub record Outside : Type 0 where
    pub audit_codec : Codec (AuditRecord C)
    pub memory_codec : Codec (MemoryFact C)
    pub fact_value : MemoryFact C → C.Value
    pub machine : Machine
    pub build_provider : ProviderKind → Result String Built
    -- `{:?}` of a text
    pub debug : String → String
    pub version : String
    pub ab_root : String
    pub disk : Disk

  module _ (out : Outside) where
    -- `install_memory_tools`, on the host.
    unfoldable pub install_memory : ToolRegistry C Host → ToolRegistry C Host
    install_memory reg =
        let remembering =
          register C Host reg (on_store (remember_tool C out.memory_codec out.fact_value)) in
        let recalling =
          register C Host remembering (on_store (recall_tool C out.memory_codec out.fact_value)) in
        register C Host recalling (on_store (forget_tool C out.memory_codec out.fact_value))

    -- The tools of the machine, and those of the memory if it is enabled.
    unfoldable pub registry_of : ResolvedSettings → ToolRegistry C Host
    registry_of settings =
        let system =
          install_system_tools C Host (λ mode. host_backend (backend_of C out.machine mode))
            (mode_of settings.real_linux) (record { tools = [] }) in
        if settings.memory_enabled then install_memory system else system

    abbrev pub services_of : ResolvedSettings → Built → Services C Host
    services_of settings provider = record {
      audit_codec = out.audit_codec;
      memory_codec = out.memory_codec;
      memory_of = λ h. if settings.memory_enabled then some h.store else none;
      with_memory = λ store h. record h { store = store };
      complete = provider.complete;
    }

    -- `AiRuntime::with_budgets`, `PolicyEngine::new` and the open audit file.
    unfoldable pub runtime_of : ResolvedSettings → Log → Host → Rt C Host
    runtime_of settings audit host = record {
      tools = registry_of settings;
      policy = Policy.new;
      audit = audit;
      sent = [];
      conversations = Conversation.new C.uuid_key 40;
      max_concurrent_requests = settings.max_concurrent;
      request_slots = max settings.max_concurrent 1;
      max_tool_iters = settings.max_tool_iters;
      drawn = 0;
      machine = host;
    }

    unfoldable pub service_of :
        (settings : ResolvedSettings) (kind : ProviderKind) (provider : Built)
        → Log
        → Host
        → Service C Host (services_of settings provider)
    service_of settings kind provider audit host = record {
      meta = record {
        version = out.version;
        uptime_secs = 0;
        config_path = settings.config_path;
        provider_name = provider.name;
        provider_kind = kind_name kind;
        tools_mode = mode_name (mode_of settings.real_linux);
        tool_names = sorted (map (λ t. t.name) (list C Host (registry_of settings)));
        memory_enabled = settings.memory_enabled;
        memory_path = if settings.memory_enabled then some settings.memory_path else none;
        audit_path = settings.audit;
        sock = settings.sock;
        automation = settings.automation_enabled;
        auto_diagnose = settings.auto_diagnose;
        telemetry =
            if settings.telemetry_enabled
            then some
                (record { samples = 0; interval_secs = max settings.telemetry_interval_secs 1 })
            else none;
        max_concurrent = settings.max_concurrent;
        request_timeout_secs = settings.request_timeout_secs;
        ab_root = out.ab_root;
        disk = out.disk;
      };
      runtime = runtime_of settings audit host;
      last_pending = none;
      feed = Feed.new 64;
    }

    -- The kind of the provider, or the error for an unknown one.
    unfoldable pub kind_of : ResolvedSettings → Option ProviderKind
    kind_of settings =
        if settings.mock_planner
        then some ProviderKind.mock
        else Provider.parse C settings.provider_kind

    -- A service with its services.
    pub record Started : Type 0 where
      pub services : Services C Host
      pub service : Service C Host services

    unfoldable pub built :
        ResolvedSettings → ProviderKind → Log → Host → Result String Built → Result String Started
    unfolding service_of
    built settings kind audit host (err e) = err ("build model provider: " +++ e)
    built settings kind audit host (ok provider) = ok (record {
      services = services_of settings provider;
      service = service_of settings kind provider audit host;
    })

    unfoldable pub start : ResolvedSettings → Log → Host → Result String Started
    unfolding built kind_of
    start settings audit host = elim (kind_of settings) [
      | none ↦ err (
          "unknown provider "
          +++ out.debug settings.provider_kind
          +++ "; expected mock|remote|local|auto")
      | some kind ↦ built settings kind audit host (out.build_provider kind)
    ]
