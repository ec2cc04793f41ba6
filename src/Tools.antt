-- ===== src/Tools.antt =====
-- crates/system-tools/src/lib.rs: the tools that look at the machine, over a backend.
pub mod World
pub mod Mock
pub mod Proc
pub mod Processes
pub mod Sys
pub mod Journal
pub mod Linux
pub mod Commands
pub mod Signals
pub mod Installed
pub mod Guarded
pub mod Wraps
pub mod Stat
pub mod Ranking
pub mod Mounts
pub mod Kill
use saaios.Prelude.{
  ℕ, ◌^◌, ◌%◌, String, Bool, true, false, Option, none, some, List, [], ◌∷◌, map, and_then,
  unwrap_or,
}
use saaios.Crates.{Crates}
use saaios.Protocol.{Result, ok, err}
use saaios.Registry.{
  RiskLevel, low, high, ToolError, invalid_args, ToolSpec, ToolContext, ToolOutput, ToolExecutor,
  ToolRegistry, register,
}

pub data ToolsMode : Type 0 where
  mock real_linux : ToolsMode

module _ (C : Crates) where
  open C use {Value, Float, get, as_str, as_u64, str, obj, arr, num, float}

  pub record ProcessInfo : Type 0 where
    pub pid : ℕ
    pub name : String
    pub cpu : Float
    pub mem_mb : Float

  pub record SystemMetrics : Type 0 where
    pub cpu_usage : Float
    pub load_average : Float
    pub mem_used_mb : Float
    pub mem_total_mb : Float
    pub mem_used_pct : Float
    pub disk_read_mb_s : Float

  -- `Serialize` of the two records.
  abbrev pub process_value : ProcessInfo → Value
  process_value p = obj (
      ("pid", num p.pid)
      ∷ ("name", str p.name)
      ∷ ("cpu", float p.cpu)
      ∷ ("mem_mb", float p.mem_mb)
      ∷ [])

  abbrev pub metrics_value : SystemMetrics → Value
  metrics_value m = obj (
      ("cpu_usage", float m.cpu_usage)
      ∷ ("load_average", float m.load_average)
      ∷ ("mem_used_mb", float m.mem_used_mb)
      ∷ ("mem_total_mb", float m.mem_total_mb)
      ∷ ("mem_used_pct", float m.mem_used_pct)
      ∷ ("disk_read_mb_s", float m.disk_read_mb_s)
      ∷ [])

  module _ (S : Type 0) where
    -- A method of a backend may change the state of the machine.
    abbrev pub Method : Type 0 → Type 0
    Method A = S → Result ToolError A × S

    pub record SystemBackend : Type 0 where
      pub metrics : Method SystemMetrics
      pub processes : Method (List ProcessInfo)
      pub network_status : Method Value
      pub disk : Method Value
      pub temperature : Method Value
      pub journal : ℕ → Option String → Method Value
      pub kill : ℕ → String → Method Value

    -- `Ok(ToolOutput { ok: true, value, error: None })`, after the `?` on the backend's answer.
    output_of :
        {A : Type 0} → (A → Value) → Result ToolError A × S → Result ToolError (ToolOutput C) × S
    output_of f (ok a, s) = (ok (record { ok = true; value = f a; error = none }), s)
    output_of f (err e, s) = (err e, s)

    abbrev schema : List (String × Value) → Value
    schema properties = obj (("type", str "object") ∷ ("properties", obj properties) ∷ [])

    abbrev any_object : Value
    any_object = obj (("type", str "object") ∷ [])

    abbrev spec_of : String → String → RiskLevel → ℕ → Value → Bool → ToolSpec C
    spec_of name description risk timeout_ms input_schema requires_confirmation = record {
      name = name;
      description = description;
      risk = risk;
      timeout_ms = timeout_ms;
      input_schema = input_schema;
      output_schema = any_object;
      requires_confirmation = requires_confirmation;
    }

    abbrev integer : List (String × Value) → Value
    integer more = obj (("type", str "integer") ∷ more)

    module _ (backend : SystemBackend) where
      abbrev Run : Type 0
      Run = Value → ToolContext C → Method (ToolOutput C)

      metrics_run : Run
      unfolding output_of
      metrics_run args ctx s = output_of metrics_value (backend.metrics s)

      process_list_run : Run
      unfolding output_of
      process_list_run args ctx s =
          output_of (λ ps. obj (("processes", arr (map process_value ps)) ∷ []))
            (backend.processes s)

      network_status_run : Run
      unfolding output_of
      network_status_run args ctx s = output_of (λ v. v) (backend.network_status s)

      disk_run : Run
      unfolding output_of
      disk_run args ctx s = output_of (λ v. v) (backend.disk s)

      temperature_run : Run
      unfolding output_of
      temperature_run args ctx s = output_of (λ v. v) (backend.temperature s)

      journal_run : Run
      unfolding output_of
      journal_run args ctx s =
          let lines = unwrap_or (and_then (get args "lines") as_u64) 40 in
          output_of (λ v. v) (backend.journal lines (and_then (get args "unit") as_str) s)

      killed : Option ℕ → String → Method (ToolOutput C)
      unfolding output_of
      killed none signal s = (err (invalid_args "pid required"), s)
      killed (some pid) signal s = output_of (λ v. v) (backend.kill (pid % 2 ^ 32) signal s)

      -- The process is `as_u64(..)? as u32`, which drops the upper bits.
      unfoldable pub kill_request_run : Run
      unfolding killed
      kill_request_run args ctx s =
          killed (and_then (get args "pid") as_u64)
            (unwrap_or (and_then (get args "signal") as_str) "TERM") s

      unfoldable pub system_tools : List (ToolExecutor C S)
      unfolding metrics_run process_list_run network_status_run disk_run temperature_run journal_run
      system_tools =
          record {
            spec =
                spec_of "system.metrics" "Collect CPU, memory and load metrics" low 2000 (schema [])
                  false;
            run = metrics_run;
          }
          ∷ record {
            spec =
                spec_of "process.list" "List running processes with CPU usage" low 3000 (schema [])
                  false;
            run = process_list_run;
          }
          ∷ record {
            spec = spec_of "network.status" "Basic network status" low 2000 (schema []) false;
            run = network_status_run;
          }
          ∷ record {
            spec =
                spec_of "system.disk" "Disk usage for root and key mounts" low 2000 (schema [])
                  false;
            run = disk_run;
          }
          ∷ record {
            spec =
                spec_of "system.temperature" "Read thermal sensors (CPU/SoC zones when available)"
                  low 2000 (schema []) false;
            run = temperature_run;
          }
          ∷ record {
            spec =
                spec_of "system.journal" "Tail recent system journal / log lines" low 4000
                  (schema (
                    ("lines", integer (("minimum", num 1) ∷ ("maximum", num 200) ∷ []))
                    ∷ ("unit", obj (("type", str "string") ∷ []))
                    ∷ []))
                  false;
            run = journal_run;
          }
          ∷ record {
            spec =
                spec_of "process.kill_request"
                  "Send a signal to a process (default SIGTERM). Requires confirmation." high 2000
                  (obj (
                    ("type", str "object")
                    ∷ (
                      "properties",
                      obj (
                          ("pid", integer [])
                          ∷ (
                            "signal",
                            obj (
                                ("type", str "string")
                                ∷ ("description", str "TERM|KILL|HUP|INT (default TERM)")
                                ∷ []),
                          )
                          ∷ []),
                    )
                    ∷ ("required", arr (str "pid" ∷ []))
                    ∷ []))
                  true;
            run = kill_request_run;
          }
          ∷ []

    register_all : List (ToolExecutor C S) → ToolRegistry C S → ToolRegistry C S
    register_all [] reg = reg
    register_all (tool ∷ tools) reg = register_all tools (register C S reg tool)

    -- The backend is chosen by the mode.
    unfoldable pub install_system_tools :
        (ToolsMode → SystemBackend) → ToolsMode → ToolRegistry C S → ToolRegistry C S
    unfolding register_all
    install_system_tools backend mode reg = register_all (system_tools (backend mode)) reg
