-- ===== src/Config.antt =====
-- crates/config/src/lib.rs: the settings, from built-in defaults, a TOML file, environment variables and
-- the command line. A path is its text.
pub mod Resolve
pub mod Precedence
use saaios.Prelude.{
  ℕ, String, Bool, true, false, not, ◌&&◌, ◌||◌, Option, none, some, List, [], ◌∷◌, if◌then◌else◌,
  str_eq, one_of, max, unwrap_or, is_some,
}
use saaios.Protocol.{Result, ok, err}

pub record RuntimeConfig : Type 0 where
  pub sock : String
  pub audit : String
  pub real_linux : Bool
  pub mock_planner : Bool

pub record ProviderConfig : Type 0 where
  pub kind : String
  pub api_base : Option String
  pub api_key : Option String
  pub model : Option String
  pub local_base : Option String
  pub local_model : Option String

pub record BudgetsConfig : Type 0 where
  pub max_concurrent : ℕ
  pub request_timeout_secs : ℕ
  pub max_tool_iters : ℕ

pub record MemoryConfig : Type 0 where
  pub enabled : Bool
  pub path : String

pub record AutomationConfig : Type 0 where
  pub enabled : Bool
  pub auto_diagnose : Bool

pub data TelemetryMode : Type 0 where
  auto on off : TelemetryMode

pub record TelemetryConfig : Type 0 where
  pub mode : TelemetryMode
  pub interval_secs : ℕ

pub record SaaiOsConfig : Type 0 where
  pub runtime : RuntimeConfig
  pub provider : ProviderConfig
  pub budgets : BudgetsConfig
  pub memory : MemoryConfig
  pub automation : AutomationConfig
  pub telemetry : TelemetryConfig

-- `SaaiOsConfig::default()`, with the defaults of its sections.
abbrev pub default_config : SaaiOsConfig
default_config = record {
  runtime = record {
    sock = "/tmp/saaios.sock";
    audit = "saaios-audit.jsonl";
    real_linux = false;
    mock_planner = false;
  };
  provider = record {
    kind = "auto";
    api_base = none;
    api_key = none;
    model = some "gpt-4o-mini";
    local_base = some "http://127.0.0.1:11434/v1";
    local_model = some "llama3.2";
  };
  budgets = record { max_concurrent = 1; request_timeout_secs = 30; max_tool_iters = 6 };
  memory = record { enabled = true; path = "saaios-memory.jsonl" };
  automation = record { enabled = true; auto_diagnose = false };
  telemetry = record { mode = auto; interval_secs = 30 };
}

pub record ResolvedSettings : Type 0 where
  pub config_path : Option String
  pub sock : String
  pub audit : String
  pub real_linux : Bool
  pub mock_planner : Bool
  pub provider_kind : String
  pub api_base : Option String
  pub api_key : Option String
  pub model : Option String
  pub local_base : Option String
  pub local_model : Option String
  pub max_concurrent : ℕ
  pub request_timeout_secs : ℕ
  pub max_tool_iters : ℕ
  pub memory_enabled : Bool
  pub memory_path : String
  pub automation_enabled : Bool
  pub auto_diagnose : Bool
  pub telemetry_enabled : Bool
  pub telemetry_interval_secs : ℕ

pub record CliOverrides : Type 0 where
  pub config : Option String
  pub mock : Bool
  pub mock_planner : Bool
  pub provider : Option String
  pub sock : Option String
  pub audit : Option String
  pub memory : Option String
  pub no_memory : Bool
  pub real_linux : Bool
  pub max_concurrent : Option ℕ
  pub request_timeout_secs : Option ℕ
  pub max_tool_iters : Option ℕ
  pub no_automation : Bool
  pub auto_diagnose : Bool
  pub no_auto_diagnose : Bool
  pub telemetry : Bool
  pub no_telemetry : Bool
  pub telemetry_interval_secs : Option ℕ
