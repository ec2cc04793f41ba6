-- ===== src/Config/Resolve.antt =====
-- crates/config/src/lib.rs: how a setting is found among its sources.
use saaios.Prelude.{
  String, Bool, true, false, not, ◌&&◌, ◌||◌, Option, none, some, List, [], ◌∷◌, if◌then◌else◌,
  str_eq, one_of, max, unwrap_or, is_some,
}
use saaios.Protocol.{Result, ok, err}
use saaios.Config.{
  ProviderConfig, TelemetryMode, auto, on, off, SaaiOsConfig, default_config, ResolvedSettings,
  CliOverrides,
}

-- The environment variables, the files that exist, and what `load_file` makes of one: reading and
-- toml's parser.
pub record Surroundings : Type 0 where
  pub var : String → Option String
  pub exists : String → Bool
  pub load_file : String → Result String SaaiOsConfig

-- `candidates.into_iter().find(|p| p.exists())`
abbrev pub find_existing : Surroundings → List String → Option String
find_existing w [] = none
find_existing w (p ∷ ps) = if w.exists p then some p else find_existing w ps

abbrev pub candidates : List String
candidates = "saaios.toml" ∷ "/etc/saaios/saaios.toml" ∷ []

unfoldable pub discover_config_path : Surroundings → Option String → Option String
discover_config_path w (some p) = some p
discover_config_path w none = elim (w.var "SAAIOS_CONFIG") [
  | none ↦ find_existing w candidates
  | some p ↦ if w.exists p then some p else find_existing w candidates
]

-- `if let Ok(v) = std::env::var(..) { field = Some(v) }`
abbrev overlaid : Option String → Option String → Option String
overlaid none field = field
overlaid (some v) field = some v

abbrev pub is_mock_mode : Surroundings → Bool
is_mock_mode w = elim (w.var "SAAIOS_MODE") [ none ↦ false | some v ↦ str_eq v "mock" ]

abbrev pub provider_of : Surroundings → CliOverrides → ProviderConfig → ProviderConfig
provider_of w o p = record {
  kind =
      if is_mock_mode w
      then "mock"
      else if is_some o.provider
      then p.kind
      else unwrap_or (w.var "SAAIOS_PROVIDER") p.kind;
  api_base = overlaid (w.var "SAAIOS_API_BASE") p.api_base;
  api_key = overlaid (w.var "SAAIOS_API_KEY") p.api_key;
  model = overlaid (w.var "SAAIOS_MODEL") p.model;
  local_base = overlaid (w.var "SAAIOS_LOCAL_BASE") p.local_base;
  local_model = overlaid (w.var "SAAIOS_LOCAL_MODEL") p.local_model;
}

-- The overlays of the environment on the file's configuration.
unfoldable pub with_env : Surroundings → CliOverrides → SaaiOsConfig → SaaiOsConfig
with_env w o cfg = record cfg {
  provider = provider_of w o cfg.provider;
  runtime = if is_mock_mode w then record cfg.runtime { mock_planner = true } else cfg.runtime;
}

-- The provider and whether its planner is mocked, after the command line.
unfoldable pub provider_kind_of : Surroundings → CliOverrides → SaaiOsConfig → String
provider_kind_of w o cfg =
    let given = unwrap_or o.provider cfg.provider.kind in
    let mocked = if o.mock || is_mock_mode w then "mock" else given in
    if o.mock_planner || is_mock_mode w then "mock" else mocked

unfoldable pub mock_planner_of : Surroundings → CliOverrides → SaaiOsConfig → Bool
mock_planner_of w o cfg =
    let given = cfg.runtime.mock_planner || o.mock_planner in
    if o.mock_planner || is_mock_mode w then true else given

abbrev pub mode_enabled : TelemetryMode → Bool → Bool
mode_enabled on real_linux = true
mode_enabled off real_linux = false
mode_enabled auto real_linux = real_linux

abbrev pub switched : Option String → Bool → Bool
switched none enabled = enabled
switched (some v) enabled =
    if one_of v ("1" ∷ "true" ∷ "TRUE" ∷ "yes" ∷ "on" ∷ [])
    then true
    else if one_of v ("0" ∷ "false" ∷ "FALSE" ∷ "no" ∷ "off" ∷ [])
    then false
    else enabled

unfoldable pub telemetry_of : Surroundings → CliOverrides → TelemetryMode → Bool → Bool
telemetry_of w o mode real_linux =
    let from_mode = mode_enabled mode real_linux in
    let asked = if o.telemetry then true else from_mode in
    let refused = if o.no_telemetry then false else asked in
    if not o.telemetry && not o.no_telemetry
    then switched (w.var "SAAIOS_TELEMETRY") refused
    else refused

abbrev pub auto_diagnose_of : CliOverrides → SaaiOsConfig → Bool
auto_diagnose_of o cfg =
    if o.no_auto_diagnose then false else cfg.automation.auto_diagnose || o.auto_diagnose

-- The rest of `resolve`, from the configuration with the environment's overlays.
unfoldable pub settings :
    Surroundings → CliOverrides → Option String → SaaiOsConfig → ResolvedSettings
settings w o config_path cfg = record {
  config_path = config_path;
  sock = unwrap_or o.sock cfg.runtime.sock;
  audit = unwrap_or o.audit cfg.runtime.audit;
  real_linux = cfg.runtime.real_linux || o.real_linux;
  mock_planner = mock_planner_of w o cfg;
  provider_kind = provider_kind_of w o cfg;
  api_base = cfg.provider.api_base;
  api_key = cfg.provider.api_key;
  model = cfg.provider.model;
  local_base = cfg.provider.local_base;
  local_model = cfg.provider.local_model;
  max_concurrent = max (unwrap_or o.max_concurrent cfg.budgets.max_concurrent) 1;
  request_timeout_secs = max (unwrap_or o.request_timeout_secs cfg.budgets.request_timeout_secs) 1;
  max_tool_iters = max (unwrap_or o.max_tool_iters cfg.budgets.max_tool_iters) 1;
  memory_enabled = cfg.memory.enabled && not o.no_memory;
  memory_path = unwrap_or o.memory cfg.memory.path;
  automation_enabled = cfg.automation.enabled && not o.no_automation;
  auto_diagnose = auto_diagnose_of o cfg;
  telemetry_enabled = telemetry_of w o cfg.telemetry.mode (cfg.runtime.real_linux || o.real_linux);
  telemetry_interval_secs = max (unwrap_or o.telemetry_interval_secs cfg.telemetry.interval_secs) 1;
}

-- `SaaiOsConfig::default()`, or the file's in its place.
abbrev pub file_config : Surroundings → Option String → Result String SaaiOsConfig
file_config w none = ok default_config
file_config w (some path) = w.load_file path

abbrev pub resolved_from :
    Surroundings
    → CliOverrides
    → Option String
    → Result String SaaiOsConfig
    → Result String ResolvedSettings
resolved_from w o config_path (ok cfg) = ok (settings w o config_path (with_env w o cfg))
resolved_from w o config_path (err e) = err e

unfoldable pub resolve : Surroundings → CliOverrides → Result String ResolvedSettings
resolve w o =
    let config_path = discover_config_path w o.config in
    resolved_from w o config_path (file_config w config_path)
