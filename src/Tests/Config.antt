-- ===== src/Tests/Config.antt =====
-- The settings of crates/config/src/lib.rs in a small environment.
use saaios.Prelude.{String, false, Option, none, some, str_eq, if◌then◌else◌}
use saaios.Protocol.{ok}
use saaios.Config.{CliOverrides, default_config}
use saaios.Config.Resolve.{Surroundings}
use saaios.Config.Precedence.{Outcome, resolve_lem}

-- One file, and one variable that names it.
abbrev home : Surroundings
home = record {
  var = λ name. if str_eq name "SAAIOS_CONFIG" then some "my.toml" else none;
  exists = λ path. str_eq path "my.toml";
  load_file = λ path. ok default_config;
}

abbrev nothing_given : CliOverrides
nothing_given = record {
  config = none;
  mock = false;
  mock_planner = false;
  provider = none;
  sock = none;
  audit = none;
  memory = none;
  no_memory = false;
  real_linux = false;
  max_concurrent = some 0;
  request_timeout_secs = none;
  max_tool_iters = none;
  no_automation = false;
  auto_diagnose = false;
  no_auto_diagnose = false;
  telemetry = false;
  no_telemetry = false;
  telemetry_interval_secs = none;
}

abbrev no_path : Option String
no_path = none

resolve_lem_example : Outcome home nothing_given
resolve_lem_example = resolve_lem home nothing_given
