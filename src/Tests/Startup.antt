-- ===== src/Tests/Startup.antt =====
-- The start of the service of services/saaios-runtime/src/main.rs on a Linux machine, with the memory.
use saaios.Prelude.{true, false, ◌≡◌, refl, none}
use saaios.Protocol.{ok}
use saaios.Config.{ResolvedSettings}
use saaios.Provider
use saaios.Provider.{ProviderKind}
use saaios.Service.{serve}
use saaios.Samples.Json.{json}
use saaios.Samples.Host.{empty_log}
use saaios.Startup.{Host, Built, Outside, Started, start, built, kind_of, services_of, service_of}
use saaios.Startup.Harmless.{IsQuiet, start-IsQuiet}
use saaios.Startup.Readers.{OnlyReaders, handle_user_text-IsReader}
use saaios.Runtime.Requests.{handle_user_text_in_session}
use saaios.Startup.Ready.{IsReady, start-IsReady}
use saaios.Tests.Service.{host_meta}
use saaios.Tests.Tools.{linux, untouched, services, requests}
use saaios.Tests.Workers.{writes_x}

abbrev provider : Built json
provider = record { name = "mock"; complete = services.complete }

abbrev outside : Outside json
outside = record {
  audit_codec = writes_x;
  memory_codec = writes_x;
  fact_value = λ f. json.null;
  machine = linux;
  build_provider = λ kind. ok provider;
  debug = λ s. s;
  version = "1";
  ab_root = "/ab";
  disk = host_meta.disk;
}

abbrev given : ResolvedSettings
given = record {
  config_path = none;
  sock = "sock";
  audit = "audit";
  real_linux = true;
  mock_planner = false;
  provider_kind = "mock";
  api_base = none;
  api_key = none;
  model = none;
  local_base = none;
  local_model = none;
  max_concurrent = 0;
  request_timeout_secs = 30;
  max_tool_iters = 6;
  memory_enabled = true;
  memory_path = "memory";
  automation_enabled = true;
  auto_diagnose = false;
  telemetry_enabled = true;
  telemetry_interval_secs = 30;
}

abbrev found : Host json
found = record { system = untouched; store = record { file = empty_log; drawn = 0 } }

abbrev started : Started json outside
started = record {
  services = services_of json outside given provider;
  service = service_of json outside given ProviderKind.mock provider empty_log found;
}

starts : start json outside given empty_log found ≡ ok started
unfolding start built kind_of Provider.parse
starts = refl

start-IsQuiet_example :
    IsQuiet json outside
      (serve json (Host json) started.services requests started.service).runtime.machine
start-IsQuiet_example = start-IsQuiet json outside given empty_log found started requests starts tt

start-IsReady_example : IsReady json outside empty_log found started
start-IsReady_example = start-IsReady json outside given empty_log found started starts

handle_user_text-IsReader_example :
    OnlyReaders json outside
      (handle_user_text_in_session json
        (Host json)
        started.services
        "slow"
        none
        started.service.runtime).1.machine
unfolding service_of saaios.Startup.runtime_of saaios.Policy.has_session_grant
handle_user_text-IsReader_example =
    handle_user_text-IsReader json outside started.services started.service.runtime given "slow"
      none refl refl tt
