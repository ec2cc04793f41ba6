-- ===== src/Tests/Service.antt =====
-- Requests of clients to the small host, as services/saaios-runtime/src/main.rs serves them.
use saaios.Prelude.{true, false, ◌≡◌, ◌≢◌, refl, none, some, List, [], ◌∷◌}
use saaios.Protocol.{session, deny}
use saaios.Feed
use saaios.Policy
use saaios.Samples.Tiny.{tiny}
use saaios.Samples.Codecs.{audit_codec-IsCodec}
use saaios.Samples.Host.{Machine, host, host_tools, host_services}
use saaios.Runtime.Safety.{IsGuarded}
use saaios.Runtime.Trail.{IsRecorded}
use saaios.Service.{
  ClientRequest, Service, handle_client, serve, diagnose, confirm, clear_session_grants,
}
use saaios.Service.Requests.{handle_client-refused, serve-IsRecorded}
use saaios.Service.Guarded.{serve-Endures}
use saaios.Status.{RuntimeMeta}
use saaios.Tests.Runtime.{IsOn, stays-IsOn, host-IsKeyed, host-IsRecorded}

abbrev pub host_meta : RuntimeMeta
host_meta = record {
  version = "1";
  uptime_secs = 5;
  config_path = none;
  provider_name = "mock";
  provider_kind = "mock";
  tools_mode = "mock";
  tool_names = "process.list" ∷ [];
  memory_enabled = false;
  memory_path = none;
  audit_path = "audit";
  sock = "sock";
  automation = false;
  auto_diagnose = false;
  telemetry = none;
  max_concurrent = 1;
  request_timeout_secs = 30;
  ab_root = "/ab";
  disk = record {
    is_dir = λ path. true;
    is_file = λ path. false;
    read_to_string = λ path. none;
    read_link = λ path. some "A";
    file_name = λ path. some path;
  };
}

abbrev host_service : Service tiny Machine host_services
host_service = record { meta = host_meta; runtime = host; last_pending = none; feed = Feed.new 4 }

-- A diagnosis, an attempt to switch the machine off for the session, and another diagnosis.
abbrev requests : List (ClientRequest tiny)
requests =
    diagnose "hi" none false
    ∷ confirm true true "system.poweroff" tt session none (some true)
    ∷ diagnose "again" (some true) true
    ∷ clear_session_grants
    ∷ []

serve-Endures_example :
    IsOn (serve tiny Machine host_services requests host_service).runtime.machine
    × ((serve tiny Machine host_services requests host_service).runtime.tools ≡ host_tools)
serve-Endures_example =
    serve-Endures tiny Machine host_services IsOn host_service requests host-IsKeyed
      (stays-IsOn (λ v. v ≢ deny) (λ n. n refl)) (λ store m on. on) refl

serve-IsRecorded_example :
    IsRecorded tiny Machine host_services []
      (serve tiny Machine host_services requests host_service).runtime
serve-IsRecorded_example =
    serve-IsRecorded tiny Machine host_services [] audit_codec-IsCodec requests host_service
      host-IsRecorded

handle_client-refused_example :
    IsGuarded tiny Machine
      (λ m. m ≡ host.machine)
      host_tools
      Policy.new
      (handle_client tiny Machine host_services
        (confirm true true "system.reboot_request" tt session (some false) none)
        host_service).1.runtime
handle_client-refused_example =
    handle_client-refused tiny Machine host_services host_service true true "system.reboot_request"
      tt session none
