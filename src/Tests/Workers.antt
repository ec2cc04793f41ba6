-- ===== src/Tests/Workers.antt =====
-- The worker of services/saaios-runtime/src/main.rs that diagnoses by itself, while the runtime is busy.
use saaios.Prelude.{refl, none, some, [], unwrap_or, mutex}
use saaios.Protocol.{Envelope, event, ok}
use saaios.Jsonl.{Codec}
use saaios.Feed
use saaios.Policy
use saaios.Samples.Json.{json, json-IsJson, entry, str, no_members}
use saaios.Samples.Host.{empty_log}
use saaios.Runtime.{Services, Rt}
use saaios.Service.{Service}
use saaios.Service.Workers.{auto_diagnose}
use saaios.Service.Completed.{Diagnosed, auto_diagnose-Diagnosed}
use saaios.Tests.Service.{host_meta}

abbrev pub writes_x : {R : Type 0} → Codec R
writes_x = record { to_string = λ r. some "x"; from_str = λ s. none; trim = λ s. s }

abbrev services : Services json Unit
services = record {
  audit_codec = writes_x;
  memory_codec = writes_x;
  memory_of = λ s. none;
  with_memory = λ m s. s;
  complete = λ n messages tools. ok (record { assistant_text = some "fine"; tool_calls = [] });
}

abbrev pub busy : Rt json Unit
busy = record {
  tools = record { tools = [] };
  policy = Policy.new;
  audit = empty_log;
  sent = [];
  conversations = record { inner = mutex []; max_messages = 4 };
  max_concurrent_requests = 1;
  request_slots = 0;
  max_tool_iters = 4;
  drawn = 0;
  machine = tt;
}

abbrev here : Service json Unit services
here = record { meta = host_meta; runtime = busy; last_pending = none; feed = Feed.new 4 }

abbrev asks : Envelope json
asks = record {
  v = 1;
  msg_id = 7;
  correlation_id = 8;
  causation_id = none;
  kind = event;
  ts = 0;
  payload = entry "event" (str "AutomationAutoDiagnose") (entry "prompt" (str "why?") no_members);
}

abbrev there : Service json Unit services
there = unwrap_or (auto_diagnose json Unit services asks here) here

auto_diagnose-Diagnosed_example : Diagnosed json json-IsJson Unit services asks here there
unfolding auto_diagnose saaios.Service.Workers.prompt_of Feed.push Feed.new
auto_diagnose-Diagnosed_example =
    auto_diagnose-Diagnosed json json-IsJson Unit services asks here there refl
