-- ===== src/Samples/Host.antt =====
-- A runtime on a machine that counts its tool runs and can be switched off.
use saaios.Prelude.{ℕ, suc, String, Bool, true, false, none, some, [], ◌∷◌}
use saaios.Prelude.{mutex}
use saaios.Protocol.{ok}
use saaios.Registry.{RiskLevel, low, high, ToolSpec, ToolExecutor, ToolRegistry, ToolOutput}
use saaios.Policy
use saaios.Jsonl.{Log}
use saaios.Runtime.{Services, Rt, ProposedToolCall}
use saaios.Samples.Tiny.{tiny}
use saaios.Samples.Codecs.{audit_codec, memory_codec}

-- The number of runs, and whether the machine is off.
abbrev pub Machine : Type 0
Machine = ℕ × Bool

abbrev pub spec : String → RiskLevel → Bool → ToolSpec tiny
spec name risk asks = record {
  name = name;
  description = "";
  risk = risk;
  timeout_ms = 1000;
  input_schema = tt;
  output_schema = tt;
  requires_confirmation = asks;
}

abbrev output : ToolOutput tiny
output = record { ok = true; value = tt; error = none }

abbrev pub counting : ToolSpec tiny → ToolExecutor tiny Machine
counting s = record { spec = s; run = λ args ctx (n, off). (ok output, (suc n, off)) }

abbrev pub list_tool : ToolExecutor tiny Machine
list_tool = counting (spec "process.list" low false)

abbrev pub reboot_tool : ToolExecutor tiny Machine
reboot_tool = counting (spec "system.reboot_request" high true)

-- The policy denies this tool, whatever it declares.
abbrev pub poweroff_tool : ToolExecutor tiny Machine
poweroff_tool = record {
  spec = spec "system.poweroff" low false;
  run = λ args ctx (n, off). (ok output, (suc n, true));
}

abbrev pub host_tools : ToolRegistry tiny Machine
host_tools = record {
  tools =
      ("process.list", list_tool)
      ∷ ("system.reboot_request", reboot_tool)
      ∷ ("system.poweroff", poweroff_tool)
      ∷ [];
}

abbrev call : Bool → String → ProposedToolCall tiny
call id name = record { call_id = id; name = name; arguments = tt }

abbrev pub host_services : Services tiny Machine
host_services = record {
  audit_codec = audit_codec;
  memory_codec = memory_codec;
  memory_of = λ s. none;
  with_memory = λ m s. s;
  complete = λ n messages tools. ok (record {
    assistant_text = some "looking";
    tool_calls =
        call true "process.list"
        ∷ call false "system.poweroff"
        ∷ call true "system.reboot_request"
        ∷ [];
  });
}

abbrev pub empty_log : Log
empty_log = record { content = ""; readable = true; writes = [] }

abbrev pub host : Rt tiny Machine
host = record {
  tools = host_tools;
  policy = Policy.new;
  audit = empty_log;
  sent = [];
  conversations = record { inner = mutex []; max_messages = 4 };
  max_concurrent_requests = 1;
  request_slots = 1;
  max_tool_iters = 4;
  drawn = 0;
  machine = (0, false);
}
