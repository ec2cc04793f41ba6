-- ===== src/Tests/Tools.antt =====
-- The tools of crates/system-tools/src/lib.rs on a machine where every path exists and every program
-- succeeds, and a service over them.
use saaios.Prelude.{
  ℕ, ◌+◌, ◌*◌, ◌^◌, ◌≤◌, ◌≡◌, refl, String, true, false, Option, none, some, List, [], ◌∷◌, map,
  ◌+++◌, All, length, and_then, get_elem?, mutex, arith,
}
use saaios.Protocol.{Result, ok, err, session, once}
use saaios.Feed
use saaios.Policy
use saaios.Samples.Json.{json, json-IsJson}
use saaios.Samples.Host.{empty_log}
use saaios.Registry.{ToolContext}
use saaios.Runtime.{Services, Rt, HandleOutcome}
use saaios.Service.{Service, ClientRequest, diagnose, confirm}
use saaios.Text.{parse_u64}
use saaios.Tools.{real_linux, mock, kill_request_run}
use saaios.Tools.World.{Machine, World}
use saaios.Tools.Linux.{linux_backend}
use saaios.Tools.Proc.{parse_proc_stat_jiffies, saturating_add, words}
use saaios.Tools.Processes.{Snapshot, compared, ranked}
use saaios.Tools.Guarded.{installed}
use saaios.Runtime.MockPlanner.{diagnose_slow_with_mock_planner}
use saaios.Tools.Wraps.{kill_args, kill_request_run-wraps}
use saaios.Tools.Stat.{parse_proc_stat_jiffies-name}
use saaios.Tools.Ranking.{IsAlive, IsTop, both, ranked_lem}
use saaios.Tests.Service.{host_meta}
use saaios.Tests.Workers.{writes_x}

abbrev pub linux : Machine
linux = record {
  read_to_string = λ n path. err "not found";
  exists = λ n path. true;
  read_dir = λ n path. ok [];
  output = λ n program args.
      ok (record { success = true; status = "exit status: 0"; stdout = []; stderr = [] });
  process_id = 5000;
  available_parallelism = some 4;
}

abbrev pub untouched : World
untouched = record { looks = 0; commands = [] }

-- The model asks for the disks, then to kill a process.
abbrev pub services : Services json World
services = record {
  audit_codec = writes_x;
  memory_codec = writes_x;
  memory_of = λ w. none;
  with_memory = λ m w. w;
  complete = λ n messages tools. ok (record {
    assistant_text = none;
    tool_calls =
        record { call_id = 1; name = "system.disk"; arguments = json.obj [] }
        ∷ record {
          call_id = 2;
          name = "process.kill_request";
          arguments = kill_args json json-IsJson World 77 "TERM";
        }
        ∷ [];
  });
}

abbrev ready : Rt json World
ready = record {
  tools = installed json linux real_linux;
  policy = Policy.new;
  audit = empty_log;
  sent = [];
  conversations = record { inner = mutex []; max_messages = 4 };
  max_concurrent_requests = 1;
  request_slots = 1;
  max_tool_iters = 4;
  drawn = 0;
  machine = untouched;
}

abbrev linux_service : Service json World services
linux_service = record { meta = host_meta; runtime = ready; last_pending = none; feed = Feed.new 4 }

-- A diagnosis, whose call is then confirmed for the session, and an attempt to kill the service.
abbrev pub requests : List (ClientRequest json)
requests =
    diagnose "slow" none false
    ∷ confirm 3 2 "process.kill_request" (kill_args json json-IsJson World 77 "TERM") session
        (some true) none
    ∷ confirm 3 4 "process.kill_request" (kill_args json json-IsJson World 5000 "KILL") once
        (some true) none
    ∷ []

abbrev asked : Result String (HandleOutcome json) → Option (String × String)
asked (ok outcome) = elim outcome.pending_confirmation [
  | some p ↦ some (p.tool, p.summary)
  | none ↦ none
]
asked (err e) = none

-- Over the mock backend the diagnosis asks whether to stop the busiest process.
planner_run :
    asked
      (diagnose_slow_with_mock_planner json World services
        (record ready { tools = installed json linux mock })).0
    ≡ some ("process.kill_request", "Остановить процесс runaway-worker?")
unfolding diagnose_slow_with_mock_planner saaios.Runtime.Effects.◌>>=◌ saaios.Runtime.fresh
    saaios.Runtime.draft saaios.Runtime.audit saaios.Audit.append_envelope saaios.Jsonl.append
    saaios.Jsonl.write saaios.Audit.record_of saaios.Runtime.MockPlanner.call_allowed
    saaios.Protocol.envelope saaios.Runtime.Effects.gets saaios.Runtime.MockPlanner.needed
    saaios.Runtime.MockPlanner.decision_on saaios.Registry.get saaios.Prelude.Dict.lookup
    saaios.Runtime.MockPlanner.run_allowed saaios.Runtime.Culprit.top_process Policy.by_risk
    Policy.decide Policy.hard_deny Policy.has_session_grant Policy.looks_like_injection
    saaios.Registry.execute saaios.Registry.run_checked saaios.Runtime.Culprit.best_of
    saaios.Runtime.Culprit.better saaios.Runtime.Culprit.candidate saaios.Runtime.Effects.fail
    saaios.Runtime.Effects.pure saaios.Runtime.Handle.ran saaios.Runtime.Handle.run_tool
    saaios.Tools.install_system_tools saaios.Tools.system_tools saaios.Registry.register
    saaios.Prelude.Dict.insert saaios.Tools.Mock.mock_backend
planner_run = refl

abbrev ctx : ToolContext json
ctx = record { correlation_id = 1; call_id = 2 }

kill_request_run-wraps_example :
    kill_request_run json World
      (linux_backend json linux)
      (kill_args json json-IsJson World (77 + 1 * 2 ^ 32) "KILL")
      ctx
      untouched
    ≡ kill_request_run json World
        (linux_backend json linux)
        (kill_args json json-IsJson World 77 "KILL")
        ctx
        untouched
kill_request_run-wraps_example =
    kill_request_run-wraps json json-IsJson World (linux_backend json linux) 77 1 "KILL" ctx
      untouched (omega arith)

-- The name of the process is "a) (b".
abbrev columns : String
columns = "S 1 2 3 4 5 6 7 8 9 10 30 12 14"

parse_proc_stat_jiffies-name_example :
    parse_proc_stat_jiffies json ("77 (a) (b" +++ ") " +++ columns)
    ≡ and_then (and_then (get_elem? (words json columns) 11) parse_u64) (λ utime.
      and_then
        (and_then (get_elem? (words json columns) 12) parse_u64)
        (λ stime. some (saturating_add utime stime)))
parse_proc_stat_jiffies-name_example = parse_proc_stat_jiffies-name json "77 (a) (b" columns refl

asym : (a b : ℕ) → json.gt a b ≡ true → json.gt b a ≡ false
asym a b h = ground arith

abbrev before : Snapshot json linux
before = (1, ("init", 10, 5)) ∷ (77, ("worker", 20, 7)) ∷ (78, ("gone", 0, 1)) ∷ []

abbrev after : Snapshot json linux
after = (1, ("init", 11, 5)) ∷ (77, ("worker", 90, 8)) ∷ []

order : (a b c : ℕ) → Unit {0} → json.gt a b ≡ false → json.gt b c ≡ false → json.gt a c ≡ false
order a b c n g h = ground arith

ranked_lem_example :
    IsTop json linux
      (λ x. Unit)
      asym
      order
      (compared json linux after 100 4 before)
      (ranked json linux before after 100 4)
    × (map (λ p. p.pid) (compared json linux after 100 4 before) ≡ both json linux before after)
    × All (IsAlive json linux after) (ranked json linux before after 100 4)
unfolding compared saaios.Prelude.Dict.lookup
ranked_lem_example =
    ranked_lem json linux (λ x. Unit {0}) asym order before after 100 4 (tt, (tt, tt))
