-- ===== src/Tests/Console.antt =====
-- Keys that are typed at the terminal console of crates/console-tui/src/main.rs.
use Prim.Native.Char.{char as scalar}
use saaios.Prelude.{true, ◌≡◌, refl, none, some, List, [], ◌∷◌}
use saaios.Crates.{Crates}
use saaios.Protocol.{ok, err, once}
use saaios.Samples.Json.{json}
use saaios.Console
use saaios.Service.{diagnose, confirm}
use saaios.Console.{ClientResponse, Socket, App}
use saaios.Console.Keys.{KeyCode, char, enter, press, run_loop}
use saaios.Console.Offered.{AllAsked}
use saaios.Console.Pressed.{run_loop-IsSound}

abbrev frames : Crates
frames = record json { parse = λ s. some json.null }

-- Every answer asks back for one call.
abbrev asks_back : ClientResponse frames
asks_back = record {
  correlation_id = some 7;
  session_id = some 1;
  diagnose = none;
  pending = some (record {
    call_id = 8;
    tool = "process.kill_request";
    arguments = json.num 77;
    summary = "kill 77?";
  });
  error = none;
  tool_result = none;
  audit_tail = none;
  session_grants = none;
  memory_facts = none;
  status = none;
  events = none;
}

abbrev socket : Socket frames
socket = record {
  request = λ n request. err "down";
  stream = λ n request. ok "done";
  from_value = λ v. ok asks_back;
}

-- "w", Enter, and "y" twice
abbrev keys : List KeyCode
keys = char (scalar 119 tt) ∷ enter ∷ char (scalar 121 tt) ∷ char (scalar 121 tt) ∷ []

run_loop-IsSound_example :
    AllAsked frames socket [] (run_loop frames socket keys (Console.new frames)).asked
run_loop-IsSound_example =
    run_loop-IsSound frames socket keys (Console.new frames) (record { all = tt; waits = tt })

-- The question is sent, the first "y" approves the call that was asked back for, the second is typed.
typed_run :
    (run_loop frames socket keys (Console.new frames)).asked
    ≡ diagnose "w" none true
      ∷ confirm 7 8 "process.kill_request" (json.num 77) once none (some 1)
      ∷ []
unfolding run_loop press saaios.Console.Keys.first_key saaios.Console.Keys.typed
    saaios.Console.Keys.entered saaios.Console.Keys.submit saaios.Console.Keys.answer_key
    saaios.Console.Keys.answering saaios.Console.Stream.diagnosing
    saaios.Console.Stream.request_stream saaios.Console.Stream.read_frames saaios.Jsonl.lines_from
    saaios.Console.Stream.received saaios.Console.Stream.accepted saaios.Console.asking
typed_run = refl
