-- ===== src/Runtime/MockPlanner.antt =====
-- `diagnose_slow_with_mock_planner` of crates/ai-runtime/src/lib.rs: the diagnosis that asks no model.
-- Its bus has no subscriber, so that an envelope goes to the audit file only; an assertion that
-- fails ends the function like an error.
use saaios.Prelude.{ℕ, String, true, Option, none, some, [], ◌∷◌, ◌+++◌, unwrap_or}
use saaios.Crates.{Crates}
use saaios.Protocol.{PolicyVerdict, allow, deny, ask_user, MessageKind, DiagnoseResult}
use saaios.Registry
use saaios.Registry.{ToolExecutor, ToolOutput}
use saaios.Policy
use saaios.Policy.{PolicyDecision}
use saaios.Runtime.{HandleOutcome, Services, Rt, draft, fresh, audit, id_value}
use saaios.Runtime.Effects.{Action, pure, fail, gets, ◌>>=◌, ◌>>◌}
use saaios.Runtime.Culprit.{top_process}
use saaios.Runtime.Handle.{diagnose_value, run_tool, verdict_text}

module _ (C : Crates) (S : Type 0) (services : Services C S) where
  open C use {Value, Uuid, get, str, num, bool, obj, null, to_text, show_nat}

  abbrev M : Type 0 → Type 0
  M A = Action (Rt C S) A

  abbrev field : Value → String → String
  field v k = to_text (unwrap_or (get v k) null)

  abbrev pub kill_args : ℕ → Value
  kill_args pid = obj (("pid", num pid) ∷ [])

  -- The summary, the question to the user and the proposed call on a process.
  abbrev blame_text : Value → ℕ × String → String
  blame_text metrics (pid, name) =
      "Процесс "
      +++ name
      +++ " (pid "
      +++ show_nat pid
      +++ ") использует высокую долю CPU (metrics cpu="
      +++ field metrics "cpu_usage"
      +++ "%, load="
      +++ field metrics "load_average"
      +++ ")."

  abbrev pub blame : Value → ℕ × String → DiagnoseResult C
  blame metrics (pid, name) = record {
    summary = blame_text metrics (pid, name);
    culprit_pid = some pid;
    culprit_name = some name;
    proposed_action = some (record {
      tool = "process.kill_request";
      arguments = kill_args pid;
      summary = "Остановить процесс " +++ name +++ "?";
    });
  }

  -- `tools.get(tool)`, and what the policy says of it.
  unfoldable pub decision_on : String → Value → Rt C S → Option PolicyDecision
  decision_on tool args rt = elim (Registry.get C S rt.tools tool) [
    | none ↦ none
    | some found ↦ some (Policy.decide C rt.policy found.spec args)
  ]

  -- `option.ok_or_else(|| anyhow!(..))?`
  unfoldable pub needed : {A : Type 0} → String → Option A → M A
  needed message none = fail message
  needed message (some a) = pure a

  -- A call that the policy has to allow: recorded, then run.
  unfoldable pub run_allowed : Uuid → Uuid → Uuid → String → PolicyVerdict → M (ToolOutput C)
  run_allowed correlation_id cause call_id tool allow = do
    env ←
        draft C S MessageKind.tool_call correlation_id (some cause) (
          obj (("call_id", id_value C S call_id) ∷ ("tool", str tool) ∷ ("arguments", obj []) ∷ []))
    audit C S services env
    run_tool C S services correlation_id call_id tool (obj [])
  run_allowed correlation_id cause call_id tool deny = fail "assertion failed"
  run_allowed correlation_id cause call_id tool ask_user = fail "assertion failed"

  unfoldable pub call_allowed : Uuid → Uuid → Uuid → String → M (ToolOutput C)
  call_allowed correlation_id cause call_id tool = do
    found ← gets (decision_on tool (obj []))
    d ← needed ("missing " +++ tool) found
    run_allowed correlation_id cause call_id tool d.verdict

  unfoldable pub diagnose_slow_with_mock_planner : M (HandleOutcome C)
  diagnose_slow_with_mock_planner = do
    correlation_id ← fresh C S
    req ←
        draft C S MessageKind.user_request correlation_id none
          (obj (("text", str "Почему тормозит?") ∷ []))
    audit C S services req
    metrics_call ← fresh C S
    metrics ← call_allowed correlation_id req.msg_id metrics_call "system.metrics"
    list_call ← fresh C S
    procs ← call_allowed correlation_id req.msg_id list_call "process.list"
    listed ← draft C S MessageKind.tool_result correlation_id none (
        obj (
          ("call_id", id_value C S list_call)
          ∷ ("tool", str "process.list")
          ∷ ("ok", bool true)
          ∷ ("output", procs.value)
          ∷ []))
    audit C S services listed
    top ← needed "no processes" (top_process C procs.value)
    found ← gets (decision_on "process.kill_request" (kill_args top.0))
    d ← needed "missing process.kill_request" found
    call_id ← fresh C S
    decided ← draft C S MessageKind.policy_decision correlation_id none (
        obj (
          ("call_id", id_value C S call_id)
          ∷ ("tool", str "process.kill_request")
          ∷ ("verdict", str (verdict_text C d.verdict))
          ∷ ("reason", str d.reason)
          ∷ []))
    audit C S services decided
    let diagnose = blame metrics.value top
    env ← draft C S MessageKind.diagnose_result correlation_id none (diagnose_value C diagnose)
    audit C S services env
    session_id ← fresh C S
    pure (record {
      correlation_id = correlation_id;
      session_id = session_id;
      diagnose = diagnose;
      pending_confirmation = some (record {
        call_id = call_id;
        tool = "process.kill_request";
        arguments = kill_args top.0;
        summary = "Остановить процесс " +++ top.1 +++ "?";
      });
      events = [];
    })
