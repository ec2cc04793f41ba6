-- ===== src/Tests/Automation.antt =====
-- The rules of crates/automation-engine/src/lib.rs on a hot metrics result.
use saaios.Prelude.{◌+◌, arith, true, ◌≡◌, ◌≢◌, refl, none, some, [], ◌∷◌, All}
use saaios.Protocol.{Envelope, tool_result}
use saaios.Jsonl.{Codec}
use saaios.Audit.{AuditRecord}
use saaios.Automation.{
  AutomationRule, AutomationFire, AutomationEngine, tool_result_threshold, notify, evaluate,
  evaluate_once, fire_of,
}
use saaios.Automation.Apply.{apply, receive, receive_all}
use saaios.Automation.Defaults.{default_rules, set_auto_diagnose_rule}
use saaios.Automation.Rules.{evaluate-fresh}
use saaios.Automation.Cooldown.{IsCooling, after, apply_suppresses}
use saaios.Automation.Echo.{NoEcho, default_rules-NoEcho}
use saaios.Samples.Json.{json, no_members, entry, num, str, bool, json-IsJson}
use saaios.Samples.Host.{empty_log}

abbrev codec : Codec (AuditRecord json)
codec = record { to_string = λ r. some "x"; from_str = λ s. none; trim = λ s. s }

abbrev hot : Envelope json
hot = record {
  v = 1;
  msg_id = 7;
  correlation_id = 8;
  causation_id = none;
  kind = tool_result;
  ts = 0;
  payload =
      entry "tool" (str "system.metrics")
        (entry "ok" (bool true) (entry "output" (entry "cpu" (num 97) no_members) no_members));
}

abbrev rule : AutomationRule json
rule = record {
  id = "hot";
  name = "Hot";
  enabled = true;
  trigger = tool_result_threshold "system.metrics" "cpu" 85;
  action = notify "hot";
  cooldown_secs = 30;
}

abbrev engine : AutomationEngine json
engine = record { rules = rule ∷ []; last_fired = []; audit = empty_log; sent = []; drawn = 1 }

abbrev fire : AutomationFire json
fire = fire_of json rule hot "hot"

evaluate-fresh_example : evaluate json engine hot ≡ evaluate_once json (rule ∷ []) hot
evaluate-fresh_example = evaluate-fresh json engine hot refl

-- The metrics are hot again after the fire, and then once more.
rule-IsCooling :
    IsCooling json "hot"
      (json.utc_now 1)
      1
      ((after json codec engine fire [] (hot ∷ [])).drawn + 1)
      engine.rules
unfolding apply saaios.Audit.append_envelope saaios.Jsonl.append saaios.Jsonl.write receive
    receive_all saaios.Automation.Apply.apply_all saaios.Automation.Apply.is_own_event evaluate
    saaios.Automation.evaluate_rules saaios.Automation.matches saaios.Automation.in_cooldown
    saaios.Prelude.Dict.lookup saaios.Prelude.Dict.insert saaios.Automation.Apply.mark_fired
    saaios.Automation.Apply.record_and_publish
rule-IsCooling n low high = (λ e. ground arith, tt)

apply_suppresses_example :
    All (λ f. f.rule_id ≢ "hot") (evaluate json (after json codec engine fire [] (hot ∷ [])) hot)
apply_suppresses_example =
    apply_suppresses json codec engine fire [] (hot ∷ []) hot tt rule-IsCooling

abbrev default_engine : AutomationEngine json
default_engine = record {
  rules = default_rules json;
  last_fired = [];
  audit = empty_log;
  sent = [];
  drawn = 1;
}

default_rules-NoEcho_example :
    NoEcho json json-IsJson codec
      (set_auto_diagnose_rule json default_engine true)
      (receive json codec (set_auto_diagnose_rule json default_engine true) hot)
default_rules-NoEcho_example =
    default_rules-NoEcho json json-IsJson codec default_engine true hot refl
