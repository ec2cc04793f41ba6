-- ===== src/Automation/Defaults.antt =====
-- crates/automation-engine/src/lib.rs: the built-in rules, and the switch of one of them.
use saaios.Prelude.{ℕ, String, Bool, true, false, List, [], ◌∷◌, if◌then◌else◌, str_eq}
use saaios.Crates.{Crates}
use saaios.Automation.{
  tool_result_threshold, named_event, notify, suggest_diagnose, auto_diagnose, AutomationAction,
  AutomationRule, AutomationEngine,
}

module _ (C : Crates) where
  open C use {
    Value, Uuid, Time, Float, get, as_str, as_bool, as_f64, ge, of_nat, show_float, str, obj,
    utc_now, elapsed_lt,
  }

  -- The first rule of that id is switched; the others stay.
  unfoldable pub switch_first : Bool → List (AutomationRule C) → List (AutomationRule C)
  switch_first enabled [] = []
  switch_first enabled (rule ∷ rules) =
      let rest = switch_first enabled rules in
      if str_eq rule.id "high-cpu-auto-diagnose"
      then record rule { enabled = enabled } ∷ rules
      else rule ∷ rest

  unfoldable pub set_auto_diagnose_rule : (AutomationEngine C) → Bool → (AutomationEngine C)
  unfolding switch_first
  set_auto_diagnose_rule e enabled = record e { rules = switch_first enabled e.rules }

  abbrev threshold_rule :
      String
      → String
      → Bool
      → (tool field : String) → ℕ
      → (AutomationAction C)
      → ℕ
      → (AutomationRule C)
  threshold_rule id name enabled tool field gte action cooldown_secs = record {
    id = id;
    name = name;
    enabled = enabled;
    trigger = tool_result_threshold tool field (of_nat gte);
    action = action;
    cooldown_secs = cooldown_secs;
  }

  unfoldable pub default_rules : List (AutomationRule C)
  default_rules =
      threshold_rule "high-cpu-suggest" "High CPU suggests diagnose" true "system.metrics"
        "cpu_usage" 85 (suggest_diagnose "Почему система тормозит?") 30
      ∷ threshold_rule "high-cpu-auto-diagnose" "High CPU auto diagnose" false "system.metrics"
          "cpu_usage" 85 (auto_diagnose "Почему система тормозит?") 120
      ∷ threshold_rule "high-cpu-notify" "High CPU notification" true "system.metrics" "cpu_usage"
          85 (notify "CPU usage is critically high (>= 85%)") 30
      ∷ threshold_rule "high-mem-notify" "High memory notification" true "system.metrics"
          "mem_used_pct" 90 (notify "Memory usage is critically high (>= 90%)") 60
      ∷ threshold_rule "high-temp-notify" "High temperature notification" true "system.temperature"
          "celsius" 80 (notify "SoC/CPU temperature is high (>= 80C)") 60
      ∷ record {
        id = "named-temp-warning";
        name = "Temperature warning passthrough";
        enabled = true;
        trigger = named_event "TemperatureWarning";
        action = notify "Temperature warning received";
        cooldown_secs = 10;
      }
      ∷ []
