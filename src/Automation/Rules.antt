-- ===== src/Automation/Rules.antt =====
-- Which rules of crates/automation-engine/src/lib.rs fire on an envelope.
use saaios.Prelude.{ℕ, suc, ◌≡◌, refl, List, [], ◌∷◌, arith}
use saaios.Prelude.Dict
use saaios.Crates.{Crates}
use saaios.Protocol.{Envelope}
use saaios.Automation.{
  TriggerKind, named_event, tool_result_threshold, AutomationRule, AutomationEngine, matches,
  matches_trigger, matcher_matches, matcher_trigger, evaluate, evaluate_rules, evaluate_once,
}

module _ (C : Crates) where
  matches_trigger-eq-matcher_trigger :
      (t : TriggerKind C) (env : Envelope C) → matches_trigger C t env ≡ matcher_trigger C t env
  unfolding matches_trigger matcher_trigger
  matches_trigger-eq-matcher_trigger (named_event name) env = ground arith
  matches_trigger-eq-matcher_trigger (tool_result_threshold tool field gte) env = ground arith

  -- The two copies of the matching code give the same answer and the same detail.
  pub matches-eq-matcher_matches :
      (rule : AutomationRule C) (env : Envelope C) → matches C rule env ≡ matcher_matches C rule env
  unfolding matches matcher_matches
  matches-eq-matcher_matches rule env = matches_trigger-eq-matcher_trigger rule.trigger env

  evaluate_rules-fresh :
      (n : ℕ) (rules : List (AutomationRule C)) (env : Envelope C)
      → evaluate_rules C [] n rules env ≡ evaluate_once C rules env
  unfolding evaluate_rules evaluate_once Dict.lookup
  evaluate_rules-fresh n [] env = refl
  evaluate_rules-fresh n (rule ∷ rules) env =
      ground (arith, evaluate_rules-fresh (suc n) rules env, matches-eq-matcher_matches rule env)

  -- As long as no rule has fired, the engine finds what the offline `evaluate_once` finds.
  pub evaluate-fresh :
      (e : AutomationEngine C) (env : Envelope C)
      → e.last_fired ≡ []
      → evaluate C e env ≡ evaluate_once C e.rules env
  unfolding evaluate
  evaluate-fresh e env h = rw h (evaluate_rules-fresh e.drawn e.rules env)
