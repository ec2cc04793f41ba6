-- ===== src/Automation.antt =====
-- crates/automation-engine/src/lib.rs: rules that fire on envelopes of the bus.
pub mod Apply
pub mod Defaults
pub mod Rules
pub mod Cooldown
pub mod Echo
use saaios.Prelude.{
  ℕ, suc, ◌+◌, String, Bool, true, false, not, ◌&&◌, Option, none, some, List, [], ◌∷◌, ◌++◌,
  if◌then◌else◌, str_eq, starts_with, ◌+++◌, and_then, unwrap_or, map,
}
use saaios.Prelude.Dict
use saaios.Crates.{Crates}
use saaios.Protocol.{
  MessageKind, event, is_event, is_tool_result, Envelope, envelope, Result, ok, err,
}
use saaios.Jsonl.{Codec, Log}
use saaios.Registry.{string_key}
use saaios.Text.{split_on, unescape}
use saaios.Audit.{AuditRecord, append_envelope}

module _ (C : Crates) where
  open C use {
    Value, Uuid, Time, Float, get, pointer, as_str, as_bool, as_f64, ge, of_nat, show_float, str,
    obj, utc_now, elapsed_lt,
  }

  pub data TriggerKind : Type 0 where
    named_event : String → TriggerKind
    tool_result_threshold : (tool field : String) → (gte : Float) → TriggerKind

  pub data AutomationAction : Type 0 where
    notify suggest_diagnose auto_diagnose : String → AutomationAction
    emit_event : String → Value → AutomationAction

  pub record AutomationRule : Type 0 where
    pub id : String
    pub name : String
    pub enabled : Bool
    pub trigger : TriggerKind
    pub action : AutomationAction
    pub cooldown_secs : ℕ

  pub record AutomationFire : Type 0 where
    pub rule_id : String
    pub rule_name : String
    pub action : AutomationAction
    pub correlation_id : Uuid
    pub causation_id : Uuid
    pub detail : String

  -- The engine, with what it shares with the process: the audit file, the envelopes sent to the bus
  -- so far, and how often identifiers and the clock have been drawn on.
  pub record AutomationEngine : Type 0 where
    pub rules : List AutomationRule
    pub last_fired : List (String × Time)
    pub audit : Log
    pub sent : List (Envelope C)
    pub drawn : ℕ

  -- `payload.pointer("/output/{field}")`: the fields that the rules name hold neither `/` nor `~`.
  -- `payload.pointer(&format!("/output/{field}"))`
  abbrev pub output_field : Value → String → Option Value
  output_field payload field = pointer payload ("output" ∷ map unescape (split_on b'/' field))

  abbrev named_detail : String → String
  named_detail name = "named event `" +++ name +++ "`"

  abbrev threshold_detail : String → String → Float → Float → String
  threshold_detail tool field value gte =
      tool +++ "." +++ field +++ "=" +++ show_float value +++ " >= " +++ show_float gte

  -- The `?` on a missing member, and the return of `None` on a failed test.
  abbrev pub require : Bool → Option (Unit {0})
  require true = some tt
  require false = none

  infixl 5 ◌>>=◌ ◌>>◌
  abbrev ◌>>=◌ : {A B : Type 0} → Option A → (A → Option B) → Option B
  o >>= f = and_then o f

  abbrev ◌>>◌ : {B : Type 0} → Option (Unit {0}) → Option B → Option B
  o >> k = and_then o (λ _. k)

  matches_trigger : TriggerKind → Envelope C → Option String
  matches_trigger (named_event name) env = do
    require (is_event env.kind)
    event_name ← get env.payload "event" >>= as_str
    require (str_eq event_name name)
    some (named_detail name)
  matches_trigger (tool_result_threshold tool field gte) env = do
    require (is_tool_result env.kind)
    env_tool ← get env.payload "tool" >>= as_str
    require (str_eq env_tool tool)
    done ← get env.payload "ok" >>= as_bool
    require done
    value ← output_field env.payload field >>= as_f64
    require (ge value gte)
    some (threshold_detail tool field value gte)

  unfoldable pub matches : AutomationRule → Envelope C → Option String
  unfolding matches_trigger
  matches rule env = matches_trigger rule.trigger env

  -- `Matcher::matches`, the second copy of the test, which `evaluate_once` uses.
  matcher_trigger : TriggerKind → Envelope C → Option String
  matcher_trigger (named_event name) env = do
    require (is_event env.kind)
    event_name ← get env.payload "event" >>= as_str
    if str_eq event_name name then some (named_detail name) else none
  matcher_trigger (tool_result_threshold tool field gte) env = do
    require (is_tool_result env.kind)
    env_tool ← get env.payload "tool" >>= as_str
    require (str_eq env_tool tool)
    done ← get env.payload "ok"
    require (unwrap_or (as_bool done) false)
    value ← output_field env.payload field >>= as_f64
    if ge value gte then some (threshold_detail tool field value gte) else none

  unfoldable pub matcher_matches : AutomationRule → Envelope C → Option String
  unfolding matcher_trigger
  matcher_matches rule env = matcher_trigger rule.trigger env

  -- `in_cooldown`, at the reading of the clock with this number.
  unfoldable pub in_cooldown : List (String × Time) → ℕ → String → ℕ → Bool
  in_cooldown last_fired n rule_id cooldown_secs =
      elim (Dict.lookup string_key rule_id last_fired) [
        | none ↦ false
        | some last ↦ elapsed_lt (utc_now n) last cooldown_secs
      ]

  abbrev pub fire_of : AutomationRule → Envelope C → String → AutomationFire
  fire_of rule env detail = record {
    rule_id = rule.id;
    rule_name = rule.name;
    action = rule.action;
    correlation_id = env.correlation_id;
    causation_id = env.msg_id;
    detail = detail;
  }

  -- The loop of `evaluate`. The clock is read once for each rule.
  unfoldable pub evaluate_rules :
      List (String × Time) → ℕ → List AutomationRule → Envelope C → List AutomationFire
  unfolding in_cooldown
  evaluate_rules last_fired n [] env = []
  evaluate_rules last_fired n (rule ∷ rules) env =
      let rest = evaluate_rules last_fired (suc n) rules env in
      if not rule.enabled then rest else elim (matches rule env) [
        | none ↦ rest
        | some detail ↦
            if in_cooldown last_fired n rule.id rule.cooldown_secs
            then rest
            else fire_of rule env detail ∷ rest
      ]

  unfoldable pub evaluate : AutomationEngine → Envelope C → List AutomationFire
  evaluate e env = evaluate_rules e.last_fired e.drawn e.rules env

  -- The free function `evaluate_once`, which knows no cooldowns.
  unfoldable pub evaluate_once : List AutomationRule → Envelope C → List AutomationFire
  evaluate_once [] env = []
  evaluate_once (rule ∷ rules) env =
      let rest = evaluate_once rules env in
      if not rule.enabled then rest else elim (matcher_matches rule env) [
        | none ↦ rest
        | some detail ↦ fire_of rule env detail ∷ rest
      ]
