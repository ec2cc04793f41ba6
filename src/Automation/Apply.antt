-- ===== src/Automation/Apply.antt =====
-- crates/automation-engine/src/lib.rs: what a fire does, and the receipt of an envelope.
use saaios.Prelude.{
  ℕ, suc, ◌+◌, String, Bool, false, ◌&&◌, none, some, List, [], ◌∷◌, ◌++◌, if◌then◌else◌,
  starts_with, and_then,
}
use saaios.Prelude.Dict
use saaios.Crates.{Crates}
use saaios.Protocol.{event, is_event, Envelope, envelope, Result, ok, err}
use saaios.Jsonl.{Codec}
use saaios.Registry.{string_key}
use saaios.Audit.{AuditRecord, append_envelope}
use saaios.Automation.{
  AutomationAction, notify, suggest_diagnose, auto_diagnose, emit_event, AutomationRule,
  AutomationFire, AutomationEngine, evaluate,
}

module _ (C : Crates) where
  open C use {
    Value, Uuid, Time, Float, get, as_str, as_bool, as_f64, ge, of_nat, show_float, str, obj,
    utc_now, elapsed_lt,
  }

  abbrev common : (AutomationFire C) → String → List (String × Value)
  common fire name =
      ("event", str name) ∷ ("rule_id", str fire.rule_id) ∷ ("rule_name", str fire.rule_name) ∷ []

  unfoldable pub payload_of : (AutomationAction C) → (AutomationFire C) → Value
  payload_of (notify message) fire = obj (
      common fire "AutomationNotify" ++ ("message", str message) ∷ ("detail", str fire.detail) ∷ [])
  payload_of (suggest_diagnose prompt) fire = obj (
      common fire "AutomationSuggestDiagnose"
      ++ ("prompt", str prompt) ∷ ("detail", str fire.detail) ∷ [])
  payload_of (auto_diagnose prompt) fire = obj (
      common fire "AutomationAutoDiagnose"
      ++ ("prompt", str prompt) ∷ ("detail", str fire.detail) ∷ [])
  payload_of (emit_event name payload) fire =
      obj (common fire name ++ ("detail", str fire.detail) ∷ ("data", payload) ∷ [])

  unfoldable pub mark_fired : (AutomationEngine C) → String → (AutomationEngine C)
  mark_fired e rule_id = record e {
    last_fired = Dict.insert string_key rule_id (utc_now e.drawn) e.last_fired;
    drawn = suc e.drawn;
  }

  -- `publish_envelope`, unless the `?` on the audit returns first.
  unfoldable pub publish_if :
      Result String (Unit {0})
      → (AutomationEngine C)
      → Envelope C
      → Result String (Envelope C) × (AutomationEngine C)
  publish_if (ok _) e out = (ok out, record e { sent = e.sent ++ out ∷ [] })
  publish_if (err why) e out = (err why, e)

  unfoldable pub record_and_publish :
      Codec (AuditRecord C)
      → (AutomationEngine C)
      → Envelope C
      → Result String (Envelope C) × (AutomationEngine C)
  unfolding publish_if
  record_and_publish codec e out =
      let (done, log) = append_envelope C codec e.audit out in
      publish_if done (record e { audit = log }) out

  unfoldable pub apply :
      Codec (AuditRecord C)
      → (AutomationEngine C)
      → (AutomationFire C)
      → Result String (Envelope C) × (AutomationEngine C)
  unfolding payload_of mark_fired record_and_publish
  apply codec e fire =
      let marked = mark_fired e fire.rule_id in
      let out =
        envelope C marked.drawn event fire.correlation_id (some fire.causation_id)
          (payload_of fire.action fire) in
      record_and_publish codec (record marked { drawn = suc marked.drawn }) out

  -- The name under which an event is recognised as one of the program's own.
  unfoldable pub is_own_event : Envelope C → Bool
  is_own_event env = is_event env.kind && elim (and_then (get env.payload "event") as_str) [
    | none ↦ false
    | some name ↦ starts_with name "Automation"
  ]

  unfoldable pub apply_all :
      Codec (AuditRecord C) → (AutomationEngine C) → List (AutomationFire C) → (AutomationEngine C)
  apply_all codec e [] = e
  apply_all codec e (fire ∷ fires) = apply_all codec (apply codec e fire).1 fires

  abbrev pub rounds : List (AutomationRule C) → ℕ
  rounds [] = 0
  rounds (r ∷ rs) = suc (rounds rs)

  -- One envelope from the bus in `run_loop` and in `spawn`: own events are passed over; the fires
  -- are all found before the first of them is applied, and an error of one does not stop the next.
  unfoldable pub receive :
      Codec (AuditRecord C) → (AutomationEngine C) → Envelope C → (AutomationEngine C)
  unfolding apply_all
  receive codec e env =
      if is_own_event env
      then e
      else apply_all codec (record e { drawn = e.drawn + rounds e.rules }) (evaluate C e env)

  -- `run_loop`, on the envelopes that it receives; those that the bus drops when it lags are not among
  -- them.
  unfoldable pub receive_all :
      Codec (AuditRecord C) → (AutomationEngine C) → List (Envelope C) → (AutomationEngine C)
  receive_all codec e [] = e
  receive_all codec e (env ∷ envs) = receive_all codec (receive codec e env) envs
