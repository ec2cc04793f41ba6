-- ===== src/Audit.antt =====
-- crates/audit-log/src/lib.rs: the append-only audit trail, and the dry-run replay of one request.
pub mod Report
pub mod Trail
use saaios.Prelude.{
  ℕ, String, Bool, true, false, Option, none, some, List, [], ◌∷◌, ◌++◌, if◌then◌else◌, str_eq,
  one_of, ◌+++◌, and_then, unwrap_or, is_some,
}
use saaios.Prelude.Dict.{Key}
use saaios.Crates.{Crates}
use saaios.Protocol.{
  MessageKind, user_request, assistant_message, tool_call, tool_result, policy_decision,
  confirmation_request, confirmation_response, diagnose_result, Envelope, Result, ok, err,
}
use saaios.Jsonl
use saaios.Jsonl.{Codec, Log}

module _ (C : Crates) where
  open C use {Value, Uuid, Time, get, as_str, as_bool, null, to_text, show_uuid}

  pub record AuditRecord : Type 0 where
    pub id : Uuid
    pub ts : Time
    pub correlation_id : Uuid
    pub causation_id : Option Uuid
    pub kind : MessageKind
    pub payload : Value

  -- `AuditRecord::from(&Envelope)`
  unfoldable pub record_of : Envelope C → AuditRecord
  record_of env = record {
    id = env.msg_id;
    ts = env.ts;
    correlation_id = env.correlation_id;
    causation_id = env.causation_id;
    kind = env.kind;
    payload = env.payload;
  }

  unfoldable pub append_envelope :
      Codec AuditRecord → Log → Envelope C → Result String (Unit {0}) × Log
  append_envelope codec log env = Jsonl.append codec log (record_of env)

  unfoldable pub of_correlation : Uuid → List AuditRecord → List AuditRecord
  of_correlation id [] = []
  of_correlation id (r ∷ rs) =
      let rest = of_correlation id rs in
      if C.uuid_key.same r.correlation_id id then r ∷ rest else rest

  abbrev picked : Uuid → Result String (List AuditRecord) → Result String (List AuditRecord)
  picked id (ok rs) = ok (of_correlation id rs)
  picked id (err e) = err e

  unfoldable pub list_by_correlation :
      Codec AuditRecord → Log → Uuid → Result String (List AuditRecord)
  unfolding of_correlation
  list_by_correlation codec log id = picked id (Jsonl.read_all codec log)

  pub record ReplayStep : Type 0 where
    pub kind : MessageKind
    pub description : String
    pub side_effect : Bool

  pub record ReplayReport : Type 0 where
    pub correlation_id : Uuid
    pub steps : List ReplayStep
    pub side_effects_avoided : List String
    pub summary : Option String
    pub pending_confirmation : Option String
    pub dry_run : Bool

  -- The variables of the loop of `replay`.
  pub record Progress : Type 0 where
    pub steps : List ReplayStep
    pub side_effects : List String
    pub summary : Option String
    pub pending : Option String

  abbrev text_or : AuditRecord → String → String → String
  text_or r field d = unwrap_or (and_then (get r.payload field) as_str) d

  abbrev pub tool_of : AuditRecord → String
  tool_of r = text_or r "tool" "unknown"

  abbrev flag_of : AuditRecord → String → Bool
  flag_of r field = unwrap_or (and_then (get r.payload field) as_bool) false

  abbrev value_of : AuditRecord → String → Value
  value_of r field = unwrap_or (get r.payload field) null

  abbrev show_bool : Bool → String
  show_bool true = "true"
  show_bool false = "false"

  unfoldable pub is_dangerous : String → Bool
  is_dangerous tool =
      one_of tool ("process.kill_request" ∷ "system.reboot_request" ∷ "storage.format" ∷ [])

  -- `verdict.as_str() == Some("ask_user")`
  unfoldable pub is_ask_user : AuditRecord → Bool
  is_ask_user r =
      unwrap_or (and_then (as_str (value_of r "verdict")) (λ s. some (str_eq s "ask_user"))) false

  abbrev step : AuditRecord → String → Bool → ReplayStep
  step r description side_effect = record {
    kind = r.kind;
    description = description;
    side_effect = side_effect;
  }

  abbrev pushed : Progress → ReplayStep → Progress
  pushed p s = record p { steps = p.steps ++ s ∷ [] }

  abbrev avoided : Progress → Bool → String → Progress
  avoided p b text = record p {
    side_effects = if b then p.side_effects ++ text ∷ [] else p.side_effects;
  }

  visit_kind : MessageKind → AuditRecord → Progress → Progress
  visit_kind user_request r p = pushed p (step r ("user request: " +++ text_or r "text" "") false)
  visit_kind tool_call r p =
      pushed
        (avoided p (is_dangerous (tool_of r))
          ("would invoke `" +++ tool_of r +++ "` args=" +++ to_text (value_of r "arguments")))
        (step r ("tool call: " +++ tool_of r) (is_dangerous (tool_of r)))
  visit_kind policy_decision r p =
      pushed
        (avoided p (is_ask_user r) (
          "policy asked confirmation for `"
          +++ tool_of r
          +++ "` (not auto-executed in this chain)"))
        (step r ("policy for `" +++ tool_of r +++ "`: " +++ to_text (value_of r "verdict")) false)
  visit_kind tool_result r p =
      pushed p
        (step r ("tool result: " +++ tool_of r +++ " ok=" +++ show_bool (flag_of r "ok")) false)
  visit_kind confirmation_request r p =
      let text = text_or r "summary" "confirmation required" in
      pushed (record p { pending = some text }) (step r ("confirmation requested: " +++ text) false)
  visit_kind confirmation_response r p =
      pushed p
        (step r ("confirmation response: confirmed=" +++ show_bool (flag_of r "confirmed")) false)
  visit_kind diagnose_result r p =
      let text = text_or r "summary" "" in
      pushed (record p { summary = some text }) (step r ("diagnose: " +++ text) false)
  visit_kind assistant_message r p =
      let text = text_or r "text" "" in
      pushed (record p { summary = if is_some p.summary then p.summary else some text })
        (step r ("assistant: " +++ text) false)
  visit_kind _ r p = pushed p (step r ("event: " +++ to_text r.payload) false)

  unfoldable pub visit : AuditRecord → Progress → Progress
  unfolding visit_kind
  visit r p = visit_kind r.kind r p

  unfoldable pub visit_all : Progress → List AuditRecord → Progress
  visit_all p [] = p
  visit_all p (r ∷ rs) = visit_all (visit r p) rs

  abbrev pub started : Progress
  started = record { steps = []; side_effects = []; summary = none; pending = none }

  unfoldable pub report : Uuid → List AuditRecord → Result String ReplayReport
  report id [] = err ("no audit records for correlation_id=" +++ show_uuid id)
  report id (r ∷ rs) =
      let p = visit_all started (r ∷ rs) in
      ok (record {
        correlation_id = id;
        steps = p.steps;
        side_effects_avoided = p.side_effects;
        summary = p.summary;
        pending_confirmation = p.pending;
        dry_run = true;
      })

  abbrev reported : Uuid → Result String (List AuditRecord) → Result String ReplayReport
  reported id (ok rs) = report id rs
  reported id (err e) = err e

  unfoldable pub replay : Codec AuditRecord → Log → Uuid → Result String ReplayReport
  unfolding report
  replay codec log id = reported id (list_by_correlation codec log id)
