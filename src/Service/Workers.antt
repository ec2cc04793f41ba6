-- ===== src/Service/Workers.antt =====
-- One envelope from the bus in `spawn_event_feed_worker` and in `spawn_auto_diagnose_worker` of
-- services/saaios-runtime/src/main.rs. `none` stands for the end of the task by a panic on the feed's
-- lock.
use saaios.Prelude.{
  ℕ, String, Option, none, some, [], ◌∷◌, if◌then◌else◌, str_eq, starts_with, and_then, or_else,
  unwrap_or, is_some,
}
use saaios.Crates.{Crates}
use saaios.Protocol.{Envelope, envelope, is_event, event, Result, ok, err}
use saaios.Audit.{append_envelope}
use saaios.Feed.{FeedItem, push}
use saaios.Runtime.{Services, Rt, HandleOutcome, advance, publish}
use saaios.Runtime.Requests.{handle_user_text_in_session}
use saaios.Service.{Service}

module _ (C : Crates) where
  open C use {Value, get, as_str, str, bool, obj, show_uuid, utc_now}

  abbrev pub event_name : Envelope C → Option String
  event_name env = if is_event env.kind then and_then (get env.payload "event") as_str else none

  abbrev pub item : ℕ → String → C.Uuid → String → Value → FeedItem C
  item n name correlation_id summary payload = record {
    ts = utc_now n;
    event = name;
    correlation_id = some correlation_id;
    summary = summary;
    payload = payload;
  }

  -- The text of an automation event, by the first of three members that it has.
  abbrev summary_of : Value → String → String
  summary_of payload name =
      unwrap_or
        (and_then
          (or_else (or_else (get payload "message") (get payload "prompt")) (get payload "summary"))
          as_str)
        name

  -- What the feed shows of an envelope.
  unfoldable pub shown : ℕ → Envelope C → Option (FeedItem C)
  shown n env = elim (event_name env) [
    | none ↦ none
    | some name ↦
        if starts_with name "Automation"
        then some (item n name env.correlation_id (summary_of env.payload name) env.payload)
        else none
  ]

  -- The prompt of an envelope that asks for a diagnosis.
  unfoldable pub prompt_of : Envelope C → Option String
  prompt_of env = elim (event_name env) [
    | none ↦ none
    | some name ↦
        if str_eq name "AutomationAutoDiagnose"
        then some
            (unwrap_or (and_then (get env.payload "prompt") as_str) "Почему система тормозит?")
        else none
  ]

  abbrev completed_payload : String → HandleOutcome C → Value
  completed_payload prompt outcome = obj (
      ("event", str "AutomationDiagnoseCompleted")
      ∷ ("prompt", str prompt)
      ∷ (
        "summary",
        str (
            if str_eq outcome.diagnose.summary ""
            then "auto-diagnose completed"
            else outcome.diagnose.summary),
      )
      ∷ ("correlation_id", str (show_uuid outcome.correlation_id))
      ∷ ("pending", bool (is_some outcome.pending_confirmation))
      ∷ [])

  abbrev failed_payload : String → String → Value
  failed_payload prompt e =
      obj
        (("event", str "AutomationDiagnoseFailed") ∷ ("prompt", str prompt) ∷ ("error", str e) ∷ [])

  module _ (S : Type 0) (services : Services C S) where
    unfoldable pub feed_event : Envelope C → Service C S services → Option (Service C S services)
    feed_event env s = elim (shown s.runtime.drawn env) [
      | none ↦ some s
      | some shown_item ↦
          and_then (push s.feed shown_item)
            (λ f. some (record s { feed = f; runtime = advance C S s.runtime }))
    ]

    -- `let _ = audit.append_envelope(&out)`, then the bus, whether the file took it or not.
    abbrev pub announced : Envelope C → Rt C S → Rt C S
    announced out rt =
        publish C S out
          (record rt { audit = (append_envelope C services.audit_codec rt.audit out).1 })

    -- The event about the diagnosis, and the item of the feed about it.
    abbrev pub report_of :
        Envelope C → String → Result String (HandleOutcome C) → ℕ → Envelope C × FeedItem C
    report_of env prompt (ok outcome) n = (
      envelope C n event outcome.correlation_id (some env.msg_id)
          (completed_payload prompt outcome),
      item n "AutomationDiagnoseCompleted" outcome.correlation_id outcome.diagnose.summary
          (completed_payload prompt outcome),
    )
    report_of env prompt (err e) n = (
      envelope C n event env.correlation_id (some env.msg_id) (failed_payload prompt e),
      item n "AutomationDiagnoseFailed" env.correlation_id e (failed_payload prompt e),
    )

    abbrev pub finished :
        Envelope C
        → String
        → Service C S services
        → Result String (HandleOutcome C) × Rt C S
        → Option (Service C S services)
    finished env prompt s (result, rt) =
        let (out, done) = report_of env prompt result rt.drawn in
        and_then (push s.feed done)
          (λ f. some (record s { feed = f; runtime = announced out (advance C S rt) }))

    unfoldable pub auto_diagnose : Envelope C → Service C S services → Option (Service C S services)
    auto_diagnose env s = elim (prompt_of env) [
      | none ↦ some s
      | some prompt ↦
          and_then
            (push s.feed
              (item s.runtime.drawn "AutoDiagnoseStarted" env.correlation_id prompt env.payload))
            (λ f.
              finished env prompt (record s { feed = f })
                (handle_user_text_in_session C S services prompt none (advance C S s.runtime)))
    ]
