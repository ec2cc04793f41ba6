-- ===== src/Console/Shown.antt =====
-- What crates/console-tui/src/main.rs shows of an answer.
use saaios.Prelude.{
  ℕ, String, Bool, false, Option, none, some, List, [], ◌∷◌, map, if◌then◌else◌, str_eq, ◌+++◌,
  and_then, unwrap_or, is_empty,
}
use saaios.Crates.{Crates}
use saaios.Protocol.{ConfirmScope, once, session, cancel, ToolCallResult, Result, ok, err}
use saaios.Text.{join}
use saaios.Console.{ClientResponse, Report, text_or}

abbrev show_bool : Bool → String
show_bool b = if b then "true" else "false"

abbrev yes_no : Bool → String
yes_no b = if b then "y" else "n"

-- `{:?}`
abbrev show_scope : ConfirmScope → String
show_scope once = "Once"
show_scope session = "Session"
show_scope cancel = "Cancel"

module _ (C : Crates) where
  open C use {Value, get, as_str, as_bool, as_u64, as_array, null, to_text, show_nat}

  abbrev flag : Value → String → Bool
  flag v key = unwrap_or (and_then (get v key) as_bool) false

  abbrev number : Value → String → ℕ
  number v key = unwrap_or (and_then (get v key) as_u64) 0

  abbrev only : String → Report C
  only line = (line ∷ [], none)

  unfoldable pub format_progress : Value → String
  format_progress ev =
      let kind = text_or C ev "type" "?" in
      let tool = text_or C ev "tool" "?" in
      if str_eq kind "tool_call"
      then "… tool " +++ tool
      else if str_eq kind "tool_result"
      then "… tool " +++ tool +++ " → " +++ (if flag ev "ok" then "ok" else "fail")
      else if str_eq kind "policy"
      then "… policy " +++ tool +++ "=" +++ text_or C ev "verdict" "?"
      else if str_eq kind "assistant_delta"
      then ""
      else if str_eq kind "assistant"
      then text_or C ev "text" ""
      else if str_eq kind "confirmation"
      then ""
      else if str_eq kind "completed"
      then ""
      else if str_eq kind "error"
      then "error: " +++ text_or C ev "message" "?"
      else "… " +++ kind

  -- The answer's error if it has one, or what it holds.
  abbrev reported :
      String → (ClientResponse C → Report C) → Result String (ClientResponse C) → Report C
  reported what f (err e) = only (what +++ " failed: " +++ e)
  reported what f (ok resp) = elim resp.error [
    | some e ↦ only (what +++ " error: " +++ e)
    | none ↦ f resp
  ]

  abbrev listed : {A : Type 0} → Option A → (A → Report C) → Report C
  listed none f = ([], none)
  listed (some a) f = f a

  abbrev audit_line : Value → String
  audit_line item =
      to_text (unwrap_or (get item "kind") null)
      +++ " corr="
      +++ to_text (unwrap_or (get item "correlation_id") null)

  unfoldable pub audit_report : Result String (ClientResponse C) → Report C
  audit_report r =
      reported "audit"
        (λ resp.
          listed resp.audit_tail (λ tail. ("--- audit tail ---" ∷ map audit_line tail, none)))
        r

  slot_bits : Value → String
  slot_bits s =
      text_or C s "name" "?"
      +++ "[bin="
      +++ yes_no (flag s "binary_present")
      +++ ",ok="
      +++ yes_no (flag s "boot_ok")
      +++ "]"

  ab_line : Value → String
  unfolding slot_bits
  ab_line ab =
      if flag ab "enabled"
      then "ab current="
        +++ text_or C ab "current" "?"
        +++ " "
        +++ join " " (map slot_bits (unwrap_or (and_then (get ab "slots") as_array) []))
      else "ab=disabled (no layout)"

  status_lines : Value → List String
  unfolding ab_line
  status_lines st =
      "--- runtime status ---"
      ∷ ("provider="
          +++ text_or C st "provider" "?"
          +++ " ("
          +++ text_or C st "provider_kind" "?"
          +++ ") uptime="
          +++ show_nat (number st "uptime_secs")
          +++ "s tools="
          +++ show_nat (number st "tool_count"))
      ∷ ("memory="
          +++ show_bool (flag st "memory_enabled")
          +++ " automation="
          +++ show_bool (flag st "automation")
          +++ " auto_diagnose="
          +++ show_bool (flag st "auto_diagnose")
          +++ " telemetry="
          +++ show_bool (flag st "telemetry")
          +++ " samples="
          +++ show_nat (number st "telemetry_samples")
          +++ " chat_sessions="
          +++ show_nat (number st "chat_sessions"))
      ∷ elim (get st "ab") [ none ↦ [] | some ab ↦ ab_line ab ∷ [] ]

  unfoldable pub status_report : Result String (ClientResponse C) → Report C
  unfolding status_lines
  status_report r =
      reported "status"
        (λ resp. listed resp.status (λ st. (
          status_lines st,
          some (
              "provider="
              +++ text_or C st "provider" "?"
              +++ " up="
              +++ show_nat (number st "uptime_secs")
              +++ "s"),
        )))
        r

  abbrev titled : String → List String → List String
  titled title [] = title ∷ "(empty)" ∷ []
  titled title (line ∷ lines) = title ∷ line ∷ lines

  unfoldable pub events_report : Result String (ClientResponse C) → Report C
  events_report r =
      reported "events"
        (λ resp. listed resp.events (λ events. (
          titled "--- events ---" (
              map (λ item. text_or C item "event" "?" +++ ": " +++ text_or C item "summary" "")
                events),
          none,
        )))
        r

  abbrev fact_line : Value → String
  fact_line item = text_or C item "key" "?" +++ " = " +++ text_or C item "value" "?"

  unfoldable pub memory_report : Result String (ClientResponse C) → Report C
  memory_report r =
      reported "memory"
        (λ resp.
          listed resp.memory_facts (λ facts. (titled "--- memory ---" (map fact_line facts), none)))
        r

  unfoldable pub recall_report : Result String (ClientResponse C) → Report C
  recall_report r =
      reported "recall"
        (λ resp.
          listed resp.memory_facts
            (λ facts. (if is_empty facts then "no matches" ∷ [] else map fact_line facts, none)))
        r

  unfoldable pub remember_report : String → String → Result String (ClientResponse C) → Report C
  remember_report key value r =
      reported "remember" (λ resp. only ("remembered " +++ key +++ "=" +++ value)) r

  unfoldable pub forget_report : String → Result String (ClientResponse C) → Report C
  forget_report key r = reported "forget" (λ resp. only ("forgot " +++ key)) r

  unfoldable pub grants_report : Result String (ClientResponse C) → Report C
  grants_report (err e) = only ("grants failed: " +++ e)
  grants_report (ok resp) =
      let grants = unwrap_or resp.session_grants [] in
      (
        ("session grants: " +++ (if is_empty grants then "(none)" else join ", " grants)) ∷ [],
        some ("grants=" +++ join "," grants),
      )

  unfoldable pub clear_report : Result String (ClientResponse C) → Report C
  clear_report (err e) = only ("clear grants failed: " +++ e)
  clear_report (ok resp) = ("session grants cleared" ∷ [], some "grants=")

  abbrev result_line : ConfirmScope → Option (ToolCallResult C) → String
  result_line scope none = "confirm scope=" +++ show_scope scope
  result_line scope (some result) =
      "tool "
      +++ result.tool
      +++ " scope="
      +++ show_scope scope
      +++ " ok="
      +++ show_bool result.ok
      +++ " output="
      +++ to_text result.output

  unfoldable pub confirm_report : ConfirmScope → Result String (ClientResponse C) → Report C
  confirm_report scope (err e) = only ("confirm failed: " +++ e)
  confirm_report scope (ok resp) = (
    elim resp.error [ some e ↦ "confirm error: " +++ e | none ↦ result_line scope resp.tool_result ]
        ∷ [],
    and_then resp.session_grants (λ grants. some ("ok | grants=" +++ join "," grants)),
  )
