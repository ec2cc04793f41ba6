-- ===== src/Console/Stream.antt =====
-- `request_stream` and `diagnose` of crates/console-tui/src/main.rs.
use saaios.Prelude.{
  ℕ, String, Bool, true, false, Option, none, some, List, [], ◌∷◌, ◌++◌, if◌then◌else◌, str_eq,
  ◌+++◌, and_then, or_else, length,
}
use saaios.Crates.{Crates}
use saaios.Protocol.{DiagnoseResult, ProposedAction, Result, ok, err}
use saaios.Runtime.{PendingConfirmation}
use saaios.Service.{ClientRequest, diagnose}
use saaios.Jsonl.{lines_from}
use saaios.Text.{prefix, join}
use saaios.Console.{ClientResponse, Socket, App, show, sent}
use saaios.Console.Shown.{format_progress}

-- `lines.last() == Some(line)`
abbrev ends_in : String → List String → Bool
ends_in line [] = false
ends_in line (l ∷ []) = str_eq l line
ends_in line (l ∷ m ∷ ls) = ends_in line (m ∷ ls)

-- The lines that hold something.
abbrev pub nonempty : List String → List String
nonempty [] = []
nonempty (l ∷ ls) = if str_eq l "" then nonempty ls else l ∷ nonempty ls

module _ (C : Crates) where
  open C use {Value, Uuid, get, as_str, parse, trim, show_uuid}

  -- The last answer so far, and the lines of the progress.
  abbrev pub Frames : Type 0
  Frames = Option (ClientResponse C) × List String

  -- A frame is progress, an answer, or something unknown, which is passed over.
  pub data Kind : Type 0 where
    progress answer unknown : Kind

  kind_of : Option String → Kind
  kind_of none = answer
  kind_of (some kind) =
      if str_eq kind "progress" then progress else if str_eq kind "done" then answer else unknown

  abbrev progress_of : Value → List String
  progress_of value = elim (get value "event") [ none ↦ [] | some ev ↦ format_progress C ev ∷ [] ]

  answered : Frames → Result String (ClientResponse C) → Result String Frames
  answered f (err e) = err e
  answered (last, ls) (ok resp) = ok (some resp, ls)

  module _ (socket : Socket C) where
    framed : Kind → Value → Frames → Result String Frames
    unfolding answered
    framed progress value (last, ls) = ok (last, ls ++ progress_of value)
    framed answer value f = answered f (socket.from_value value)
    framed unknown value f = ok f

    on_line : String → Frames → Result String Frames
    unfolding framed kind_of
    on_line line f = if str_eq line "" then ok f else elim (parse line) [
      | none ↦ err ("parse stream line: " +++ line)
      | some value ↦ framed (kind_of (and_then (get value "type") as_str)) value f
    ]

    finished : Frames → Result String (ClientResponse C × List String)
    finished (none, ls) = err "stream ended without done frame"
    finished (some resp, ls) = ok (resp, ls)

    unfoldable pub read_frames :
        Frames → List String → Result String (ClientResponse C × List String)
    unfolding on_line finished
    read_frames f [] = finished f
    read_frames f (line ∷ rest) = elim (on_line (trim line) f) [
      | ok f' ↦ read_frames f' rest
      | err e ↦ err e
    ]

    read_text : Result String String → Result String (ClientResponse C × List String)
    unfolding lines_from read_frames
    read_text (err e) = err e
    read_text (ok text) = read_frames (none, []) (lines_from "" text)

    -- The whole text of the answer is read first.
    unfoldable pub request_stream :
        ℕ → ClientRequest C → Result String (ClientResponse C × List String)
    unfolding read_text
    request_stream n request = read_text (socket.stream n request)

  abbrev action_lines : Option (ProposedAction C) → List String
  action_lines none = []
  action_lines (some action) = ("Предлагаемое действие: " +++ action.summary) ∷ []

  -- A summary that was shown as progress is not repeated.
  diagnose_lines : Option (DiagnoseResult C) → List String → List String
  diagnose_lines none lines = lines
  diagnose_lines (some d) lines =
      lines
      ++ ((if ends_in d.summary lines then [] else d.summary ∷ [])
          ++ action_lines d.proposed_action)

  abbrev pub asked_back :
      Option Uuid → Option (PendingConfirmation C) → Option (Uuid × PendingConfirmation C)
  asked_back (some corr) (some pending) = some (corr, pending)
  asked_back _ _ = none

  abbrev confirm_lines : Option (Uuid × PendingConfirmation C) → List String
  confirm_lines none = []
  confirm_lines (some (corr, pending)) =
      ("[Confirm] " +++ pending.summary +++ "  y=once / s=session / n=cancel") ∷ []

  abbrev session_shown : Option Uuid → String
  session_shown none = "-"
  session_shown (some sid) = prefix 8 (show_uuid sid)

  abbrev status_with : String → Option (List String) → String
  status_with sid none = "ok | session=" +++ sid
  status_with sid (some grants) = "ok | session=" +++ sid +++ " | grants=" +++ join "," grants

  -- An answer that is not an error.
  unfoldable pub accepted : ClientResponse C → App C → App C
  unfolding diagnose_lines
  accepted resp app =
      let chat_session = or_else resp.session_id app.chat_session in
      let back = asked_back resp.correlation_id resp.pending in
      record app {
        chat_session = chat_session;
        last_correlation = or_else resp.correlation_id app.last_correlation;
        lines = diagnose_lines resp.diagnose app.lines ++ confirm_lines back;
        pending = or_else back app.pending;
        status = status_with (session_shown chat_session) resp.session_grants;
      }

  unfoldable pub received : Result String (ClientResponse C × List String) → App C → App C
  unfolding accepted
  received (err e) app = show C (("request failed: " +++ e) ∷ [], none) app
  received (ok (resp, ls)) app =
      let app' = show C (nonempty ls, none) app in
      elim resp.error [
        | some e ↦ show C (("error: " +++ e) ∷ [], none) app'
        | none ↦ accepted resp app'
      ]

  unfoldable pub diagnosing : Socket C → String → App C → App C
  unfolding received
  diagnosing socket text app =
      let request = diagnose text app.chat_session true in
      received (request_stream socket (length app.asked) request) (sent C request app)
