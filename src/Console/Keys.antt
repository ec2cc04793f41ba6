-- ===== src/Console/Keys.antt =====
-- `run_loop` of crates/console-tui/src/main.rs: what a key that is pressed does.
use Prim.Native.Char.{Char, code}
use saaios.Prelude.{
  ℕ, String, ◌||◌, Option, none, some, List, [], ◌∷◌, if◌then◌else◌, ◌==◌, str_eq, one_of,
  starts_with, ◌+++◌, is_some,
}
use saaios.Crates.{Crates}
use saaios.Protocol.{ConfirmScope, once, session, cancel}
use saaios.Runtime.{PendingConfirmation}
use saaios.Service.{
  confirm, chat_reset, audit_tail, memory_tail, events_tail, memory_remember, memory_recall,
  memory_forget, status, session_grants, clear_session_grants,
}
use saaios.Text.{split_at, pop}
use saaios.Console.{Socket, App, show, sent, asking}
use saaios.Console.Shown.{
  audit_report, status_report, events_report, memory_report, recall_report, remember_report,
  forget_report, grants_report, clear_report, confirm_report,
}
use saaios.Console.Stream.{diagnosing}

-- `KeyCode`, of a key that is pressed.
pub data KeyCode : Type 0 where
  char : Char → KeyCode
  enter backspace other : KeyCode

module _ (C : Crates) (socket : Socket C) where
  open C use {Uuid, trim, is_whitespace}

  -- `confirm`: the confirmation that is taken from `pending`.
  unfoldable pub answering : ConfirmScope → Option (Uuid × PendingConfirmation C) → App C → App C
  answering scope none app = app
  answering scope (some (correlation_id, p)) app =
      asking C socket
        (confirm correlation_id p.call_id p.tool p.arguments scope none app.chat_session)
        (confirm_report C scope) (record app { pending = none })

  unfoldable pub reset_request : Option Uuid → App C → App C
  reset_request none app = app
  reset_request (some sid) app = sent C (chat_reset sid) app

  unfoldable pub new_chat : App C → App C
  unfolding reset_request
  new_chat app =
      let app' = reset_request app.chat_session app in
      show C ("chat session reset" ∷ [], some "session=new")
        (record app' { chat_session = none; pending = none })

  unfoldable pub remembering : Option (String × String) → App C → App C
  remembering none app = show C ("usage: /remember key=value" ∷ [], none) app
  remembering (some (key, value)) app =
      asking C socket (memory_remember (trim key) (trim value) [])
        (remember_report C (trim key) (trim value)) app

  unfoldable pub forgetting : String → App C → App C
  forgetting key app =
      if str_eq key ""
      then show C ("usage: /forget key" ∷ [], none) app
      else asking C socket (memory_forget key) (forget_report C key) app

  unfoldable pub command : String → String → App C → App C
  unfolding new_chat remembering forgetting split_at
  command cmd rest app =
      if one_of cmd ("/new" ∷ "/reset" ∷ [])
      then new_chat app
      else if str_eq cmd "/remember"
      then remembering (split_at (λ c. c == b'=') rest) app
      else if str_eq cmd "/recall"
      then asking C socket (memory_recall rest) (recall_report C) app
      else if str_eq cmd "/forget"
      then forgetting rest app
      else show C (("unknown command: " +++ cmd) ∷ [], none) app

  -- `splitn(2, char::is_whitespace)`
  unfoldable pub handle_slash : String → App C → App C
  unfolding command split_at
  handle_slash text app = elim (split_at is_whitespace text) [
    | none ↦ command text (trim "") app
    | some (cmd, rest) ↦ command cmd (trim rest) app
  ]

  unfoldable pub submit : String → App C → App C
  unfolding handle_slash
  submit text app =
      if starts_with text "/" then handle_slash text app else diagnosing C socket text app

  unfoldable pub entered : App C → App C
  unfolding submit
  entered app =
      let text = trim app.input in
      if str_eq text ""
      then app
      else submit text (show C (("> " +++ text) ∷ [], none) (record app { input = "" }))

  -- A character while a confirmation is waited for.
  unfoldable pub answer_key : ℕ → App C → App C
  unfolding answering
  answer_key c app =
      if c == b'y' || c == b'Y'
      then answering once app.pending app
      else if c == b's' || c == b'S'
      then answering session app.pending app
      else if c == b'n' || c == b'N'
      then answering cancel app.pending app
      else app

  unfoldable pub typed : Char → App C → App C
  typed c app = record app { input = app.input +++ String.◌∷◌ c "" }

  -- A character at the start of a line; `None` ends the program.
  unfoldable pub first_key : Char → App C → Option (App C)
  unfolding typed
  first_key c app =
      if code c == b'q'
      then none
      else some (
          if code c == b'a'
          then asking C socket (audit_tail 12) (audit_report C) app
          else if code c == b'h'
          then asking C socket status (status_report C) app
          else if code c == b'e'
          then asking C socket (events_tail 16) (events_report C) app
          else if code c == b'm'
          then asking C socket (memory_tail 20) (memory_report C) app
          else if code c == b'g'
          then asking C socket session_grants (grants_report C) app
          else if code c == b'c'
          then asking C socket clear_session_grants (clear_report C) app
          else typed c app)

  unfoldable pub press : KeyCode → App C → Option (App C)
  unfolding first_key answer_key entered typed pop
  press (char c) app =
      if is_some app.pending
      then some (answer_key (code c) app)
      else if str_eq app.input ""
      then first_key c app
      else some (typed c app)
  press enter app = some (if is_some app.pending then app else entered app)
  press backspace app = some (record app { input = pop app.input })
  press other app = some app

  -- The loop over the keys, up to the one that ends it.
  unfoldable pub run_loop : List KeyCode → App C → App C
  unfolding press
  run_loop [] app = app
  run_loop (key ∷ keys) app = elim (press key app) [ none ↦ app | some app' ↦ run_loop keys app' ]
