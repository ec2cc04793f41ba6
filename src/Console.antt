-- ===== src/Console.antt =====
-- crates/console-tui/src/main.rs: the terminal console. The drawing is left out; what a key does is
-- here and in the modules below.
pub mod Shown
pub mod Stream
pub mod Keys
pub mod Offered
pub mod Pressed
use saaios.Prelude.{
  ℕ, String, Bool, Option, none, some, List, [], ◌∷◌, ◌++◌, length, unwrap_or, and_then,
}
use saaios.Crates.{Crates}
use saaios.Protocol.{DiagnoseResult, ToolCallResult, Result}
use saaios.Runtime.{PendingConfirmation}
use saaios.Service.{ClientRequest}

module _ (C : Crates) where
  open C use {Value, Uuid, get, as_str}

  -- The answer of the service as the console decodes it. `PendingDto` has the fields of the runtime's.
  pub record ClientResponse : Type 0 where
    pub correlation_id : Option Uuid
    pub session_id : Option Uuid
    pub diagnose : Option (DiagnoseResult C)
    pub pending : Option (PendingConfirmation C)
    pub error : Option String
    pub tool_result : Option (ToolCallResult C)
    pub audit_tail : Option (List Value)
    pub session_grants : Option (List String)
    pub memory_facts : Option (List Value)
    pub status : Option Value
    pub events : Option (List Value)

  -- The service behind its socket: the decoded answer to the n-th request, the text of a streamed one,
  -- and serde's `from_value` of a frame.
  pub record Socket : Type 0 where
    pub request : ℕ → ClientRequest C → Result String ClientResponse
    pub stream : ℕ → ClientRequest C → Result String String
    pub from_value : Value → Result String ClientResponse

  -- ... and the requests that have been sent.
  pub record App : Type 0 where
    pub input : String
    pub lines : List String
    pub pending : Option (Uuid × PendingConfirmation C)
    pub status : String
    pub last_correlation : Option Uuid
    pub chat_session : Option Uuid
    pub asked : List (ClientRequest C)

  -- `App::new`
  abbrev pub new : App
  new = record {
    input = "";
    lines =
        "SaaiOS Console 0.5" ∷ "Type a question and press Enter. Example: Почему система тормозит?"
        ∷ "Confirm: y=once, s=session, n=cancel | h=status | e=events | a=audit | m=memory | g=grants | c=clear | q=quit"
        ∷ "Chat: multi-turn session kept across prompts | /new resets | /remember key=value" ∷ [];
    pending = none;
    status = "disconnected";
    last_correlation = none;
    chat_session = none;
    asked = [];
  }

  -- Lines to be shown, and a new status if there is one.
  abbrev pub Report : Type 0
  Report = List String × Option String

  abbrev pub show : Report → App → App
  show (lines, status) app = record app {
    lines = app.lines ++ lines;
    status = unwrap_or status app.status;
  }

  abbrev pub sent : ClientRequest C → App → App
  sent request app = record app { asked = app.asked ++ request ∷ [] }

  -- A request whose answer is only shown.
  unfoldable pub asking :
      Socket → ClientRequest C → (Result String ClientResponse → Report) → App → App
  asking socket request report app =
      show (report (socket.request (length app.asked) request)) (sent request app)

  abbrev pub text_or : Value → String → String → String
  text_or v key other = unwrap_or (and_then (get v key) as_str) other
