-- ===== src/Provider.antt =====
-- crates/model-provider/src/lib.rs: what a provider of the model is, and what all of them share.
pub mod Mock
pub mod Openai
pub mod Stream
pub mod Chain
pub mod Chunks
pub mod Fragments
pub mod Deltas
pub mod Stale
pub mod Answers
use saaios.Prelude.{
  ℕ, suc, String, Bool, Option, none, some, List, [], ◌∷◌, ◌++◌, if◌then◌else◌, one_of, str_eq,
}
use saaios.Crates.{Crates}
use saaios.Protocol.{Result, ok, err}
use saaios.Conversation.{ChatMessage}
use saaios.Runtime.{ModelResponse, ToolDefinition}
use saaios.Runtime.Effects.{Action, pure, modify, ◌>>=◌, ◌>>◌}

pub data ProviderKind : Type 0 where
  mock remote local auto : ProviderKind

module _ (C : Crates) where
  open C use {Value, Uuid, trim, to_lowercase, new_v4}

  parse_lower : String → Option ProviderKind
  parse_lower s =
      if str_eq s "mock"
      then some mock
      else if str_eq s "remote"
      then some remote
      else if one_of s ("local" ∷ "ollama" ∷ [])
      then some local
      else if str_eq s "auto"
      then some auto
      else none

  unfoldable pub parse : String → Option ProviderKind
  unfolding parse_lower
  parse s = parse_lower (to_lowercase (trim s))

  -- A request to a server, as reqwest's builder has it: a body makes it a POST.
  pub record Request : Type 0 where
    pub url : String
    pub bearer : Option String
    pub body : Option Value

  -- What the server sends: its body as JSON, and as the chunks of a stream.
  pub record Reply : Type 0 where
    pub json : Result String Value
    pub chunks : List (Result String (List ℕ))

  -- The servers: the answer to the n-th request, after `error_for_status`.
  abbrev pub Servers : Type 0
  Servers = ℕ → Request → Result String Reply

  -- What the providers share: how often identifiers were drawn, how many requests were sent, and the
  -- texts sent on the channel for deltas.
  pub record World : Type 0 where
    pub drawn : ℕ
    pub asked : ℕ
    pub deltas : List String

  abbrev pub M : Type 0 → Type 0
  M A = Action World A

  -- The trait. `progress` says whether there is a channel for deltas.
  pub record ModelProvider : Type 0 where
    pub name : String
    pub health_check : M (Unit {0})
    pub complete : List ChatMessage → List (ToolDefinition C) → M (ModelResponse C)
    pub complete_with_progress :
        List ChatMessage → List (ToolDefinition C) → Bool → M (ModelResponse C)

  -- `tx.send(text)`, whose error is ignored.
  unfoldable pub send_delta : String → World → World
  send_delta text w = record w { deltas = w.deltas ++ text ∷ [] }

  -- `Uuid::new_v4()`
  unfoldable pub fresh : M Uuid
  fresh w = (ok (new_v4 w.drawn), record w { drawn = suc w.drawn })

  -- `req.send().await?.error_for_status()?`
  unfoldable pub request : Servers → Request → M Reply
  request servers r w = (servers w.asked r, record w { asked = suc w.asked })
