-- ===== src/Provider/Openai.antt =====
-- `OpenAiCompatProvider` of crates/model-provider/src/lib.rs without streaming.
use saaios.Prelude.{
  String, ◌||◌, Option, none, some, List, [], ◌∷◌, ◌++◌, map, if◌then◌else◌, contains, ◌+++◌,
  and_then, unwrap_or, str_eq,
}
use saaios.Crates.{Crates}
use saaios.Protocol.{Result, ok, err}
use saaios.Conversation.{ChatMessage}
use saaios.Runtime.{ModelResponse, ProposedToolCall, ToolDefinition}
use saaios.Runtime.Effects.{pure, lift, ◌>>=◌}
use saaios.Text.{trim_end_matches}
use saaios.Provider.{M, Request, Servers, fresh, request}

pub record OpenAiCompatConfig : Type 0 where
  pub api_base : String
  pub api_key : String
  pub model : String
  pub label : String

abbrev pub remote : String → String → String → OpenAiCompatConfig
remote api_base api_key model = record {
  api_base = api_base;
  api_key = api_key;
  model = model;
  label = "remote";
}

abbrev pub ollama : String → String → OpenAiCompatConfig
ollama api_base model = record {
  api_base = api_base;
  api_key = "ollama";
  model = model;
  label = "local-ollama";
}

-- `bearer_auth`, for a key that is not empty.
abbrev pub auth : OpenAiCompatConfig → Option String
auth config = if str_eq config.api_key "" then none else some config.api_key

module _ (C : Crates) where
  open C use {Value, get, as_str, as_array, pointer, parse, str, arr, obj, bool}

  abbrev message_value : ChatMessage → Value
  message_value m = obj (("role", str m.role) ∷ ("content", str m.content) ∷ [])

  abbrev tool_value : ToolDefinition C → Value
  tool_value t = obj (
      ("type", str "function")
      ∷ (
        "function",
        obj (
            ("name", str t.name)
            ∷ ("description", str t.description)
            ∷ ("parameters", t.parameters)
            ∷ []),
      )
      ∷ [])

  -- The members of the body that both forms of a completion share.
  abbrev body_fields :
      OpenAiCompatConfig → List ChatMessage → List (ToolDefinition C) → List (String × Value)
  body_fields config messages tools =
      ("model", str config.model)
      ∷ ("messages", arr (map message_value messages))
      ∷ ("tools", arr (map tool_value tools))
      ∷ ("tool_choice", str "auto")
      ∷ []

  unfoldable pub completion :
      OpenAiCompatConfig
      → List (String × Value)
      → List ChatMessage
      → List (ToolDefinition C)
      → Request C
  unfolding trim_end_matches
  completion config more messages tools = record {
    url = trim_end_matches config.api_base "/" +++ "/chat/completions";
    bearer = auth config;
    body = some (obj (body_fields config messages tools ++ more));
  }

  -- `serde_json::from_str(args_raw).unwrap_or(json!({}))`
  abbrev pub arguments_of : String → Value
  arguments_of args_raw = unwrap_or (parse args_raw) (obj [])

  abbrev text_at : Value → List String → Option String
  text_at v path = and_then (pointer v path) as_str

  -- The loop over `tool_calls`: every item is a call, also one without a name.
  unfoldable pub proposed : List Value → M C (List (ProposedToolCall C))
  proposed [] = pure []
  proposed (item ∷ items) = do
    id ← fresh C
    rest ← proposed items
    pure (
        record {
          call_id = id;
          name = unwrap_or (text_at item ("function" ∷ "name" ∷ [])) "";
          arguments = arguments_of (unwrap_or (text_at item ("function" ∷ "arguments" ∷ [])) "{}");
        }
        ∷ rest)

  message_of : Option Value → Result String Value
  message_of none = err "missing message in provider response"
  message_of (some message) = ok message

  module _ (servers : Servers C) (config : OpenAiCompatConfig) where
    unfoldable pub openai_complete :
        List ChatMessage → List (ToolDefinition C) → M C (ModelResponse C)
    unfolding message_of
    openai_complete messages tools = do
      reply ← request C servers (completion config [] messages tools)
      value ← lift reply.json
      message ← lift (message_of (pointer value ("choices" ∷ "0" ∷ "message" ∷ [])))
      calls ← proposed (unwrap_or (and_then (get message "tool_calls") as_array) [])
      pure (record { assistant_text = and_then (get message "content") as_str; tool_calls = calls })

    -- Ollama's own address for its health, and the list of models for any other server.
    unfoldable pub openai_health : M C (Unit {0})
    unfolding trim_end_matches
    openai_health =
        if contains config.label "ollama" || contains config.api_base "11434"
        then (do
          reply ← request C servers (record {
            url = trim_end_matches (trim_end_matches config.api_base "/") "/v1" +++ "/api/tags";
            bearer = none;
            body = none;
          })
          value ← lift reply.json
          pure tt)
        else (do
          reply ← request C servers (record {
            url = trim_end_matches config.api_base "/" +++ "/models";
            bearer = auth config;
            body = none;
          })
          pure tt)
