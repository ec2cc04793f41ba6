-- ===== src/Provider/Mock.antt =====
-- `MockModelProvider` of crates/model-provider/src/lib.rs.
use saaios.Prelude.{
  String, Bool, true, ◌&&◌, ◌||◌, Option, none, some, List, [], ◌∷◌, if◌then◌else◌, contains, ◌+++◌,
  ◌≡◌, ◌++◌, append-nil, append_assoc, sym, ◌∙◌,
}
use saaios.Crates.{Crates}
use saaios.Conversation.{ChatMessage}
use saaios.Runtime.{ModelResponse, ToolDefinition}
use saaios.Runtime.Effects.{pure, modify, ◌>>=◌, ◌>>◌}
use saaios.Text.{split_inclusive}
use saaios.Provider.{M, World, ModelProvider, fresh, send_delta}

module _ (C : Crates) where
  open C use {Value, to_lowercase, obj, num}

  abbrev last_content : List ChatMessage → String
  last_content [] = ""
  last_content (m ∷ []) = to_lowercase m.content
  last_content (m ∷ n ∷ ms) = last_content (n ∷ ms)

  -- `join("\n")` of the contents
  abbrev joined : List ChatMessage → String
  joined [] = ""
  joined (m ∷ []) = to_lowercase m.content
  joined (m ∷ n ∷ ms) = to_lowercase m.content +++ "\n" +++ joined (n ∷ ms)

  abbrev text_only : String → ModelResponse C
  text_only text = record { assistant_text = some text; tool_calls = [] }

  unfoldable pub calling : Option String → String → Value → M C (ModelResponse C)
  calling text name arguments = do
    id ← fresh C
    pure (record {
      assistant_text = text;
      tool_calls = record { call_id = id; name = name; arguments = arguments } ∷ [];
    })

  abbrev asks_again : String → Bool
  asks_again last =
      contains last "pid"
      || contains last "какой"
      || contains last "who"
      || contains last "which"
      || contains last "имя"
      || contains last "name"

  abbrev culprit_text : String
  culprit_text =
      "Процесс runaway-worker (pid 4312) использует 88% CPU и активно читает диск. Остальные метрики указывают на перегрузку CPU."

  unfoldable pub answer : String → String → M C (ModelResponse C)
  unfolding calling
  answer last all =
      if contains last "tool_result:system.metrics"
      then calling none "process.list" (obj [])
      else if contains last "tool_result:process.list"
      then calling (some culprit_text) "process.kill_request" (obj (("pid", num 4312) ∷ []))
      else if contains all "runaway-worker" && asks_again last
      then pure (text_only "Ранее найденный виновник — runaway-worker, pid 4312.")
      else if contains last "тормоз" || contains last "slow" || contains last "cpu"
      then calling none "system.metrics" (obj [])
      else pure (text_only "Уточните, что проверить в системе.")

  unfoldable pub mock_complete : List ChatMessage → List (ToolDefinition C) → M C (ModelResponse C)
  unfolding answer
  mock_complete messages tools = answer (last_content messages) (joined messages)

  -- The pause between two words is left out.
  unfoldable pub send_words : List String → World C → World C
  send_words [] w = w
  send_words (word ∷ words) w = send_words words (send_delta C word w)

  unfoldable pub send_text : Bool → Option String → World C → World C
  unfolding send_words
  send_text true (some text) w = send_words (split_inclusive text) w
  send_text _ _ w = w

  unfoldable pub mock_progress :
      List ChatMessage → List (ToolDefinition C) → Bool → M C (ModelResponse C)
  unfolding send_text
  mock_progress messages tools progress = do
    resp ← mock_complete messages tools
    modify (send_text progress resp.assistant_text)
    pure resp

  abbrev pub mock_provider : ModelProvider C
  mock_provider = record {
    name = "mock";
    health_check = pure tt;
    complete = mock_complete;
    complete_with_progress = mock_progress;
  }

  pub send_words-deltas :
      (words : List String) (w : World C) → (send_words words w).deltas ≡ w.deltas ++ words
  unfolding send_words send_delta
  send_words-deltas [] w = sym (append-nil w.deltas)
  send_words-deltas (word ∷ words) w =
      send_words-deltas words (send_delta C word w) ∙ append_assoc w.deltas (word ∷ []) words
