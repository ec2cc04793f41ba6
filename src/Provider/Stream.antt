-- ===== src/Provider/Stream.antt =====
-- `OpenAiCompatProvider::complete_with_progress` of crates/model-provider/src/lib.rs: an answer
-- that comes in chunks, as server-sent events.
use saaios.Prelude.{
  ℕ, suc, zero, ◌+◌, ◌-◌, String, Bool, true, false, Option, none, some, List, [], ◌∷◌, ◌++◌,
  if◌then◌else◌, ◌+++◌, and_then, unwrap_or, str_eq, length,
}
use saaios.Crates.{Crates}
use saaios.Protocol.{Result, ok, err}
use saaios.Conversation.{ChatMessage}
use saaios.Runtime.{ModelResponse, ProposedToolCall, ToolDefinition}
use saaios.Runtime.Effects.{pure, ◌>>=◌}
use saaios.Jsonl.{strip_cr}
use saaios.Text.{size, split_line, strip_prefix}
use saaios.Provider.{M, Servers, ModelProvider, fresh, request}
use saaios.Provider.Openai.{
  OpenAiCompatConfig, completion, arguments_of, openai_complete, openai_health,
}

-- What has been put together so far: the text, the name and the raw arguments of each tool call, and
-- the deltas sent.
pub record Assembly : Type 0 where
  pub assistant_text : String
  pub tool_acc : List (String × String)
  pub sent : List String

-- ... and the text behind the last line feed.
pub record Reader : Type 0 where
  pub line_buf : String
  pub assembly : Assembly

abbrev pub nothing : Assembly
nothing = record { assistant_text = ""; tool_acc = []; sent = [] }

-- `while tool_acc.len() <= idx { tool_acc.push(..) }`, by the number of pushes that are missing. The
-- memory is taken to be large enough: an index for which it is not ends the process, which is not
-- modelled.
unfoldable pub pad : ℕ → List (String × String) → List (String × String)
pad zero acc = acc
pad (suc n) acc = pad n (acc ++ ("", "") ∷ [])

-- `tool_acc[idx] = f(tool_acc[idx])`
unfoldable pub edit :
    ℕ → (String × String → String × String) → List (String × String) → List (String × String)
edit n f [] = []
edit zero f (x ∷ acc) = f x ∷ acc
edit (suc n) f (x ∷ acc) = x ∷ edit n f acc

abbrev pub named : Option String → String × String → String × String
named none e = e
named (some name) (old, args) = (if str_eq name "" then old else name, args)

abbrev pub extended : Option String → String × String → String × String
extended none e = e
extended (some more) (name, args) = (name, args +++ more)

module _ (C : Crates) where
  open C use {Value, get, as_str, as_u64, as_array, pointer, parse, trim, from_utf8_lossy, bool}

  abbrev pub text_at : Value → List String → Option String
  text_at v path = and_then (pointer v path) as_str

  unfoldable pub on_item : Value → List (String × String) → List (String × String)
  unfolding pad edit
  on_item item acc =
      let idx = unwrap_or (and_then (get item "index") as_u64) 0 in
      edit idx
        (λ e.
          extended (text_at item ("function" ∷ "arguments" ∷ []))
            (named (text_at item ("function" ∷ "name" ∷ [])) e))
        (pad (idx + 1 - length acc) acc)

  unfoldable pub on_items : List Value → List (String × String) → List (String × String)
  on_items [] acc = acc
  on_items (item ∷ items) acc = on_items items (on_item item acc)

  abbrev pub on_piece : Option String → Assembly → Assembly
  on_piece none a = a
  on_piece (some piece) a =
      if str_eq piece ""
      then a
      else record a { assistant_text = a.assistant_text +++ piece; sent = a.sent ++ piece ∷ [] }

  unfoldable pub on_delta : Value → Assembly → Assembly
  unfolding on_items
  on_delta delta a =
      let b = on_piece (and_then (get delta "content") as_str) a in
      record b {
        tool_acc = on_items (unwrap_or (and_then (get delta "tool_calls") as_array) []) b.tool_acc;
      }

  -- The JSON of a line: `None` where the source has `continue`.
  abbrev delta_of : String → Option Value
  delta_of line = and_then (strip_prefix (trim (strip_cr line)) "data:") λ rest.
      if str_eq (trim rest) "[DONE]"
      then none
      else and_then (parse (trim rest)) (λ v. pointer v ("choices" ∷ "0" ∷ "delta" ∷ []))

  unfoldable pub handled : Option Value → Assembly → Assembly
  handled none a = a
  handled (some delta) a = on_delta delta a

  unfoldable pub on_line : String → Assembly → Assembly
  unfolding strip_prefix strip_cr handled
  on_line line a = handled (delta_of line) a

  -- `while let Some(pos) = line_buf.find('\n')`, on fuel.
  unfoldable pub drain : ℕ → Reader → Reader
  drain zero r = r
  drain (suc n) r = elim (split_line r.line_buf) [
    | none ↦ r
    | some (line, rest) ↦ drain n (record { line_buf = rest; assembly = on_line line r.assembly })
  ]

  -- A chunk's text: the fuel is the number of characters in the buffer, and one more.
  unfoldable pub push_text : Reader → String → Reader
  unfolding drain
  push_text r text =
      let buf = r.line_buf +++ text in drain (suc (size buf)) (record r { line_buf = buf })

  unfoldable pub push_chunks :
      Reader → List (Result String (List ℕ)) → Result String Reader × Reader
  push_chunks r [] = (ok r, r)
  push_chunks r (err e ∷ chunks) = (err ("stream read: " +++ e), r)
  push_chunks r (ok bytes ∷ chunks) = push_chunks (push_text r (from_utf8_lossy bytes)) chunks

  -- Entries without a name are dropped.
  unfoldable pub collected : List (String × String) → M C (List (ProposedToolCall C))
  collected [] = pure []
  collected ((name, args_raw) ∷ acc) = elim (str_eq name "") [
    | true ↦ collected acc
    | false ↦ (do
      id ← fresh C
      rest ← collected acc
      pure (record { call_id = id; name = name; arguments = arguments_of C args_raw } ∷ rest))
  ]

  abbrev pub text_of : String → Option String
  text_of text = if str_eq text "" then none else some text

  -- The deltas of the chunks read so far are sent, whether or not the stream then breaks off.
  unfoldable pub read_stream : List (Result String (List ℕ)) → M C Reader
  unfolding push_chunks
  read_stream chunks w =
      let (x, r) = push_chunks (record { line_buf = ""; assembly = nothing }) chunks in
      (x, record w { deltas = w.deltas ++ r.assembly.sent })

  module _ (servers : Servers C) (config : OpenAiCompatConfig) where
    unfoldable pub openai_stream :
        List ChatMessage → List (ToolDefinition C) → M C (ModelResponse C)
    openai_stream messages tools = do
      reply ← request C servers (completion C config (("stream", bool true) ∷ []) messages tools)
      r ← read_stream reply.chunks
      calls ← collected r.assembly.tool_acc
      pure (record { assistant_text = text_of r.assembly.assistant_text; tool_calls = calls })

    unfoldable pub openai_progress :
        List ChatMessage → List (ToolDefinition C) → Bool → M C (ModelResponse C)
    openai_progress messages tools progress =
        if progress
        then openai_stream messages tools
        else openai_complete C servers config messages tools

    abbrev pub openai_provider : ModelProvider C
    openai_provider = record {
      name = config.label;
      health_check = openai_health C servers config;
      complete = openai_complete C servers config;
      complete_with_progress = openai_progress;
    }
