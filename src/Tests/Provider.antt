-- ===== src/Tests/Provider.antt =====
-- The providers of crates/model-provider/src/lib.rs, and streams of a few lines.
use saaios.Prelude.{
  ℕ, String, true, false, ◌≡◌, refl, none, some, List, [], ◌∷◌, ◌+++◌, map, str_eq, if◌then◌else◌,
  ◌++◌,
}
use saaios.Crates.{Crates}
use saaios.Protocol.{ok, err}
use saaios.Samples.Json.{json}
use saaios.Text.{split_line, concat}
use saaios.Provider.{ModelProvider, World, Servers, ProviderKind, auto, local}
use saaios.Provider.Openai.{ollama}
use saaios.Provider.Stream.{
  Reader, nothing, push_text, push_chunks, read_stream, on_items, openai_provider,
}
use saaios.Provider.Chain.{build_provider, fallback, chain}
use saaios.Provider.Chunks.{read_stream-cuts, push_text-drained}
use saaios.Provider.Answers.{AlwaysAnswers, build_provider-auto}
use saaios.Provider.Stale.{Ending, build_provider-IsEnding}
use saaios.Provider.Fragments.{entry, fragments, on_items-arguments}

abbrev delta : json.Value → json.Value
delta d = json.obj (("choices", json.arr (json.obj (("delta", d) ∷ []) ∷ [])) ∷ [])

-- A JSON in which "a" says "hi", and "b" adds an exclamation mark.
abbrev sse : Crates
sse = record json {
  parse = λ s.
      if str_eq s "a"
      then some (delta (json.obj (("content", json.str "hi") ∷ [])))
      else if str_eq s "b"
      then some (delta (json.obj (("content", json.str "!") ∷ [])))
      else none;
}

abbrev unused : World sse
unused = record { drawn = 0; asked = 0; deltas = [] }

-- "data:a", a line feed, "data:b", and a line feed
abbrev whole : List (List ℕ)
whole = (100 ∷ 97 ∷ 116 ∷ 97 ∷ 58 ∷ 97 ∷ 10 ∷ 100 ∷ 97 ∷ 116 ∷ 97 ∷ 58 ∷ 98 ∷ 10 ∷ []) ∷ []

abbrev cut : List (List ℕ)
cut =
    (100 ∷ 97 ∷ 116 ∷ [])
    ∷ (97 ∷ 58 ∷ 97 ∷ 10 ∷ 100 ∷ 97 ∷ 116 ∷ 97 ∷ 58 ∷ [])
    ∷ (98 ∷ 10 ∷ [])
    ∷ []

read_stream-cuts_example :
    read_stream sse (map ok whole) unused ≡ read_stream sse (map ok cut) unused
read_stream-cuts_example = read_stream-cuts sse whole cut unused refl

push_text-drained_example :
    split_line
      (push_text sse (record { line_buf = "data:"; assembly = nothing }) "a\nrest").line_buf
    ≡ none
push_text-drained_example =
    push_text-drained sse (record { line_buf = "data:"; assembly = nothing }) "a\nrest"

-- No server can be reached.
abbrev down : Servers sse
down n r = err "connection refused"

build_provider-auto_example :
    AlwaysAnswers sse (build_provider sse down auto none none none none none) unused
build_provider-auto_example = build_provider-auto sse down none none none none none unused

built_without_health : build_provider sse down local none none none none none unused ≡ (
  ok (openai_provider sse down (ollama "http://127.0.0.1:11434/v1" "llama3.2")),
  record unused { asked = 1 },
)
unfolding build_provider saaios.Runtime.Effects.◌>>=◌ saaios.Runtime.Effects.pure
    saaios.Provider.Chain.succeeds saaios.Provider.Openai.openai_health saaios.Provider.request
built_without_health = refl

-- Building the provider of `auto` asks for the health of the local server, which cannot be reached.
abbrev of_auto : ModelProvider sse
of_auto = fallback sse (
    chain sse down false (openai_provider sse down (ollama "http://127.0.0.1:11434/v1" "llama3.2"))
      none none "gpt-4o-mini")

built_auto :
    build_provider sse down auto none none none none none unused
    ≡ (ok of_auto, record unused { asked = 1 })
unfolding build_provider saaios.Runtime.Effects.◌>>=◌ saaios.Runtime.Effects.pure
    saaios.Provider.Chain.succeeds saaios.Provider.Openai.openai_health saaios.Provider.request
built_auto = refl

build_provider-IsEnding_example : Ending sse down auto none none none none none unused of_auto
build_provider-IsEnding_example =
    build_provider-IsEnding sse down auto none none none none none unused
      (record unused { asked = 1 }) of_auto built_auto

abbrev fragment : ℕ → String → sse.Value
fragment n text =
    sse.obj (("index", sse.num n) ∷ ("function", sse.obj (("arguments", sse.str text) ∷ [])) ∷ [])

abbrev alternating : List sse.Value
alternating = fragment 0 "{" ∷ fragment 1 "x" ∷ fragment 0 "}" ∷ []

on_items-arguments_example :
    (entry (on_items sse alternating []) 0).1
    ≡ (entry [] 0).1 +++ concat (fragments sse 0 alternating)
on_items-arguments_example = on_items-arguments sse alternating [] 0

alternating_runs : on_items sse alternating [] ≡ ("", "{}") ∷ ("", "x") ∷ []
unfolding on_items saaios.Provider.Stream.on_item saaios.Provider.Stream.pad
    saaios.Provider.Stream.edit
alternating_runs = refl

-- A local server that is healthy, and breaks off in the middle of its answer.
abbrev breaks_off : Servers sse
breaks_off n r = ok (record { json = ok sse.null; chunks = map ok whole ++ err "reset" ∷ [] })

-- The pieces of the server that failed stay on the channel, before the answer of the mock.
stale_run :
    (fallback sse (
        chain sse breaks_off true
          (openai_provider sse breaks_off (ollama "http://127.0.0.1:11434/v1" "llama3.2"))
          none
          none
          "m")).complete_with_progress
      [] [] true unused
    ≡ (
      ok (record { assistant_text = some "Уточните, что проверить в системе."; tool_calls = [] }),
      record {
        drawn = 0;
        asked = 1;
        deltas = "hi" ∷ "!" ∷ "Уточните, " ∷ "что " ∷ "проверить " ∷ "в " ∷ "системе." ∷ [];
      },
    )
unfolding saaios.Provider.Chain.first_ok saaios.Provider.Stream.openai_progress
    saaios.Provider.Stream.openai_stream saaios.Runtime.Effects.◌>>=◌ saaios.Runtime.Effects.pure
    saaios.Runtime.Effects.modify saaios.Provider.request read_stream push_chunks push_text
    saaios.Provider.Stream.drain saaios.Provider.Stream.on_line saaios.Provider.Stream.on_delta
    saaios.Provider.Stream.handled on_items split_line saaios.Jsonl.strip_cr
    saaios.Text.strip_prefix saaios.Provider.Mock.mock_progress saaios.Provider.Mock.mock_complete
    saaios.Provider.Mock.answer saaios.Provider.Mock.send_text saaios.Provider.Mock.send_words
    saaios.Provider.send_delta saaios.Text.split_inclusive saaios.Text.pieces_from
stale_run = refl
