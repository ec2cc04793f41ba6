-- ===== src/Memory/Tools.antt =====
-- The three tools of crates/memory-store/src/lib.rs. The machine that they act on is the store.
use saaios.Prelude.{
  ℕ, suc, String, true, false, Option, none, some, List, [], ◌∷◌, map, and_then, unwrap_or, is_some,
  length,
}
use saaios.Crates.{Crates}
use saaios.Protocol.{Result, ok, err}
use saaios.Jsonl.{Codec}
use saaios.Registry.{
  RiskLevel, low, medium, ToolSpec, ToolContext, ToolOutput, ToolError, invalid_args, execution,
  ToolExecutor, ToolRegistry, register,
}
use saaios.Memory.{MemoryFact, MemoryStore, fact, remember, recall, forget}

module _ (C : Crates) where
  open C use {Value, get, as_str, as_array, obj, arr, str, bool, num}

  abbrev pub text_at : Value → String → Option String
  text_at args field = and_then (get args field) as_str

  -- `filter_map(|t| t.as_str())`
  abbrev texts : List Value → List String
  texts [] = []
  texts (v ∷ vs) = elim (as_str v) [ none ↦ texts vs | some s ↦ s ∷ texts vs ]

  abbrev pub tags_at : Value → List String
  tags_at args = elim (and_then (get args "tags") as_array) [ none ↦ [] | some vs ↦ texts vs ]

  abbrev pub done : Value → ToolOutput C
  done v = record { ok = true; value = v; error = none }

  abbrev field_type : String → Value
  field_type t = obj (("type", str t) ∷ [])

  abbrev schema : List (String × Value) → List String → Value
  schema fields required = obj (
      ("type", str "object")
      ∷ ("properties", obj fields)
      ∷ ("required", arr (map str required))
      ∷ [])

  abbrev spec_of : String → String → RiskLevel → Value → ToolSpec C
  spec_of name description risk input = record {
    name = name;
    description = description;
    risk = risk;
    timeout_ms = 1000;
    input_schema = input;
    output_schema = field_type "object";
    requires_confirmation = false;
  }

  -- With serde's value of a fact.
  module _ (codec : Codec (MemoryFact C)) (fact_value : MemoryFact C → Value) where
    abbrev pub Run : Type 0
    Run = Result ToolError (ToolOutput C) × MemoryStore C

    -- `.map_err(|e| ToolError::Execution(e.to_string()))?`, then the output.
    abbrev pub finished : {A : Type 0} → Result String A × MemoryStore C → (A → Value) → Run
    finished (ok a, s) out = (ok (done (out a)), s)
    finished (err e, s) out = (err (execution e), s)

    -- The fact of the tool, whose identifier and time are the next to be drawn.
    abbrev pub tool_fact : ℕ → String → String → List String → MemoryFact C
    tool_fact n key value tags = record (fact C n key value) { tags = tags; source = some "tool" }

    unfoldable pub remember_run : Value → ToolContext C → MemoryStore C → Run
    remember_run args ctx s = elim (text_at args "key") [
      | none ↦ (err (invalid_args "key required"), s)
      | some key ↦ elim (text_at args "value") [
        | none ↦ (err (invalid_args "value required"), s)
        | some value ↦
            finished
              (remember C codec (record s { drawn = suc s.drawn })
                (tool_fact s.drawn key value (tags_at args)))
              fact_value
      ]
    ]

    unfoldable pub recall_run : Value → ToolContext C → MemoryStore C → Run
    recall_run args ctx s =
        finished (recall C codec s (unwrap_or (text_at args "query") ""), s)
          (λ facts.
            obj (("facts", arr (map fact_value facts)) ∷ ("count", num (length facts)) ∷ []))

    unfoldable pub forget_run : Value → ToolContext C → MemoryStore C → Run
    forget_run args ctx s = elim (text_at args "key") [
      | none ↦ (err (invalid_args "key required"), s)
      | some key ↦
          finished (forget C codec s key)
            (λ tomb. obj (("forgotten", bool (is_some tomb)) ∷ ("key", str key) ∷ []))
    ]

    abbrev pub remember_tool : ToolExecutor C (MemoryStore C)
    remember_tool = record {
      spec = spec_of "memory.remember" "Store a durable fact (key/value) in local memory" low (
          schema
            (("key", field_type "string")
              ∷ ("value", field_type "string")
              ∷ ("tags", obj (("type", str "array") ∷ ("items", field_type "string") ∷ []))
              ∷ [])
            ("key" ∷ "value" ∷ []));
      run = remember_run;
    }

    abbrev pub recall_tool : ToolExecutor C (MemoryStore C)
    recall_tool = record {
      spec =
          spec_of "memory.recall" "Search local memory facts by substring query" low
            (schema (("query", field_type "string") ∷ []) ("query" ∷ []));
      run = recall_run;
    }

    abbrev pub forget_tool : ToolExecutor C (MemoryStore C)
    forget_tool = record {
      spec =
          spec_of "memory.forget" "Soft-delete a memory fact by key" medium
            (schema (("key", field_type "string") ∷ []) ("key" ∷ []));
      run = forget_run;
    }

    unfoldable pub install_memory_tools :
        ToolRegistry C (MemoryStore C) → ToolRegistry C (MemoryStore C)
    install_memory_tools reg =
        register C (MemoryStore C)
          (register C (MemoryStore C) (register C (MemoryStore C) reg remember_tool) recall_tool)
          forget_tool
