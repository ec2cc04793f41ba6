-- ===== src/Registry.antt =====
-- crates/tool-registry/src/lib.rs: typed tools under their names.
pub mod Keyed
use saaios.Prelude.{
  ℕ, String, Bool, true, false, not, ◌&&◌, Option, none, some, List, [], ◌∷◌, map, str_eq, eq_iff,
  if◌then◌else◌, ◌≡◌,
}
use saaios.Prelude.Dict
use saaios.Prelude.Dict.{Key}
use saaios.Crates.{Crates}
use saaios.Protocol.{Result, ok, err}

pub data RiskLevel : Type 0 where
  low medium high critical : RiskLevel

pub data ToolError : Type 0 where
  unknown invalid_args execution : String → ToolError

module _ (C : Crates) where
  open C use {Value, Uuid, is_object, is_null}

  pub record ToolSpec : Type 0 where
    pub name : String
    pub description : String
    pub risk : RiskLevel
    pub timeout_ms : ℕ
    pub input_schema : Value
    pub output_schema : Value
    pub requires_confirmation : Bool

  pub record ToolContext : Type 0 where
    pub correlation_id : Uuid
    pub call_id : Uuid

  pub record ToolOutput : Type 0 where
    pub ok : Bool
    pub value : Value
    pub error : Option String

  module _ (S : Type 0) where
    -- The trait `ToolExecutor`: a specification, and a run that may change the machine's state.
    pub record ToolExecutor : Type 0 where
      pub spec : ToolSpec
      pub run : Value → ToolContext → S → Result ToolError ToolOutput × S

    pub record ToolRegistry : Type 0 where
      pub tools : List (String × ToolExecutor)

-- The keys of a `HashMap<String, _>`.
abbrev pub string_key : Key String
string_key = record { same = str_eq; same_iff = eq_iff }

module _ (C : Crates) (S : Type 0) where
  open C use {Value, is_object, is_null}

  unfoldable pub register : ToolRegistry C S → ToolExecutor C S → ToolRegistry C S
  register reg tool = record { tools = Dict.insert string_key tool.spec.name tool reg.tools }

  unfoldable pub get : ToolRegistry C S → String → Option (ToolExecutor C S)
  get reg name = Dict.lookup string_key name reg.tools

  unfoldable pub list : ToolRegistry C S → List (ToolSpec C)
  list reg = map (λ e. e.1.spec) reg.tools

  unfoldable pub run_checked :
      ToolExecutor C S → Value → ToolContext C → S → Result ToolError (ToolOutput C) × S
  run_checked tool args ctx s =
      if not (is_object args) && not (is_null args)
      then (err (invalid_args "arguments must be object or null"), s)
      else tool.run args ctx s

  unfoldable pub execute :
      ToolRegistry C S → String → Value → ToolContext C → S → Result ToolError (ToolOutput C) × S
  unfolding run_checked
  execute reg name args ctx s = elim (get reg name) [
    | none ↦ (err (unknown name), s)
    | some tool ↦ run_checked tool args ctx s
  ]
