-- ===== src/Crates.antt =====
-- What the program takes from crates that are not part of the repository, and from the machine:
-- serde_json's `Value`, uuid's `Uuid`, chrono's clock, `f64`, and the Unicode tables behind
-- `str::to_lowercase` and `str::trim`. Every module takes them as one parameter.
use saaios.Prelude.{
  ℕ, ◌<◌, ◌^◌, String, ◌≡◌, Bool, true, Option, none, some, List, [], ◌∷◌, str_eq, if◌then◌else◌,
}
use saaios.Prelude.Dict.{Key}

pub record Crates : Type 1 where
  -- serde_json::Value: the readers
  pub Value : Type 0
  pub get : Value → String → Option Value
  pub as_str : Value → Option String
  pub as_bool : Value → Option Bool
  pub as_u64 : Value → Option ℕ
  pub as_array : Value → Option (List Value)
  pub is_object : Value → Bool
  pub is_null : Value → Bool
  pub to_text : Value → String
  pub parse : String → Option Value
  -- `pointer`: the value at a path of members and of positions in arrays
  pub pointer : Value → List String → Option Value
  -- the values that `json!` and `to_value` build
  pub null : Value
  pub bool : Bool → Value
  pub num : ℕ → Value
  pub str : String → Value
  pub arr : List Value → Value
  pub obj : List (String × Value) → Value
  -- f64
  pub Float : Type 0
  pub as_f64 : Value → Option Float
  pub of_nat : ℕ → Float
  pub ge : Float → Float → Bool
  pub gt : Float → Float → Bool
  pub show_float : Float → String
  pub float : Float → Value
  pub add : Float → Float → Float
  pub sub : Float → Float → Float
  pub mul : Float → Float → Float
  pub div : Float → Float → Float
  pub max_float : Float → Float → Float
  pub round : Float → Float
  pub parse_f64 : String → Option Float
  -- uuid::Uuid; `new_v4 n` is the n-th identifier that the process draws
  pub Uuid : Type 0
  pub uuid_key : Key Uuid
  pub new_v4 : ℕ → Uuid
  pub show_uuid : Uuid → String
  pub is_nil : Uuid → Bool
  -- chrono; `utc_now n` is the n-th reading of the clock
  pub Time : Type 0
  pub utc_now : ℕ → Time
  -- `now.signed_duration_since(last) < Duration::seconds(secs as i64)`
  pub elapsed_lt : Time → Time → ℕ → Bool
  -- `a > b`, and `a.timestamp() == 0`
  pub later : Time → Time → Bool
  pub is_epoch : Time → Bool
  -- Display of an integer
  pub show_nat : ℕ → String
  -- str
  pub to_lowercase : String → String
  pub to_uppercase : String → String
  pub trim : String → String
  pub is_whitespace : ℕ → Bool
  pub from_utf8_lossy : List ℕ → String

-- The last of several members of one name is the one that an object keeps.
abbrev pub member : {V : Type 0} → List (String × V) → String → Option V
member [] k = none
member ((j, v) ∷ fields) k = elim (member fields k) [
  | some w ↦ some w
  | none ↦ if str_eq j k then some v else none
]

-- What serde_json documents of the values that it builds.
pub record IsJson (C : Crates) : Type 0 where
  pub get-obj :
      (fields : List (String × C.Value)) (k : String) → C.get (C.obj fields) k ≡ member fields k
  pub as_str-str : (s : String) → C.as_str (C.str s) ≡ some s
  pub as_bool-bool : (b : Bool) → C.as_bool (C.bool b) ≡ some b
  pub as_u64-num : (n : ℕ) → n < 2 ^ 64 → C.as_u64 (C.num n) ≡ some n
  pub is_object-obj : (fields : List (String × C.Value)) → C.is_object (C.obj fields) ≡ true
