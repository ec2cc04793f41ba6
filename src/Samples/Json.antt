-- ===== src/Samples/Json.antt =====
-- A small JSON of trees, with the other crates as numbers.
use Prim.Native.Char.{Char, char, IsScalar}
use saaios.Prelude.{
  ℕ, suc, String, Bool, true, false, ◌≡◌, refl, Option, none, some, List, [], ◌∷◌, ◌==◌, ltb, leb,
  str_eq, if◌then◌else◌, arith, ◌+++◌, ◌+◌, ◌-◌, ◌*◌, ◌/◌, ◌%◌, max, and_then,
}
use saaios.Prelude.Dict.{nat_key}
use saaios.Crates.{Crates, IsJson, member}

-- An array or an object is its first element or member, and the rest of it.
pub data Tree : Type 0 where
  null : Tree
  bool : Bool → Tree
  num : ℕ → Tree
  str : String → Tree
  no_items no_members : Tree
  item : Tree → Tree → Tree
  entry : String → Tree → Tree → Tree

abbrev get : Tree → String → Option Tree
get (entry j v rest) k = elim (get rest k) [
  | some w ↦ some w
  | none ↦ if str_eq j k then some v else none
]
get _ k = none

abbrev obj : List (String × Tree) → Tree
obj [] = no_members
obj ((j, v) ∷ fields) = entry j v (obj fields)

abbrev arr : List Tree → Tree
arr [] = no_items
arr (v ∷ vs) = item v (arr vs)

abbrev as_str : Tree → Option String
as_str (str s) = some s
as_str _ = none

abbrev as_bool : Tree → Option Bool
as_bool (bool b) = some b
as_bool _ = none

abbrev as_num : Tree → Option ℕ
as_num (num n) = some n
as_num _ = none

abbrev as_array : Tree → Option (List Tree)
as_array no_items = some []
as_array (item v rest) = and_then (as_array rest) (λ vs. some (v ∷ vs))
as_array _ = none

abbrev is_object : Tree → Bool
is_object no_members = true
is_object (entry j v rest) = true
is_object _ = false

abbrev is_null : Tree → Bool
is_null null = true
is_null _ = false

-- One step into a value: a member, or the first item.
abbrev inside : Tree → String → Option Tree
inside (item v rest) k = if str_eq k "0" then some v else none
inside v k = get v k

abbrev pointer : Tree → List String → Option Tree
pointer v [] = some v
pointer v (k ∷ ks) = and_then (inside v k) (λ w. pointer w ks)

-- The texts in the value, one after another.
abbrev to_text : Tree → String
to_text (str s) = s
to_text (item v rest) = to_text v +++ to_text rest
to_text (entry j v rest) = j +++ to_text v +++ to_text rest
to_text _ = ""

-- ASCII decoding; any other byte becomes the replacement character.
pub ascii-IsScalar : (n : ℕ) → IsScalar (n % 128)
ascii-IsScalar n = ground arith

abbrev of_bytes : List ℕ → String
of_bytes [] = ""
of_bytes (b ∷ bytes) =
    let c : Char = if ltb b 128 then char (b % 128) (ascii-IsScalar b) else char 65533 tt in
    String.◌∷◌ c (of_bytes bytes)

abbrev pub json : Crates
json = record {
  Value = Tree;
  get = get;
  as_str = as_str;
  as_bool = as_bool;
  as_u64 = as_num;
  as_array = as_array;
  is_object = is_object;
  is_null = is_null;
  to_text = to_text;
  parse = λ s. none;
  pointer = pointer;
  null = null;
  bool = bool;
  num = num;
  str = str;
  arr = arr;
  obj = obj;
  Float = ℕ;
  as_f64 = as_num;
  of_nat = λ n. n;
  ge = λ a b. leb b a;
  gt = λ a b. ltb b a;
  show_float = λ n. "x";
  float = num;
  add = ◌+◌;
  sub = ◌-◌;
  mul = ◌*◌;
  div = ◌/◌;
  max_float = max;
  round = λ n. n;
  parse_f64 = λ s. none;
  Uuid = ℕ;
  uuid_key = nat_key;
  new_v4 = suc;
  show_uuid = λ n. "id";
  is_nil = λ n. n == 0;
  Time = ℕ;
  utc_now = λ n. 100 + n;
  elapsed_lt = λ now last secs. ltb now (last + secs);
  later = λ a b. ltb b a;
  is_epoch = λ n. n == 0;
  show_nat = λ n. "n";
  to_lowercase = λ s. s;
  to_uppercase = λ s. s;
  trim = λ s. s;
  is_whitespace = λ c. c == b' ';
  from_utf8_lossy = of_bytes;
}

get-obj : (fields : List (String × Tree)) (k : String) → get (obj fields) k ≡ member fields k
get-obj [] k = refl
get-obj ((j, v) ∷ fields) k = rw (get-obj fields k) refl

is_object-obj : (fields : List (String × Tree)) → is_object (obj fields) ≡ true
is_object-obj [] = refl
is_object-obj ((j, v) ∷ fields) = refl

pub json-IsJson : IsJson json
json-IsJson = record {
  get-obj = get-obj;
  as_str-str = λ s. refl;
  as_bool-bool = λ b. refl;
  as_u64-num = λ n small. refl;
  is_object-obj = is_object-obj;
}
