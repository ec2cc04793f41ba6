-- ===== src/Text.antt =====
-- `str` and the integers' `FromStr` as the source uses them, over the characters of a text.
pub mod Split
use Prim.Native.Char.{Char, code}
use saaios.Prelude.{
  ℕ, suc, zero, ◌+◌, ◌*◌, ◌-◌, ◌^◌, String, Bool, true, false, ◌&&◌, ◌||◌, not, Option, none, some,
  List, [], ◌∷◌, if◌then◌else◌, ◌==◌, leb, ltb, str_eq, ◌+++◌, and_then, starts_with,
}

-- The number of characters.
abbrev pub size : String → ℕ
size String.[] = 0
size (String.◌∷◌ c s) = suc (size s)

-- One more character in front of the first part.
abbrev pub onto : Char → Option (String × String) → Option (String × String)
onto c none = none
onto c (some (l, r)) = some (String.◌∷◌ c l, r)

-- `find('\n')`: the text before the first line feed, and the text behind it.
unfoldable pub split_line : String → Option (String × String)
split_line String.[] = none
split_line (String.◌∷◌ c s) =
    let rest = onto c (split_line s) in if code c == b'\n' then some ("", s) else rest

-- `strip_prefix`
unfoldable pub strip_prefix : String → String → Option String
strip_prefix s String.[] = some s
strip_prefix String.[] (String.◌∷◌ d p) = none
strip_prefix (String.◌∷◌ c s) (String.◌∷◌ d p) = if code c == code d then strip_prefix s p else none

-- `strip_suffix`
unfoldable pub strip_suffix : String → String → Option String
strip_suffix String.[] suffix = if str_eq "" suffix then some "" else none
strip_suffix (String.◌∷◌ c s) suffix =
    let rest = and_then (strip_suffix s suffix) (λ t. some (String.◌∷◌ c t)) in
    if str_eq (String.◌∷◌ c s) suffix then some "" else rest

trim_end : ℕ → String → String → String
trim_end zero suffix s = s
trim_end (suc n) suffix s = elim (strip_suffix s suffix) [ none ↦ s | some t ↦ trim_end n suffix t ]

-- `trim_end_matches` for a pattern that is not empty: it is taken off as long as it ends the text, which
-- gets shorter each time.
unfoldable pub trim_end_matches : String → String → String
unfolding trim_end strip_suffix
trim_end_matches s suffix = trim_end (size s) suffix s

-- `split_inclusive(' ')`: each piece ends at a space, and the last one may not.
unfoldable pub pieces_from : String → String → List String
pieces_from cur String.[] = if str_eq cur "" then [] else cur ∷ []
pieces_from cur (String.◌∷◌ c s) =
    let piece = cur +++ String.◌∷◌ c "" in
    let ended = piece ∷ pieces_from "" s in
    let longer = pieces_from piece s in if code c == b' ' then ended else longer

unfoldable pub split_inclusive : String → List String
unfolding pieces_from
split_inclusive s = pieces_from "" s

abbrev pub concat : List String → String
concat [] = ""
concat (s ∷ ss) = s +++ concat ss

-- `split_whitespace`, over the test for white space.
unfoldable pub words_from : (ℕ → Bool) → String → String → List String
words_from space cur String.[] = if str_eq cur "" then [] else cur ∷ []
words_from space cur (String.◌∷◌ c s) =
    let longer = words_from space (cur +++ String.◌∷◌ c "") s in
    let next = words_from space "" s in
    if space (code c) then (if str_eq cur "" then next else cur ∷ next) else longer

unfoldable pub split_whitespace : (ℕ → Bool) → String → List String
unfolding words_from
split_whitespace space s = words_from space "" s

-- The digits of `from_str_radix`, upper or lower case.
abbrev pub digit : ℕ → ℕ → Option ℕ
digit radix c =
    let d =
      if leb b'0' c && leb c b'9'
      then c - b'0'
      else if leb b'a' c && leb c b'z'
      then c - b'a' + 10
      else if leb b'A' c && leb c b'Z'
      then c - b'A' + 10
      else radix in
    if ltb d radix then some d else none

-- All digits, from the value so far; a value beyond the bound is an error.
unfoldable pub digits_from : ℕ → ℕ → ℕ → String → Option ℕ
digits_from radix bound n String.[] = some n
digits_from radix bound n (String.◌∷◌ c s) = elim (digit radix (code c)) [
  | none ↦ none
  | some d ↦
      let rest = digits_from radix bound (n * radix + d) s in
      if ltb (n * radix + d) bound then rest else none
]

-- `from_str_radix` of an unsigned integer below the bound: a plus sign may stand in front.
unfoldable pub from_str_radix : ℕ → ℕ → String → Option ℕ
unfolding digits_from
from_str_radix radix bound String.[] = none
from_str_radix radix bound (String.◌∷◌ c s) =
    if code c == b'+'
    then (if str_eq s "" then none else digits_from radix bound 0 s)
    else digits_from radix bound 0 (String.◌∷◌ c s)

abbrev pub parse_u64 : String → Option ℕ
parse_u64 s = from_str_radix 10 (2 ^ 64) s

abbrev pub parse_u32 : String → Option ℕ
parse_u32 s = from_str_radix 10 (2 ^ 32) s

-- `split` at a character that takes one byte: there is always a piece, and it may be empty.
unfoldable pub fields_from : ℕ → String → String → List String
fields_from d cur String.[] = cur ∷ []
fields_from d cur (String.◌∷◌ c s) =
    let longer = fields_from d (cur +++ String.◌∷◌ c "") s in
    let next = cur ∷ fields_from d "" s in if code c == d then next else longer

abbrev pub split_on : ℕ → String → List String
split_on d s = fields_from d "" s

-- A part of a JSON pointer, behind a tilde or not: `~1` stands for a slash and `~0` for a tilde.
unfoldable pub unescape_from : Bool → String → String
unescape_from tilde String.[] = if tilde then "~" else ""
unescape_from tilde (String.◌∷◌ c s) =
    let rest = unescape_from (code c == b'~') s in
    if tilde
    then (if code c == b'1'
        then "/" +++ rest
        else if code c == b'0' || code c == b'~'
        then "~" +++ rest
        else "~" +++ String.◌∷◌ c rest)
    else if code c == b'~'
    then rest
    else String.◌∷◌ c rest

abbrev pub unescape : String → String
unescape s = unescape_from false s

-- The text before the first character that passes the test, and the text behind it: `split_once`, and
-- `splitn(2, ..)`.
unfoldable pub split_at : (ℕ → Bool) → String → Option (String × String)
split_at p String.[] = none
split_at p (String.◌∷◌ c s) =
    let rest = onto c (split_at p s) in if p (code c) then some ("", s) else rest

-- `pop`, without the character.
unfoldable pub pop : String → String
pop String.[] = ""
pop (String.◌∷◌ c String.[]) = ""
pop (String.◌∷◌ c (String.◌∷◌ d s)) = String.◌∷◌ c (pop (String.◌∷◌ d s))

abbrev pub prefix : ℕ → String → String
prefix zero s = ""
prefix (suc n) String.[] = ""
prefix (suc n) (String.◌∷◌ c s) = String.◌∷◌ c (prefix n s)

abbrev pub join : String → List String → String
join sep [] = ""
join sep (s ∷ []) = s
join sep (s ∷ t ∷ ss) = s +++ sep +++ join sep (t ∷ ss)
