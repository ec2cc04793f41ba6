-- ===== src/Jsonl.antt =====
-- The append-only JSONL file that crates/audit-log/src/lib.rs and crates/memory-store/src/lib.rs
-- both keep: one line of text for each record. The text of a record is serde_json's, a parameter.
pub mod Text
pub mod Records
pub mod Torn
pub mod Whole
use Prim.Native.Char.{code}
use saaios.Prelude.{
  ℕ, zero, suc, String, Bool, true, false, Option, none, some, List, [], ◌∷◌, if◌then◌else◌, ◌==◌,
  str_eq, ◌+++◌,
}
use saaios.Protocol.{Result, ok, err}

-- `serde_json::to_string` and `from_str` at one type of records, and `str::trim`.
pub record Codec (R : Type 0) : Type 0 where
  pub to_string : R → Option String
  pub from_str : String → Option R
  pub trim : String → String

-- What the machine does with a write: all of it, or an error after some characters.
pub data Write : Type 0 where
  whole : Write
  torn : ℕ → Write

-- The file, whether it can be opened for reading, and what the machine will do with the coming
-- writes; those beyond the list are whole.
pub record Log : Type 0 where
  pub content : String
  pub readable : Bool
  pub writes : List Write

abbrev pub first : ℕ → String → String
first zero s = ""
first (suc n) String.[] = ""
first (suc n) (String.◌∷◌ c s) = String.◌∷◌ c (first n s)

outcome : Log → String → List Write → Result String (Unit {0}) × Log
outcome log text [] = (ok tt, record log { content = log.content +++ text })
outcome log text (whole ∷ ws) = (ok tt, record log { content = log.content +++ text; writes = ws })
outcome log text (torn n ∷ ws) =
    (err "write", record log { content = log.content +++ first n text; writes = ws })

-- `file.write_all(..)?` and `file.flush()?`
unfoldable pub write : Log → String → Result String (Unit {0}) × Log
unfolding outcome
write log text = outcome log text log.writes

-- `BufRead::lines`: a line ends at "\n", and loses one "\r" before it; what stands behind the last
-- "\n" is a line if it is not empty.
unfoldable pub strip_cr : String → String
strip_cr String.[] = ""
strip_cr (String.◌∷◌ c String.[]) = if code c == b'\r' then "" else String.◌∷◌ c ""
strip_cr (String.◌∷◌ c (String.◌∷◌ d s)) = String.◌∷◌ c (strip_cr (String.◌∷◌ d s))

unfoldable pub lines_from : String → String → List String
lines_from cur String.[] = if str_eq cur "" then [] else cur ∷ []
lines_from cur (String.◌∷◌ c s) =
    let ended = strip_cr cur ∷ lines_from "" s in
    let longer = lines_from (cur +++ String.◌∷◌ c "") s in if code c == b'\n' then ended else longer

module _ {R : Type 0} (codec : Codec R) where
  open codec use {to_string, from_str, trim}

  unfoldable pub append : Log → R → Result String (Unit {0}) × Log
  append log r = elim (to_string r) [
    | none ↦ (err "serialize", log)
    | some line ↦ write log (line +++ "\n")
  ]

  abbrev cons_ok : R → Result String (List R) → Result String (List R)
  cons_ok r (ok rs) = ok (r ∷ rs)
  cons_ok r (err e) = err e

  unfoldable pub read_lines : List String → Result String (List R)
  read_lines [] = ok []
  read_lines (line ∷ lines) =
      let rest = read_lines lines in
      if str_eq (trim line) ""
      then rest
      else elim (from_str line) [ none ↦ err "parse" | some r ↦ cons_ok r rest ]

  unfoldable pub read_all : Log → Result String (List R)
  read_all log = if log.readable then read_lines (lines_from "" log.content) else err "open"
