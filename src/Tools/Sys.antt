-- ===== src/Tools/Sys.antt =====
-- What the reports of crates/system-tools/src/lib.rs share: values that may be missing, columns,
-- directories.
pub mod Disk
pub mod Network
pub mod Sensors
use saaios.Prelude.{
  ℕ, ◌/◌, ◌%◌, ◌^◌, String, Bool, false, Option, none, some, List, [], ◌∷◌, map, if◌then◌else◌, ltb,
  str_eq, one_of, starts_with, drop, length, and_then, unwrap_or, any, ◌+++◌, get_elem?,
}
use saaios.Crates.{Crates}
use saaios.Text.{parse_u64, from_str_radix, trim_end_matches, split_whitespace}
use saaios.Tools.World.{Machine, Look, pure, look, command, ◌>>=◌, if_some, if_ok, if_true}
use saaios.Tools.Proc.{lines, words, one_decimal}
use saaios.Tools.Processes.{read, read_as, to_option}

module _ (C : Crates) where
  open C use {Value, Float, null, parse_f64, trim}

  abbrev pub or_null : {A : Type 0} → (A → Value) → Option A → Value
  or_null f none = null
  or_null f (some a) = f a

  abbrev pub column : List String → ℕ → String
  column cols n = unwrap_or (get_elem? cols n) ""

  module _ (m : Machine) where
    abbrev pub numeral : String → Look (Option Float)
    numeral path = read_as C m path (λ s. parse_f64 (trim s))

    abbrev pub named_by : String → String → Look String
    named_by path other = do s ← read C m path; pure (trim (unwrap_or (to_option s) other))

    -- The names in a directory, and none if it is missing or cannot be read.
    unfoldable pub entries : String → Look (List String)
    entries path = do
      found ← look (λ n. m.exists n path)
      if_true found
          (do names ← look (λ n. m.read_dir n path); pure (unwrap_or (to_option names) []))
          (pure [])
