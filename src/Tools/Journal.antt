-- ===== src/Tools/Journal.antt =====
-- `read_journal` of crates/system-tools/src/lib.rs.
use saaios.Prelude.{
  ℕ, ◌-◌, String, Bool, not, ◌||◌, Option, none, some, List, [], ◌∷◌, map, if◌then◌else◌, str_eq,
  is_empty, drop, length, min, max, ltb,
}
use saaios.Crates.{Crates}
use saaios.Protocol.{Result, ok, err}
use saaios.Tools.World.{Machine, Look, Output, pure, command, ◌>>=◌, if_ok, if_true}
use saaios.Tools.Proc.{lines}
use saaios.Tools.Sys.{or_null}

-- `filter(|s| !s.is_empty())`
abbrev filled : List String → List String
filled [] = []
filled (s ∷ ss) = let rest = filled ss in if str_eq s "" then rest else s ∷ rest

-- `split_off(entries.len() - lines)` where there are more.
unfoldable pub last_lines : ℕ → List String → List String
last_lines n entries = if ltb n (length entries) then drop (length entries - n) entries else entries

module _ (C : Crates) (m : Machine) where
  open C use {Value, str, arr, obj, num, from_utf8_lossy, trim, show_nat}

  abbrev unit_args : Option String → List String
  unit_args none = []
  unit_args (some u) = if str_eq u "" then [] else "-u" ∷ u ∷ []

  abbrev listing : String → List String → List (String × Value) → Value
  listing source entries more = obj (
      ("source", str source)
      ∷ ("lines", arr (map str entries))
      ∷ ("count", num (length entries))
      ∷ more)

  from_dmesg : ℕ → String → Result String Output → Value
  from_dmesg lines_wanted why (ok dmesg) =
      listing "dmesg" (last_lines lines_wanted (lines (from_utf8_lossy dmesg.stdout)))
        (("journalctl_error", str why) ∷ [])
  from_dmesg lines_wanted why (err e) = listing "linux" [] (("error", str why) ∷ [])

  abbrev is_usable : Output → Bool
  is_usable out = out.success || not (is_empty out.stdout)

  abbrev clamped : ℕ → ℕ
  clamped n = min (max n 1) 200

  unfoldable pub journal_args : ℕ → Option String → List String
  journal_args wanted unit =
      "-n" ∷ show_nat (clamped wanted) ∷ "--no-pager" ∷ "-o" ∷ "short-iso" ∷ unit_args unit

  unfoldable pub read_journal : ℕ → Option String → Look Value
  unfolding from_dmesg last_lines journal_args
  read_journal wanted unit = do
    out ← command m "journalctl" (journal_args wanted unit)
    if_ok out
        (λ out.
          if_true (is_usable out)
            (pure (
              listing "linux" (filled (lines (from_utf8_lossy out.stdout)))
                (("unit", or_null C str unit) ∷ [])))
            (do
              dmesg ← command m "dmesg" ("-T" ∷ [])
              pure (from_dmesg (clamped wanted) (trim (from_utf8_lossy out.stderr)) dmesg)))
        (λ e. pure (listing "linux" [] (("error", str e) ∷ [])))
