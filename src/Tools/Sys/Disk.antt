-- ===== src/Tools/Sys/Disk.antt =====
-- `read_disk_usage` of crates/system-tools/src/lib.rs.
use saaios.Prelude.{
  ℕ, String, Option, none, some, List, [], ◌∷◌, map, if◌then◌else◌, ltb, str_eq, one_of, drop,
  length, unwrap_or,
}
use saaios.Crates.{Crates}
use saaios.Text.{trim_end_matches, split_whitespace}
use saaios.Tools.World.{Machine, Look, pure, command, ◌>>=◌, if_ok}
use saaios.Tools.Proc.{lines, words, one_decimal}
use saaios.Tools.Sys.{or_null, column}

module _ (C : Crates) where
  open C use {
    Value, Float, null, of_nat, gt, mul, div, parse_f64, str, arr, obj, float, from_utf8_lossy,
  }

  abbrev kb : List String → ℕ → Float
  kb cols n = unwrap_or (parse_f64 (trim_end_matches (column C cols n) "K")) (of_nat 0)

  abbrev used_pct : List String → Float
  used_pct cols = unwrap_or (parse_f64 (trim_end_matches (column C cols 4) "%")) (
      if gt (kb cols 1) (of_nat 0)
      then mul (div (kb cols 2) (kb cols 1)) (of_nat 100)
      else of_nat 0)

  abbrev mount_value : List String → Value
  mount_value cols = obj (
      ("path", str (column C cols 5))
      ∷ ("total_mb", float (one_decimal C (div (kb cols 1) (of_nat 1024))))
      ∷ ("used_mb", float (one_decimal C (div (kb cols 2) (of_nat 1024))))
      ∷ ("avail_mb", float (one_decimal C (div (kb cols 3) (of_nat 1024))))
      ∷ ("used_pct", float (used_pct cols))
      ∷ [])

  -- The rows of `df` that become mounts: at least six columns, and a path that has not been seen.
  unfoldable pub mount_rows : List String → List String → List (List String)
  mount_rows seen [] = []
  mount_rows seen (line ∷ rest) =
      let cols = words C line in
      let skipped = mount_rows seen rest in
      let taken = cols ∷ mount_rows (column C cols 5 ∷ seen) rest in
      if ltb (length cols) 6
      then skipped
      else if one_of (column C cols 5) seen
      then skipped
      else taken

  abbrev root_used : Option Float → List (List String) → Option Float
  root_used found [] = found
  root_used found (cols ∷ rows) =
      root_used (if str_eq (column C cols 5) "/" then some (used_pct cols) else found) rows

  abbrev disk_value : List (List String) → Value
  disk_value rows = obj (
      ("source", str "linux")
      ∷ ("mounts", arr (map mount_value rows))
      ∷ ("root_used_pct", or_null C float (root_used none rows))
      ∷ [])

  no_disk : Value
  no_disk = obj (
      ("source", str "linux")
      ∷ ("mounts", arr [])
      ∷ ("root_used_pct", null)
      ∷ ("error", str "df unavailable")
      ∷ [])

  module _ (m : Machine) where
    unfoldable pub read_disk_usage : Look Value
    unfolding mount_rows no_disk trim_end_matches split_whitespace
    read_disk_usage = do
      out ← command m "df" ("-Bk" ∷ "/" ∷ "/home" ∷ "/var" ∷ "/tmp" ∷ [])
      if_ok out
          (λ out. pure (disk_value (mount_rows [] (drop 1 (lines (from_utf8_lossy out.stdout))))))
          (λ e. pure no_disk)
