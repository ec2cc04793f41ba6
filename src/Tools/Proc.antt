-- ===== src/Tools/Proc.antt =====
-- What crates/system-tools/src/lib.rs reads below /proc: memory, processor times, processes.
use Prim.Native.Char.{code}
use saaios.Prelude.{
  ℕ, ◌+◌, ◌-◌, ◌%◌, ◌^◌, String, Bool, true, ◌&&◌, Option, none, some, List, [], ◌∷◌, if◌then◌else◌,
  ltb, leb, ◌==◌, length, drop, and_then, unwrap_or, min,
}
use saaios.Crates.{Crates}
use saaios.Jsonl.{lines_from}
use saaios.Text.{split_whitespace, strip_prefix, parse_u64}
use saaios.Prelude.{get_elem?}

abbrev pub lines : String → List String
lines s = lines_from "" s

-- The text behind the last ')'.
unfoldable pub after_last : ℕ → String → Option String
after_last c String.[] = none
after_last c (String.◌∷◌ d s) = elim (after_last c s) [
  | some t ↦ some t
  | none ↦ if code d == c then some s else none
]

-- `get(1..)`: no text if it is empty, or if its first character takes more than one byte.
abbrev pub behind_first : String → Option String
behind_first String.[] = none
behind_first (String.◌∷◌ c s) = if ltb (code c) 128 then some s else none

abbrev pub saturating_add : ℕ → ℕ → ℕ
saturating_add a b = min (a + b) (2 ^ 64 - 1)

abbrev pub all_digits : String → Bool
all_digits String.[] = true
all_digits (String.◌∷◌ c s) = (leb b'0' (code c) && leb (code c) b'9') && all_digits s

abbrev first_word : (ℕ → Bool) → String → Option String
first_word space v = get_elem? (split_whitespace space v) 0

module _ (C : Crates) where
  open C use {
    Float, of_nat, gt, add, sub, mul, div, round, max_float, parse_f64, trim, is_whitespace,
    show_nat,
  }

  abbrev pub words : String → List String
  words s = split_whitespace is_whitespace s

  unfoldable pub parse_kb : String → Option Float
  unfolding split_whitespace
  parse_kb v = and_then (first_word is_whitespace v) parse_f64

  unfoldable pub meminfo_lines : List String → Float → Float → Option (Float × Float)
  meminfo_lines [] total_kb available_kb = some (total_kb, available_kb)
  meminfo_lines (line ∷ rest) total_kb available_kb =
      let next = meminfo_lines rest in
      elim (strip_prefix line "MemTotal:") [
        | some v ↦ and_then (parse_kb v) (λ t. next t available_kb)
        | none ↦ elim (strip_prefix line "MemAvailable:") [
          | some v ↦ and_then (parse_kb v) (λ a. next total_kb a)
          | none ↦ next total_kb available_kb
        ]
      ]

  unfoldable pub parse_meminfo : String → Option (Float × Float)
  unfolding meminfo_lines
  parse_meminfo content =
      and_then (meminfo_lines (lines content) (of_nat 0) (of_nat 0)) λ (total_kb, available_kb).
        some (div (sub total_kb available_kb) (of_nat 1024), div total_kb (of_nat 1024))

  -- The sum over the columns behind the first: a column that is no number makes it fail.
  jiffies_sum : ℕ → List String → Option ℕ
  jiffies_sum sum [] = some sum
  jiffies_sum sum (part ∷ parts) =
      and_then (parse_u64 part) (λ n. jiffies_sum (saturating_add sum n) parts)

  unfoldable pub parse_total_jiffies : String → Option ℕ
  unfolding jiffies_sum
  parse_total_jiffies content =
      and_then (get_elem? (lines content) 0) (λ line. jiffies_sum 0 (drop 1 (words line)))

  -- `filter_map(|p| p.parse().ok())`
  numbers : List String → List ℕ
  numbers [] = []
  numbers (p ∷ ps) = elim (parse_u64 p) [ none ↦ numbers ps | some n ↦ n ∷ numbers ps ]

  abbrev sum : List ℕ → ℕ
  sum [] = 0
  sum (n ∷ ns) = (n + sum ns) % 2 ^ 64

  -- The sums wrap at 64 bits, as in a release build.
  unfoldable pub parse_cpu_times : String → Option (ℕ × ℕ)
  unfolding numbers
  parse_cpu_times content = and_then (get_elem? (lines content) 0) λ line.
      let parts = numbers (drop 1 (words line)) in
      if ltb (length parts) 4
      then none
      else some
          (sum parts, (unwrap_or (get_elem? parts 3) 0 + unwrap_or (get_elem? parts 4) 0) % 2 ^ 64)

  unfoldable pub parse_proc_stat_jiffies : String → Option ℕ
  unfolding after_last split_whitespace
  parse_proc_stat_jiffies stat = and_then (after_last b')' stat) λ rest.
      and_then (behind_first rest) λ after.
        and_then (and_then (get_elem? (words after) 11) parse_u64) λ utime.
          and_then (and_then (get_elem? (words after) 12) parse_u64)
            λ stime. some (saturating_add utime stime)

  rss_lines : List String → Option Float
  rss_lines [] = none
  rss_lines (line ∷ rest) =
      let next = rss_lines rest in
      elim (strip_prefix line "VmRSS:") [
        | some v ↦ and_then (parse_kb v) (λ kb. some (div kb (of_nat 1024)))
        | none ↦ next
      ]

  unfoldable pub parse_vm_rss_mb : String → Option Float
  unfolding rss_lines
  parse_vm_rss_mb status = rss_lines (lines status)

  abbrev pub clamp : Float → Float → Float → Float
  clamp x lo hi = if gt lo x then lo else if gt x hi then hi else x

  -- `(x * 10.0).round() / 10.0`
  abbrev pub one_decimal : Float → Float
  one_decimal x = div (round (mul x (of_nat 10))) (of_nat 10)
