-- ===== src/Tools/Kill.antt =====
-- `normalize_signal` and `real_kill` of crates/system-tools/src/lib.rs.
use saaios.Prelude.{
  ℕ, zero, suc, String, Bool, true, false, none, some, List, [], ◌∷◌, if◌then◌else◌, leb, ◌==◌,
  one_of, str_eq, ◌+++◌,
}
use saaios.Crates.{Crates}
use saaios.Protocol.{Result, ok, err}
use saaios.Registry.{ToolError, invalid_args, execution}
use saaios.Text.{size, strip_prefix}
use saaios.Tools.World.{Machine, Look, Output, pure, look, command, ◌>>=◌, if_true}

trim_start : ℕ → String → String → String
trim_start zero p s = s
trim_start (suc n) p s = elim (strip_prefix s p) [ none ↦ s | some t ↦ trim_start n p t ]

-- `trim_start_matches`, for a pattern that is not empty.
unfoldable pub trim_start_matches : String → String → String
unfolding trim_start strip_prefix
trim_start_matches s p = trim_start (size s) p s

abbrev pub signals : List String
signals = "TERM" ∷ "KILL" ∷ "HUP" ∷ "INT" ∷ "QUIT" ∷ "USR1" ∷ "USR2" ∷ []

module _ (C : Crates) where
  open C use {Value, str, obj, num, bool, trim, to_uppercase, show_nat}

  unfoldable pub checked_signal : String → Result ToolError String
  checked_signal s =
      if one_of s signals
      then ok s
      else if str_eq s ""
      then ok "TERM"
      else err (
          invalid_args
            ("unsupported signal " +++ s +++ "; allowed TERM|KILL|HUP|INT|QUIT|USR1|USR2"))

  unfoldable pub normalize_signal : String → Result ToolError String
  unfolding checked_signal
  normalize_signal signal = checked_signal (to_uppercase (trim_start_matches (trim signal) "SIG"))

  module _ (m : Machine) where
    -- The answer to the status of the child process.
    abbrev answered : ℕ → String → Result String Output → Result ToolError Value
    answered pid signal (err e) = err (execution e)
    answered pid signal (ok out) =
        if out.success
        then ok (
            obj (
              ("killed", bool true)
              ∷ ("dry_run", bool false)
              ∷ ("pid", num pid)
              ∷ ("signal", str signal)
              ∷ ("mode", str "linux")
              ∷ []))
        else err (
            execution
              ("kill -" +++ signal +++ " " +++ show_nat pid +++ " failed with " +++ out.status))

    unfoldable pub sent_signal : ℕ → String → Look (Result ToolError Value)
    sent_signal pid signal = do
      status ← command m "kill" (("-" +++ signal) ∷ show_nat pid ∷ [])
      pure (answered pid signal status)

    unfoldable pub if_exists : ℕ → String → Bool → Look (Result ToolError Value)
    unfolding sent_signal
    if_exists pid signal true = sent_signal pid signal
    if_exists pid signal false = pure (err (execution ("pid " +++ show_nat pid +++ " not found")))

    unfoldable pub with_signal : ℕ → Result ToolError String → Look (Result ToolError Value)
    unfolding if_exists
    with_signal pid (err e) = pure (err e)
    with_signal pid (ok signal) = do
      found ← look (λ n. m.exists n ("/proc/" +++ show_nat pid))
      if_exists pid signal found

    unfoldable pub real_kill : ℕ → String → Look (Result ToolError Value)
    unfolding with_signal
    real_kill pid signal =
        if_true (leb pid 1) (pure (err (invalid_args "refusing to signal pid <= 1"))) (
          if_true (pid == m.process_id)
            (pure (err (invalid_args "refusing to signal the saaios-runtime process")))
            (with_signal pid (normalize_signal signal)))
