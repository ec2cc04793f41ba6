-- ===== src/Tools/Signals.antt =====
-- The signals that the tools of crates/system-tools/src/lib.rs send.
use saaios.Prelude.{
  ℕ, ◌<◌, ◌≡◌, ◌≢◌, inl, inr, refl, subst, String, Bool, true, false, List, [], ◌∷◌, All, one_of,
  str_eq, leb, ◌==◌, Bool-cases, ◌+++◌, arith, leb→gt,
}
use saaios.Crates.{Crates}
use saaios.Protocol.{Result, ok, err, ok_inj}
use saaios.Registry.{ToolError}
use saaios.Tools.World.{Machine, World, Keeps, Keeps-pure, Keeps-bind, if_true}
use saaios.Tools.Kill.{
  signals, trim_start_matches, normalize_signal, real_kill, checked_signal, sent_signal, if_exists,
  with_signal,
}
use saaios.Tools.Commands.{readers}
use saaios.Tools.Commands

module _ (C : Crates) (m : Machine) where
  -- A signal that may be sent: one of the seven, to a process other than the first and this one.
  pub record IsSafeKill (program : String) (args : List String) : Type 0 where
    pub signal : String
    pub pid : ℕ
    pub is_kill : program ≡ "kill"
    pub is_sent : args ≡ ("-" +++ signal) ∷ C.show_nat pid ∷ []
    pub is_allowed : one_of signal signals ≡ true
    pub above_init : 1 < pid
    pub not_self : pid ≢ m.process_id

  pub data IsHarmless : String × List String → Type 0 where
    shows :
        (program : String) (args : List String)
        → one_of program readers ≡ true
        → IsHarmless (program, args)
    kills :
        (program : String) (args : List String)
        → IsSafeKill program args
        → IsHarmless (program, args)

  abbrev pub P : World → Type 0
  P w = All IsHarmless w.commands

  checked_signal-allowed :
      (s signal : String) → checked_signal C s ≡ ok signal → one_of signal signals ≡ true
  unfolding checked_signal
  checked_signal-allowed s signal h = elim (Bool-cases (one_of s signals)) [
    | inl e ↦ subst (λ t. one_of t signals ≡ true) (ok_inj (rw e at h)) e
    | inr e ↦ elim (Bool-cases (str_eq s "")) [
      | inl f ↦ subst (λ t. one_of t signals ≡ true) (ok_inj (rw f at (rw e at h))) refl
      | inr f ↦ absurd (let never = rw f at (rw e at h) in cc)
    ]
  ]

  normalize_signal-allowed :
      (given signal : String) → normalize_signal C given ≡ ok signal → one_of signal signals ≡ true
  unfolding normalize_signal
  normalize_signal-allowed given signal h =
      checked_signal-allowed (C.to_uppercase (trim_start_matches (C.trim given) "SIG")) signal h

  sent_signal-P :
      (pid : ℕ) (signal : String)
      → one_of signal signals ≡ true
      → 1 < pid
      → pid ≢ m.process_id
      → Keeps P (sent_signal C m pid signal)
  unfolding sent_signal
  sent_signal-P pid signal a i n =
      Keeps-bind _ _
        (Commands.command-P C m IsHarmless shows "kill" _ (
          kills "kill" _ (record {
            signal = signal;
            pid = pid;
            is_kill = refl;
            is_sent = refl;
            is_allowed = a;
            above_init = i;
            not_self = n;
          })))
        (λ status. Keeps-pure _)

  with_signal-P :
      (pid : ℕ) (x : Result ToolError String)
      → ((signal : String) → x ≡ ok signal → one_of signal signals ≡ true)
      → 1 < pid
      → pid ≢ m.process_id
      → Keeps P (with_signal C m pid x)
  unfolding with_signal
  with_signal-P pid (err e) a i n = Keeps-pure _
  with_signal-P pid (ok signal) a i n =
      Keeps-bind _ _ (Commands.look-P C m IsHarmless shows _) (λ found. exists found)
    where
      exists : (found : Bool) → Keeps P (if_exists C m pid signal found)
      exists true = unfold if_exists in (sent_signal-P pid signal (a signal refl) i n)
      exists false = unfold if_exists in (Keeps-pure _)

  pub real_kill-P : (pid : ℕ) (signal : String) → Keeps P (real_kill C m pid signal)
  unfolding real_kill if_true
  real_kill-P pid signal = elim (Bool-cases (leb pid 1)) [
    | inl e ↦ rw (real_kill, e) (Keeps-pure _)
    | inr e ↦ elim (Bool-cases (pid == m.process_id)) [
      | inl f ↦ rw (real_kill, e, f) (Keeps-pure _)
      | inr f ↦
          rw (real_kill, e, f)
            (with_signal-P pid (normalize_signal C signal) (normalize_signal-allowed signal)
              (leb→gt pid 1 e) (λ same. ground arith))
    ]
  ]
