-- ===== src/Tools/Stat.antt =====
-- `parse_proc_stat_jiffies` of crates/system-tools/src/lib.rs on names that hold anything.
use Prim.Native.Char.{Char, code}
use text.Mathlib.TextLemmas as Texts
use saaios.Prelude.{
  Bool-cases, inl, inr, Bool, not, ◌&&◌, ℕ, ◌≡◌, refl, ap, ◌∙◌, String, true, none, some, ◌==◌,
  ◌+++◌, and_then, get_elem?,
}
use saaios.Crates.{Crates}
use saaios.Text.{parse_u64}
use saaios.Tools.Proc.{after_last, parse_proc_stat_jiffies, saturating_add, words}

abbrev pub lacks : ℕ → String → Bool
lacks c String.[] = true
lacks c (String.◌∷◌ d s) = not (code d == c) && lacks c s

-- The character does not occur in the text.
abbrev pub Lacks : ℕ → String → Type 0
Lacks c s = lacks c s ≡ true

after_last-none : (c : ℕ) (s : String) → Lacks c s → after_last c s ≡ none
unfolding after_last
after_last-none c String.[] h = refl
after_last-none c (String.◌∷◌ d s) h = elim (Bool-cases (code d == c)) [
  | inl e ↦ absurd (let no = rw e at h in cc)
  | inr e ↦ rw (after_last-none c s (rw e at h), e) refl
]

-- What stands before the last one does not matter.
after_last-append :
    (c : ℕ) (s : String) (d : Char) (t : String)
    → (code d == c) ≡ true
    → Lacks c t
    → after_last c (s +++ String.◌∷◌ d t) ≡ some t
unfolding after_last
after_last-append c String.[] d t e h =
    rw Texts.nil-append (rw (after_last, after_last-none c t h, e) refl)
after_last-append c (String.◌∷◌ d' s) d t e h =
    rw Texts.cons-append (rw (after_last, after_last-append c s d t e h) refl)

module _ (C : Crates) where
  -- The times of a process are read from the columns behind its name, whatever the name is: it may hold
  -- blanks and parentheses. The name's text stands in parentheses, and behind it, after one blank,
  -- no parenthesis is closed.
  pub parse_proc_stat_jiffies-name :
      (front columns : String)
      → Lacks b')' columns
      → parse_proc_stat_jiffies C (front +++ ") " +++ columns)
        ≡ and_then (and_then (get_elem? (words C columns) 11) parse_u64) (λ utime.
          and_then
            (and_then (get_elem? (words C columns) 12) parse_u64)
            (λ stime. some (saturating_add utime stime)))
  unfolding parse_proc_stat_jiffies
  parse_proc_stat_jiffies-name front columns h =
      let closed : (") " +++ columns) ≡ String.◌∷◌ ")" (String.◌∷◌ " " columns) =
        Texts.cons-append ")" " " columns
        ∙ ap (String.◌∷◌ ")")
            (Texts.cons-append " " "" columns ∙ ap (String.◌∷◌ " ") (Texts.nil-append columns)) in
      rw (closed, after_last-append b')' front ")" (String.◌∷◌ " " columns) refl h) refl
