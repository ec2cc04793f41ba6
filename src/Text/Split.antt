-- ===== src/Text/Split.antt =====
-- Splitting a text loses nothing.
use Prim.Native.Char.{Char, code}
use text.Mathlib.TextLemmas.{append_assoc, nil-append, cons-append}
use saaios.Prelude.{
  ◌<◌, ◌≡◌, refl, ap, ◌∙◌, String, true, false, none, some, ◌==◌, str_eq, eq_iff, ◌+++◌, Bool-cases,
  Option-cases, inl, inr, arith,
}
use saaios.Text.{size, split_line, pieces_from, split_inclusive, concat}

-- What stands behind the first line feed is shorter than the text.
pub size-split_line : (s l r : String) → split_line s ≡ some (l, r) → size r < size s
unfolding split_line
size-split_line String.[] l r h = cc
size-split_line (String.◌∷◌ c s) l r h = elim (Bool-cases (code c == b'\n')) [
  | inl e ↦ ground arith
  | inr e ↦ elim (Option-cases (split_line s)) [
    | inl n ↦ ground arith
    | inr ((l', r'), f) ↦ let ih = size-split_line s l' r' f in ground arith
  ]
]

-- Where the first line feed of a text stands: at its front, or in the rest.
pub data Splits (c : Char) (s l r : String) : Type 0 where
  at_once : (code c == b'\n') ≡ true → l ≡ "" → r ≡ s → Splits c s l r
  later :
      (l' : String)
      → (code c == b'\n') ≡ false
      → split_line s ≡ some (l', r)
      → l ≡ String.◌∷◌ c l'
      → Splits c s l r

pub split_line-cons :
    (c : Char) (s l r : String) → split_line (String.◌∷◌ c s) ≡ some (l, r) → Splits c s l r
unfolding split_line
split_line-cons c s l r h = elim (Bool-cases (code c == b'\n')) [
  | inl e ↦ at_once e (ground arith) (ground arith)
  | inr e ↦ elim (Option-cases (split_line s)) [
    | inl n ↦ absurd (ground arith)
    | inr ((l', r'), f) ↦ later l' e (ground arith) (ground arith)
  ]
]

pub split_line-none :
    (c : Char) (s : String)
    → split_line (String.◌∷◌ c s) ≡ none
    → ((code c == b'\n') ≡ false) × (split_line s ≡ none)
unfolding split_line
split_line-none c s h = elim (Option-cases (split_line s)) [
  | inl n ↦ (ground arith, n)
  | inr ((l', r'), f) ↦ absurd (ground arith)
]

pub split_line-snoc :
    (s : String) (c : Char)
    → split_line s ≡ none
    → (code c == b'\n') ≡ false
    → split_line (s +++ String.◌∷◌ c "") ≡ none
unfolding split_line
split_line-snoc String.[] c h e = rw nil-append (rw (split_line, e) refl)
split_line-snoc (String.◌∷◌ d s) c h e =
    let (f, n) = split_line-none d s h in
    rw (cons-append, split_line, f, split_line-snoc s c n e) refl

pieces_from-concat : (cur s : String) → concat (pieces_from cur s) ≡ cur +++ s
unfolding pieces_from
pieces_from-concat cur String.[] = elim (Bool-cases (str_eq cur "")) [
  | inl e ↦ rw (e, (eq_iff cur "").0 e) refl
  | inr e ↦ rw e refl
]
pieces_from-concat cur (String.◌∷◌ c s) = elim (Bool-cases (code c == b' ')) [
  | inl e ↦
      rw (e, pieces_from-concat "" s, nil-append)
        (append_assoc cur (String.◌∷◌ c "") s
          ∙ ap (λ t. cur +++ t) (cons-append c "" s ∙ ap (String.◌∷◌ c) (nil-append s)))
  | inr e ↦ rw e (
      pieces_from-concat (cur +++ String.◌∷◌ c "") s
      ∙ append_assoc cur (String.◌∷◌ c "") s
      ∙ ap (λ t. cur +++ t) (cons-append c "" s ∙ ap (String.◌∷◌ c) (nil-append s)))
]

-- The pieces of a text, one after another, are the text.
pub concat-split_inclusive : (s : String) → concat (split_inclusive s) ≡ s
unfolding split_inclusive
concat-split_inclusive s = pieces_from-concat "" s ∙ nil-append s
