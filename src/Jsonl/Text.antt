-- ===== src/Jsonl/Text.antt =====
-- How `BufRead::lines` takes apart what the appends of a JSONL file put together.
use Prim.Native.Char.{Char, code}
use Prim.Native.String.{String, [], ◌∷◌, ◌++◌}
use text.Mathlib.TextLemmas.{nil-append, cons-append, append_assoc, append-nil}
use saaios.Prelude.{ℕ, ◌≡◌, ◌≢◌, refl, ap, arith, sym, ◌∙◌, false, ◌==◌}
use saaios.Prelude
use saaios.Jsonl.{strip_cr, lines_from}

-- A text with no line feed and no carriage return.
abbrev pub NoBreak : String → Type 0
NoBreak [] = Unit
NoBreak (c ∷ s) = (code c ≢ b'\n') × (code c ≢ b'\r') × NoBreak s

NoBreak-append : (s t : String) → NoBreak s → NoBreak t → NoBreak (s ++ t)
NoBreak-append [] t h k = rw nil-append k
NoBreak-append (c ∷ s) t (p, q, h) k = rw cons-append (p, q, NoBreak-append s t h k)

strip_cr-NoBreak : (s : String) → NoBreak s → strip_cr s ≡ s
unfolding strip_cr
strip_cr-NoBreak [] h = refl
strip_cr-NoBreak (c ∷ []) (p, q, h) = ground arith
strip_cr-NoBreak (c ∷ (d ∷ s)) (p, q, h) = ap (◌∷◌ c) (strip_cr-NoBreak (d ∷ s) h)

newline : (rest : String) → "\n" ++ rest ≡ "\n" ∷ rest
newline rest = cons-append "\n" "" rest ∙ ap (◌∷◌ "\n") (nil-append rest)

push_one : (cur : String) (c : Char) (s : String) → (cur ++ (c ∷ "")) ++ s ≡ cur ++ (c ∷ s)
push_one cur c s =
    append_assoc cur (c ∷ "") s
    ∙ ap (λ t. cur ++ t) (cons-append c "" s ∙ ap (◌∷◌ c) (nil-append s))

lines_from-line :
    (cur line rest : String)
    → NoBreak line
    → lines_from cur (line ++ ("\n" ++ rest))
      ≡ Prelude.◌∷◌ (strip_cr (cur ++ line)) (lines_from "" rest)
unfolding lines_from
lines_from-line cur [] rest h =
    rw (nil-append ("\n" ++ rest), append-nil cur) (rw (newline rest) refl)
lines_from-line cur (c ∷ s) rest (p, q, h) =
    let here : (code c == b'\n') ≡ false = ground arith in
    rw (cons-append c s ("\n" ++ rest))
      (rw here (rw (← push_one cur c s) (lines_from-line (cur ++ (c ∷ "")) s rest h)))

-- A whole line is the first that is read, as it was written.
pub lines_from-cons :
    (line rest : String)
    → NoBreak line
    → lines_from "" (line ++ ("\n" ++ rest)) ≡ Prelude.◌∷◌ line (lines_from "" rest)
lines_from-cons line rest h =
    lines_from-line "" line rest h
    ∙ ap (λ t. Prelude.◌∷◌ t (lines_from "" rest))
        (ap strip_cr (nil-append line) ∙ strip_cr-NoBreak line h)
