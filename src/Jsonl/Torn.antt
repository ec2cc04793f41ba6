-- ===== src/Jsonl/Torn.antt =====
-- What a write that stops half way does to the JSONL file of crates/audit-log/src/lib.rs and
-- crates/memory-store/src/lib.rs.
use text.Mathlib.TextLemmas.{
  append_assoc as text_append_assoc, append-nil as text_append-nil, nil-append,
}
use saaios.Prelude.{
  ℕ, String, ◌≡◌, refl, sym, ap, ◌∙◌, true, false, Option-cases, inl, inr, none, some, List, [],
  ◌∷◌, arith, str_eq, ◌+++◌,
}
use saaios.Protocol.{err}
use saaios.Jsonl.{
  Codec, Log, Write, whole, torn, first, append, write, outcome, read_lines, read_all, lines_from,
}
use saaios.Jsonl.Text.{NoBreak, lines_from-cons}
use saaios.Jsonl.Records.{IsCodec, Holds, nothing, line_of}

module _ {R : Type 0} (codec : Codec R) where
  open codec use {to_string, from_str, trim}

  -- A line that is no record.
  pub record IsBroken (line : String) : Type 0 where
    pub one_line : NoBreak line
    pub not_blank : str_eq (trim line) "" ≡ false
    pub no_record : from_str line ≡ none

  module _ (laws : IsCodec codec) where
    read_lines-IsBroken :
        {rs : List R} {text : String} (bad rest : String)
        → IsBroken bad
        → Holds codec rs text
        → read_lines codec (lines_from "" (text +++ (bad +++ ("\n" +++ rest)))) ≡ err "parse"
    unfolding read_lines
    read_lines-IsBroken bad rest b nothing =
        rw (nil-append (bad +++ ("\n" +++ rest)), lines_from-cons bad rest b.one_line)
          (rw (b.not_blank, b.no_record))
    read_lines-IsBroken bad rest b (line_of {r} {rest = after} line text e t h) =
        rw
          (
            t,
            text_append_assoc line ("\n" +++ after) (bad +++ ("\n" +++ rest)),
            text_append_assoc "\n" after (bad +++ ("\n" +++ rest)),
            lines_from-cons line (after +++ (bad +++ ("\n" +++ rest))) (laws.one_line r line e),
          )
          (rw (laws.not_blank r line e, laws.reads_back r line e, read_lines-IsBroken bad rest b h))

  -- The appends of a process, which goes on after an error.
  pub appends : Log → List R → Log
  appends log [] = log
  appends log (r ∷ rs) = appends (append codec log r).1 rs

  write-grows :
      (log : Log) (text : String)
      → (more : String) × ((write log text).1.content ≡ log.content +++ more)
  unfolding write
  write-grows log text = go log.writes
    where
      go :
          (ws : List Write)
          → (more : String) × ((outcome log text ws).1.content ≡ log.content +++ more)
      go [] = (text, refl)
      go (whole ∷ ws) = (text, refl)
      go (torn n ∷ ws) = (first n text, refl)

  append-grows :
      (log : Log) (r : R)
      → (more : String) × ((append codec log r).1.content ≡ log.content +++ more)
  unfolding append
  append-grows log r = elim (Option-cases (to_string r)) [
    | inl e ↦ rw (e, append) ("", sym (text_append-nil log.content))
    | inr (line, e) ↦ rw (e, append) (write-grows log (line +++ "\n"))
  ]

  appends-grows :
      (log : Log) (rs : List R)
      → (more : String) × ((appends log rs).content ≡ log.content +++ more)
  unfolding appends
  appends-grows log [] = ("", sym (text_append-nil log.content))
  appends-grows log (r ∷ rs) =
      let (m, p) = append-grows log r in
      let (m', p') = appends-grows (append codec log r).1 rs in
      (m +++ m', p' ∙ ap (λ t. t +++ m') p ∙ text_append_assoc log.content m m')

  readable-appends : (log : Log) (rs : List R) → (appends log rs).readable ≡ log.readable
  unfolding appends append write
  readable-appends log [] = refl
  readable-appends log (r ∷ rs) = readable-appends (append codec log r).1 rs ∙ ground arith

  torn_then_whole :
      (log : Log) (n : ℕ) (r r' : R) (line line' : String)
      → log.writes ≡ torn n ∷ []
      → to_string r ≡ some line
      → to_string r' ≡ some line'
      → (append codec (append codec log r).1 r').1.content
        ≡ (log.content +++ first n (line +++ "\n")) +++ (line' +++ "\n")
  unfolding append write outcome
  torn_then_whole log n r r' line line' w e e' = ground arith

  regroup :
      (a b c d : String) → ((a +++ b) +++ (c +++ "\n")) +++ d ≡ a +++ ((b +++ c) +++ ("\n" +++ d))
  regroup a b c d =
      text_append_assoc (a +++ b) (c +++ "\n") d
      ∙ text_append_assoc a b ((c +++ "\n") +++ d)
      ∙ ap (λ t. a +++ (b +++ t)) (text_append_assoc c "\n" d)
      ∙ ap (λ t. a +++ t) (sym (text_append_assoc b c ("\n" +++ d)))

  -- If one write stops after `n` characters and the next record joins the fragment to a line that
  -- is no record, then no read succeeds again, whatever is appended afterwards.
  pub torn_write_blocks :
      (laws : IsCodec codec) (log : Log) (rs : List R) (n : ℕ) (r r' : R) (line line' : String)
      (more : List R)
      → log.readable ≡ true
      → Holds codec rs log.content
      → log.writes ≡ torn n ∷ []
      → to_string r ≡ some line
      → to_string r' ≡ some line'
      → IsBroken (first n (line +++ "\n") +++ line')
      → read_all codec (appends log (r ∷ r' ∷ more)) ≡ err "parse"
  unfolding read_all appends
  torn_write_blocks laws log rs n r r' line line' more open_ok h w e e' b =
      let frag = first n (line +++ "\n") in
      let after = (append codec (append codec log r).1 r').1 in
      let (m, grown) = appends-grows after more in
      let content : (appends after more).content
          ≡ log.content +++ ((frag +++ line') +++ ("\n" +++ m)) =
        grown
        ∙ ap (λ t. t +++ m) (torn_then_whole log n r r' line line' w e e')
        ∙ regroup log.content frag line' m in
      let opened : (appends after more).readable ≡ true =
        readable-appends log (r ∷ r' ∷ more) ∙ open_ok in
      ground (
        arith,
        content,
        opened,
        ap (λ t. read_lines codec (lines_from "" t)) content,
        read_lines-IsBroken laws (frag +++ line') m b h,
      )
