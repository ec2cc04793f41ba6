-- ===== src/Jsonl/Records.antt =====
-- A JSONL file and the list of the records that were appended to it.
use text.Mathlib.TextLemmas.{
  append_assoc as text_append_assoc, append-nil as text_append-nil, nil-append,
}
use saaios.Prelude.{
  String, ◌≡◌, refl, sym, ap, ◌∙◌, true, false, Option-cases, inl, inr, some, List, [], ◌∷◌, ◌++◌,
  arith, str_eq, ◌+++◌,
}
use saaios.Protocol.{ok}
use saaios.Jsonl.{
  Codec, Log, Write, whole, torn, append, write, outcome, read_lines, read_all, lines_from,
}
use saaios.Jsonl.Text.{NoBreak, lines_from-cons}

module _ {R : Type 0} (codec : Codec R) where
  open codec use {to_string, from_str, trim}

  -- What serde_json documents of the text of a record: it is one line, it is not blank, and it is
  -- read back as the record.
  pub record IsCodec : Type 0 where
    pub one_line : (r : R) (line : String) → to_string r ≡ some line → NoBreak line
    pub not_blank :
        (r : R) (line : String) → to_string r ≡ some line → str_eq (trim line) "" ≡ false
    pub reads_back : (r : R) (line : String) → to_string r ≡ some line → from_str line ≡ some r

  -- The text holds the lines of these records, in order, and nothing else.
  pub data Holds : List R → String → Type 0 where
    nothing : Holds [] ""
    line_of :
        {r : R} {rs : List R} {rest : String} (line : String) (text : String)
        → to_string r ≡ some line
        → text ≡ line +++ ("\n" +++ rest)
        → Holds rs rest
        → Holds (r ∷ rs) text

  module _ (laws : IsCodec) where
    read_line :
        (r : R) (rs : List R) (line : String) (lines : List String)
        → to_string r ≡ some line
        → read_lines codec lines ≡ ok rs
        → read_lines codec (line ∷ lines) ≡ ok (r ∷ rs)
    unfolding read_lines
    read_line r rs line lines e h = rw (laws.not_blank r line e, laws.reads_back r line e, h)

    read_lines-Holds :
        {rs : List R} {text : String}
        → Holds rs text
        → read_lines codec (lines_from "" text) ≡ ok rs
    unfolding read_lines lines_from
    read_lines-Holds nothing = refl
    read_lines-Holds (line_of {r} {rs} {rest} line text e t h) =
        rw (t, lines_from-cons line rest (laws.one_line r line e))
          (read_line r rs line (lines_from "" rest) e (read_lines-Holds h))

    Holds-append :
        {rs : List R} {text : String} (r : R) (line : String)
        → to_string r ≡ some line
        → Holds rs text
        → Holds (rs ++ r ∷ []) (text +++ (line +++ "\n"))
    Holds-append r line e nothing =
        line_of line ("" +++ (line +++ "\n")) e
          (nil-append (line +++ "\n") ∙ ap (λ u. line +++ u) (sym (text_append-nil "\n"))) nothing
    Holds-append r line e (line_of {r = q} {rest} l text p t h) =
        line_of l (text +++ (line +++ "\n")) p
          (ap (λ u. u +++ (line +++ "\n")) t
            ∙ text_append_assoc l ("\n" +++ rest) (line +++ "\n")
            ∙ ap (λ u. l +++ u) (text_append_assoc "\n" rest (line +++ "\n")))
          (Holds-append r line e h)

    write-Holds :
        (log : Log) (rs : List R) (r : R) (line : String)
        → to_string r ≡ some line
        → Holds rs log.content
        → (write log (line +++ "\n")).0 ≡ ok tt
        → Holds (rs ++ r ∷ []) (write log (line +++ "\n")).1.content
    unfolding write
    write-Holds log rs r line e h done = outcome-Holds log.writes done
      where
        outcome-Holds :
            (ws : List Write)
            → (outcome log (line +++ "\n") ws).0 ≡ ok tt
            → Holds (rs ++ r ∷ []) (outcome log (line +++ "\n") ws).1.content
        outcome-Holds [] d = Holds-append r line e h
        outcome-Holds (whole ∷ ws) d = Holds-append r line e h
        outcome-Holds (torn n ∷ ws) d = cc

    -- An append that succeeds adds its record at the end, and leaves the records before it.
    pub append-Holds :
        (log : Log) (rs : List R) (r : R)
        → Holds rs log.content
        → (append codec log r).0 ≡ ok tt
        → Holds (rs ++ r ∷ []) (append codec log r).1.content
    unfolding append
    append-Holds log rs r h done = elim (Option-cases (to_string r)) [
      | inl e ↦ cc e
      | inr (line, e) ↦ rw (e, append) (write-Holds log rs r line e h (rw (e, append) at done))
    ]

    -- What such a file is read back as.
    pub read_all-Holds :
        (log : Log) (rs : List R)
        → log.readable ≡ true
        → Holds rs log.content
        → read_all codec log ≡ ok rs
    unfolding read_all
    read_all-Holds log rs open_ok h = ground (arith, read_lines-Holds h)

    pub readable-append : (log : Log) (r : R) → (append codec log r).1.readable ≡ log.readable
    unfolding append write
    readable-append log r = ground arith

    -- After an append that succeeds, a file that could be read is read as the records before it and
    -- then the new one.
    pub read_all-append :
        (log : Log) (rs : List R) (r : R)
        → log.readable ≡ true
        → Holds rs log.content
        → (append codec log r).0 ≡ ok tt
        → read_all codec (append codec log r).1 ≡ ok (rs ++ r ∷ [])
    read_all-append log rs r open_ok h done =
        read_all-Holds (append codec log r).1 (rs ++ r ∷ []) (readable-append log r ∙ open_ok)
          (append-Holds log rs r h done)
