-- ===== src/Provider/Chunks.antt =====
-- The reader of crates/model-provider/src/lib.rs against the text of the stream as a whole.
use Prim.Native.Char.{Char, code}
use text.Mathlib.TextLemmas.{append_assoc, append-nil, nil-append, cons-append}
use saaios.Prelude.{
  ℕ, zero, suc, ◌<◌, ◌≡◌, refl, sym, ap, ◌∙◌, String, true, false, none, some, List, [], ◌∷◌, map,
  ◌==◌, ◌+++◌, Bool-cases, Option-cases, inl, inr, arith,
}
use saaios.Crates.{Crates}
use saaios.Protocol.{Result, ok}
use saaios.Provider.{World}
use saaios.Text.{size, split_line, concat}
use saaios.Text.Split.{
  at_once, later, size-split_line, split_line-cons, split_line-none, split_line-snoc,
}
use saaios.Provider.Stream.{
  Assembly, Reader, nothing, on_line, drain, push_text, push_chunks, read_stream,
}

module _ (C : Crates) where
  abbrev reader : String → Assembly → Reader
  reader buf a = record { line_buf = buf; assembly = a }

  -- One pass over the characters: each line is handled at its line feed.
  unfoldable pub scan : String → String → Assembly → Reader
  scan cur String.[] a = reader cur a
  scan cur (String.◌∷◌ c s) a = elim (code c == b'\n') [
    | true ↦ scan "" s (on_line C cur a)
    | false ↦ scan (cur +++ String.◌∷◌ c "") s a
  ]

  snoc :
      (cur : String) (c : Char) (s : String)
      → (cur +++ String.◌∷◌ c "") +++ s ≡ cur +++ String.◌∷◌ c s
  snoc cur c s =
      append_assoc cur (String.◌∷◌ c "") s
      ∙ ap (λ t. cur +++ t) (cons-append c "" s ∙ ap (String.◌∷◌ c) (nil-append s))

  scan-append :
      (cur s t : String) (a : Assembly)
      → scan cur (s +++ t) a ≡ scan (scan cur s a).line_buf t (scan cur s a).assembly
  unfolding scan
  scan-append cur String.[] t a = rw nil-append refl
  scan-append cur (String.◌∷◌ c s) t a = elim (Bool-cases (code c == b'\n')) [
    | inl e ↦ rw (cons-append, scan, e) (scan-append "" s t (on_line C cur a))
    | inr e ↦ rw (cons-append, scan, e) (scan-append (cur +++ String.◌∷◌ c "") s t a)
  ]

  scan-line :
      (cur : String) (c : Char) (s : String) (a : Assembly)
      → (code c == b'\n') ≡ true
      → scan cur (String.◌∷◌ c s) a ≡ scan "" s (on_line C cur a)
  unfolding scan
  scan-line cur c s a e = rw (scan, e) refl

  scan-char :
      (cur : String) (c : Char) (s : String) (a : Assembly)
      → (code c == b'\n') ≡ false
      → scan cur (String.◌∷◌ c s) a ≡ scan (cur +++ String.◌∷◌ c "") s a
  unfolding scan
  scan-char cur c s a e = rw (scan, e) refl

  scan-none :
      (cur s : String) (a : Assembly) → split_line s ≡ none → scan cur s a ≡ reader (cur +++ s) a
  scan-none cur String.[] a h = unfold scan in rw append-nil refl
  scan-none cur (String.◌∷◌ c s) a h =
      let (e, n) = split_line-none c s h in
      scan-char cur c s a e
      ∙ scan-none (cur +++ String.◌∷◌ c "") s a n
      ∙ ap (λ t. reader t a) (snoc cur c s)

  scan-some :
      (cur s l r : String) (a : Assembly)
      → split_line s ≡ some (l, r)
      → scan cur s a ≡ scan "" r (on_line C (cur +++ l) a)
  scan-some cur String.[] l r a h = unfold split_line in cc
  scan-some cur (String.◌∷◌ c s) l r a h = elim (split_line-cons c s l r h) [
    | at_once e p q ↦ rw (p, q, append-nil) (scan-line cur c s a e)
    | later l' e f p ↦
        rw (p, scan-char cur c s a e, ← snoc cur c l')
          (scan-some (cur +++ String.◌∷◌ c "") s l' r a f)
  ]

  drain-scan :
      (n : ℕ) (buf : String) (a : Assembly)
      → size buf < n
      → drain C n (reader buf a) ≡ scan "" buf a
  unfolding drain
  drain-scan zero buf a h = absurd (omega arith)
  drain-scan (suc n) buf a h = elim (Option-cases (split_line buf)) [
    | inl e ↦ rw (drain, e, scan-none "" buf a e, nil-append) refl
    | inr ((l, r), e) ↦
        let shorter = size-split_line buf l r e in
        rw (drain, e, scan-some "" buf l r a e, nil-append)
          (drain-scan n r (on_line C l a) (omega arith))
  ]

  scan-drained :
      (cur s : String) (a : Assembly)
      → split_line cur ≡ none
      → split_line (scan cur s a).line_buf ≡ none
  scan-drained cur String.[] a h = unfold scan in h
  scan-drained cur (String.◌∷◌ c s) a h = elim (Bool-cases (code c == b'\n')) [
    | inl e ↦
        rw (scan-line cur c s a e) (scan-drained "" s (on_line C cur a) (unfold split_line in refl))
    | inr e ↦
        rw (scan-char cur c s a e)
          (scan-drained (cur +++ String.◌∷◌ c "") s a (split_line-snoc cur c h e))
  ]

  scan-buffered :
      (buf t : String) (a : Assembly) → split_line buf ≡ none → scan "" (buf +++ t) a ≡ scan buf t a
  scan-buffered buf t a h = scan-append "" buf t a ∙ rw (scan-none "" buf a h, nil-append) refl

  pub push_text-scan :
      (r : Reader) (t : String)
      → split_line r.line_buf ≡ none
      → push_text C r t ≡ scan r.line_buf t r.assembly
  unfolding push_text
  push_text-scan r t h =
      drain-scan (suc (size (r.line_buf +++ t))) (r.line_buf +++ t) r.assembly (omega arith)
      ∙ scan-buffered r.line_buf t r.assembly h

  -- The loop over the lines of a chunk runs to its end: whatever the buffer holds and whatever arrives,
  -- no line feed is left in the buffer.
  pub push_text-drained : (r : Reader) (t : String) → split_line (push_text C r t).line_buf ≡ none
  unfolding push_text
  push_text-drained r t =
      rw (drain-scan (suc (size (r.line_buf +++ t))) (r.line_buf +++ t) r.assembly (omega arith))
        (scan-drained "" (r.line_buf +++ t) r.assembly (unfold split_line in refl))

  abbrev texts : List (List ℕ) → String
  texts chunks = concat (map C.from_utf8_lossy chunks)

  push_chunks-scan :
      (chunks : List (List ℕ)) (r : Reader)
      → split_line r.line_buf ≡ none
      → push_chunks C r (map ok chunks) ≡ (
        ok (scan r.line_buf (texts chunks) r.assembly),
        scan r.line_buf (texts chunks) r.assembly,
      )
  unfolding push_chunks
  push_chunks-scan [] r h = unfold scan in refl
  push_chunks-scan (bytes ∷ chunks) r h =
      let text : String = C.from_utf8_lossy bytes in
      let both : Reader → Result String Reader × Reader = λ q. (ok q, q) in
      let same : scan (push_text C r text).line_buf (texts chunks) (push_text C r text).assembly
          ≡ scan r.line_buf (text +++ texts chunks) r.assembly =
        ap (λ (q : Reader). scan q.line_buf (texts chunks) q.assembly) (push_text-scan r text h)
        ∙ sym (scan-append r.line_buf text (texts chunks) r.assembly) in
      push_chunks-scan chunks (push_text C r text) (push_text-drained r text) ∙ ap both same

  -- How a stream is cut into chunks does not matter: two streams whose chunks decode to the same text
  -- leave the same text, the same tool calls and the same deltas.
  pub read_stream-cuts :
      (chunks chunks' : List (List ℕ)) (w : World C)
      → concat (map C.from_utf8_lossy chunks) ≡ concat (map C.from_utf8_lossy chunks')
      → read_stream C (map ok chunks) w ≡ read_stream C (map ok chunks') w
  unfolding read_stream scan
  read_stream-cuts chunks chunks' w h =
      let start : Reader = reader "" nothing in
      let drained : split_line "" ≡ none = unfold split_line in refl in
      rw
        (
          push_chunks-scan chunks start drained,
          push_chunks-scan chunks' start drained,
          ap (λ t. scan "" t nothing) h,
        )
        refl
