-- ===== src/Web/Cuts.antt =====
-- The reads in which the frames of crates/console-web/src/main.rs arrive.
use saaios.Prelude.{
  ℕ, zero, suc, ◌<◌, ◌≡◌, refl, sym, ap, ◌∙◌, String, false, Option, none, some, List, [], ◌∷◌,
  ◌++◌, map, append_assoc, append-nil, if◌then◌else◌, ◌==◌, length, Bool-cases, Option-cases, inl,
  inr, arith,
}
use saaios.Crates.{Crates}
use saaios.Protocol.{ok}
use saaios.Web.Forward.{take_line, Passed, Buffer, on_line, drain, push_bytes, read_loop, forward}

pair_inj :
    {A B : Type 0} {a x : A} {b y : B}
    → ◌≡◌ {A = Option (A × B)} (some (a, b)) (some (x, y))
    → (a ≡ x) × (b ≡ y)
pair_inj {A} {B} {a} {x} {b} {y} h =
    let both : ◌≡◌ {A = A × B} (a, b) (x, y) = cc in
    (ap (λ (p : A × B). p.0) both, ap (λ (p : A × B). p.1) both)

length-take_line : (xs l r : List ℕ) → take_line xs ≡ some (l, r) → length r < length xs
unfolding take_line
length-take_line [] l r h = cc
length-take_line (b ∷ xs) l r h = elim (Bool-cases (b == b'\n')) [
  | inl e ↦ ground arith
  | inr e ↦ elim (Option-cases (take_line xs)) [
    | inl n ↦ ground arith
    | inr ((l', r'), f) ↦ let ih = length-take_line xs l' r' f in ground arith
  ]
]

take_line-snoc :
    (xs : List ℕ) (b : ℕ)
    → take_line xs ≡ none
    → (b == b'\n') ≡ false
    → take_line (xs ++ b ∷ []) ≡ none
unfolding take_line
take_line-snoc [] b h e = rw (take_line, e) refl
take_line-snoc (x ∷ xs) b h e = elim (Bool-cases (x == b'\n')) [
  | inl f ↦ absurd (let no = rw (take_line, f) at h in cc)
  | inr f ↦ elim (Option-cases (take_line xs)) [
    | inl n ↦ rw (take_line, f, take_line-snoc xs b n e) refl
    | inr ((l, r), g) ↦ absurd (let no = rw (take_line, f, g) at h in cc)
  ]
]

module _ (C : Crates) (parse_uuid : String → Option C.Uuid) where
  abbrev buffer : List ℕ → Passed C → Buffer C
  buffer buf p = record { buf = buf; passed = p }

  -- The bytes one by one.
  scan : List ℕ → List ℕ → Passed C → Buffer C
  scan cur [] p = buffer cur p
  scan cur (b ∷ bytes) p =
      let line = scan [] bytes (on_line C parse_uuid (cur ++ b ∷ []) p) in
      let more = scan (cur ++ b ∷ []) bytes p in if b == b'\n' then line else more

  scan-append :
      (cur xs ys : List ℕ) (p : Passed C)
      → scan cur (xs ++ ys) p ≡ scan (scan cur xs p).buf ys (scan cur xs p).passed
  unfolding scan
  scan-append cur [] ys p = refl
  scan-append cur (b ∷ xs) ys p = elim (Bool-cases (b == b'\n')) [
    | inl e ↦ rw (scan, e) (scan-append [] xs ys (on_line C parse_uuid (cur ++ b ∷ []) p))
    | inr e ↦ rw (scan, e) (scan-append (cur ++ b ∷ []) xs ys p)
  ]

  scan-none :
      (cur xs : List ℕ) (p : Passed C) → take_line xs ≡ none → scan cur xs p ≡ buffer (cur ++ xs) p
  unfolding scan take_line
  scan-none cur [] p h = rw append-nil refl
  scan-none cur (b ∷ xs) p h = elim (Bool-cases (b == b'\n')) [
    | inl e ↦ absurd (let no = rw (take_line, e) at h in cc)
    | inr e ↦ elim (Option-cases (take_line xs)) [
      | inl n ↦ rw (scan, e) (scan-none (cur ++ b ∷ []) xs p n ∙ rw append_assoc refl)
      | inr ((l, r), g) ↦ absurd (let no = rw (take_line, e, g) at h in cc)
    ]
  ]

  scan-some :
      (cur xs l r : List ℕ) (p : Passed C)
      → take_line xs ≡ some (l, r)
      → scan cur xs p ≡ scan [] r (on_line C parse_uuid (cur ++ l) p)
  unfolding scan take_line
  scan-some cur [] l r p h = cc
  scan-some cur (b ∷ xs) l r p h = elim (Bool-cases (b == b'\n')) [
    | inl e ↦
        let (here, there) = pair_inj (rw (take_line, e) at h) in
        rw (scan, e, sym here, sym there) refl
    | inr e ↦ elim (Option-cases (take_line xs)) [
      | inl n ↦ absurd (let no = rw (take_line, e, n) at h in cc)
      | inr ((l', r'), g) ↦
          let (here, there) = pair_inj (rw (take_line, e, g) at h) in
          rw (scan, e, sym here, sym there)
            (scan-some (cur ++ b ∷ []) xs l' r' p g ∙ rw append_assoc refl)
    ]
  ]

  drain-scan :
      (n : ℕ) (buf : List ℕ) (p : Passed C)
      → length buf < n
      → drain C parse_uuid n (buffer buf p) ≡ scan [] buf p
  unfolding drain
  drain-scan zero buf p h = absurd (omega arith)
  drain-scan (suc n) buf p h = elim (Option-cases (take_line buf)) [
    | inl e ↦ rw (drain, e, scan-none [] buf p e) refl
    | inr ((l, r), e) ↦
        let shorter = length-take_line buf l r e in
        rw (drain, e, scan-some [] buf l r p e)
          (drain-scan n r (on_line C parse_uuid l p) (omega arith))
  ]

  scan-drained :
      (cur xs : List ℕ) (p : Passed C) → take_line cur ≡ none → take_line (scan cur xs p).buf ≡ none
  unfolding scan
  scan-drained cur [] p h = h
  scan-drained cur (b ∷ xs) p h = elim (Bool-cases (b == b'\n')) [
    | inl e ↦
        rw (scan, e)
          (scan-drained [] xs (on_line C parse_uuid (cur ++ b ∷ []) p) (unfold take_line in refl))
    | inr e ↦ rw (scan, e) (scan-drained (cur ++ b ∷ []) xs p (take_line-snoc cur b h e))
  ]

  push_bytes-scan :
      (r : Buffer C) (bytes : List ℕ)
      → take_line r.buf ≡ none
      → push_bytes C parse_uuid r bytes ≡ scan r.buf bytes r.passed
  unfolding push_bytes
  push_bytes-scan r bytes h =
      drain-scan (suc (length (r.buf ++ bytes))) (r.buf ++ bytes) r.passed (omega arith)
      ∙ (scan-append [] r.buf bytes r.passed ∙ rw (scan-none [] r.buf r.passed h) refl)

  push_bytes-drained :
      (r : Buffer C) (bytes : List ℕ)
      → take_line r.buf ≡ none
      → take_line (push_bytes C parse_uuid r bytes).buf ≡ none
  push_bytes-drained r bytes h =
      rw (push_bytes-scan r bytes h) (scan-drained r.buf bytes r.passed h)

  abbrev pub whole : List (List ℕ) → List ℕ
  whole [] = []
  whole (bytes ∷ chunks) = bytes ++ whole chunks

  read_loop-scan :
      (chunks : List (List ℕ)) (r : Buffer C)
      → take_line r.buf ≡ none
      → read_loop C parse_uuid r (map ok chunks)
        ≡ read_loop C parse_uuid (scan r.buf (whole chunks) r.passed) []
  unfolding read_loop
  read_loop-scan [] r h = unfold scan in refl
  read_loop-scan (bytes ∷ chunks) r h =
      let same : scan (push_bytes C parse_uuid r bytes).buf (whole chunks)
            (push_bytes C parse_uuid r bytes).passed
          ≡ scan r.buf (bytes ++ whole chunks) r.passed =
        ap (λ (q : Buffer C). scan q.buf (whole chunks) q.passed) (push_bytes-scan r bytes h)
        ∙ sym (scan-append r.buf bytes (whole chunks) r.passed) in
      read_loop-scan chunks (push_bytes C parse_uuid r bytes) (push_bytes-drained r bytes h)
      ∙ ap (λ (q : Buffer C). read_loop C parse_uuid q []) same

  -- The reads in which the bytes of a stream arrive do not matter, wherever they cut it: the browser
  -- gets the same lines, and the console keeps the same session.
  pub forward-cuts :
      (slot : Option C.Uuid) (chunks chunks' : List (List ℕ))
      → whole chunks ≡ whole chunks'
      → forward C parse_uuid slot (map ok chunks) ≡ forward C parse_uuid slot (map ok chunks')
  unfolding forward
  forward-cuts slot chunks chunks' h =
      let start : Passed C = record { saw_frame = false; session_slot = slot; lines = [] } in
      let empty : take_line [] ≡ none = unfold take_line in refl in
      read_loop-scan chunks (buffer [] start) empty
      ∙ (ap (λ bytes. read_loop C parse_uuid (scan [] bytes start) []) h
          ∙ sym (read_loop-scan chunks' (buffer [] start) empty))
