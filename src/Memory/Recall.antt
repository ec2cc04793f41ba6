-- ===== src/Memory/Recall.antt =====
-- What the operations of crates/memory-store/src/lib.rs do to the facts that count.
use saaios.Prelude.{
  ℕ, suc, ◌⊎◌, String, ◌≡◌, refl, sym, ap, ◌∙◌, true, false, Option, none, some, List, [], ◌∷◌,
  ◌++◌, arith, if◌then◌else◌, str_eq, eq_iff, or_else, or_else_assoc, or_else-none, inl, inr,
  and_then, subst,
}
use saaios.Crates.{Crates}
use saaios.Protocol.{Result, ok, err, ok_inj}
use saaios.Jsonl
use saaios.Jsonl.{Codec, Log}
use saaios.Jsonl.Records.{IsCodec, Holds, read_all-Holds, append-Holds, readable-append}
use saaios.Memory.{
  MemoryFact, MemoryStore, latest, find_key, hits, is_hit, latest_by_key, recall, remember, added,
  filled, forget, forget_among, bury, tombstone, then_ok,
}
use saaios.Memory.Latest.{last_of, live_of, find_key-latest, said, IsApart, latest-IsApart}

module _ (C : Crates) where
  -- The file of the store can be read, and holds these records.
  pub record Keeps (codec : Codec (MemoryFact C)) (s : MemoryStore C) (rs : List (MemoryFact C))
      : Type 0 where
    pub readable : s.file.readable ≡ true
    pub holds : Holds codec rs s.file.content

  -- The fact that counts for a key, given the records of the file.
  abbrev pub fact_at : List (MemoryFact C) → String → Option (MemoryFact C)
  fact_at rs key = find_key C key (latest C rs)

  last_of-concat :
      (key : String) (rs : List (MemoryFact C)) (f : MemoryFact C)
      → last_of C key (rs ++ f ∷ []) ≡ or_else (said C key f) (last_of C key rs)
  last_of-concat key [] f = sym (or_else-none (said C key f))
  last_of-concat key (g ∷ rs) f =
      ap (λ t. or_else t (said C key g)) (last_of-concat key rs f)
      ∙ or_else_assoc (said C key f) (last_of C key rs) (said C key g)

  -- One more record counts for its own key, unless it is a tombstone, and for no other.
  fact_at-concat :
      (rs : List (MemoryFact C)) (f : MemoryFact C) (key : String)
      → fact_at (rs ++ f ∷ []) key
        ≡ (if str_eq f.key key then live_of C (some f) else fact_at rs key)
  fact_at-concat rs f key =
      find_key-latest C key (rs ++ f ∷ [])
      ∙ ap (live_of C) (last_of-concat key rs f)
      ∙ ground (arith, find_key-latest C key rs)

  module _ (codec : Codec (MemoryFact C)) (laws : IsCodec codec) where
    latest_by_key-Keeps :
        (s : MemoryStore C) (rs : List (MemoryFact C))
        → Keeps codec s rs
        → latest_by_key C codec s ≡ ok (latest C rs)
    unfolding latest_by_key
    latest_by_key-Keeps s rs k = rw (read_all-Holds codec laws s.file rs k.readable k.holds)

    added-ok :
        (x : Result String (Unit {0}) × Log) (n : ℕ) (f g : MemoryFact C)
        → (added C codec x n f).0 ≡ ok g
        → (x.0 ≡ ok tt) × (g ≡ f) × ((added C codec x n f).1.file ≡ x.1)
    unfolding added
    added-ok (ok u, log) n f g h = (refl, sym (ok_inj h), refl)
    added-ok (err e, log) n f g h = cc

    added-Keeps :
        (s : MemoryStore C) (rs : List (MemoryFact C)) (n : ℕ) (f g : MemoryFact C)
        → Keeps codec s rs
        → (added C codec (Jsonl.append codec s.file f) n f).0 ≡ ok g
        → (g ≡ f) × Keeps codec (added C codec (Jsonl.append codec s.file f) n f).1 (rs ++ f ∷ [])
    unfolding added
    added-Keeps s rs n f g k done =
        let (written, same, file) = added-ok (Jsonl.append codec s.file f) n f g done in
        (
          same,
          record {
            readable = ap (λ l. l.readable) file ∙ readable-append codec laws s.file f ∙ k.readable;
            holds =
                subst (λ l. Holds codec (rs ++ f ∷ []) l.content) (sym file)
                  (append-Holds codec laws s.file rs f k.holds written);
          },
        )

    -- A fact that was remembered counts for its key from then on, with its identifier and time filled
    -- in if they were missing, unless it says that it is deleted; the other keys keep their facts.
    pub remember_lem :
        (s : MemoryStore C) (rs : List (MemoryFact C)) (f g : MemoryFact C)
        → Keeps codec s rs
        → (remember C codec s f).0 ≡ ok g
        → (g ≡ filled C codec s.drawn f)
          × Keeps codec (remember C codec s f).1 (rs ++ g ∷ [])
          × ((key : String)
              → fact_at (rs ++ g ∷ []) key ≡ (
                  if str_eq g.key key
                  then (if g.deleted then none else some g)
                  else fact_at rs key))
    unfolding remember
    remember_lem s rs f g k done =
        let (same, kept) = added-Keeps s rs (suc s.drawn) (filled C codec s.drawn f) g k done in
        (
          same,
          subst
              (λ t.
                Keeps codec
                  (added C codec (Jsonl.append codec s.file (filled C codec s.drawn f))
                    (suc s.drawn) (filled C codec s.drawn f)).1
                  (rs ++ t ∷ []))
              (sym same) kept,
          fact_at-concat rs g,
        )

    find_key-key :
        (key : String) (fs : List (MemoryFact C)) (f : MemoryFact C)
        → find_key C key fs ≡ some f
        → f.key ≡ key
    unfolding find_key
    find_key-key key [] f h = cc
    find_key-key key (g ∷ fs) f h = ground (arith, find_key-key key fs f, eq_iff g.key key)

    then_ok-some :
        (r : Result String (MemoryFact C)) (answer : Option (MemoryFact C))
        → then_ok C r some ≡ ok answer
        → (g : MemoryFact C) × (r ≡ ok g) × (answer ≡ some g)
    then_ok-some (ok g) answer h = (g, refl, sym (ok_inj h))
    then_ok-some (err e) answer h = cc

    -- How a key is forgotten that has a fact, and one that has none.
    pub record Buried (s : MemoryStore C) (rs : List (MemoryFact C)) (key : String)
        (answer : Option (MemoryFact C)) (s' : MemoryStore C) : Type 0 where
      pub previous : MemoryFact C
      pub had : fact_at rs key ≡ some previous
      pub tomb : MemoryFact C
      pub answered : answer ≡ some tomb
      pub kept : Keeps codec s' (rs ++ tomb ∷ [])
      pub gone :
          (k : String) → fact_at (rs ++ tomb ∷ []) k ≡ (if str_eq key k then none else fact_at rs k)

    abbrev pub Forgets :
        MemoryStore C
        → List (MemoryFact C)
        → String
        → Option (MemoryFact C)
        → MemoryStore C
        → Type 0
    Forgets s rs key answer s' =
        ((fact_at rs key ≡ none) × (answer ≡ none) × (s' ≡ s)) ⊎ Buried s rs key answer s'

    bury_lem :
        (s : MemoryStore C) (rs : List (MemoryFact C)) (key : String)
        (answer : Option (MemoryFact C)) (o : Option (MemoryFact C))
        → Keeps codec s rs
        → fact_at rs key ≡ o
        → (bury C codec s o).0 ≡ ok answer
        → Forgets s rs key answer (bury C codec s o).1
    unfolding bury
    bury_lem s rs key answer none k found done = inl (found, sym (ok_inj done), refl)
    bury_lem s rs key answer (some prev) k found done =
        let tomb = tombstone C codec s.drawn prev in
        let (g, added_ok, named) = then_ok-some _ answer done in
        let (same, kept) = added-Keeps s rs (suc s.drawn) tomb g k added_ok in
        inr (record {
          previous = prev;
          had = found;
          tomb = tomb;
          answered = named ∙ ap some same;
          kept = kept;
          gone = λ j.
              fact_at-concat rs tomb j
              ∙ ap (λ t. if str_eq t j then none else fact_at rs j)
                  (find_key-key key (latest C rs) prev found);
        })

    -- `forget` returns a tombstone exactly for a key that has a fact, and then the key has none; the
    -- other keys keep theirs. For a key without a fact it returns nothing and writes nothing.
    pub forget_lem :
        (s : MemoryStore C) (rs : List (MemoryFact C)) (key : String)
        (answer : Option (MemoryFact C))
        → Keeps codec s rs
        → (forget C codec s key).0 ≡ ok answer
        → Forgets s rs key answer (forget C codec s key).1
    unfolding forget forget_among
    forget_lem s rs key answer k done =
        let e = latest_by_key-Keeps s rs k in
        rw (e, forget_among)
          (bury_lem s rs key answer (fact_at rs key) k refl (rw (e, forget_among) at done))

    find_key-hits :
        (q key : String) (fs : List (MemoryFact C))
        → IsApart C fs
        → find_key C key (hits C q fs)
          ≡ and_then (find_key C key fs) (λ f. if is_hit C q f then some f else none)
    unfolding find_key hits
    find_key-hits q key [] h = refl
    find_key-hits q key (f ∷ fs) h =
        ground (arith, find_key-hits q key fs h.1, h.0, eq_iff f.key key)

    -- A search for a text that is not blank finds the fact of a key exactly when the key has one and
    -- the text stands in its key, its value or a tag of it, in lower case.
    pub recall_lem :
        (s : MemoryStore C) (rs : List (MemoryFact C)) (query : String)
        → Keeps codec s rs
        → str_eq (C.to_lowercase (C.trim query)) "" ≡ false
        → (facts : List (MemoryFact C)) × (recall C codec s query ≡ ok facts)
          × ((key : String)
              → find_key C key facts
                ≡ and_then
                    (fact_at rs key)
                    (λ f. if is_hit C (C.to_lowercase (C.trim query)) f then some f else none))
    unfolding recall
    recall_lem s rs query k text =
        let q = C.to_lowercase (C.trim query) in
        (
          hits C q (latest C rs),
          rw (text, latest_by_key-Keeps s rs k),
          λ key. find_key-hits q key (latest C rs) (latest-IsApart C rs),
        )
