-- ===== src/Memory/Installed.antt =====
-- What a call of a memory tool does to the facts that count.
use saaios.Prelude.{
  suc, String, ◌≡◌, refl, sym, ap, ◌∙◌, subst, Option, Option-cases, inl, inr, some, List, [], ◌∷◌,
  ◌++◌, eq_refl, is_some,
}
use saaios.Crates.{Crates}
use saaios.Protocol.{Result, ok, err, ok_inj}
use saaios.Jsonl.{Codec}
use saaios.Jsonl.Records.{IsCodec}
use saaios.Registry.{ToolContext, ToolOutput}
use saaios.Memory.{MemoryFact, MemoryStore, remember, forget, fact}
use saaios.Memory.Recall.{Keeps, fact_at, remember_lem, forget_lem, Forgets}
use saaios.Memory.Tools.{text_at, tags_at, remember_run, forget_run, tool_fact, finished}

module _ (C : Crates) (codec : Codec (MemoryFact C)) (laws : IsCodec codec)
    (fact_value : MemoryFact C → C.Value) where
  -- The facts after a call that remembers: one more, which is the fact of its key.
  pub record Remembered (args : C.Value) (rs : List (MemoryFact C)) (s' : MemoryStore C)
      : Type 0 where
    pub key : String
    pub new_fact : MemoryFact C
    pub key_given : text_at C args "key" ≡ some key
    pub value_given : text_at C args "value" ≡ some new_fact.value
    pub tags_given : new_fact.tags ≡ tags_at C args
    pub kept : Keeps C codec s' (rs ++ new_fact ∷ [])
    pub found : fact_at C (rs ++ new_fact ∷ []) key ≡ some new_fact

  finished-ok :
      {A : Type 0} (x : Result String A × MemoryStore C) (f : A → C.Value) (out : ToolOutput C)
      → (finished C codec fact_value x f).0 ≡ ok out
      → (a : A) × (x.0 ≡ ok a) × ((finished C codec fact_value x f).1 ≡ x.1) × (out.value ≡ f a)
  finished-ok (ok a, s) f out h = (a, refl, refl, ap (λ o. o.value) (sym (ok_inj h)))
  finished-ok (err e, s) f out h = cc

  Remembered-from :
      (s : MemoryStore C) (rs : List (MemoryFact C)) (args : C.Value) (key value : String)
      (out : ToolOutput C)
      → Keeps C codec s rs
      → text_at C args "key" ≡ some key
      → text_at C args "value" ≡ some value
      → (finished C codec fact_value
          (remember C codec
            (record s { drawn = suc s.drawn })
            (tool_fact C codec fact_value s.drawn key value (tags_at C args)))
          fact_value).0
        ≡ ok out
      → Remembered args rs
          (finished C codec fact_value
            (remember C codec
              (record s { drawn = suc s.drawn })
              (tool_fact C codec fact_value s.drawn key value (tags_at C args)))
            fact_value).1
  unfolding fact
  Remembered-from s rs args key value out k e e' done =
      let f = tool_fact C codec fact_value s.drawn key value (tags_at C args) in
      let s1 : MemoryStore C = record s { drawn = suc s.drawn } in
      let (g, ok_g, at_end, _) = finished-ok (remember C codec s1 f) fact_value out done in
      let (same, kept, facts) =
        remember_lem C codec laws s1 rs f g (record { readable = k.readable; holds = k.holds })
          ok_g in
      record {
        key = key;
        new_fact = g;
        key_given = e;
        value_given = e' ∙ ap (λ h. some h.value) (sym same);
        tags_given = ap (λ h. h.tags) same;
        kept = subst (λ t. Keeps C codec t (rs ++ g ∷ [])) (sym at_end) kept;
        found = facts key ∙ (rw (ap (λ h. h.key) same, eq_refl key, ap (λ h. h.deleted) same) refl);
      }

  -- A call of memory.remember that succeeds leaves a store in which the fact of the given key has the
  -- given value and tags.
  pub remember_run_lem :
      (s : MemoryStore C) (rs : List (MemoryFact C)) (args : C.Value) (ctx : ToolContext C)
      (out : ToolOutput C)
      → Keeps C codec s rs
      → (remember_run C codec fact_value args ctx s).0 ≡ ok out
      → Remembered args rs (remember_run C codec fact_value args ctx s).1
  unfolding remember_run
  remember_run_lem s rs args ctx out k done = elim (Option-cases (text_at C args "key")) [
    | inl e ↦ absurd (let h = rw (e, remember_run) at done in cc)
    | inr (key, e) ↦ elim (Option-cases (text_at C args "value")) [
      | inl e' ↦ absurd (let h = rw (e, e', remember_run) at done in cc)
      | inr (value, e') ↦
          rw (e, e', remember_run)
            (Remembered-from s rs args key value out k e e' (rw (e, e', remember_run) at done))
    ]
  ]

  answered-had :
      (s s' : MemoryStore C) (rs : List (MemoryFact C)) (key : String)
      (answer : Option (MemoryFact C))
      → Forgets C codec laws s rs key answer s'
      → is_some answer ≡ is_some (fact_at C rs key)
  answered-had s s' rs key answer (inl (n, a, _)) = rw (n, a) refl
  answered-had s s' rs key answer (inr b) = rw (b.had, b.answered) refl

  abbrev told : String → Option (MemoryFact C) → C.Value
  told key tomb = C.obj (("forgotten", C.bool (is_some tomb)) ∷ ("key", C.str key) ∷ [])

  Forgets-from :
      (s : MemoryStore C) (rs : List (MemoryFact C)) (key : String) (out : ToolOutput C)
      → Keeps C codec s rs
      → (finished C codec fact_value (forget C codec s key) (told key)).0 ≡ ok out
      → (key' : String) × (answer : Option (MemoryFact C)) × (some key ≡ some key')
        × Forgets C codec laws s rs key' answer
            (finished C codec fact_value (forget C codec s key) (told key)).1
        × (out.value
            ≡ C.obj
                (("forgotten", C.bool (is_some (fact_at C rs key'))) ∷ ("key", C.str key') ∷ []))
  Forgets-from s rs key out k done =
      let (answer, ok_a, at_end, value) = finished-ok (forget C codec s key) (told key) out done in
      let gone = forget_lem C codec laws s rs key answer k ok_a in
      (
        key,
        answer,
        refl,
        subst (Forgets C codec laws s rs key answer) (sym at_end) gone,
        value
            ∙ ap (λ b. C.obj (("forgotten", C.bool b) ∷ ("key", C.str key) ∷ []))
                (answered-had s (forget C codec s key).1 rs key answer gone),
      )

  -- A call of memory.forget that succeeds leaves the facts as `Forgets` says, and its output says
  -- whether the key had a fact.
  pub forget_run_lem :
      (s : MemoryStore C) (rs : List (MemoryFact C)) (args : C.Value) (ctx : ToolContext C)
      (out : ToolOutput C)
      → Keeps C codec s rs
      → (forget_run C codec fact_value args ctx s).0 ≡ ok out
      → (key : String) × (answer : Option (MemoryFact C)) × (text_at C args "key" ≡ some key)
        × Forgets C codec laws s rs key answer (forget_run C codec fact_value args ctx s).1
        × (out.value
            ≡ C.obj (("forgotten", C.bool (is_some (fact_at C rs key))) ∷ ("key", C.str key) ∷ []))
  unfolding forget_run
  forget_run_lem s rs args ctx out k done = elim (Option-cases (text_at C args "key")) [
    | inl e ↦ absurd (let h = rw (e, forget_run) at done in cc)
    | inr (key, e) ↦ rw (e, forget_run) (Forgets-from s rs key out k (rw (e, forget_run) at done))
  ]
