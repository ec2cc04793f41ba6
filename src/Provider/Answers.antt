-- ===== src/Provider/Answers.antt =====
-- The answers of the provider chain of crates/model-provider/src/lib.rs.
use saaios.Prelude.{
  ◌≡◌, refl, ap, String, Bool, true, false, Option, List, [], ◌∷◌, ◌++◌, inl, inr, unwrap_or, ◌∙◌,
  subst, append_assoc,
}
use saaios.Crates.{Crates}
use saaios.Protocol.{Result, Result-cases, ok}
use saaios.Conversation.{ChatMessage}
use saaios.Runtime.{ToolDefinition}
use saaios.Runtime.Effects.{
  pure, >>=-ok, Returns, Returns-pure, Returns-bind, Returns-modify, returns_rules,
}
use saaios.Provider.{M, World, ModelProvider, Servers, auto, fresh}
use saaios.Provider.Mock.{mock_complete, mock_progress, mock_provider, calling, answer}
use saaios.Provider.Openai.{ollama, openai_health}
use saaios.Provider.Stream.{openai_provider}
use saaios.Provider.Chain.{
  first_ok, first_ok-answered, first_ok-failed, fallback, chain, build_provider, succeeds, when,
  remote_entry,
}

module _ (C : Crates) where
  fresh-Returns : Returns (fresh C)
  unfolding fresh
  fresh-Returns = record { at = λ w. (_, _, refl) }

  calling-Returns :
      (text : Option String) (name : String) (args : C.Value) → Returns (calling C text name args)
  unfolding calling
  calling-Returns text name args = Returns-bind _ _ fresh-Returns (λ id. Returns-pure _)

  mock_complete-Returns :
      (messages : List ChatMessage) (tools : List (ToolDefinition C))
      → Returns (mock_complete C messages tools)
  unfolding mock_complete answer
  mock_complete-Returns messages tools = search (returns_rules, calling-Returns)

  mock_progress-Returns :
      (messages : List ChatMessage) (tools : List (ToolDefinition C)) (progress : Bool)
      → Returns (mock_progress C messages tools progress)
  unfolding mock_progress
  mock_progress-Returns messages tools progress =
      Returns-bind _ _ (mock_complete-Returns messages tools)
        (λ resp. Returns-bind _ _ (Returns-modify _) (λ _. Returns-pure _))

  module _ {A : Type 0} (call : ModelProvider C → M C A) (qs : List (ModelProvider C))
      (p : ModelProvider C) (h : Returns (call p)) where
    -- One provider that always returns is enough, wherever it stands.
    first_ok-Returns :
        (ps : List (ModelProvider C)) (last_err : String)
        → Returns (first_ok C call last_err (ps ++ p ∷ qs))
    first_ok-Returns [] last_err = record {
      at = λ w.
          let (a, w', e) = h.at w in
          let answered : (call p w).0 ≡ ok a = ap (λ (y : Result String A × World C). y.0) e in
          (a, (call p w).1, first_ok-answered C call last_err p qs w a answered);
    }
    first_ok-Returns (q ∷ ps) last_err = record {
      at = λ w. elim (Result-cases (call q w).0) [
        | inl (a, e) ↦ (a, (call q w).1, first_ok-answered C call last_err q _ w a e)
        | inr (why, e) ↦
            let (a, w', r) = (first_ok-Returns ps why).at (call q w).1 in
            (a, w', first_ok-failed C call last_err q _ w why e ∙ r)
      ];
    }

  succeeds-Returns : (m : M C (Unit {0})) → Returns (succeeds C m)
  unfolding succeeds
  succeeds-Returns m = record {
    at = λ w. elim (Result-cases (m w).0) [
      | inl (a, e) ↦ (true, (m w).1, rw (succeeds, e) refl)
      | inr (why, e) ↦ (false, (m w).1, rw (succeeds, e) refl)
    ];
  }

  -- The mock stands last in the chain.
  chain-Returns :
      {A : Type 0} (call : ModelProvider C → M C A) (servers : Servers C) (healthy : Bool)
      (l : ModelProvider C) (base key : Option String) (model last_err : String)
      → Returns (call (mock_provider C))
      → Returns (first_ok C call last_err (chain C servers healthy l base key model))
  chain-Returns call servers healthy l base key model last_err h =
      subst (λ ps. Returns (first_ok C call last_err ps))
        (append_assoc (when C healthy l) (remote_entry C servers base key model)
          (mock_provider C ∷ []))
        (first_ok-Returns call [] (mock_provider C) h _ last_err)

  -- It builds a provider every completion of which returns a response, as long as no channel for
  -- deltas is given.
  abbrev pub AlwaysAnswers : M C (ModelProvider C) → World C → Type 0
  AlwaysAnswers build w =
      (p : ModelProvider C) × (w' : World C) × (build w ≡ (ok p, w'))
      × ((messages : List ChatMessage) (tools : List (ToolDefinition C))
          → Returns (p.complete messages tools))
      × ((messages : List ChatMessage) (tools : List (ToolDefinition C))
          → Returns (p.complete_with_progress messages tools false))

  -- The provider that `auto` builds always answers without streaming: whatever the servers reply, also
  -- if none can be reached, building it succeeds, and every `complete`, and every
  -- `complete_with_progress` without a channel for deltas, returns a response.
  pub build_provider-auto :
      (servers : Servers C) (base key model lbase lmodel : Option String) (w : World C)
      → AlwaysAnswers (build_provider C servers auto base key model lbase lmodel) w
  unfolding build_provider
  build_provider-auto servers base key model lbase lmodel w =
      let config =
        ollama (unwrap_or lbase "http://127.0.0.1:11434/v1") (unwrap_or lmodel "llama3.2") in
      let server = openai_provider C servers config in
      let m = unwrap_or model "gpt-4o-mini" in
      let (healthy, w', e) = (succeeds-Returns (openai_health C servers config)).at w in
      (
        fallback C (chain C servers healthy server base key m),
        w',
        >>=-ok _ _ w w' healthy e ∙ (unfold pure in refl),
        λ messages tools.
            chain-Returns _ servers healthy server base key m _
              (mock_complete-Returns messages tools),
        λ messages tools.
            chain-Returns _ servers healthy server base key m _
              (mock_progress-Returns messages tools false),
      )
