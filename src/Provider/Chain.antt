-- ===== src/Provider/Chain.antt =====
-- `FallbackProvider` and `build_provider` of crates/model-provider/src/lib.rs.
use saaios.Prelude.{
  ◌≡◌, refl, String, Bool, true, false, Option, none, some, List, [], ◌∷◌, ◌++◌, unwrap_or, ◌+++◌,
}
use saaios.Crates.{Crates}
use saaios.Protocol.{ok, err}
use saaios.Runtime.Effects.{pure, fail, ◌>>=◌}
use saaios.Provider.{ProviderKind, mock, remote, local, auto, M, World, ModelProvider, Servers}
use saaios.Provider.Mock.{mock_provider}
use saaios.Provider.Openai
use saaios.Provider.Openai.{ollama, openai_health}
use saaios.Provider.Stream.{openai_provider}

module _ (C : Crates) where
  module _ {A : Type 0} (call : ModelProvider C → M C A) where
    -- The loop over the providers, with the error of the last one that failed.
    unfoldable pub first_ok : String → List (ModelProvider C) → M C A
    first_ok last_err [] w = (err last_err, w)
    first_ok last_err (p ∷ ps) w =
        let (x, w') = call p w in elim x [ ok a ↦ (ok a, w') | err e ↦ first_ok e ps w' ]

    pub first_ok-answered :
        (last_err : String) (p : ModelProvider C) (ps : List (ModelProvider C)) (w : World C)
        (a : A)
        → (call p w).0 ≡ ok a
        → first_ok last_err (p ∷ ps) w ≡ (ok a, (call p w).1)
    unfolding first_ok
    first_ok-answered last_err p ps w a e = rw (first_ok, e) refl

    pub first_ok-failed :
        (last_err : String) (p : ModelProvider C) (ps : List (ModelProvider C)) (w : World C)
        (why : String)
        → (call p w).0 ≡ err why
        → first_ok last_err (p ∷ ps) w ≡ first_ok why ps (call p w).1
    unfolding first_ok
    first_ok-failed last_err p ps w why e = rw (first_ok, e) refl

  unfoldable pub any_healthy : List (ModelProvider C) → M C (Unit {0})
  any_healthy [] w = (err "no healthy providers in fallback chain", w)
  any_healthy (p ∷ ps) w =
      let (x, w') = p.health_check w in elim x [ ok a ↦ (ok tt, w') | err e ↦ any_healthy ps w' ]

  abbrev pub fallback : List (ModelProvider C) → ModelProvider C
  fallback providers = record {
    name = "fallback";
    health_check = any_healthy providers;
    complete = λ messages tools.
        first_ok (λ p. p.complete messages tools) "fallback provider chain empty" providers;
    complete_with_progress = λ messages tools progress.
        first_ok (λ p. p.complete_with_progress messages tools progress)
          "fallback provider chain empty" providers;
  }

  required : String → Option String → M C String
  required what none = fail (what +++ " required")
  required what (some s) = pure s

  -- `is_ok()`
  unfoldable pub succeeds : M C (Unit {0}) → M C Bool
  succeeds m w = let (x, w') = m w in elim x [ ok a ↦ (ok true, w') | err e ↦ (ok false, w') ]

  abbrev pub when : Bool → ModelProvider C → List (ModelProvider C)
  when true p = p ∷ []
  when false p = []

  module _ (servers : Servers C) where
    abbrev pub remote_entry : Option String → Option String → String → List (ModelProvider C)
    remote_entry (some base) (some key) model =
        openai_provider C servers (Openai.remote base key model) ∷ []
    remote_entry _ _ model = []

    -- The servers in the order in which they are tried, and the mock behind them.
    abbrev pub chain :
        Bool → ModelProvider C → Option String → Option String → String → List (ModelProvider C)
    chain healthy local_server base key model =
        when healthy local_server ++ (remote_entry base key model ++ mock_provider C ∷ [])

    unfoldable pub build_provider :
        ProviderKind
        → (remote_base remote_key remote_model : Option String)
        → (local_base local_model : Option String) → M C (ModelProvider C)
    unfolding required
    build_provider mock base key model lbase lmodel = pure (mock_provider C)
    build_provider remote base key model lbase lmodel = do
      api_base ← required "remote api base" base
      api_key ← required "remote api key" key
      pure (
          openai_provider C servers
            (Openai.remote api_base api_key (unwrap_or model "gpt-4o-mini")))
    build_provider local base key model lbase lmodel = do
      let config =
          ollama (unwrap_or lbase "http://127.0.0.1:11434/v1") (unwrap_or lmodel "llama3.2")
      healthy ← succeeds (openai_health C servers config)
      pure (openai_provider C servers config)
    build_provider auto base key model lbase lmodel = do
      let config =
          ollama (unwrap_or lbase "http://127.0.0.1:11434/v1") (unwrap_or lmodel "llama3.2")
      healthy ← succeeds (openai_health C servers config)
      pure (
          fallback (
            chain healthy (openai_provider C servers config) base key
              (unwrap_or model "gpt-4o-mini")))
