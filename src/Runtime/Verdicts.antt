-- ===== src/Runtime/Verdicts.antt =====
-- The decisions of the request loop of crates/ai-runtime/src/lib.rs against those of the engine.
use saaios.Prelude.{◌+++◌, String, ◌≡◌, refl, Option, none, some, arith}
use saaios.Crates.{Crates}
use saaios.Protocol.{PolicyVerdict, deny}
use saaios.Registry
use saaios.Registry.{ToolExecutor, ToolSpec}
use saaios.Registry.Keyed.{IsKeyed, get-IsKeyed}
use saaios.Policy
use saaios.Policy.{PolicyEngine, hard_deny, is_dangerous}
use saaios.Runtime.{Rt, decide_call, decide_known, looks_like_injection}

module _ (C : Crates) (S : Type 0) where
  -- The verdict that the engine gives on the tool under a name, and denial where there is none.
  abbrev pub engine_verdict : Rt C S → String → C.Value → PolicyVerdict
  engine_verdict rt tool args = elim (Registry.get C S rt.tools tool) [
    | none ↦ deny
    | some found ↦ (Policy.decide C rt.policy found.spec args).verdict
  ]

  pub engine_verdict-found :
      (rt : Rt C S) (tool : String) (args : C.Value) (found : ToolExecutor C S)
      → Registry.get C S rt.tools tool ≡ some found
      → (Policy.decide C rt.policy found.spec args).verdict ≡ engine_verdict rt tool args
  engine_verdict-found rt tool args found e = rw (e, engine_verdict) refl

  known-eq :
      (rt : Rt C S) (spec : ToolSpec C) (name : String) (args : C.Value)
      → spec.name ≡ name
      → (decide_known C S rt spec name args).verdict ≡ (Policy.decide C rt.policy spec args).verdict
  unfolding decide_known Policy.decide looks_like_injection Policy.looks_like_injection
  known-eq rt spec name args e = ground arith

  found-eq :
      (rt : Rt C S) (name : String) (args : C.Value) (o : Option (ToolExecutor C S))
      → ((found : ToolExecutor C S) → o ≡ some found → found.spec.name ≡ name)
      → (elim o as (λ _. Policy.PolicyDecision) [
        | some tool ↦ decide_known C S rt tool.spec name args
        | none ↦ Policy.decision deny ("unknown tool `" +++ name +++ "`")
      ]).verdict
        ≡ (elim o as (λ _. PolicyVerdict) [
          | none ↦ deny
          | some found ↦ (Policy.decide C rt.policy found.spec args).verdict
        ])
  found-eq rt name args none named = refl
  found-eq rt name args (some tool) named = known-eq rt tool.spec name args (named tool refl)

  -- In a runtime whose tools stand under their own names, the checks that the request loop makes
  -- before it asks the engine change no verdict: the loop's verdict on a call is the engine's verdict
  -- on the tool of that name, and denial for a name without a tool.
  pub decide_call-eq-engine_verdict :
      (rt : Rt C S) (tool : String) (args : C.Value)
      → IsKeyed C S rt.tools
      → (decide_call C S rt tool args).verdict ≡ engine_verdict rt tool args
  unfolding decide_call
  decide_call-eq-engine_verdict rt tool args keyed =
      found-eq rt tool args (Registry.get C S rt.tools tool)
        (λ found e. get-IsKeyed C S rt.tools tool found keyed e)
