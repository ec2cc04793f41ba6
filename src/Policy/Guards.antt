-- ===== src/Policy/Guards.antt =====
-- The guards of crates/policy-engine/src/lib.rs: its denials and its allowances.
use saaios.Prelude.{◌≡◌, ◌<◌, ◌⊎◌, true, false, some, arith, ◌↔◌, eq_iff}
use saaios.Crates.{Crates}
use saaios.Protocol.{allow, deny}
use saaios.Registry.{ToolSpec, low, medium}
use saaios.Policy.{
  PolicyEngine, new, decide, decide_named, by_risk, has_session_grant, hard_deny, is_dangerous,
  looks_like_injection, target_pid,
}

module _ (C : Crates) where
  -- Whether a call is denied does not depend on the engine's state: on grants made or cleared, nor
  -- on whether its lock is poisoned.
  pub denied_everywhere :
      (e e' : PolicyEngine) (spec : ToolSpec C) (args : C.Value)
      → (decide C e spec args).verdict ≡ deny
      → decide C e' spec args ≡ decide C e spec args
  unfolding decide by_risk
  denied_everywhere e e' spec args h = ground arith

  -- For the tool's own declaration, the stateless `decide_named` decides as a fresh engine does.
  pub decide_named-eq-decide :
      (spec : ToolSpec C) (args : C.Value)
      → decide_named C spec.name (some spec) args ≡ decide C new spec args
  unfolding decide_named decide
  decide_named-eq-decide spec args = ground arith

  -- What an allowance rests on: no guard applies, and the tool has a grant or is of low or medium
  -- risk and asks for no confirmation.
  pub record IsAllowed (e : PolicyEngine) (spec : ToolSpec C) (args : C.Value) : Type 0 where
    pub not_hard_denied : hard_deny spec.name ≡ false
    pub clean : is_dangerous spec.name ≡ true → looks_like_injection C args ≡ false
    pub above_init : spec.name ≡ "process.kill_request" → 1 < target_pid C args
    pub granted_or_harmless :
        (has_session_grant e spec.name ≡ true)
        ⊎ ((spec.requires_confirmation ≡ false) × ((spec.risk ≡ low) ⊎ (spec.risk ≡ medium)))

  -- A call is allowed exactly when `IsAllowed` holds of it.
  pub allow_iff :
      (e : PolicyEngine) (spec : ToolSpec C) (args : C.Value)
      → ((decide C e spec args).verdict ≡ allow) ↔ IsAllowed e spec args
  unfolding decide by_risk
  allow_iff e spec args = (
    λ h. record {
      not_hard_denied = ground arith;
      clean = λ d. ground arith;
      above_init = λ k. ground (arith, eq_iff spec.name "process.kill_request");
      granted_or_harmless = ground arith;
    },
    λ a. ground (
      arith,
      a.not_hard_denied,
      a.clean,
      a.above_init,
      a.granted_or_harmless,
      eq_iff spec.name "process.kill_request",
    ),
  )
