-- ===== src/Runtime/Safety.antt =====
-- The machine under a request of crates/ai-runtime/src/lib.rs.
use saaios.Prelude.{
  Bool-cases, not, ◌&&◌, String, ◌≡◌, refl, sym, ◌∙◌, ap, subst, Option, none, some, inl, inr,
}
use saaios.Crates.{Crates}
use saaios.Protocol.{Envelope, PolicyVerdict, allow, Result, ok, err}
use saaios.Registry
use saaios.Registry.{
  ToolExecutor, ToolRegistry, ToolContext, ToolOutput, ToolError, run_checked, unknown,
}
use saaios.Policy
use saaios.Policy.{PolicyEngine}
use saaios.Runtime.{Services, Rt, emit, audit, publish, decide_call}
use saaios.Runtime.Effects.{Keeps, Keeps-bind, Keeps-modify}
use saaios.Runtime.Handle.{run_tool, ran}
use saaios.Runtime.Requests.{handle_user_text_in_session}
use saaios.Runtime.Kept.{Steps, handle_user_text-kept}
use saaios.Runtime.Verdicts.{engine_verdict-found, decide_call-eq-engine_verdict}
use saaios.Registry.Keyed.{IsKeyed}

module _ (C : Crates) (S : Type 0) where
  -- `P` outlives every run of a registered tool on arguments about which the engine says `verdict`.
  abbrev pub Endures :
      (S → Type 0) → ToolRegistry C S → PolicyEngine → (PolicyVerdict → Type 0) → Type 0
  Endures P tools policy V =
      (name : String) (tool : ToolExecutor C S) (args : C.Value) (ctx : ToolContext C) (s : S)
      → Registry.get C S tools name ≡ some tool
      → V (Policy.decide C policy tool.spec args).verdict
      → P s
      → P (tool.run args ctx s).1

  -- The machine has `P`, and neither the tools nor the grants have changed.
  pub record IsGuarded (P : S → Type 0) (tools : ToolRegistry C S) (policy : PolicyEngine)
      (r : Rt C S) : Type 0 where
    pub machine_ok : P r.machine
    pub same_tools : r.tools ≡ tools
    pub same_policy : r.policy ≡ policy

  module _ (services : Services C S) (P : S → Type 0) (tools : ToolRegistry C S)
      (policy : PolicyEngine) where
    abbrev G : Rt C S → Type 0
    G = IsGuarded P tools policy

    pub audit-kept : (env : Envelope C) → Keeps G (audit C S services env)
    unfolding audit
    audit-kept env = record {
      at = λ r g. record {
        machine_ok = g.machine_ok;
        same_tools = g.same_tools;
        same_policy = g.same_policy;
      };
    }

    pub emit-kept : (env : Envelope C) → Keeps G (emit C S services env)
    unfolding emit publish
    emit-kept env = Keeps-bind _ _ (audit-kept env) (λ _. Keeps-modify _ (λ r g. record {
      machine_ok = g.machine_ok;
      same_tools = g.same_tools;
      same_policy = g.same_policy;
    }))

    ran-kept :
        (x : Result ToolError (ToolOutput C) × S) (r : Rt C S)
        → P x.1
        → G r
        → G (ran C S services x r).1
    unfolding ran
    ran-kept (ok output, s) r p g = record {
      machine_ok = p;
      same_tools = g.same_tools;
      same_policy = g.same_policy;
    }
    ran-kept (err e, s) r p g = record {
      machine_ok = p;
      same_tools = g.same_tools;
      same_policy = g.same_policy;
    }

    run_checked-kept :
        (tool : ToolExecutor C S) (args : C.Value) (ctx : ToolContext C) (s : S)
        → P s
        → P (tool.run args ctx s).1
        → P (run_checked C S tool args ctx s).1
    unfolding run_checked
    run_checked-kept tool args ctx s p q =
        elim (Bool-cases (not (C.is_object args) && not (C.is_null args))) [
          | inl e ↦ rw e p
          | inr e ↦ rw e q
        ]

    executed-kept :
        (o : Option (ToolExecutor C S)) (name : String) (args : C.Value) (ctx : ToolContext C)
        (s : S)
        → ((found : ToolExecutor C S) → o ≡ some found → P (found.run args ctx s).1)
        → P s
        → P
            (elim o as (λ _. Result ToolError (ToolOutput C) × S) [
              | none ↦ (err (unknown name), s)
              | some tool ↦ run_checked C S tool args ctx s
            ]).1
    executed-kept none name args ctx s h p = p
    executed-kept (some tool) name args ctx s h p = run_checked-kept tool args ctx s p (h tool refl)

    pub run_tool-kept :
        (V : PolicyVerdict → Type 0) (name : String) (args : C.Value) (id call_id : C.Uuid)
        → Endures P tools policy V
        → ((found : ToolExecutor C S)
            → Registry.get C S tools name ≡ some found
            → V (Policy.decide C policy found.spec args).verdict)
        → Keeps G (run_tool C S services id call_id name args)
    unfolding run_tool Registry.execute
    run_tool-kept V name args id call_id lasts may = record {
      at = λ r g.
          ran-kept _ r
            (executed-kept (Registry.get C S r.tools name) name args _ r.machine
              (λ found e.
                let e' = subst (λ t. Registry.get C S t name ≡ some found) g.same_tools e in
                lasts name found args _ r.machine e' (may found e') g.machine_ok)
              g.machine_ok)
            g;
    }

    allowed-by :
        (r : Rt C S) (tool : String) (args : C.Value)
        → IsKeyed C S tools
        → G r
        → (decide_call C S r tool args).verdict ≡ allow
        → (found : ToolExecutor C S) → Registry.get C S tools tool ≡ some found
        → (Policy.decide C policy found.spec args).verdict ≡ allow
    allowed-by r tool args keyed g v found e =
        subst (λ e. (Policy.decide C e found.spec args).verdict ≡ allow) g.same_policy
          (engine_verdict-found C S r tool args found
              (ap (λ t. Registry.get C S t tool) g.same_tools ∙ e)
            ∙ sym (
                decide_call-eq-engine_verdict C S r tool args
                  (subst (IsKeyed C S) (sym g.same_tools) keyed))
            ∙ v)

    pub steps : IsKeyed C S tools → Endures P tools policy (λ v. v ≡ allow) → Steps C S services G
    steps keyed lasts = record {
      on_advance = λ r g. record {
        machine_ok = g.machine_ok;
        same_tools = g.same_tools;
        same_policy = g.same_policy;
      };
      on_emit = emit-kept;
      on_save = λ id messages r g. record {
        machine_ok = g.machine_ok;
        same_tools = g.same_tools;
        same_policy = g.same_policy;
      };
      on_run = λ r tool args id call_id g v.
          run_tool-kept (λ v. v ≡ allow) tool args id call_id lasts
            (λ found e. allowed-by r tool args keyed g v found e);
    }

  -- The policy guards the machine: whatever property of the machine every tool run keeps that the
  -- engine allows, a whole request of the user keeps, whatever the model answers, and also when the
  -- request fails; and a request changes neither the registered tools nor the session grants. The
  -- tools stand under their own names.
  pub handle_user_text-IsGuarded :
      (services : Services C S) (P : S → Type 0) (rt : Rt C S) (text : String)
      (session_id : Option C.Uuid)
      → IsKeyed C S rt.tools
      → Endures P rt.tools rt.policy (λ v. v ≡ allow)
      → P rt.machine
      → IsGuarded P rt.tools rt.policy
          (handle_user_text_in_session C S services text session_id rt).1
  handle_user_text-IsGuarded services P rt text session_id keyed lasts p =
      (handle_user_text-kept C S services (IsGuarded P rt.tools rt.policy)
          (steps services P rt.tools rt.policy keyed lasts) text session_id
          (λ n r g. record {
            machine_ok = g.machine_ok;
            same_tools = g.same_tools;
            same_policy = g.same_policy;
          })).at
        rt (record { machine_ok = p; same_tools = refl; same_policy = refl })
