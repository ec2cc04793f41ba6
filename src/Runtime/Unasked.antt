-- ===== src/Runtime/Unasked.antt =====
-- The machine under `diagnose_slow_with_mock_planner` of crates/ai-runtime/src/lib.rs.
use saaios.Prelude.{String, ◌≡◌, refl, sym, subst, ap, ◌∙◌, ◌+++◌, Option, none, some, []}
use saaios.Crates.{Crates}
use saaios.Protocol.{Envelope, MessageKind, PolicyVerdict, allow, deny, ask_user}
use saaios.Registry
use saaios.Registry.{ToolExecutor}
use saaios.Policy
use saaios.Policy.{PolicyDecision, PolicyEngine}
use saaios.Runtime.{Services, Rt, draft, fresh, audit}
use saaios.Runtime.Effects.{
  pure, fail, ◌>>=◌, Keeps, keeps_rules, Keeps-bind, Keeps-fail, Keeps-gets-bind, Keeps-pure,
}
use saaios.Runtime.Kept.{Steps, draft-kept, fresh-kept}
use saaios.Runtime.MockPlanner.{
  decision_on, needed, run_allowed, call_allowed, diagnose_slow_with_mock_planner,
}
use saaios.Runtime.Safety.{Endures, IsGuarded, audit-kept, run_tool-kept, steps}
use saaios.Registry.Keyed.{IsKeyed}

module _ (C : Crates) (S : Type 0) where
  module _ (services : Services C S) (P : S → Type 0) (tools : Registry.ToolRegistry C S)
      (policy : PolicyEngine) (keyed : IsKeyed C S tools)
      (lasts : Endures C S P tools policy (λ v. v ≡ allow)) where
    abbrev G : Rt C S → Type 0
    G = IsGuarded C S P tools policy

    abbrev Allowed : String → C.Value → Type 0
    Allowed tool args =
        (found : ToolExecutor C S)
        → Registry.get C S tools tool ≡ some found
        → (Policy.decide C policy found.spec args).verdict ≡ allow

    abbrev stepping : Steps C S services G
    stepping = steps C S services P tools policy keyed lasts

    audited : (env : Envelope C) → Keeps G (audit C S services env)
    audited = audit-kept C S services P tools policy

    run_allowed-kept :
        (id cause call_id : C.Uuid) (tool : String) (v : PolicyVerdict)
        → (v ≡ allow → Allowed tool (C.obj []))
        → Keeps G (run_allowed C S services id cause call_id tool v)
    unfolding run_allowed
    run_allowed-kept id cause call_id tool allow may =
        Keeps-bind _ _ (draft-kept C S services G stepping _ _ _ _) (λ env.
          Keeps-bind _ _ (audited env) (λ _.
            run_tool-kept C S services P tools policy (λ v. v ≡ allow) tool _ id call_id lasts
              (may refl)))
    run_allowed-kept id cause call_id tool deny may = Keeps-fail _
    run_allowed-kept id cause call_id tool ask_user may = Keeps-fail _

    decided :
        (o : Option (ToolExecutor C S)) (args : C.Value) (p : PolicyEngine) (d : PolicyDecision)
        (found : ToolExecutor C S)
        → ◌≡◌ {A = Option PolicyDecision}
            (elim o [ none ↦ none | some tool ↦ some (Policy.decide C p tool.spec args) ])
            (some d)
        → o ≡ some found
        → Policy.decide C p found.spec args ≡ d
    decided none args p d found e at = cc
    decided (some tool) args p d found e at = cc

    -- The verdict that was asked for is the one on the tool that runs.
    decision_on-Allowed :
        (tool : String) (args : C.Value) (r : Rt C S) (d : PolicyDecision)
        → G r
        → decision_on C S services tool args r ≡ some d
        → d.verdict ≡ allow
        → Allowed tool args
    unfolding decision_on
    decision_on-Allowed tool args r d g e v found at =
        let at' = subst (λ t. Registry.get C S t tool ≡ some found) (sym g.same_tools) at in
        let same = decided (Registry.get C S r.tools tool) args r.policy d found e at' in
        subst (λ p. (Policy.decide C p found.spec args).verdict ≡ allow) g.same_policy
          (ap (λ d. d.verdict) same ∙ v)

    needed-kept :
        (id cause call_id : C.Uuid) (tool : String) (o : Option PolicyDecision)
        → ((d : PolicyDecision) → o ≡ some d → d.verdict ≡ allow → Allowed tool (C.obj []))
        → Keeps G (
            needed C S services ("missing " +++ tool) o >>= λ d.
            run_allowed C S services id cause call_id tool d.verdict)
    unfolding needed ◌>>=◌ pure fail
    needed-kept id cause call_id tool none may = record { at = λ r g. g }
    needed-kept id cause call_id tool (some d) may = record {
      at = (run_allowed-kept id cause call_id tool d.verdict (may d refl)).at;
    }

    call_allowed-kept :
        (id cause call_id : C.Uuid) (tool : String)
        → Keeps G (call_allowed C S services id cause call_id tool)
    unfolding call_allowed
    call_allowed-kept id cause call_id tool =
        Keeps-gets-bind _ _ (λ r g.
          needed-kept id cause call_id tool _ (λ d e v. decision_on-Allowed tool _ r d g e v))

    only_needed-kept :
        {A : Type 0} (message : String) (o : Option A) → Keeps G (needed C S services message o)
    unfolding needed
    only_needed-kept message none = Keeps-fail _
    only_needed-kept message (some a) = Keeps-pure _

    drafted :
        (kind : MessageKind) (id : C.Uuid) (cause : Option C.Uuid) (payload : C.Value)
        → Keeps G (draft C S kind id cause payload)
    drafted = draft-kept C S services G stepping

    drawn : Keeps G (fresh C S)
    drawn = fresh-kept C S services G stepping

    pub diagnose_slow-kept : Keeps G (diagnose_slow_with_mock_planner C S services)
    unfolding diagnose_slow_with_mock_planner
    diagnose_slow-kept =
        search (keeps_rules, drafted, drawn, audited, call_allowed-kept, only_needed-kept) depth 60

  -- The diagnosis without a model is guarded like a request: whatever property of the machine every
  -- tool run keeps that the engine allows, it keeps, also when a tool is missing, an assertion fails
  -- or no process is found; the registered tools and the session grants stay as they are. The tools
  -- stand under their own names.
  pub diagnose_slow-IsGuarded :
      (services : Services C S) (P : S → Type 0) (rt : Rt C S)
      → IsKeyed C S rt.tools
      → Endures C S P rt.tools rt.policy (λ v. v ≡ allow)
      → P rt.machine
      → IsGuarded C S P rt.tools rt.policy (diagnose_slow_with_mock_planner C S services rt).1
  diagnose_slow-IsGuarded services P rt keyed lasts p =
      (diagnose_slow-kept services P rt.tools rt.policy keyed lasts).at rt
        (record { machine_ok = p; same_tools = refl; same_policy = refl })
