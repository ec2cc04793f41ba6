-- ===== src/Runtime/Answers.antt =====
-- What an answer to a confirmation request may change, in crates/ai-runtime/src/lib.rs.
use saaios.Prelude.{String, ◌≡◌, ◌≢◌, refl, sym, ◌∙◌, ap, subst, Option, some}
use saaios.Crates.{Crates}
use saaios.Protocol.{deny, ConfirmScope, once, cancel, Envelope}
use saaios.Registry
use saaios.Registry.{ToolExecutor, ToolRegistry}
use saaios.Policy
use saaios.Policy.{PolicyEngine}
use saaios.Policy.Guards.{denied_everywhere}
use saaios.Runtime.{Services, Rt, emit}
use saaios.Runtime.Effects.{Keeps}
use saaios.Runtime.Handle.{run_tool}
use saaios.Runtime.Confirm.{reconsidered, confirm_in_session}
use saaios.Runtime.Answered.{Steps, confirm-kept}
use saaios.Runtime.Safety.{Endures, IsGuarded, emit-kept, run_tool-kept}

module _ (C : Crates) (S : Type 0) where
  reconsidered-found :
      (services : Services C S) (tool : String) (args : C.Value) (r : Rt C S)
      (found : ToolExecutor C S)
      → Registry.get C S r.tools tool ≡ some found
      → reconsidered C S services tool args r
        ≡ some (Policy.decide C r.policy found.spec args).verdict
  unfolding reconsidered Policy.decide
  reconsidered-found services tool args r found e = rw (e, reconsidered) refl

  module _ (services : Services C S) (P : S → Type 0) (tools : ToolRegistry C S)
      (policy : PolicyEngine) where
    abbrev G : Rt C S → Type 0
    G = IsGuarded C S P tools policy

    run_kept :
        (r : Rt C S) (tool : String) (args : C.Value) (id call_id : C.Uuid)
        → Endures C S P tools policy (λ v. v ≢ deny)
        → G r
        → reconsidered C S services tool args r ≢ some deny
        → Keeps G (run_tool C S services id call_id tool args)
    run_kept r tool args id call_id lasts g n =
        run_tool-kept C S services P tools policy (λ v. v ≢ deny) tool args id call_id lasts
          (λ found e d. n (
            reconsidered-found services tool args r found
              (ap (λ t. Registry.get C S t tool) g.same_tools ∙ e)
            ∙ ap (λ q. some (Policy.decide C q found.spec args).verdict) g.same_policy
            ∙ ap some d))

    same :
        (r r' : Rt C S)
        → G r
        → r'.machine ≡ r.machine
        → r'.tools ≡ r.tools
        → r'.policy ≡ r.policy
        → G r'
    same r r' g m t p = record {
      machine_ok = subst P (sym m) g.machine_ok;
      same_tools = t ∙ g.same_tools;
      same_policy = p ∙ g.same_policy;
    }

    once_steps : Endures C S P tools policy (λ v. v ≢ deny) → Steps C S services G once
    once_steps lasts = record {
      on_advance = λ r g. same r _ g refl refl refl;
      on_emit = emit-kept C S services P tools policy;
      on_append = λ id m r g. same r _ g refl refl refl;
      on_grant = λ tool r e g. cc;
      on_run = λ r tool args id call_id n g d. run_kept r tool args id call_id lasts g d;
    }

    cancel_steps : Steps C S services G cancel
    cancel_steps = record {
      on_advance = λ r g. same r _ g refl refl refl;
      on_emit = emit-kept C S services P tools policy;
      on_append = λ id m r g. same r _ g refl refl refl;
      on_grant = λ tool r e g. cc;
      on_run = λ r tool args id call_id n g d. absurd (n refl);
    }

  module _ (services : Services C S) (P : S → Type 0) (tools : ToolRegistry C S)
      (policy : PolicyEngine) where
    -- With whatever grants the runtime has by now.
    abbrev pub MachineKept : Rt C S → Type 0
    MachineKept r = P r.machine × (r.tools ≡ tools)

    -- Grants lift no denial, so they do not matter here.
    pub under_any :
        (q : PolicyEngine)
        → Endures C S P tools policy (λ v. v ≢ deny)
        → Endures C S P tools q (λ v. v ≢ deny)
    under_any q lasts name found args ctx s e v ps =
        lasts name found args ctx s e
          (λ d. v (ap (λ x. x.verdict) (denied_everywhere C policy q found.spec args d) ∙ d)) ps

    run-MachineKept :
        (r : Rt C S) (tool : String) (args : C.Value) (id call_id : C.Uuid)
        → Endures C S P tools policy (λ v. v ≢ deny)
        → MachineKept r
        → reconsidered C S services tool args r ≢ some deny
        → Keeps MachineKept (run_tool C S services id call_id tool args)
    run-MachineKept r tool args id call_id lasts (p, t) n = record {
      at = λ q (pq, tq).
          (let kept =
              (run_tool-kept C S services P tools q.policy (λ v. v ≢ deny) tool args id call_id
                  (under_any q.policy lasts)
                  (λ found e d. n (
                    reconsidered-found services tool args r found
                      (ap (λ t. Registry.get C S t tool) t ∙ e)
                    ∙ ap some (
                        ap (λ x. x.verdict)
                          (denied_everywhere C q.policy r.policy found.spec args d)
                        ∙ d)))).at
                q (record { machine_ok = pq; same_tools = tq; same_policy = refl }) in
            (kept.machine_ok, kept.same_tools));
    }

    emit-MachineKept : (env : Envelope C) → Keeps MachineKept (emit C S services env)
    emit-MachineKept env = record {
      at = λ q (pq, tq).
          (let kept =
              (emit-kept C S services P tools q.policy env).at q
                (record { machine_ok = pq; same_tools = tq; same_policy = refl }) in
            (kept.machine_ok, kept.same_tools));
    }

    steps-MachineKept :
        (scope : ConfirmScope)
        → Endures C S P tools policy (λ v. v ≢ deny)
        → Steps C S services MachineKept scope
    steps-MachineKept scope lasts = record {
      on_advance = λ r g. g;
      on_emit = emit-MachineKept;
      on_append = λ id m r g. g;
      on_grant = λ tool r e g. g;
      on_run = λ r tool args id call_id n g d. run-MachineKept r tool args id call_id lasts g d;
    }

  -- A cancellation changes nothing of the machine, of the registered tools, or of the grants.
  pub confirm-cancel :
      (services : Services C S) (rt : Rt C S) (id : C.Uuid) (session_id : Option C.Uuid)
      (call_id : C.Uuid) (tool : String) (args : C.Value)
      → IsGuarded C S
          (λ s. s ≡ rt.machine)
          rt.tools
          rt.policy
          (confirm_in_session C S services id session_id call_id tool args cancel rt).1
  confirm-cancel services rt id session_id call_id tool args =
      (confirm-kept C S services (IsGuarded C S (λ s. s ≡ rt.machine) rt.tools rt.policy)
          (cancel_steps services (λ s. s ≡ rt.machine) rt.tools rt.policy) id session_id call_id
          tool args).at
        rt (record { machine_ok = refl; same_tools = refl; same_policy = refl })

  -- A confirmation for once keeps whatever property of the machine every tool run keeps that the
  -- engine does not deny, and it leaves the registered tools and the grants as they were.
  pub confirm-once :
      (services : Services C S) (P : S → Type 0) (rt : Rt C S) (id : C.Uuid)
      (session_id : Option C.Uuid) (call_id : C.Uuid) (tool : String) (args : C.Value)
      → Endures C S P rt.tools rt.policy (λ v. v ≢ deny)
      → P rt.machine
      → IsGuarded C S P rt.tools rt.policy
          (confirm_in_session C S services id session_id call_id tool args once rt).1
  confirm-once services P rt id session_id call_id tool args lasts p =
      (confirm-kept C S services (IsGuarded C S P rt.tools rt.policy)
          (once_steps services P rt.tools rt.policy lasts) id session_id call_id tool args).at
        rt (record { machine_ok = p; same_tools = refl; same_policy = refl })

  -- No answer of any scope lets a denied call run: whatever property of the machine every tool run
  -- keeps that the engine does not deny, an answer keeps, also where it grants the tool for the
  -- session; and the registered tools stay.
  pub confirm-Endures :
      (services : Services C S) (P : S → Type 0) (rt : Rt C S) (id : C.Uuid)
      (session_id : Option C.Uuid) (call_id : C.Uuid) (tool : String) (args : C.Value)
      (scope : ConfirmScope)
      → Endures C S P rt.tools rt.policy (λ v. v ≢ deny)
      → P rt.machine
      → MachineKept services P rt.tools rt.policy
          (confirm_in_session C S services id session_id call_id tool args scope rt).1
  confirm-Endures services P rt id session_id call_id tool args scope lasts p =
      (confirm-kept C S services (MachineKept services P rt.tools rt.policy)
          (steps-MachineKept services P rt.tools rt.policy scope lasts) id session_id call_id tool
          args).at
        rt (p, refl)
