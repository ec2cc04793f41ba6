-- ===== src/Tests/Runtime.antt =====
-- The request loop and the answers of crates/ai-runtime/src/lib.rs on a small machine.
use saaios.Prelude.{
  true, false, ◌≡◌, ◌≢◌, refl, sym, subst, Bool-cases, str_eq, inl, inr, Option, none, some, List,
  [], ◌∷◌, map, arith,
}
use saaios.Prelude.Dict
use saaios.Protocol.{
  PolicyVerdict, allow, deny, ask_user, once, session, cancel, MessageKind, Result, ok, err,
}
use saaios.Registry
use saaios.Registry.{ToolExecutor, ToolContext}
use saaios.Policy
use saaios.Samples.Tiny.{tiny}
use saaios.Samples.Codecs.{audit_codec-IsCodec}
use saaios.Samples.Host.{Machine, host, host_tools, host_services, poweroff_tool}
use saaios.Registry.Keyed.{IsKeyed}
use saaios.Conversation.Sessions.{IsBounded}
use saaios.Jsonl.Records.{nothing}
use saaios.Runtime.{Rt, decide_call}
use saaios.Runtime.Verdicts.{engine_verdict, decide_call-eq-engine_verdict}
use saaios.Runtime.Answers.{MachineKept, confirm-Endures}
use saaios.Runtime.Trail.{IsRecorded, handle_user_text-IsRecorded}
use saaios.Runtime.Limits.{handle_user_text-IsBounded}
use saaios.Runtime.Requests.{handle_user_text_in_session}
use saaios.Runtime.Confirm.{confirm_in_session}
use saaios.Runtime.Safety.{Endures, IsGuarded, handle_user_text-IsGuarded}

abbrev after : Rt tiny Machine
after = (handle_user_text_in_session tiny Machine host_services "hi" none host).1

abbrev kinds : Rt tiny Machine → List MessageKind
kinds rt = map (λ env. env.kind) rt.sent

-- The model proposes three calls; the first runs, the second is denied, the third waits.
loop_runs :
    (after.machine ≡ (1, false))
    × (kinds after
        ≡ MessageKind.user_request ∷ MessageKind.assistant_message ∷ MessageKind.tool_call
          ∷ MessageKind.policy_decision ∷ MessageKind.tool_result ∷ MessageKind.tool_call
          ∷ MessageKind.policy_decision ∷ MessageKind.tool_result ∷ MessageKind.tool_call
          ∷ MessageKind.policy_decision ∷ MessageKind.confirmation_request ∷ [])
unfolding handle_user_text_in_session saaios.Runtime.Effects.◌>>=◌ saaios.Runtime.fresh
    saaios.Runtime.Requests.acquire_slot saaios.Runtime.Requests.released
    saaios.Runtime.Requests.release_slot saaios.Runtime.Requests.handle_user_text_inner
    saaios.Runtime.draft saaios.Runtime.emit saaios.Runtime.audit saaios.Audit.append_envelope
    saaios.Jsonl.append saaios.Jsonl.write saaios.Runtime.Effects.modify saaios.Runtime.Effects.gets
    saaios.Runtime.Rounds.rounds saaios.Runtime.publish saaios.Runtime.Rounds.ask_model
    saaios.Audit.record_of saaios.Conversation.get saaios.Conversation.is_orphan
    saaios.Conversation.save saaios.Conversation.skip_orphans saaios.Conversation.trim_messages
    Policy.by_risk Policy.decide Policy.hard_deny Policy.has_session_grant
    Policy.looks_like_injection Dict.insert Dict.lookup Dict.remove saaios.Protocol.envelope
    Registry.execute Registry.get Registry.list Registry.run_checked
    saaios.Runtime.Culprit.top_process saaios.Runtime.Effects.pure
    saaios.Runtime.Handle.fill_culprit_from_messages saaios.Runtime.Handle.persist_history
    saaios.Runtime.Handle.ran saaios.Runtime.Handle.run_tool saaios.Runtime.Handle.when_denied
    saaios.Runtime.Rounds.after_answer saaios.Runtime.Rounds.by_verdict
    saaios.Runtime.Rounds.handle_call saaios.Runtime.Rounds.handle_calls saaios.Runtime.Rounds.say
    saaios.Runtime.Rounds.when_allowed saaios.Runtime.Rounds.when_asked saaios.Runtime.decide_call
    saaios.Runtime.looks_like_injection saaios.Runtime.record_tool_result
    saaios.Runtime.tool_definitions
loop_runs = (refl, refl)

-- The machine stays on.
abbrev pub IsOn : Machine → Type 0
IsOn (n, off) = off ≡ false

poweroff_denied :
    (args : Unit) → (Policy.decide tiny Policy.new poweroff_tool.spec args).verdict ≡ deny
unfolding Policy.decide Policy.hard_deny
poweroff_denied args = refl

some_inj : {A : Type 0} {a b : A} → ◌≡◌ {A = Option A} (some a) (some b) → a ≡ b
some_inj h = cc

pub stays-IsOn :
    (V : PolicyVerdict → Type 0) → (V deny → ⊥) → Endures tiny Machine IsOn host_tools Policy.new V
unfolding Registry.get Dict.lookup
stays-IsOn V n name tool args ctx (k, off) found v on =
    elim (Bool-cases (str_eq "process.list" name)) [
      | inl e ↦ subst (λ t. IsOn (t.run args ctx (k, off)).1) (some_inj (rw e at found)) on
      | inr e ↦ elim (Bool-cases (str_eq "system.reboot_request" name)) [
        | inl e' ↦ subst (λ t. IsOn (t.run args ctx (k, off)).1) (some_inj (rw (e, e') at found)) on
        | inr e' ↦ elim (Bool-cases (str_eq "system.poweroff" name)) [
          | inl e'' ↦ absurd (
              n (
                subst V (poweroff_denied args) (
                  subst (λ t. V (Policy.decide tiny Policy.new t.spec args).verdict)
                    (sym (some_inj (rw (e, e', e'') at found))) v)))
          | inr e'' ↦ absurd (let h = rw (e, e', e'') at found in cc)
        ]
      ]
    ]

pub host-IsKeyed : IsKeyed tiny Machine host_tools
host-IsKeyed = (refl, (refl, (refl, tt)))

handle_user_text-IsGuarded_example : IsGuarded tiny Machine IsOn host_tools Policy.new after
handle_user_text-IsGuarded_example =
    handle_user_text-IsGuarded tiny Machine host_services IsOn host "hi" none host-IsKeyed
      (stays-IsOn (λ v. v ≡ allow) (λ e. cc)) refl

decide_call-eq-engine_verdict_example :
    (decide_call tiny Machine host "system.reboot_request" tt).verdict
    ≡ engine_verdict tiny Machine host "system.reboot_request" tt
decide_call-eq-engine_verdict_example =
    decide_call-eq-engine_verdict tiny Machine host "system.reboot_request" tt host-IsKeyed

confirm-Endures_example :
    MachineKept tiny Machine host_services IsOn host_tools Policy.new
      (confirm_in_session tiny Machine host_services true
        (some false)
        true
        "system.poweroff"
        tt
        session
        host).1
confirm-Endures_example =
    confirm-Endures tiny Machine host_services IsOn host true (some false) true "system.poweroff" tt
      session (stays-IsOn (λ v. v ≢ deny) (λ n. n refl)) refl

pub host-IsRecorded : IsRecorded tiny Machine host_services [] host
host-IsRecorded = record { whole_writes = refl; opens = refl; lines = nothing }

handle_user_text-IsRecorded_example : IsRecorded tiny Machine host_services [] after
handle_user_text-IsRecorded_example =
    handle_user_text-IsRecorded tiny Machine host_services [] audit_codec-IsCodec host "hi" none
      host-IsRecorded

host-IsBounded : IsBounded tiny.uuid_key host.conversations
host-IsBounded = record { fits = tt; room = omega arith }

handle_user_text-IsBounded_example : IsBounded tiny.uuid_key after.conversations
handle_user_text-IsBounded_example =
    handle_user_text-IsBounded tiny Machine host_services host "hi" none host-IsBounded
