-- ===== src/Tests/Policy.antt =====
-- The decisions of crates/policy-engine/src/lib.rs, the registry of crates/tool-registry/src/lib.rs and
-- the envelopes of crates/protocol/src/lib.rs at concrete calls.
use saaios.Prelude.{
  sym, not, ◌&&◌, is_some, subst, ℕ, String, Bool, true, false, ◌≡◌, ◌≢◌, refl, ◌↔◌, Option, none,
  some, List, [], ◌∷◌, if◌then◌else◌, arith,
}
use saaios.Protocol.{
  PolicyVerdict, allow, deny, ask_user, Result, ok, err, Envelope, MessageKind, is_event, event,
  user_request, assistant_message, tool_call, tool_result, policy_decision, confirmation_request,
  confirmation_response, error, diagnose_result, unsupported_version, envelope,
}
use saaios.Protocol.Versions.{Ciborium, to_cbor, from_cbor, cbor_iff}
use saaios.Registry
use saaios.Registry.{ToolSpec, low, high, ToolRegistry, register}
use saaios.Registry.Keyed.{get-IsKeyed}
use saaios.Policy
use saaios.Policy.{PolicyEngine, decide, grant_session, decide_named}
use saaios.Policy.Guards.{IsAllowed, allow_iff}
use saaios.Policy.Grants.{decide-grant_session, granted}
use saaios.Samples.Json.{json, Tree, no_members, entry, num}
use saaios.Samples.Tiny.{tiny}
use saaios.Samples.Host.{Machine, host_tools, reboot_tool}

abbrev kill : ToolSpec json
kill = record {
  name = "process.kill_request";
  description = "";
  risk = high;
  timeout_ms = 1000;
  input_schema = no_members;
  output_schema = no_members;
  requires_confirmation = true;
}

abbrev pid : ℕ → Tree
pid n = entry "pid" (num n) no_members

abbrev granted_kill : PolicyEngine
granted_kill = grant_session Policy.new "process.kill_request"

abbrev decided : PolicyEngine → ℕ → PolicyVerdict
decided e n = (decide json e kill (pid n)).verdict

decisions :
    (decided Policy.new 1 ≡ deny)
    × (decided granted_kill 1 ≡ deny)
    × (decided Policy.new 42 ≡ ask_user)
    × (decided granted_kill 42 ≡ allow)
unfolding decide grant_session Policy.insert_tool Policy.hard_deny Policy.looks_like_injection
    Policy.has_session_grant Policy.by_risk
decisions = (refl, refl, refl, refl)

allow_iff_example : (decided granted_kill 42 ≡ allow) ↔ IsAllowed json granted_kill kill (pid 42)
allow_iff_example = allow_iff json granted_kill kill (pid 42)

decide-grant_session_example : decide json granted_kill kill (pid 42) ≡ (
    if true
    then granted (decide json Policy.new kill (pid 42))
    else decide json Policy.new kill (pid 42))
decide-grant_session_example =
    decide-grant_session json Policy.new "process.kill_request" kill (pid 42) refl

get-IsKeyed_example : reboot_tool.spec.name ≡ "system.reboot_request"
unfolding Registry.get saaios.Prelude.Dict.lookup
get-IsKeyed_example =
    get-IsKeyed tiny Machine host_tools "system.reboot_request" reboot_tool
      (refl, (refl, (refl, tt))) refl

-- An encoder of events with these identifiers, and its decoder.
abbrev hello : ℕ → Envelope tiny
hello v = record {
  v = v;
  msg_id = true;
  correlation_id = true;
  causation_id = none;
  kind = MessageKind.event;
  ts = tt;
  payload = tt;
}

abbrev is_plain : Envelope tiny → Bool
is_plain env =
    env.msg_id && env.correlation_id && not (is_some env.causation_id) && is_event env.kind

abbrev read : List ℕ → Result String (Envelope tiny)
read (v ∷ []) = ok (hello v)
read _ = err "not read"

abbrev plain : Ciborium tiny
plain = record {
  into_writer = λ env. if is_plain env then ok (env.v ∷ []) else err "not written";
  from_reader = read;
}

cbor_iff_example :
    ((to_cbor tiny plain (hello 1) ≡ ok (1 ∷ []))
      ↔ (((hello 1).v ≡ 1) × (plain.into_writer (hello 1) ≡ ok (1 ∷ []))))
    × ((from_cbor tiny plain (1 ∷ []) ≡ ok (hello 1))
        ↔ (((hello 1).v ≡ 1) × (read (1 ∷ []) ≡ ok (hello 1))))
cbor_iff_example = cbor_iff tiny plain (hello 1) (1 ∷ [])

-- An envelope of version 2 is read and then refused.
version_2_run : from_cbor tiny plain (2 ∷ []) ≡ err (unsupported_version 2)
unfolding from_cbor saaios.Protocol.validate
version_2_run = refl
