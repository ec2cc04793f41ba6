-- ===== src/Protocol.antt =====
-- crates/protocol/src/lib.rs: the message envelope, version 1, and the payload types.
pub mod Versions
use saaios.Prelude.{
  ◌≡◌, refl, ◌⊎◌, inl, inr, ℕ, String, Bool, true, false, Option, none, some, List, [], ◌∷◌, ◌==◌,
  if◌then◌else◌,
}
use saaios.Crates.{Crates}

abbrev pub protocol_version : ℕ
protocol_version = 1

pub data MessageKind : Type 0 where
  user_request assistant_message tool_call tool_result policy_decision : MessageKind
  confirmation_request confirmation_response event error diagnose_result : MessageKind

-- `PartialEq` on the message kinds, at the two kinds that the code tests for.
abbrev pub is_event : MessageKind → Bool
is_event event = true
is_event _ = false

abbrev pub is_tool_result : MessageKind → Bool
is_tool_result tool_result = true
is_tool_result _ = false

pub data PolicyVerdict : Type 0 where
  allow deny ask_user : PolicyVerdict

pub data ConfirmScope : Type 0 where
  once session cancel : ConfirmScope

pub data ProtocolError : Type 0 where
  unsupported_version : ℕ → ProtocolError
  cbor : String → ProtocolError

pub data Result {ℓ} (E A : Type ℓ) : Type ℓ where
  ok : A → Result E A
  err : E → Result E A

pub ok_inj {ℓ} : {E A : Type ℓ} {a b : A} → ◌≡◌ {A = Result E A} (ok a) (ok b) → a ≡ b
ok_inj h = cc

pub Result-cases {ℓ} :
    {E A : Type ℓ} (x : Result E A) → ((a : A) × (x ≡ ok a)) ⊎ ((e : E) × (x ≡ err e))
Result-cases (ok a) = inl (a, refl)
Result-cases (err e) = inr (e, refl)

module _ (C : Crates) where
  open C use {Value, Uuid, Time, new_v4, utc_now}

  pub record Envelope : Type 0 where
    pub v : ℕ
    pub msg_id : Uuid
    pub correlation_id : Uuid
    pub causation_id : Option Uuid
    pub kind : MessageKind
    pub ts : Time
    pub payload : Value

  -- `Envelope::new`, which draws the n-th identifier and reads the clock.
  unfoldable pub envelope : ℕ → MessageKind → Uuid → Option Uuid → Value → Envelope
  envelope n kind correlation_id causation_id payload = record {
    v = protocol_version;
    msg_id = new_v4 n;
    correlation_id = correlation_id;
    causation_id = causation_id;
    kind = kind;
    ts = utc_now n;
    payload = payload;
  }

  pub record ToolCallResult : Type 0 where
    pub call_id : Uuid
    pub tool : String
    pub ok : Bool
    pub output : Value
    pub error : Option String

  pub record ProposedAction : Type 0 where
    pub tool : String
    pub arguments : Value
    pub summary : String

  pub record DiagnoseResult : Type 0 where
    pub summary : String
    pub culprit_pid : Option ℕ
    pub culprit_name : Option String
    pub proposed_action : Option ProposedAction

  pub record ConfirmationRequest : Type 0 where
    pub call_id : Uuid
    pub tool : String
    pub summary : String
    pub arguments : Value

  unfoldable pub validate : Envelope → Result ProtocolError (Unit {0})
  validate env = if env.v == protocol_version then ok tt else err (unsupported_version env.v)
