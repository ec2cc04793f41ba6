-- ===== src/Status.antt =====
-- `read_ab_status` of services/saaios-runtime/src/ab_status.rs and `RuntimeMeta::status` of
-- services/saaios-runtime/src/main.rs: what the service says of itself.
use saaios.Prelude.{
  ℕ, String, Bool, true, false, ◌||◌, Option, none, some, List, [], ◌∷◌, ◌+++◌, if◌then◌else◌,
  str_eq, length, is_some,
}
use saaios.Crates.{Crates}
use saaios.Conversation
use saaios.Policy
use saaios.Runtime.{Rt}

-- What the disk says of a path; a link's target by its text and the last part of that.
pub record Disk : Type 0 where
  pub is_dir : String → Bool
  pub is_file : String → Bool
  pub read_to_string : String → Option String
  pub read_link : String → Option String
  pub file_name : String → Option String

pub record AbSlotStatus : Type 0 where
  pub name : String
  pub active : Bool
  pub binary_present : Bool
  pub boot_ok : Bool
  pub boot_ok_at : Option String

pub record AbStatus : Type 0 where
  pub enabled : Bool
  pub root : String
  pub current : Option String
  pub slots : List AbSlotStatus

pub record TelemetryStats : Type 0 where
  pub samples : ℕ
  pub interval_secs : ℕ

-- The service's own description, with the seconds since its start.
pub record RuntimeMeta : Type 0 where
  pub version : String
  pub uptime_secs : ℕ
  pub config_path : Option String
  pub provider_name : String
  pub provider_kind : String
  pub tools_mode : String
  pub tool_names : List String
  pub memory_enabled : Bool
  pub memory_path : Option String
  pub audit_path : String
  pub sock : String
  pub automation : Bool
  pub auto_diagnose : Bool
  pub telemetry : Option TelemetryStats
  pub max_concurrent : ℕ
  pub request_timeout_secs : ℕ
  pub ab_root : String
  pub disk : Disk

pub record RuntimeStatusDto : Type 0 where
  pub ok : Bool
  pub version : String
  pub uptime_secs : ℕ
  pub sock : String
  pub provider : String
  pub provider_kind : String
  pub tools_mode : String
  pub tool_count : ℕ
  pub tools : List String
  pub memory_enabled : Bool
  pub memory_path : Option String
  pub audit_path : String
  pub automation : Bool
  pub telemetry : Bool
  pub telemetry_samples : ℕ
  pub telemetry_interval_secs : ℕ
  pub max_concurrent : ℕ
  pub request_timeout_secs : ℕ
  pub session_grants : List String
  pub config_path : Option String
  pub auto_diagnose : Bool
  pub chat_sessions : ℕ
  pub ab : Option AbStatus

abbrev is_slot : String → Bool
is_slot s = str_eq s "A" || str_eq s "B"

-- `.filter(..)` on an option.
abbrev filtered : (String → Bool) → Option String → Option String
filtered p none = none
filtered p (some s) = if p s then some s else none

abbrev trimmed : (String → String) → Option String → Option String
trimmed trim none = none
trimmed trim (some s) = some (trim s)

module _ (trim : String → String) (disk : Disk) where
  abbrev linked : Option String → Option String
  linked none = none
  linked (some target) = elim (disk.file_name target) [
    | some name ↦ some name
    | none ↦ if is_slot target then some target else none
  ]

  -- The link's name if there is one, otherwise the file's text if it names a slot.
  unfoldable pub read_current_slot : String → Option String
  read_current_slot root = elim (linked (disk.read_link (root +++ "/current"))) [
    | some name ↦ some name
    | none ↦ filtered is_slot (trimmed trim (disk.read_to_string (root +++ "/current_slot")))
  ]

  abbrev is_current : Option String → String → Bool
  is_current none name = false
  is_current (some c) name = str_eq c name

  abbrev is_text : String → Bool
  is_text s = if str_eq s "" then false else true

  unfoldable pub slot_status : String → Option String → String → AbSlotStatus
  slot_status root current name =
      let boot_ok_path = root +++ "/" +++ name +++ "/BOOT_OK" in
      record {
        name = name;
        active = is_current current name;
        binary_present = disk.is_file (root +++ "/" +++ name +++ "/bin/saaios-runtime");
        boot_ok = disk.is_file boot_ok_path;
        boot_ok_at =
            if disk.is_file boot_ok_path
            then filtered is_text (trimmed trim (disk.read_to_string boot_ok_path))
            else none;
      }

  unfoldable pub read_ab_status : String → AbStatus
  read_ab_status root =
      let current = read_current_slot root in
      if disk.is_dir root
      then record {
        enabled = true;
        root = root;
        current = current;
        slots = slot_status root current "A" ∷ slot_status root current "B" ∷ [];
      }
      else record { enabled = false; root = root; current = none; slots = [] }

abbrev samples_of : Option TelemetryStats → ℕ
samples_of none = 0
samples_of (some t) = t.samples

abbrev interval_of : Option TelemetryStats → ℕ
interval_of none = 0
interval_of (some t) = t.interval_secs

module _ (C : Crates) (S : Type 0) where
  unfoldable pub status_of : RuntimeMeta → Rt C S → RuntimeStatusDto
  status_of meta rt = record {
    ok = true;
    version = meta.version;
    uptime_secs = meta.uptime_secs;
    sock = meta.sock;
    provider = meta.provider_name;
    provider_kind = meta.provider_kind;
    tools_mode = meta.tools_mode;
    tool_count = length meta.tool_names;
    tools = meta.tool_names;
    memory_enabled = meta.memory_enabled;
    memory_path = meta.memory_path;
    audit_path = meta.audit_path;
    automation = meta.automation;
    telemetry = is_some meta.telemetry;
    telemetry_samples = samples_of meta.telemetry;
    telemetry_interval_secs = interval_of meta.telemetry;
    max_concurrent = meta.max_concurrent;
    request_timeout_secs = meta.request_timeout_secs;
    session_grants = Policy.session_grants rt.policy;
    config_path = meta.config_path;
    auto_diagnose = meta.auto_diagnose;
    chat_sessions = Conversation.session_count C.uuid_key rt.conversations;
    ab = some (read_ab_status C.trim meta.disk meta.ab_root);
  }
