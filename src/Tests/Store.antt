-- ===== src/Tests/Store.antt =====
-- The files of crates/audit-log/src/lib.rs and crates/memory-store/src/lib.rs on short lines.
use saaios.Prelude.{
  ℕ, suc, String, Bool, true, false, ◌≡◌, ◌≢◌, refl, sym, str_eq, ◌⊎◌, inl, inr, Option, none, some,
  List, [], ◌∷◌, ◌++◌, ◌+++◌, if◌then◌else◌, and_then, arith,
}
use saaios.Protocol.{ok, err, Envelope, MessageKind}
use saaios.Jsonl
use saaios.Jsonl.{Log, Write, torn, append, read_all, first}
use saaios.Jsonl.Records.{Holds, nothing, line_of, read_all-append}
use saaios.Jsonl.Torn.{IsBroken, appends, torn_write_blocks}
use saaios.Audit.{AuditRecord, ReplayReport, of_correlation, replay}
use saaios.Audit.Report.{IsReportOf, replay_lem}
use saaios.Memory.{
  MemoryFact, MemoryStore, filled, remember, forget, recall, latest, find_key, is_hit,
}
use saaios.Memory.Recall.{Keeps, Forgets, fact_at, remember_lem, forget_lem}
use saaios.Registry.{ToolContext, ToolOutput}
use saaios.Samples.Tiny.{tiny}
use saaios.Samples.Codecs.{
  audit_codec, audit_codec-IsCodec, memory_codec, memory_codec-IsCodec, clean_NoBreak,
}
use saaios.Samples.Host.{empty_log}

abbrev entry : Bool → MessageKind → AuditRecord tiny
entry corr kind = record {
  id = true;
  ts = tt;
  correlation_id = corr;
  causation_id = none;
  kind = kind;
  payload = tt;
}

read_all-append_example :
    read_all audit_codec (append audit_codec empty_log (entry true MessageKind.tool_call)).1
    ≡ ok ([] ++ entry true MessageKind.tool_call ∷ [])
unfolding append saaios.Jsonl.write
read_all-append_example =
    read_all-append audit_codec audit_codec-IsCodec empty_log [] (entry true MessageKind.tool_call)
      refl nothing refl

abbrev torn_log : Log
torn_log = record { content = ""; readable = true; writes = torn 2 ∷ [] }

joined-IsBroken : IsBroken audit_codec "c1d11n"
joined-IsBroken = record {
  one_line = clean_NoBreak "c1d11n" refl;
  not_blank = refl;
  no_record = refl;
}

torn_write_blocks_example :
    read_all audit_codec (
      appends audit_codec torn_log (
        entry true MessageKind.tool_call
        ∷ entry true MessageKind.tool_result
        ∷ entry false MessageKind.event
        ∷ []))
    ≡ err "parse"
torn_write_blocks_example =
    torn_write_blocks audit_codec audit_codec-IsCodec torn_log [] 2
      (entry true MessageKind.tool_call) (entry true MessageKind.tool_result) "c11n" "d11n"
      (entry false MessageKind.event ∷ []) refl nothing refl refl refl joined-IsBroken

abbrev log1 : Log
log1 = record { content = "c11n\n"; readable = true; writes = [] }

log1-Holds : Holds audit_codec (entry true MessageKind.tool_call ∷ []) "c11n\n"
log1-Holds = line_of "c11n" "c11n\n" refl refl nothing

replay_lem_example :
    ((of_correlation tiny true (entry true MessageKind.tool_call ∷ []) ≡ [])
      × (replay tiny audit_codec log1 true
          ≡ err ("no audit records for correlation_id=" +++ "odd")))
    ⊎ ((rep : ReplayReport tiny) × (replay tiny audit_codec log1 true ≡ ok rep)
        × IsReportOf tiny (of_correlation tiny true (entry true MessageKind.tool_call ∷ [])) rep)
replay_lem_example =
    replay_lem tiny audit_codec audit_codec-IsCodec log1 (entry true MessageKind.tool_call ∷ [])
      true refl log1-Holds

abbrev env1 : Envelope tiny
env1 = record {
  v = 1;
  msg_id = false;
  correlation_id = true;
  causation_id = some true;
  kind = MessageKind.tool_result;
  ts = tt;
  payload = tt;
}

abbrev said : Bool → String → Bool → MemoryFact tiny
said id key deleted = record {
  id = id;
  ts = tt;
  key = key;
  value = "yes";
  tags = [];
  source = some "tool";
  deleted = deleted;
}

abbrev facts : List (MemoryFact tiny)
facts = said true "host" false ∷ said false "user" false ∷ []

abbrev store : MemoryStore tiny
store = record {
  file = record { content = "10host\n00user\n"; readable = true; writes = [] };
  drawn = 3;
}

store-Keeps : Keeps tiny memory_codec store facts
store-Keeps = record {
  readable = refl;
  holds =
      line_of "10host" "10host\n00user\n" refl refl (line_of "00user" "00user\n" refl refl nothing);
}

remember_lem_example :
    (said true "disk" false ≡ filled tiny memory_codec 3 (said true "disk" false))
    × Keeps tiny memory_codec
        (remember tiny memory_codec store (said true "disk" false)).1
        (facts ++ said true "disk" false ∷ [])
    × ((key : String)
        → fact_at tiny (facts ++ said true "disk" false ∷ []) key ≡ (
            if str_eq "disk" key
            then (if false then none else some (said true "disk" false))
            else fact_at tiny facts key))
unfolding remember Jsonl.append Jsonl.write
remember_lem_example =
    remember_lem tiny memory_codec memory_codec-IsCodec store facts (said true "disk" false)
      (said true "disk" false) store-Keeps refl

forget_lem_example :
    Forgets tiny memory_codec memory_codec-IsCodec store facts "host"
      (some (said true "host" true))
      (forget tiny memory_codec store "host").1
unfolding forget Jsonl.append Jsonl.write saaios.Memory.latest_by_key saaios.Memory.latest
    saaios.Memory.find_key Jsonl.read_all Jsonl.lines_from Jsonl.read_lines saaios.Memory.newest
    saaios.Memory.live saaios.Memory.sort_by_ts saaios.Memory.insert_by_ts
    saaios.Prelude.Dict.insert Jsonl.strip_cr
forget_lem_example =
    forget_lem tiny memory_codec memory_codec-IsCodec store facts "host"
      (some (said true "host" true)) store-Keeps refl

abbrev nowhere : ToolContext tiny
nowhere = record { correlation_id = true; call_id = true }

abbrev no_value : MemoryFact tiny → tiny.Value
no_value f = tt

abbrev done : ToolOutput tiny
done = record { ok = true; value = tt; error = none }
