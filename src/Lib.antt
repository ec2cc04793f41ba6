-- ===== src/Lib.antt =====
-- SaaiOS: an assistant that runs tools of the machine for a model, under a policy, with a trail.
--
-- A request of the user goes to the runtime (crates/ai-runtime), which asks the model in rounds. Each
-- tool call that the model proposes is recorded in the audit file and sent on the bus, decided by the
-- policy engine (crates/policy-engine), and then run from the tool registry (crates/tool-registry),
-- refused, or held back until the user answers. The model is one of the providers (crates/model-provider),
-- the tools are those of crates/system-tools and of the memory, and a sampler (crates/telemetry) runs one
-- of them by itself. The histories of the sessions, the memory of facts
-- and the automation rules, which watch the bus, stand beside it.
--
-- Files. Names in a module are those of the source unless a comment says otherwise.
--   Prelude          tests on numbers and texts, lists, mutexes and hash maps as the source uses them
--   Crates           what is not code of the repository: serde_json's `Value`, `Uuid`, the clock, `f64`,
--                    case folding and trimming. One record, a parameter of every module; `IsJson`
--                    states the documented behaviour of serde_json that some theorems need
--   Protocol         crates/protocol/src/lib.rs: `Envelope` and its kinds; Versions: `to_cbor`, `from_cbor`,
--                    over ciborium as a parameter
--   Registry         crates/tool-registry/src/lib.rs: `register`, `get`, `list`, `execute`; Keyed: tools under
--                    their own names
--   Policy           crates/policy-engine/src/lib.rs: `decide`, `decide_named`, the grants; Guards: denials and
--                    allowances; Grants: what a grant changes
--   Conversation     crates/ai-runtime/src/conversation.rs: the store; Trim, Sessions: its laws
--   Feed             services/saaios-runtime/src/event_feed.rs; Window: the feed against the list of pushes
--   Jsonl            the file that the audit log and the memory store both keep, with torn writes; Text: its
--                    lines; Records: the file against a list of records; Torn: a torn write; Whole: none
--   Audit            crates/audit-log/src/lib.rs: records, `list_by_correlation`, `replay`; Report, Trail
--   Automation       crates/automation-engine/src/lib.rs: `matches`, `evaluate`, `apply`, one step of `run_loop`;
--                    Apply, Defaults; Rules, Cooldown, Echo
--   Memory           crates/memory-store/src/lib.rs: `latest_by_key`, `remember`, `recall`, `forget`; Tools: the three
--                    tools over them; Latest, Recall, Installed
--   Config           crates/config/src/lib.rs: `discover_config_path`, `resolve`; Resolve, Precedence
--   Runtime          crates/ai-runtime/src/lib.rs. Effects: a state monad with errors, in which what was done
--                    before an error stays done. Handle, Rounds, Requests: `handle_user_text_in_session`, cut into one
--                    function for each branch; Culprit: `top_process`; Confirm: `confirm_in_session`;
--                    MockPlanner: `diagnose_slow_with_mock_planner`; Unasked: what it keeps. Kept and
--                    Answered: what their steps keep, they keep; Safety, Answers, Trail, Limits: instances of
--                    that; Verdicts: the loop's decisions against the engine's
--   Status           services/saaios-runtime/src/ab_status.rs and `RuntimeMeta::status` of its main.rs
--   Service          services/saaios-runtime/src/main.rs: `handle_client`, without sockets; Requests, Guarded;
--                    Workers: what its two workers do with one envelope; Completed
--   Text             the methods of `str` that the next two parts use; Split: splitting loses nothing
--   Provider         crates/model-provider/src/lib.rs: `ProviderKind`, the trait, and a state monad over the
--                    servers; Mock, Openai; Stream: the assembly of a streamed answer; Chain: `FallbackProvider` and
--                    `build_provider`; Chunks, Fragments, Deltas, Stale, Answers: their laws
--   Tools            crates/system-tools/src/lib.rs: the seven tools and `install_system_tools`; World: files,
--                    directories and child processes; Mock; Proc: the parsers; Processes, Sys with Disk, Network
--                    and Sensors, Journal, Kill: what `LinuxBackend` of Linux is made of; Commands, Signals: the programs that each part starts;
--                    Installed, Guarded: the tools under the runtime; Wraps, Stat, Ranking, Mounts
--   Telemetry        crates/telemetry/src/lib.rs; Samples: what a sample leaves
--   Web              crates/console-web/src/main.rs: the command line and the token; Access: who passes; Api: the
--                    handlers; Refused; Forward: `forward_diagnose_stream`; Cuts
--   Console          crates/console-tui/src/main.rs: the state; Shown: what is shown of an answer; Stream:
--                    `request_stream`, `diagnose`; Keys: what a key does; Offered, Pressed: what is sent
--   Startup          services/saaios-runtime/src/main.rs: `main` and `AiRuntime::with_budgets`, from the settings to
--                    the service; Ready: the state it starts in; Registered: its tools; Harmless: the signals it sends;
--                    Readers: what a request starts
--   Samples, Tests   concrete crates, codecs and a small host, and the theorems at them
--
-- State. The runtime's state is a record of the tools, the grants, the audit file, the list of envelopes
-- sent on the bus, the histories, the free slots and the state of the machine that the tools act on. The
-- n-th `Uuid::new_v4` and the n-th reading of the clock are functions of a counter in the state, as is
-- the n-th answer of the model, which may be anything; a provider's servers, and the looks of a tool at
-- the machine, are functions of a counter of their own. A tool is any function of its arguments and the
-- machine. Concurrent requests are not interleaved: an operation runs from its start to its end.
--
-- Loops. The rounds of a request are recursion on the rounds left, which start at `max_tool_iters` as
-- in the source, so no fuel is added. The loops over the lines in a stream's buffer have as fuel the size
-- of the buffer, and one more, which is enough, since each line that is taken leaves a shorter rest; so
-- is the size of a text for taking off a pattern again and again. The other loops are recursion on a list
-- or a text.
--
-- Not modelled: the exhaustion of memory, log output, progress frames, timeouts, the pauses between
-- two samples, the lag of a bus subscriber, the opening of files, and sockets; the drawing of the
-- consoles; what `main` prints of the mock planner's outcome.
-- HTTP itself, the files of the machine and its programs are parameters. The order of a hash map is
-- that in which its keys came.
pub mod Prelude
pub mod Crates
pub mod Text
pub mod Protocol
pub mod Registry
pub mod Policy
pub mod Conversation
pub mod Feed
pub mod Jsonl
pub mod Audit
pub mod Provider
pub mod Tools
pub mod Automation
pub mod Memory
pub mod Config
pub mod Runtime
pub mod Telemetry
pub mod Web
pub mod Console
pub mod Startup
pub mod Status
pub mod Service
pub mod Samples
pub mod Tests
