-- ===== src/Telemetry.antt =====
-- crates/telemetry/src/lib.rs: the sampler, which shares the tools, the bus and the audit file with the
-- runtime; and `EventBus::publish_envelope` of crates/event-bus/src/lib.rs, which is the runtime's
-- `publish`.
pub mod Samples
use saaios.Prelude.{ℕ, zero, suc, ◌+◌, ◌%◌, ◌^◌, String, Option, none, some, [], max}
use saaios.Crates.{Crates}
use saaios.Protocol.{Result, ok, err, Envelope, tool_result}
use saaios.Registry.{ToolOutput}
use saaios.Runtime.{Services, Rt, draft, fresh, emit, result_value}
use saaios.Runtime.Effects.{Action, pure, ◌>>=◌, ◌>>◌}
use saaios.Runtime.Handle.{run_tool}
use saaios.Status.{TelemetryStats}

module _ (C : Crates) (S : Type 0) (services : Services C S) where
  open C use {Uuid, obj}

  pub record TelemetrySampler : Type 0 where
    pub runtime : Rt C S
    pub interval_secs : ℕ
    pub samples : ℕ

  -- `TelemetrySampler::new`: the interval is at least a second.
  unfoldable pub sampler : Rt C S → ℕ → TelemetrySampler
  sampler rt interval_secs = record {
    runtime = rt;
    interval_secs = max interval_secs 1;
    samples = 0;
  }

  unfoldable pub stats : TelemetrySampler → TelemetryStats
  stats t = record { samples = t.samples; interval_secs = t.interval_secs }

  -- The envelope of a sample.
  unfoldable pub sample_envelope : Uuid → Uuid → ToolOutput C → Action (Rt C S) (Envelope C)
  sample_envelope correlation_id call_id output = draft C S tool_result correlation_id none (
      result_value C S (record {
        call_id = call_id;
        tool = "system.metrics";
        ok = output.ok;
        output = output.value;
        error = output.error;
      }))

  unfoldable pub sampled : Action (Rt C S) (Envelope C)
  sampled = do
    correlation_id ← fresh C S
    call_id ← fresh C S
    output ← run_tool C S services correlation_id call_id "system.metrics" (obj [])
    env ← sample_envelope correlation_id call_id output
    emit C S services env
    pure env

  -- `fetch_add` of an `AtomicU64`, after a sample that succeeded.
  unfoldable pub counted : Result String (Envelope C) → ℕ → ℕ
  counted (ok env) n = (n + 1) % 2 ^ 64
  counted (err e) n = n

  unfoldable pub sample_once : TelemetrySampler → Result String (Envelope C) × TelemetrySampler
  sample_once t =
      let (x, rt) = sampled t.runtime in
      (x, record t { runtime = rt; samples = counted x t.samples })

  -- The loop of `spawn`: a sample that fails is only logged, and the next one follows.
  unfoldable pub run_samples : ℕ → TelemetrySampler → TelemetrySampler
  run_samples zero t = t
  run_samples (suc n) t = run_samples n (sample_once t).1
