-- ===== src/Tests/Telemetry.antt =====
-- The sampler of crates/telemetry/src/lib.rs on the small host, whose metrics are one more tool.
use saaios.Prelude.{false}
use saaios.Registry.{low, register}
use saaios.Samples.Tiny.{tiny}
use saaios.Samples.Host.{Machine, host, host_tools, host_services, counting, spec}
use saaios.Runtime.{Rt}
use saaios.Telemetry.{TelemetrySampler, sample_once}
use saaios.Telemetry.Samples.{Sampled, sample_once-Sampled}

abbrev measured : Rt tiny Machine
measured = record host {
  tools = register tiny Machine host_tools (counting (spec "system.metrics" low false));
}

abbrev every_minute : TelemetrySampler tiny Machine host_services
every_minute = record { runtime = measured; interval_secs = 60; samples = 0 }

sample_once-Sampled_example :
    Sampled tiny Machine host_services every_minute
      (sample_once tiny Machine host_services every_minute)
sample_once-Sampled_example = sample_once-Sampled tiny Machine host_services every_minute
