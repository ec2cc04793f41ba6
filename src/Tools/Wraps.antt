-- ===== src/Tools/Wraps.antt =====
-- The process that `process.kill_request` of crates/system-tools/src/lib.rs signals.
use saaios.Prelude.{ℕ, ◌+◌, ◌*◌, ◌^◌, ◌%◌, ◌<◌, ◌≡◌, refl, String, some, [], ◌∷◌, arith, and_then}
use saaios.Crates.{Crates, IsJson}
use saaios.Registry.{ToolContext}
use saaios.Tools.{SystemBackend, kill_request_run, killed}

module _ (C : Crates) (json : IsJson C) (S : Type 0) where
  -- The arguments that name a process, and a signal after it.
  abbrev pub kill_args : ℕ → String → C.Value
  kill_args pid signal = C.obj (("pid", C.num pid) ∷ ("signal", C.str signal) ∷ [])

  pid_of :
      (pid : ℕ) (signal : String)
      → pid < 2 ^ 64
      → and_then (C.get (kill_args pid signal) "pid") C.as_u64 ≡ some pid
  pid_of pid signal small = rw (json.get-obj, json.as_u64-num pid small) refl

  signal_of :
      (pid : ℕ) (signal : String)
      → and_then (C.get (kill_args pid signal) "signal") C.as_str ≡ some signal
  signal_of pid signal = rw (json.get-obj, json.as_str-str) refl

  -- Of a number that fits 64 bits the tool takes the lower 32, on any backend: two that differ by a
  -- multiple of 2^32 have the same effect and the same answer, so that a number of 2^32 or more acts on the
  -- process that another number names, or is refused where that one is.
  pub kill_request_run-wraps :
      (b : SystemBackend C S) (pid k : ℕ) (signal : String) (ctx : ToolContext C) (s : S)
      → pid + k * 2 ^ 32 < 2 ^ 64
      → kill_request_run C S b (kill_args (pid + k * 2 ^ 32) signal) ctx s
        ≡ kill_request_run C S b (kill_args pid signal) ctx s
  unfolding kill_request_run killed
  kill_request_run-wraps b pid k signal ctx s small =
      let lower : (pid + k * 2 ^ 32) % 2 ^ 32 ≡ pid % 2 ^ 32 = omega arith in
      rw
        (
          pid_of (pid + k * 2 ^ 32) signal small,
          pid_of pid signal (omega arith),
          signal_of (pid + k * 2 ^ 32) signal,
          signal_of pid signal,
          lower,
        )
        refl
