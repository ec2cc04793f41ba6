-- ===== src/Tools/Processes.antt =====
-- `LinuxBackend::metrics` and `processes` of crates/system-tools/src/lib.rs, with the samples that
-- they take.
use saaios.Prelude.{
  ℕ, ◌-◌, String, Option, none, some, List, [], ◌∷◌, if◌then◌else◌, leb, length, take, and_then,
  unwrap_or, max, ◌+++◌, get_elem?,
}
use saaios.Prelude.Dict
use saaios.Prelude.Dict.{nat_key}
use saaios.Crates.{Crates}
use saaios.Protocol.{Result, ok, err}
use saaios.Registry.{ToolError, execution}
use saaios.Text.{parse_u32}
use saaios.Tools.{ProcessInfo, SystemMetrics}
use saaios.Tools.World.{Machine, Look, pure, look, ◌>>=◌, if_some, if_ok, if_true}
use saaios.Tools.Proc.{
  all_digits, words, parse_meminfo, parse_total_jiffies, parse_cpu_times, parse_proc_stat_jiffies,
  parse_vm_rss_mb, clamp, one_decimal,
}

-- `.ok()`
abbrev pub to_option {ℓ} : {E A : Type ℓ} → Result E A → Option A
to_option (ok a) = some a
to_option (err e) = none

module _ (C : Crates) (m : Machine) where
  open C use {Float, of_nat, gt, add, sub, mul, div, round, max_float, parse_f64, trim, show_nat}

  abbrev pub read : String → Look (Result String String)
  read path = look (λ n. m.read_to_string n path)

  -- `read_to_string(path).ok()?`, and what is made of the content.
  abbrev pub read_as : {A : Type 0} → String → (String → Option A) → Look (Option A)
  read_as path f = do content ← read path; pure (and_then (to_option content) f)

  abbrev pub proc_file : ℕ → String → String
  proc_file pid file = "/proc/" +++ show_nat pid +++ "/" +++ file

  -- A process: its name, its processor time and its memory.
  abbrev pub Sample : Type 0
  Sample = String × ℕ × Float

  unfoldable pub sampled : ℕ → Option ℕ → Look (Option Sample)
  unfolding parse_vm_rss_mb
  sampled pid none = pure none
  sampled pid (some jiffies) = do
    comm ← read (proc_file pid "comm")
    mem_mb ← read_as (proc_file pid "status") (parse_vm_rss_mb C)
    pure (some (trim (unwrap_or (to_option comm) "unknown"), jiffies, unwrap_or mem_mb (of_nat 0)))

  -- One entry of /proc, or `continue`.
  unfoldable pub sample_entry : String → Look (Option (ℕ × Sample))
  unfolding sampled parse_proc_stat_jiffies
  sample_entry name =
      if_some (if all_digits name then parse_u32 name else none)
        (λ pid. do
          jiffies ← read_as (proc_file pid "stat") (parse_proc_stat_jiffies C)
          sample ← sampled pid jiffies
          pure (and_then sample (λ s. some (pid, s))))
        (pure none)

  -- A `HashMap`, in the order in which processes were first seen. Its real order is not specified, and
  -- decides only between processes of the same share.
  abbrev pub Snapshot : Type 0
  Snapshot = List (ℕ × Sample)

  -- The loop over the entries stops once the map holds 256 processes.
  unfoldable pub snapshot_loop : Snapshot → List String → Look Snapshot
  unfolding sample_entry
  snapshot_loop found [] = pure found
  snapshot_loop found (name ∷ names) = do
    entry ← sample_entry name
    if_some entry
        (λ (pid, sample).
          let found' = Dict.insert nat_key pid sample found in
          if_true (leb 256 (length found')) (pure found') (snapshot_loop found' names))
        (snapshot_loop found names)

  unfoldable pub snapshot_process_cpu : Look (Result ToolError Snapshot)
  unfolding snapshot_loop
  snapshot_process_cpu = do
    names ← look (λ n. m.read_dir n "/proc")
    if_ok names (λ names. do found ← snapshot_loop [] names; pure (ok found))
        (λ e. pure (err (execution e)))

  unfoldable pub cpu_share : ℕ → ℕ → ℕ → Float → Float
  cpu_share j1 j2 total_delta ncpus = one_decimal C (
      clamp C (mul (mul (div (of_nat (j2 - j1)) (of_nat total_delta)) ncpus) (of_nat 100))
        (of_nat 0) (mul (of_nat 100) ncpus))

  -- The processes of the first sample that are still there in the second.
  unfoldable pub compared : Snapshot → ℕ → Float → Snapshot → List (ProcessInfo C)
  compared second total_delta ncpus [] = []
  compared second total_delta ncpus ((pid, (name, j1, mem_mb)) ∷ first) =
      let rest = compared second total_delta ncpus first in
      elim (Dict.lookup nat_key pid second) [
        | none ↦ rest
        | some (name2, j2, mem2) ↦
            record {
              pid = pid;
              name = name;
              cpu = cpu_share j1 j2 total_delta ncpus;
              mem_mb = max_float mem2 mem_mb;
            }
            ∷ rest
      ]

  -- `sort_by` with the comparison turned round: stable, the highest share first.
  unfoldable pub insert_process : ProcessInfo C → List (ProcessInfo C) → List (ProcessInfo C)
  insert_process p [] = p ∷ []
  insert_process p (q ∷ qs) =
      let rest = insert_process p qs in if gt q.cpu p.cpu then q ∷ rest else p ∷ (q ∷ qs)

  unfoldable pub sort_processes : List (ProcessInfo C) → List (ProcessInfo C)
  unfolding insert_process
  sort_processes [] = []
  sort_processes (p ∷ ps) = insert_process p (sort_processes ps)

  unfoldable pub ranked : Snapshot → Snapshot → ℕ → Float → List (ProcessInfo C)
  unfolding compared sort_processes
  ranked first second total_delta ncpus =
      take 32 (sort_processes (compared second total_delta ncpus first))

  abbrev ncpus : Float
  ncpus = of_nat (unwrap_or m.available_parallelism 1)

  unfoldable pub second_sample : ℕ → Snapshot → Look (Result ToolError (List (ProcessInfo C)))
  unfolding snapshot_process_cpu ranked parse_total_jiffies
  second_sample total1 first = do
    total2 ← read_as "/proc/stat" (parse_total_jiffies C)
    second ← snapshot_process_cpu
    if_ok second
        (λ second. pure (ok (ranked first second (max (unwrap_or total2 total1 - total1) 1) ncpus)))
        (λ e. pure (err e))

  -- The pause between the samples is left out.
  unfoldable pub linux_processes : Look (Result ToolError (List (ProcessInfo C)))
  unfolding second_sample
  linux_processes = do
    total1 ← read_as "/proc/stat" (parse_total_jiffies C)
    sample1 ← snapshot_process_cpu
    if_ok sample1 (λ first. second_sample (unwrap_or total1 0) first) (λ e. pure (err e))

  abbrev usage : ℕ × ℕ → ℕ × ℕ → Float
  usage (total1, idle1) (total2, idle2) =
      let busy = sub (of_nat 1) (div (of_nat (idle2 - idle1)) (of_nat (max (total2 - total1) 1))) in
      clamp C (mul busy (of_nat 100)) (of_nat 0) (of_nat 100)

  unfoldable pub sample_cpu_usage : Look (Option Float)
  unfolding parse_cpu_times
  sample_cpu_usage = do
    a ← read_as "/proc/stat" (parse_cpu_times C)
    if_some a
        (λ a. do
          b ← read_as "/proc/stat" (parse_cpu_times C)
          pure (and_then b (λ b. some (usage a b))))
        (pure none)

  abbrev metrics_of : Option Float → Float × Float → Float → SystemMetrics C
  metrics_of load (used, total) cpu = record {
    cpu_usage = cpu;
    load_average = unwrap_or load (of_nat 0);
    mem_used_mb = used;
    mem_total_mb = total;
    mem_used_pct =
        one_decimal C (if gt total (of_nat 0) then mul (div used total) (of_nat 100) else of_nat 0);
    disk_read_mb_s = of_nat 0;
  }

  unfoldable pub linux_metrics : Look (Result ToolError (SystemMetrics C))
  unfolding sample_cpu_usage parse_meminfo
  linux_metrics = do
    load ← read "/proc/loadavg"
    if_ok load
        (λ load. do
          mem ← read_as "/proc/meminfo" (parse_meminfo C)
          cpu ← sample_cpu_usage
          pure (
              ok (
                metrics_of (and_then (get_elem? (words C load) 0) parse_f64)
                  (unwrap_or mem (of_nat 0, of_nat 0)) (unwrap_or cpu (of_nat 0)))))
        (λ e. pure (err (execution e)))
