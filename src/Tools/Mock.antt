-- ===== src/Tools/Mock.antt =====
-- `MockBackend` of crates/system-tools/src/lib.rs. A decimal fraction is the quotient of two integers,
-- which rounds to the same `f64` as the literal.
use saaios.Prelude.{
  ℕ, String, Bool, true, Option, none, some, List, [], ◌∷◌, map, if◌then◌else◌, leb, max, take,
  length, is_empty, contains, ◌+++◌,
}
use saaios.Crates.{Crates}
use saaios.Protocol.{ok, err}
use saaios.Registry.{invalid_args}
use saaios.Tools.{ProcessInfo, SystemMetrics, Method, SystemBackend}

-- `retain(|e| e.contains(&u))`
abbrev pub retain : (String → Bool) → List String → List String
retain p [] = []
retain p (e ∷ es) = let rest = retain p es in if p e then e ∷ rest else rest

module _ (C : Crates) (S : Type 0) where
  open C use {Value, Float, str, obj, arr, num, bool, float, of_nat, div}

  abbrev tenths : ℕ → Float
  tenths n = div (of_nat n) (of_nat 10)

  mock_metrics : Method C S (SystemMetrics C)
  mock_metrics s = (
    ok (record {
      cpu_usage = of_nat 97;
      load_average = tenths 84;
      mem_used_mb = of_nat 5200;
      mem_total_mb = of_nat 8192;
      mem_used_pct = tenths 635;
      disk_read_mb_s = of_nat 120;
    }),
    s,
  )

  abbrev process : ℕ → String → Float → ℕ → ProcessInfo C
  process pid name cpu mem = record { pid = pid; name = name; cpu = cpu; mem_mb = of_nat mem }

  mock_processes : Method C S (List (ProcessInfo C))
  mock_processes s = (
    ok (
        process 4312 "runaway-worker" (of_nat 88) 900
        ∷ process 120 "systemd" (tenths 3) 40
        ∷ process 880 "sshd" (tenths 1) 20
        ∷ []),
    s,
  )

  mock_network_status : Method C S Value
  mock_network_status s = (
    ok (
        obj (
          ("online", bool true)
          ∷ ("source", str "mock")
          ∷ (
            "interfaces",
            arr (
                obj (
                  ("name", str "eth0")
                  ∷ ("operstate", str "up")
                  ∷ ("ipv4", arr (str "192.168.1.50/24" ∷ []))
                  ∷ ("rx_bytes", num 1250000)
                  ∷ ("tx_bytes", num 420000)
                  ∷ [])
                ∷ []),
          )
          ∷ ("default_route", str "192.168.1.1")
          ∷ [])),
    s,
  )

  mock_disk : Method C S Value
  mock_disk s = (
    ok (
        obj (
          ("source", str "mock")
          ∷ (
            "mounts",
            arr (
                obj (
                  ("path", str "/")
                  ∷ ("total_mb", float (of_nat 32000))
                  ∷ ("used_mb", float (of_nat 22400))
                  ∷ ("avail_mb", float (of_nat 9600))
                  ∷ ("used_pct", float (of_nat 70))
                  ∷ [])
                ∷ []),
          )
          ∷ ("root_used_pct", float (of_nat 70))
          ∷ [])),
    s,
  )

  mock_temperature : Method C S Value
  mock_temperature s = (
    ok (
        obj (
          ("source", str "mock")
          ∷ ("celsius", float (tenths 625))
          ∷ (
            "zones",
            arr (obj (("name", str "cpu-thermal") ∷ ("celsius", float (tenths 625)) ∷ []) ∷ []),
          )
          ∷ [])),
    s,
  )

  abbrev all_entries : List String
  all_entries =
      "2026-08-03T10:00:01 saaios-runtime[1]: listening on /tmp/saaios.sock"
      ∷ "2026-08-03T10:00:05 kernel: CPU soft lockup suspected on runaway-worker"
      ∷ "2026-08-03T10:00:08 systemd[1]: Started Session 42 of user pi" ∷ []

  abbrev of_unit : Option String → List String
  of_unit none = all_entries
  of_unit (some u) =
      let found = retain (λ e. contains e u) all_entries in
      if is_empty found then ("(no mock lines for unit=" +++ u +++ ")") ∷ [] else found

  -- The lines that the journal shows: `truncate` keeps the first ones.
  unfoldable pub mock_lines : ℕ → Option String → List String
  mock_lines lines unit = take (max lines 1) (of_unit unit)

  mock_journal : ℕ → Option String → Method C S Value
  unfolding mock_lines
  mock_journal lines unit s =
      let entries = mock_lines lines unit in
      (
        ok (
            obj (
              ("source", str "mock")
              ∷ ("lines", arr (map str entries))
              ∷ ("count", num (length entries))
              ∷ [])),
        s,
      )

  mock_kill : ℕ → String → Method C S Value
  mock_kill pid signal s = (
    if leb pid 1
        then err (invalid_args "refusing to signal pid <= 1")
        else ok (
            obj (
              ("killed", bool true)
              ∷ ("pid", num pid)
              ∷ ("signal", str signal)
              ∷ ("mode", str "mock")
              ∷ [])),
    s,
  )

  unfoldable pub mock_backend : SystemBackend C S
  unfolding mock_metrics mock_processes mock_network_status mock_disk mock_temperature mock_journal
      mock_kill
  mock_backend = record {
    metrics = mock_metrics;
    processes = mock_processes;
    network_status = mock_network_status;
    disk = mock_disk;
    temperature = mock_temperature;
    journal = mock_journal;
    kill = mock_kill;
  }
