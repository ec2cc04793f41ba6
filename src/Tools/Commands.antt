-- ===== src/Tools/Commands.antt =====
-- The child processes that the reading functions of crates/system-tools/src/lib.rs start.
use saaios.Prelude.{
  ℕ, ◌≡◌, refl, String, true, Option, none, some, List, [], ◌∷◌, All, All-append, one_of,
}
use saaios.Crates.{Crates}
use saaios.Tools.World.{
  Machine, World, Look, look, command, Keeps, keeps_rules, Keeps-pure, Keeps-bind, Keeps-if_some,
  Keeps-if_true,
}
use saaios.Tools.Processes.{
  snapshot_process_cpu, snapshot_loop, sample_entry, sampled, linux_processes, second_sample,
  sample_cpu_usage, linux_metrics, Snapshot,
}
use saaios.Tools.Sys.{entries}
use saaios.Tools.Sys.Disk.{read_disk_usage}
use saaios.Tools.Sys.Network.{
  read_network_status, read_iface_ipv4, read_default_gateway, interface, interfaces,
}
use saaios.Tools.Sys.Sensors.{read_temperature, thermal_zone, hwmon_zone, zones_of, or_hwmon}
use saaios.Tools.Journal.{read_journal}

-- The programs that only show what there is.
abbrev pub readers : List String
readers = "df" ∷ "ip" ∷ "journalctl" ∷ "dmesg" ∷ []

module _ (C : Crates) (m : Machine) (Q : String × List String → Type 0)
    (reads : (program : String) (args : List String)
      → one_of program readers ≡ true
      → Q (program, args)) where
  abbrev P : World → Type 0
  P w = All Q w.commands

  pub look-P : {A : Type 0} (f : ℕ → A) → Keeps P (look f)
  unfolding look
  look-P f = record { at = λ w h. h }

  pub command-P :
      (program : String) (args : List String) → Q (program, args) → Keeps P (command m program args)
  unfolding command
  command-P program args q = record { at = λ w h. All-append Q w.commands _ h (q, tt) }

  ruleset rules = (keeps_rules, look-P)

  reader-P :
      (program : String) (args : List String)
      → one_of program readers ≡ true
      → Keeps P (command m program args)
  reader-P program args h = command-P program args (reads program args h)

  sampled-P : (pid : ℕ) (j : Option ℕ) → Keeps P (sampled C m pid j)
  unfolding sampled
  sampled-P pid none = Keeps-pure _
  sampled-P pid (some j) = search rules

  sample_entry-P : (name : String) → Keeps P (sample_entry C m name)
  unfolding sample_entry
  sample_entry-P name = search (rules, sampled-P)

  snapshot_loop-P :
      (names : List String) (found : Snapshot C m) → Keeps P (snapshot_loop C m found names)
  unfolding snapshot_loop
  snapshot_loop-P [] found = Keeps-pure _
  snapshot_loop-P (name ∷ names) found = Keeps-bind _ _ (sample_entry-P name) (λ entry.
      Keeps-if_some _ _ _
        (λ (pid, sample). Keeps-if_true _ _ _ (Keeps-pure _) (snapshot_loop-P names _))
        (snapshot_loop-P names found))

  snapshot-P : Keeps P (snapshot_process_cpu C m)
  unfolding snapshot_process_cpu
  snapshot-P = search (rules, snapshot_loop-P)

  second_sample-P : (total : ℕ) (first : Snapshot C m) → Keeps P (second_sample C m total first)
  unfolding second_sample
  second_sample-P total first = search (rules, snapshot-P)

  pub processes-P : Keeps P (linux_processes C m)
  unfolding linux_processes
  processes-P = search (rules, snapshot-P, second_sample-P)

  cpu_usage-P : Keeps P (sample_cpu_usage C m)
  unfolding sample_cpu_usage
  cpu_usage-P = search rules

  pub metrics-P : Keeps P (linux_metrics C m)
  unfolding linux_metrics
  metrics-P = search (rules, cpu_usage-P)

  pub disk-P : Keeps P (read_disk_usage C m)
  unfolding read_disk_usage
  disk-P = search (rules, reader-P "df" _ refl)

  ipv4-P : (name : String) → Keeps P (read_iface_ipv4 C m name)
  unfolding read_iface_ipv4
  ipv4-P name = search (rules, reader-P "ip" _ refl)

  interface-P : (name : String) → Keeps P (interface C m name)
  unfolding interface
  interface-P name = search (rules, ipv4-P)

  interfaces-P : (names : List String) → Keeps P (interfaces C m names)
  unfolding interfaces
  interfaces-P [] = Keeps-pure _
  interfaces-P (name ∷ names) =
      Keeps-bind _ _ (interface-P name)
        (λ i. Keeps-bind _ _ (interfaces-P names) (λ rest. Keeps-pure _))

  entries-P : (path : String) → Keeps P (entries C m path)
  unfolding entries
  entries-P path = search rules

  gateway-P : Keeps P (read_default_gateway C m)
  unfolding read_default_gateway
  gateway-P = search rules

  pub network-P : Keeps P (read_network_status C m)
  unfolding read_network_status
  network-P = search (rules, entries-P, interfaces-P, gateway-P)

  thermal_zone-P : (name : String) → Keeps P (thermal_zone C m name)
  unfolding thermal_zone
  thermal_zone-P name = search rules depth 9

  hwmon_zone-P : (name : String) → Keeps P (hwmon_zone C m name)
  unfolding hwmon_zone
  hwmon_zone-P name = search rules

  zones_of-P :
      (zone : String → Look (Option C.Value)) (names : List String)
      → ((name : String) → Keeps P (zone name))
      → Keeps P (zones_of C m zone names)
  unfolding zones_of
  zones_of-P zone [] h = Keeps-pure _
  zones_of-P zone (name ∷ names) h =
      Keeps-bind _ _ (h name) (λ z. Keeps-bind _ _ (zones_of-P zone names h) (λ rest. Keeps-pure _))

  or_hwmon-P : (zones : List C.Value) → Keeps P (or_hwmon C m zones)
  unfolding or_hwmon
  or_hwmon-P [] = Keeps-bind _ _ (entries-P _) (λ names. zones_of-P _ names hwmon_zone-P)
  or_hwmon-P (z ∷ zones) = Keeps-pure _

  pub temperature-P : Keeps P (read_temperature C m)
  unfolding read_temperature
  temperature-P = Keeps-bind _ _ (entries-P _) (λ names.
      Keeps-bind _ _ (zones_of-P _ names thermal_zone-P)
        (λ found. Keeps-bind _ _ (or_hwmon-P found) (λ zones. Keeps-pure _)))

  pub journal-P : (wanted : ℕ) (unit : Option String) → Keeps P (read_journal C m wanted unit)
  unfolding read_journal
  journal-P wanted unit = search (rules, reader-P "journalctl" _ refl, reader-P "dmesg" _ refl)
