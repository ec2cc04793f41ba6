-- ===== src/Tools/Linux.antt =====
-- `LinuxBackend` of crates/system-tools/src/lib.rs.
use saaios.Crates.{Crates}
use saaios.Protocol.{Result, ok}
use saaios.Registry.{ToolError}
use saaios.Tools.{ToolsMode, mock, real_linux, SystemBackend}
use saaios.Tools.Mock.{mock_backend}
use saaios.Tools.World.{Machine, World, Look, pure, ◌>>=◌}
use saaios.Tools.Processes.{linux_metrics, linux_processes}
use saaios.Tools.Sys.Disk.{read_disk_usage}
use saaios.Tools.Sys.Network.{read_network_status}
use saaios.Tools.Sys.Sensors.{read_temperature}
use saaios.Tools.Journal.{read_journal}
use saaios.Tools.Kill.{real_kill}

abbrev pub always : {A : Type 0} → Look A → Look (Result ToolError A)
always m = do a ← m; pure (ok a)

unfoldable pub linux_backend : (C : Crates) → Machine → SystemBackend C World
linux_backend C m = record {
  metrics = linux_metrics C m;
  processes = linux_processes C m;
  network_status = always (read_network_status C m);
  disk = always (read_disk_usage C m);
  temperature = always (read_temperature C m);
  journal = λ lines unit. always (read_journal C m lines unit);
  kill = real_kill C m;
}

-- The backend of a mode, as `install_system_tools` chooses it.
abbrev pub backend_of : (C : Crates) → Machine → ToolsMode → SystemBackend C World
backend_of C m mock = mock_backend C World
backend_of C m real_linux = linux_backend C m
