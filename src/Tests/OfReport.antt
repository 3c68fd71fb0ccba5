-- ===== src/Tests/OfReport.antt =====
-- The theorem on the storage report, for a machine with a disk of the system and one of the user.
use computer_host.Base.{
  String, none, List, [], ◌∷◌, ok, ◌≡◌, refl, ◌=?◌, string_key, dir, if◌then◌else◌,
}
use computer_host.Model.{MachineId, VolumeRecord, VolumeKind}
use computer_host.Tests.{web_volume, web_snapshot, settings}
use computer_host.Daemon.StorageReport.{
  FileSystem, Stat, Entry, StorageReport, StoragePool, storage_report, add_pools, directory_size,
  walked, add_volumes, bytes_of_file, credit, add_snapshots, snapshot_bytes, add_files, pool_paths,
}
use computer_host.Daemon.StorageReport.Sums.{usage_of, usage_as, sum_from}
use computer_host.Daemon.StorageReport.Totals.{
  IsMeasured, IsCounted, pool_sizes, storage_report-IsSummed,
}

abbrev stat_of : String → Stat
stat_of path =
    if path =? "/disks/web/system.img"
    then Stat.sized 4096
    else if path =? "/disks/web/data.img"
    then Stat.sized 512
    else if path =? "/snapshots/first/mem"
    then Stat.sized 2048
    else if path =? "/var/lib/host/machine-disks"
    then Stat.sized 4096
    else Stat.missing

abbrev files : FileSystem
files = record {
  stat = stat_of;
  walk = λ path. Entry.directory ∷ Entry.file 4096 ∷ Entry.file 512 ∷ [];
}

abbrev data_volume : VolumeRecord
data_volume = record web_volume {
  id = "web-data";
  kind = VolumeKind.user;
  path = "/disks/web/data.img";
}

abbrev free_volume : VolumeRecord
free_volume = record web_volume { id = "free"; attached_machine_id = none }

abbrev volumes : List VolumeRecord
volumes = data_volume ∷ free_volume ∷ web_volume ∷ []

abbrev report : StorageReport
report = record {
  generated_at = 9;
  total_bytes = 4608;
  pools =
      record { pool = StoragePool.artifacts; bytes = 0 }
      ∷ record { pool = StoragePool.machine_disks; bytes = 4608 }
      ∷ record { pool = StoragePool.published_ports; bytes = 0 }
      ∷ record { pool = StoragePool.snapshots; bytes = 0 }
      ∷ record { pool = StoragePool.state; bytes = 0 }
      ∷ [];
  machines =
      record { machine_id = "web"; system_bytes = 4096; user_bytes = 512; runtime_bytes = 0 } ∷ [];
  snapshots = record { snapshot_id = "first"; bytes = 2048 } ∷ [];
  published_ports = 1;
}

reported : storage_report files settings volumes (web_snapshot ∷ []) 1 9 ≡ ok report
unfolding storage_report add_pools directory_size walked add_volumes bytes_of_file credit
    add_snapshots snapshot_bytes add_files dir
reported = refl

storage_report-IsSummed_example :
    IsMeasured files (pool_paths settings) report.pools
    × (4608 ≡ sum_from 0 (pool_sizes report.pools))
    × ((id : MachineId) → usage_of id report.machines ≡ usage_as files volumes id)
    × IsCounted files (web_snapshot ∷ []) report.snapshots
storage_report-IsSummed_example =
    storage_report-IsSummed files settings volumes (web_snapshot ∷ []) 1 9 report reported
