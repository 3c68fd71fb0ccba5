-- ===== src/Daemon/Snapshots/Restore.antt =====
-- internal/daemon/snapshot.go: what RestoreSnapshot looks up, and the disks it copies. Records has what
-- it writes and undoes in the store, Machine the whole of it.
pub mod Records
pub mod Machine
use computer_host.Base.{
  String, Bool, true, false, not, ◌&&◌, ◌||◌, Option, none, some, List, [], ◌∷◌, message, ℤ,
  is_not_found, trim_space, ◌=?◌, string_key, dir, join, stem, if◌then◌else◌,
}
use Prim.Native.String.{◌++◌ as ◌+++◌}
use computer_host.Model.{
  MachineId, VolumeId, SnapshotId, MachineRecord, MachinePhase, VolumeRecord, VolumeKind,
  VolumePurpose, StoragePool, ArtifactRef, ArtifactRecord, GuestConfig, MachineOperation, Time,
}
use computer_host.Host.Exec.{
  Attempt, value, failed, ◌>>=◌, ◌>>◌, pure, raise, gets, try, ignore, lift, refuse_if, for_each,
  on_error, wrapping,
}
use computer_host.Host.World.{
  MachineState, boot, delete_vm, nonce, host_key, mkdir, remove_all, truncate_file, read_label,
}
use computer_host.Host.Calls.{Host, on_store, call, run, now, with_machine_lock}
use computer_host.Store.Table.{find}
use computer_host.Store.Machines.{get_machine, create_machine}
use computer_host.Store.Volumes.{create_volume, delete_volume}
use computer_host.Store.Operations.{upsert_operation, delete_operation}
use computer_host.Daemon.MachinePorts.{default_machine_ports}
use computer_host.Daemon.Files.{
  system_volume_id, system_volume_path, workspace_volume_id, workspace_volume_path,
  validate_machine_id, resolve_requested_memory_mib,
}
use computer_host.Daemon.GuestConfigs.{
  validate_artifact_ref, validate_guest_config, merged_guest_config,
}
use computer_host.Daemon.Disks.{
  resolve_requested_storage_bytes, clone_disk, inject_machine_identity, inject_guest_config,
  inject_guest_ssh_host_key,
}
use computer_host.Daemon.Startup.{complete_machine_startup}
use computer_host.Daemon.Boot.{list_running_networks, spec_for}
use computer_host.Daemon.Artifacts.{ensure_artifact}
use computer_host.Daemon.Create.{system_volume_of}
use computer_host.Daemon.Create.Records.{drop_machine}
use computer_host.Daemon.Create.Machine.{refuse_present}
use computer_host.Daemon.Snapshots.Take.{snapshot_operation}
use computer_host.Daemon.Snapshots.Restored.{
  RestoreSnapshotRequest, RestoredArtifact, DurableSnapshotSpec, restored_name, is_mismatch,
  prepare_restore_artifacts, clean_restore_artifacts,
}
use computer_host.Daemon.Snapshots.Order.{ordered_restored_user_disk_artifacts}

-- What the three goroutines of RestoreSnapshot found.
pub record Found : Type 0 where
  pub artifact : ArtifactRecord
  pub guest_host_key : String
  pub ready_nonce : String

unfoldable pub all_found : Attempt ArtifactRecord → Attempt String → Attempt String → Host Found
unfolding pure raise
all_found (failed e) k n = raise e
all_found (value a) (failed e) n = raise e
all_found (value a) (value k) (failed e) = raise e
all_found (value a) (value k) (value n) =
    pure (record { artifact = a; guest_host_key = k; ready_nonce = n })

unfoldable pub look_up : RestoreSnapshotRequest → Host Found
unfolding ◌>>=◌ try wrapping ensure_artifact all_found
look_up req = do
  artifact ← try (wrapping "ensure artifact for restore" (ensure_artifact req.artifact))
  guest_host_key ← try (call host_key (λ env n. trim_space (env.text n)))
  ready_nonce ← try (call nonce (λ env n. env.text n))
  all_found artifact guest_host_key ready_nonce

-- The system disk of the new machine, from its copy on; the storage of the machine is returned.
unfoldable pub restore_system_disk :
    RestoreSnapshotRequest → GuestConfig → String → String → Option RestoredArtifact → Host ℤ
unfolding ◌>>=◌ pure raise wrapping clone_disk resolve_requested_storage_bytes
    inject_machine_identity inject_guest_config inject_guest_ssh_host_key
restore_system_disk req config key path none =
    raise (message "snapshot is missing system disk artifact" "")
restore_system_disk req config key path (some a) = do
  wrapping "copy system disk for restore" (clone_disk a.local_path path)
  storage_bytes ← resolve_requested_storage_bytes req.storage_bytes a.local_path
  wrapping "resize restored system disk" (run (truncate_file path storage_bytes))
  wrapping "inject machine identity for restore" (inject_machine_identity path req.machine_id)
  wrapping "inject guest config for restore" (inject_guest_config path config)
  wrapping "inject guest ssh host key for restore" (inject_guest_ssh_host_key path key)
  pure storage_bytes

-- detectVolumePurpose, by the label that blkid prints.
abbrev pub is_workspace_label : String → Bool
is_workspace_label label = trim_space label =? "microagent-ws"

abbrev restored_volume : RestoreSnapshotRequest → String → String → String → Bool → VolumeRecord
restored_volume req drive_id disk_path workspace_path is_workspace = record {
  id =
      if is_workspace
      then workspace_volume_id req.machine_id
      else req.machine_id +++ ("-" +++ drive_id);
  kind = VolumeKind.user;
  attached_machine_id = none;
  source_artifact = none;
  pool = StoragePool.user_volumes;
  path = if is_workspace then workspace_path else disk_path;
  purpose = if is_workspace then VolumePurpose.workspace else VolumePurpose.none_given;
  delete_on_machine_delete = is_workspace;
  created_at = 0;
}

-- One disk of the user, and then the rest of them.
unfoldable pub restore_disk_then :
    RestoreSnapshotRequest → RestoredArtifact → Host (List VolumeRecord) → Host (List VolumeRecord)
unfolding ◌>>=◌ pure gets wrapping clone_disk
restore_disk_then req a rest = do
  config ← gets (λ w. w.config)
  label ← wrapping "detect volume purpose" (call (read_label a.local_path) (λ env n. env.text n))
  let volume =
      restored_volume req (stem (restored_name a))
        (join (config.machine_disks_dir ∷ req.machine_id ∷ restored_name a ∷ []))
        (workspace_volume_path config req.machine_id) (is_workspace_label label)
  wrapping "copy restored drive" (clone_disk a.local_path volume.path)
  volumes ← rest
  pure (volume ∷ volumes)

unfoldable pub restore_disks :
    RestoreSnapshotRequest → List RestoredArtifact → Host (List VolumeRecord)
unfolding pure restore_disk_then
restore_disks req [] = pure []
restore_disks req (a ∷ others) = restore_disk_then req a (restore_disks req others)
