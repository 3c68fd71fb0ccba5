-- ===== src/Daemon/Snapshots/Restore/Machine.antt =====
-- internal/daemon/snapshot.go: RestoreSnapshot. Its deferred functions remove the new disks, then the
-- downloaded artifacts, then the journal entry; which of these run depends on where it fails, so that
-- each stretch of it names what follows its errors.
use computer_host.Base.{
  String, Bool, true, false, ◌&&◌, Option, none, some, List, message, string_key, dir,
}
use computer_host.Model.{MachineId, SnapshotId, MachineRecord, GuestConfig, MachineOperation}
use computer_host.Host.Exec.{
  ◌>>=◌, ◌>>◌, pure, gets, try, ignore, lift, refuse_if, on_error, wrapping,
}
use computer_host.Host.World.{MachineState, boot, mkdir}
use computer_host.Host.Calls.{Host, on_store, remove_tree, call, run, now, with_machine_lock}
use computer_host.Store.Table.{find}
use computer_host.Store.Machines.{get_machine}
use computer_host.Store.Operations.{upsert_operation, delete_operation}
use computer_host.Daemon.Files.{
  system_volume_path, validate_machine_id, resolve_requested_memory_mib,
}
use computer_host.Daemon.GuestConfigs.{
  validate_artifact_ref, validate_guest_config, merged_guest_config,
}
use computer_host.Daemon.Startup.{complete_machine_startup}
use computer_host.Daemon.Boot.{list_running_networks, spec_for}
use computer_host.Daemon.Create.Machine.{refuse_present}
use computer_host.Daemon.Snapshots.Take.{snapshot_operation}
use computer_host.Daemon.Snapshots.Restored.{
  RestoreSnapshotRequest, RestoredArtifact, DurableSnapshotSpec, restored_name, is_mismatch,
  prepare_restore_artifacts, clean_restore_artifacts,
}
use computer_host.Daemon.Snapshots.Order.{ordered_restored_user_disk_artifacts}
use computer_host.Daemon.Snapshots.Restore.{Found, look_up, restore_system_disk, restore_disks}
use computer_host.Daemon.Snapshots.Restore.Records.{record_restored}

-- A machine that was booted, and its record.
pub record Booted : Type 0 where
  pub machine : MachineRecord
  pub state : MachineState

-- RestoreSnapshot from the new disks to the record of the machine.
unfoldable pub restore_machine :
    RestoreSnapshotRequest → GuestConfig → String → List RestoredArtifact → Found → Host Booted
unfolding ◌>>=◌ pure wrapping restore_system_disk restore_disks record_restored
restore_machine req config path artifacts found = do
  storage_bytes ←
      restore_system_disk req config found.guest_host_key path
        (find restored_name "system.img" artifacts)
  volumes ← restore_disks req (ordered_restored_user_disk_artifacts artifacts)
  spec ← wrapping "build machine spec for restore" (
      spec_for req.machine_id (resolve_requested_memory_mib req.memory_mib) found.artifact volumes
        path (some config) found.ready_nonce)
  used_networks ← list_running_networks req.machine_id
  state ← wrapping "boot restored machine" (call (boot spec used_networks) (λ env n. env.booted n))
  r ← record_restored req storage_bytes config path volumes found state
  pure (record { machine = r; state = state })

abbrev clear : MachineId → Host (Unit {0})
clear id = ignore (on_store (delete_operation id))

-- RestoreSnapshot after the artifacts were prepared.
unfoldable pub restore_prepared :
    SnapshotId → RestoreSnapshotRequest → GuestConfig → List RestoredArtifact → Host MachineRecord
unfolding ◌>>=◌ pure gets ignore on_error wrapping look_up restore_machine clean_restore_artifacts
restore_prepared id req config artifacts = do
  settings ← gets (λ w. w.config)
  let clean = clean_restore_artifacts id req req.local_snapshot
  let path = system_volume_path settings req.machine_id
  let remove_disks = ignore (remove_tree (dir path))
  found ← on_error (clean >> clear req.machine_id) (look_up req)
  on_error clean (wrapping "create machine disk dir" (run (mkdir (dir path))))
  booted ←
      on_error (remove_disks >> (clean >> clear req.machine_id))
        (restore_machine req config path artifacts found)
  ready ← on_error (remove_disks >> clean) (complete_machine_startup booted.machine booted.state)
  clean
  clear req.machine_id
  pure ready

abbrev is_absent : {A : Type 0} → Option A → Bool
is_absent none = true
is_absent (some a) = false

abbrev is_local_mismatch : SnapshotId → Option SnapshotId → Bool
is_local_mismatch id none = false
is_local_mismatch id (some given) = is_mismatch id given

abbrev is_durable_mismatch : SnapshotId → Option DurableSnapshotSpec → Bool
is_durable_mismatch id none = false
is_durable_mismatch id (some spec) = is_mismatch id spec.snapshot_id

-- RestoreSnapshot.
unfoldable pub restore_snapshot : SnapshotId → RestoreSnapshotRequest → Host MachineRecord
unfolding ◌>>=◌ gets try lift refuse_if on_error with_machine_lock prepare_restore_artifacts
    restore_prepared
restore_snapshot id req = do
  parsed_url ← gets (λ w. w.env.parsed_url)
  lift (validate_machine_id req.machine_id)
  lift (validate_artifact_ref parsed_url req.artifact)
  refuse_if (is_absent req.local_snapshot && is_absent req.snapshot)
      (message "restore request must include local_snapshot or snapshot" "")
  refuse_if (is_local_mismatch id req.local_snapshot) (message "local snapshot id mismatch" id)
  refuse_if (is_durable_mismatch id req.snapshot) (message "snapshot id mismatch" id)
  lift (validate_guest_config parsed_url req.guest_config)
  config ← merged_guest_config req.guest_config
  with_machine_lock req.machine_id (do
    found ← try (on_store (get_machine req.machine_id))
    refuse_present req.machine_id found
    started_at ← now
    on_store (
        upsert_operation (snapshot_operation req.machine_id MachineOperation.restore id started_at))
    artifacts ←
        on_error (clear req.machine_id) (prepare_restore_artifacts id req req.local_snapshot)
    restore_prepared id req config artifacts)
