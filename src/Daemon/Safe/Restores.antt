-- ===== src/Daemon/Safe/Restores.antt =====
-- Snapshots are restored safely.
use computer_host.Base.{String, List, [], ◌∷◌, ℤ, Option, some, none}
use computer_host.Model.{
  MachineId, SnapshotId, SnapshotRecord, SnapshotArtifactRecord, ArtifactRecord, VolumeRecord,
  GuestConfig, Time,
}
use computer_host.Host.Exec.{Attempt, value, failed}
use computer_host.Host.World.{MachineState}
use computer_host.Host.Calls.{Host}
use computer_host.Daemon.Snapshots.Restored
use computer_host.Daemon.Snapshots.Restored.{
  SnapshotArtifact, DurableSnapshotSpec, RestoreSnapshotRequest, RestoredArtifact,
}
use computer_host.Daemon.Snapshots.Restore
use computer_host.Daemon.Snapshots.Restore.Records
use computer_host.Daemon.Snapshots.Restore.Machine
use computer_host.Daemon.Snapshots.Restore.Machine.{restore_snapshot}
use computer_host.Daemon.Safe.{Safe, host_rules}
use computer_host.Daemon.Safe.Records.{complete_machine_startup-Safe}
use computer_host.Daemon.Safe.Requests.{list_running_networks-Safe, spec_for-Safe}
use computer_host.Daemon.Safe.Creation.{
  merged_guest_config-Safe, resolve_requested_storage_bytes-Safe, clone_disk-Safe,
  inject_machine_identity-Safe, inject_guest_config-Safe, inject_guest_ssh_host_key-Safe,
  ensure_artifact-Safe, drop_machine-Safe, refuse_present-Safe,
}

module _ (held : List MachineId) where
  local_snapshot_artifacts-Safe :
      (restored : List RestoredArtifact) (artifacts : List SnapshotArtifactRecord)
      → Safe held (Restored.local_snapshot_artifacts restored artifacts)
  unfolding Restored.local_snapshot_artifacts
  local_snapshot_artifacts-Safe restored [] = search host_rules
  local_snapshot_artifacts-Safe restored (a ∷ others) =
      let rest : (r : List RestoredArtifact)
          → Safe held (Restored.local_snapshot_artifacts r others) =
        λ r. local_snapshot_artifacts-Safe r others in
      search (host_rules, rest) depth 9

  check_sum-Safe : (path expected : String) → Safe held (Restored.check_sum path expected)
  unfolding Restored.check_sum
  check_sum-Safe path expected = search host_rules depth 12

  download_artifact-Safe :
      (path : String) (a : SnapshotArtifact) → Safe held (Restored.download_artifact path a)
  unfolding Restored.download_artifact
  download_artifact-Safe path a = search (host_rules, check_sum-Safe)

  download_all-Safe :
      (root : String) (restored : List RestoredArtifact) (artifacts : List SnapshotArtifact)
      → Safe held (Restored.download_all root restored artifacts)
  unfolding Restored.download_all
  download_all-Safe root restored [] = search host_rules
  download_all-Safe root restored (a ∷ others) =
      let rest : (r : List RestoredArtifact) → Safe held (Restored.download_all root r others) =
        λ r. download_all-Safe root r others in
      search (host_rules, download_artifact-Safe, rest)

  download_durable_snapshot_artifacts-Safe :
      (root : String) (artifacts : List SnapshotArtifact)
      → Safe held (Restored.download_durable_snapshot_artifacts root artifacts)
  unfolding Restored.download_durable_snapshot_artifacts
  download_durable_snapshot_artifacts-Safe root artifacts = search (host_rules, download_all-Safe)

  found_locally-Safe : (a : Attempt SnapshotRecord) → Safe held (Restored.found_locally a)
  unfolding Restored.found_locally
  found_locally-Safe (value s) = search (host_rules, local_snapshot_artifacts-Safe)
  found_locally-Safe (failed e) = search host_rules

  prepare_durable-Safe :
      (id : SnapshotId) (machine_id : MachineId) (spec : Option DurableSnapshotSpec)
      → Safe held (Restored.prepare_durable id machine_id spec)
  unfolding Restored.prepare_durable
  prepare_durable-Safe id machine_id none = search host_rules
  prepare_durable-Safe id machine_id (some spec) =
      search (host_rules, download_durable_snapshot_artifacts-Safe) depth 10

  prepare_restore_artifacts-Safe :
      (id : SnapshotId) (req : RestoreSnapshotRequest) (given : Option SnapshotId)
      → Safe held (Restored.prepare_restore_artifacts id req given)
  unfolding Restored.prepare_restore_artifacts
  prepare_restore_artifacts-Safe id req none = prepare_durable-Safe id req.machine_id req.snapshot
  prepare_restore_artifacts-Safe id req (some given) =
      search (host_rules, found_locally-Safe) depth 9

  clean_restore_artifacts-Safe :
      (id : SnapshotId) (req : RestoreSnapshotRequest) (given : Option SnapshotId)
      → Safe held (Restored.clean_restore_artifacts id req given)
  unfolding Restored.clean_restore_artifacts
  clean_restore_artifacts-Safe id req none = search host_rules
  clean_restore_artifacts-Safe id req (some given) = search host_rules

  all_found-Safe :
      (a : Attempt ArtifactRecord) (k n : Attempt String) → Safe held (Restore.all_found a k n)
  unfolding Restore.all_found
  all_found-Safe (failed e) k n = search host_rules
  all_found-Safe (value a) (failed e) n = search host_rules
  all_found-Safe (value a) (value k) (failed e) = search host_rules
  all_found-Safe (value a) (value k) (value n) = search host_rules

  look_up-Safe : (req : RestoreSnapshotRequest) → Safe held (Restore.look_up req)
  unfolding Restore.look_up
  look_up-Safe req = search (host_rules, ensure_artifact-Safe, all_found-Safe) depth 9

  restore_system_disk-Safe :
      (req : RestoreSnapshotRequest) (config : GuestConfig) (key path : String)
      (a : Option RestoredArtifact)
      → Safe held (Restore.restore_system_disk req config key path a)
  unfolding Restore.restore_system_disk
  restore_system_disk-Safe req config key path none = search host_rules
  restore_system_disk-Safe req config key path (some a) =
      search
        (
          host_rules, clone_disk-Safe, resolve_requested_storage_bytes-Safe,
          inject_machine_identity-Safe, inject_guest_config-Safe, inject_guest_ssh_host_key-Safe,
        )
        depth 14

  restore_disk_then-Safe :
      (req : RestoreSnapshotRequest) (a : RestoredArtifact) (rest : Host (List VolumeRecord))
      → Safe held rest
      → Safe held (Restore.restore_disk_then req a rest)
  unfolding Restore.restore_disk_then
  restore_disk_then-Safe req a rest k = search (host_rules, clone_disk-Safe) depth 9

  restore_disks-Safe :
      (req : RestoreSnapshotRequest) (artifacts : List RestoredArtifact)
      → Safe held (Restore.restore_disks req artifacts)
  unfolding Restore.restore_disks
  restore_disks-Safe req [] = search host_rules
  restore_disks-Safe req (a ∷ others) =
      restore_disk_then-Safe req a _ (restore_disks-Safe req others)

  undo_restored-Safe :
      (id : MachineId) (state : MachineState) (vs : List VolumeRecord)
      → Safe held (Records.undo_restored id state vs)
  unfolding Records.undo_restored
  undo_restored-Safe id state vs = search (host_rules, drop_machine-Safe) depth 10

  enter_volumes-Safe :
      (req : RestoreSnapshotRequest) (state : MachineState) (created_at : Time)
      (entered vs : List VolumeRecord)
      → Safe held (Records.enter_volumes req state created_at entered vs)
  unfolding Records.enter_volumes
  enter_volumes-Safe req state created_at entered [] = search host_rules
  enter_volumes-Safe req state created_at entered (v ∷ vs) =
      let rest : (es : List VolumeRecord)
          → Safe held (Records.enter_volumes req state created_at es vs) =
        λ es. enter_volumes-Safe req state created_at es vs in
      search (host_rules, undo_restored-Safe, rest)

  record_restored-Safe :
      (req : RestoreSnapshotRequest) (n : ℤ) (config : GuestConfig) (path : String)
      (vs : List VolumeRecord) (found : Restore.Found) (state : MachineState)
      → Safe held (Records.record_restored req n config path vs found state)
  unfolding Records.record_restored
  record_restored-Safe req n config path vs found state =
      search (host_rules, enter_volumes-Safe, undo_restored-Safe) depth 12

  restore_machine-Safe :
      (req : RestoreSnapshotRequest) (config : GuestConfig) (path : String)
      (artifacts : List RestoredArtifact) (found : Restore.Found)
      → Safe held (Machine.restore_machine req config path artifacts found)
  unfolding Machine.restore_machine
  restore_machine-Safe req config path artifacts found =
      search
        (
          host_rules, restore_system_disk-Safe, restore_disks-Safe, spec_for-Safe,
          list_running_networks-Safe, record_restored-Safe,
        )
        depth 14

  restore_prepared-Safe :
      (id : SnapshotId) (req : RestoreSnapshotRequest) (config : GuestConfig)
      (artifacts : List RestoredArtifact)
      → Safe held (Machine.restore_prepared id req config artifacts)
  unfolding Machine.restore_prepared
  restore_prepared-Safe id req config artifacts =
      search
        (
          host_rules, look_up-Safe, restore_machine-Safe, clean_restore_artifacts-Safe,
          complete_machine_startup-Safe,
        )
        depth 16

module _ (held : List MachineId) where
  pub restore_snapshot-Safe :
      (id : SnapshotId) (req : RestoreSnapshotRequest) → Safe held (restore_snapshot id req)
  unfolding restore_snapshot
  restore_snapshot-Safe id req =
      search
        (
          host_rules, merged_guest_config-Safe, refuse_present-Safe, prepare_restore_artifacts-Safe,
          restore_prepared-Safe,
        )
        depth 18
