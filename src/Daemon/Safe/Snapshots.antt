-- ===== src/Daemon/Safe/Snapshots.antt =====
-- Snapshots are taken and deleted safely.
use computer_host.Base.{ℕ, ◌+◌, String, Bool, List, [], ◌∷◌, ℤ, Option, some, none}
use computer_host.Model.{
  MachineId, VolumeId, SnapshotId, MachineRecord, SnapshotRecord, SnapshotArtifactRecord,
  OperationRecord,
}
use computer_host.Host.Exec.{Attempt, value, failed}
use computer_host.Host.Calls.{Host}
use computer_host.Daemon.Snapshots
use computer_host.Daemon.Snapshots.{delete_snapshot_by_id}
use computer_host.Daemon.Snapshots.Take
use computer_host.Daemon.Snapshots.Take.{create_machine_snapshot}
use computer_host.Daemon.Safe.{Safe, host_rules}
use computer_host.Daemon.Safe.Requests.{journaled-Safe}
use computer_host.Daemon.Safe.Creation.{clone_disk-Safe}

module _ (held : List MachineId) where
  known_size-Safe : (missing : Bool) (a : Attempt ℤ) → Safe held (Snapshots.known_size missing a)
  unfolding Snapshots.known_size
  known_size-Safe missing (value n) = search host_rules
  known_size-Safe missing (failed e) = search host_rules

  file_size-Safe : (path : String) → Safe held (Snapshots.file_size path)
  unfolding Snapshots.file_size
  file_size-Safe path = search (host_rules, known_size-Safe) depth 9

  disk_artifact-Safe : (path : String) → Safe held (Snapshots.disk_artifact path)
  unfolding Snapshots.disk_artifact
  disk_artifact-Safe path = search (host_rules, file_size-Safe)

  disk_artifacts_then-Safe :
      (path : String) (rest : Host (List SnapshotArtifactRecord))
      → Safe held rest
      → Safe held (Take.disk_artifacts_then path rest)
  unfolding Take.disk_artifacts_then
  disk_artifacts_then-Safe path rest k = search (host_rules, disk_artifact-Safe)

  disk_artifacts-Safe : (paths : List String) → Safe held (Take.disk_artifacts paths)
  unfolding Take.disk_artifacts
  disk_artifacts-Safe [] = search host_rules
  disk_artifacts-Safe (path ∷ paths) = disk_artifacts_then-Safe path _ (disk_artifacts-Safe paths)

  build_snapshot_artifacts-Safe :
      (paths : List String) → Safe held (Take.build_snapshot_artifacts paths)
  unfolding Take.build_snapshot_artifacts
  build_snapshot_artifacts-Safe paths = search (host_rules, disk_artifacts-Safe)

  copy_then-Safe :
      (text target : String) (id : VolumeId) (rest : Host (List String))
      → Safe held rest
      → Safe held (Take.copy_then text target id rest)
  unfolding Take.copy_then
  copy_then-Safe text target id rest k = search (host_rules, clone_disk-Safe) depth 9

  copy_user_volumes-Safe :
      (directory : String) (i : ℕ) (ids : List VolumeId)
      → Safe held (Take.copy_user_volumes directory i ids)
  unfolding Take.copy_user_volumes
  copy_user_volumes-Safe directory i [] = search host_rules
  copy_user_volumes-Safe directory i (id ∷ ids) =
      copy_then-Safe _ _ id _ (copy_user_volumes-Safe directory (i + 1) ids)

  copy_disks-Safe :
      (r : MachineRecord) (directory : String) → Safe held (Take.copy_disks r directory)
  unfolding Take.copy_disks
  copy_disks-Safe r directory =
      copy_then-Safe _ _ r.system_volume_id _ (copy_user_volumes-Safe directory 0 r.user_volume_ids)

  copy_and_resume-Safe :
      (r : MachineRecord) (directory : String) → Safe held (Take.copy_and_resume r directory)
  unfolding Take.copy_and_resume
  copy_and_resume-Safe r directory = search (host_rules, copy_disks-Safe) depth 9

  made_dir-Safe :
      (id : SnapshotId) (exists : Bool) (a : Attempt (Unit {0}))
      → Safe held (Take.made_dir id exists a)
  unfolding Take.made_dir
  made_dir-Safe id exists (value u) = search host_rules
  made_dir-Safe id exists (failed e) = search host_rules

  take-Safe :
      (id : SnapshotId) (machine_id : MachineId) (r : MachineRecord)
      → Safe held (Take.take id machine_id r)
  unfolding Take.take
  take-Safe id machine_id r =
      search (host_rules, made_dir-Safe, copy_and_resume-Safe, build_snapshot_artifacts-Safe) depth
        14

  refuse_pending-Safe :
      (id : MachineId) (a : Attempt (List OperationRecord)) → Safe held (Take.refuse_pending id a)
  unfolding Take.refuse_pending
  refuse_pending-Safe id (value os) = search host_rules
  refuse_pending-Safe id (failed e) = search host_rules

  refuse_taken-Safe :
      (id : SnapshotId) (a : Attempt SnapshotRecord) → Safe held (Take.refuse_taken id a)
  unfolding Take.refuse_taken
  refuse_taken-Safe id (value s) = search host_rules
  refuse_taken-Safe id (failed e) = search host_rules

  removed_from-Safe :
      (id : SnapshotId) (d : Option String) → Safe held (Snapshots.removed_from id d)
  unfolding Snapshots.removed_from
  removed_from-Safe id none = search host_rules
  removed_from-Safe id (some d) = search host_rules

  pub delete_snapshot_by_id-Safe : (id : SnapshotId) → Safe held (delete_snapshot_by_id id)
  unfolding delete_snapshot_by_id
  delete_snapshot_by_id-Safe id = search (host_rules, removed_from-Safe)

module _ (held : List MachineId) where
  pub create_machine_snapshot-Safe :
      (machine_id : MachineId) (id : SnapshotId) → Safe held (create_machine_snapshot machine_id id)
  unfolding create_machine_snapshot
  create_machine_snapshot-Safe machine_id id =
      search (host_rules, refuse_pending-Safe, refuse_taken-Safe, journaled-Safe, take-Safe) depth
        14
