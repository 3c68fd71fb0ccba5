-- ===== src/Daemon/Snapshots/Take.antt =====
-- internal/daemon/snapshot.go: CreateSnapshot.
pub mod Resumed
use Prim.Native.String.{◌++◌}
use Prim.Native.String.{compare}
use Prim.Native.Nat.{Ordering}
use computer_host.Base.{
  ℕ, ◌+◌, String, Bool, true, false, not, some, List, [], ◌∷◌, message, pos, is_not_found, ◌=?◌,
  string_key, decimal, join, sort_by, some_of, if◌then◌else◌,
}
use computer_host.Model.{
  MachineId, VolumeId, SnapshotId, MachineRecord, SnapshotRecord, SnapshotArtifactRecord,
  OperationRecord, MachineOperation, Time, is_running,
}
use computer_host.Host.Exec.{
  Attempt, value, failed, ◌>>=◌, ◌>>◌, pure, raise, gets, try, ignore, lift, refuse_if, on_error,
  wrapping,
}
use computer_host.Host.World.{pause, resume, make_dir, remove_all}
use computer_host.Host.Calls.{Host, on_store, remove_tree, run, now, with_machine_lock}
use computer_host.Store.Machines.{get_machine}
use computer_host.Store.Volumes.{get_volume}
use computer_host.Store.Operations.{list_operations}
use computer_host.Store.Snapshots.{get_snapshot, create_snapshot}
use computer_host.Daemon.Files.{validate_snapshot_id}
use computer_host.Daemon.Disks.{clone_disk}
use computer_host.Daemon.Lifecycle.{journaled}
use computer_host.Daemon.Snapshots.{disk_artifact}

abbrev pub text_before : String → String → Bool
text_before a b = elim (compare a b) [ Ordering.lt ↦ true | _ ↦ false ]

-- The artifact of one path, and then those of the rest of them.
unfoldable pub disk_artifacts_then :
    String → Host (List SnapshotArtifactRecord) → Host (List SnapshotArtifactRecord)
unfolding ◌>>=◌ pure
disk_artifacts_then path rest = do a ← disk_artifact path; others ← rest; pure (a ∷ others)

-- The artifacts in the order of the paths.
unfoldable pub disk_artifacts : List String → Host (List SnapshotArtifactRecord)
unfolding pure disk_artifacts_then
disk_artifacts [] = pure []
disk_artifacts (path ∷ paths) = disk_artifacts_then path (disk_artifacts paths)

abbrev pub id_before : SnapshotArtifactRecord → SnapshotArtifactRecord → Bool
id_before a b = text_before a.id b.id

-- buildSnapshotArtifacts.
unfoldable pub build_snapshot_artifacts : List String → Host (List SnapshotArtifactRecord)
unfolding ◌>>=◌ pure sort_by disk_artifacts
build_snapshot_artifacts paths = do others ← disk_artifacts paths; pure (sort_by id_before others)

-- The copy of one volume, and then of the rest of them.
unfoldable pub copy_then : String → String → VolumeId → Host (List String) → Host (List String)
unfolding ◌>>=◌ pure wrapping
copy_then text target id rest = do
  volume ← wrapping "get volume" (on_store (get_volume id))
  wrapping text (clone_disk volume.path target)
  targets ← rest
  pure (target ∷ targets)

-- The copies of the volumes of the user, the first one with the number `i`.
unfoldable pub copy_user_volumes : String → ℕ → List VolumeId → Host (List String)
unfolding pure copy_then
copy_user_volumes directory i [] = pure []
copy_user_volumes directory i (id ∷ ids) =
    copy_then "copy attached volume" (join (directory ∷ ("user-" ++ (decimal i ++ ".img")) ∷ [])) id
      (copy_user_volumes directory (i + 1) ids)

-- The copies of all disks of the machine.
unfoldable pub copy_disks : MachineRecord → String → Host (List String)
unfolding copy_then
copy_disks r directory =
    copy_then "copy system disk" (join (directory ∷ "system.img" ∷ [])) r.system_volume_id
      (copy_user_volumes directory 0 r.user_volume_ids)

abbrev pub forget : String → Host (Unit {0})
forget directory = ignore (remove_tree directory)

-- CreateSnapshot between the pause and the end of the copies: the machine is resumed in any case.
unfoldable pub copy_and_resume : MachineRecord → String → Host (List String)
unfolding ◌>>=◌ pure ignore on_error wrapping copy_disks
copy_and_resume r directory = do
  paths ← on_error (ignore (run (resume r.id)) >> forget directory) (copy_disks r directory)
  on_error (forget directory) (wrapping "resume machine" (run (resume r.id)))
  pure paths

abbrev pub snapshot_of :
    SnapshotId
    → MachineId
    → MachineRecord
    → List String
    → List SnapshotArtifactRecord
    → Time
    → SnapshotRecord
snapshot_of id machine_id r paths artifacts created_at = record {
  id = id;
  machine_id = machine_id;
  artifact = r.artifact;
  mem_file_path = "";
  state_file_path = "";
  disk_paths = paths;
  artifacts = artifacts;
  source_runtime_host = "";
  source_tap_device = "";
  created_at = created_at;
}

unfoldable pub made_dir : SnapshotId → Bool → Attempt (Unit {0}) → Host (Unit {0})
unfolding pure raise
made_dir id exists (value u) = pure tt
made_dir id exists (failed e) =
    if exists
    then raise (message "snapshot already exists" id)
    else raise (message "create snapshot dir" "")

-- CreateSnapshot after its journal entry was written.
unfoldable pub take : SnapshotId → MachineId → MachineRecord → Host SnapshotRecord
unfolding ◌>>=◌ pure gets try ignore on_error wrapping made_dir copy_and_resume
    build_snapshot_artifacts
take id machine_id r = do
  config ← gets (λ w. w.config)
  let directory = join (config.snapshots_dir ∷ id ∷ [])
  exists ← gets (λ w. w.env.answer w.clock)
  made ← try (run (make_dir directory))
  made_dir id exists made
  wrapping "pause machine" (run (pause r.id))
  paths ← copy_and_resume r directory
  artifacts ←
      on_error (forget directory)
        (wrapping "build snapshot artifacts" (build_snapshot_artifacts paths))
  created_at ← now
  let s = snapshot_of id machine_id r paths artifacts created_at
  on_error (forget directory) (on_store (create_snapshot s))
  pure s

-- A pending operation of the machine is refused; a journal that cannot be read is not.
unfoldable pub refuse_pending : MachineId → Attempt (List OperationRecord) → Host (Unit {0})
unfolding pure refuse_if
refuse_pending id (failed e) = pure tt
refuse_pending id (value operations) =
    refuse_if (some_of (λ o. o.machine_id =? id) operations)
      (message "machine has a pending operation" id)

unfoldable pub refuse_taken : SnapshotId → Attempt SnapshotRecord → Host (Unit {0})
unfolding pure raise
refuse_taken id (value s) = raise (message "snapshot already exists" id)
refuse_taken id (failed e) = if is_not_found e then pure tt else raise e

-- The journal entry of an operation on a snapshot.
abbrev pub snapshot_operation : MachineId → MachineOperation → SnapshotId → Time → OperationRecord
snapshot_operation machine_id type id started_at = record {
  machine_id = machine_id;
  type = type;
  started_at = started_at;
  snapshot_id = some id;
  memory_mib = pos 0;
  storage_bytes = pos 0;
}

-- CreateSnapshot.
unfoldable pub create_machine_snapshot : MachineId → SnapshotId → Host SnapshotRecord
unfolding ◌>>=◌ try lift refuse_if with_machine_lock refuse_pending refuse_taken take
create_machine_snapshot machine_id id = with_machine_lock machine_id (do
  lift (validate_snapshot_id id)
  r ← on_store (get_machine machine_id)
  refuse_if (not (is_running r.phase)) (message "machine is not running" machine_id)
  operations ← try (on_store list_operations)
  refuse_pending machine_id operations
  found ← try (on_store (get_snapshot id))
  refuse_taken id found
  started_at ← now
  journaled machine_id (snapshot_operation machine_id MachineOperation.snapshot id started_at)
      (take id machine_id r))
