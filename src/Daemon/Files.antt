-- ===== src/Daemon/Files.antt =====
-- internal/daemon/files.go and create.go: names of files, checks of identifiers, and defaults.
use Prim.Native.String.{◌++◌}
use computer_host.Base.{
  String, not, [], ◌∷◌, Outcome, ok, err, message, ℤ, pos, leb_ℤ, trim_space, is_blank,
  is_base_name, join, if◌then◌else◌,
}
use computer_host.Model.{MachineId, VolumeId, SnapshotId, MachineRecord, MachinePhase}
use computer_host.Host.World.{Config, MachineState, Phase}

-- systemVolumeID.
abbrev pub system_volume_id : MachineId → VolumeId
system_volume_id id = id ++ "-system"

-- systemVolumePath.
abbrev pub system_volume_path : Config → MachineId → String
system_volume_path c id = join (c.machine_disks_dir ∷ id ∷ "system.img" ∷ [])

-- workspaceVolumeID.
abbrev pub workspace_volume_id : MachineId → VolumeId
workspace_volume_id id = id ++ "-workspace"

-- workspaceVolumePath.
abbrev pub workspace_volume_path : Config → MachineId → String
workspace_volume_path c id = join (c.machine_disks_dir ∷ id ∷ "workspace.img" ∷ [])

-- backendSSHPrivateKeyPath and backendSSHPublicKeyPath.
abbrev pub backend_ssh_public_key_path : Config → String
backend_ssh_public_key_path c =
    join (c.root_dir ∷ "state" ∷ "ssh" ∷ "backend_ed25519" ∷ []) ++ ".pub"

-- machineRuntimeBaseDir.
abbrev pub machine_runtime_base_dir : Config → MachineId → String
machine_runtime_base_dir c id = join (c.runtime_dir ∷ "machines" ∷ id ∷ [])

-- validateMachineID.
unfoldable pub validate_machine_id : MachineId → Outcome (Unit {0})
validate_machine_id id =
    let value = trim_space id in
    if is_blank id
    then err (message "machine_id is required" "")
    else if not (is_base_name value)
    then err (message "machine_id must not contain path separators" id)
    else ok tt

-- validateSnapshotID.
unfoldable pub validate_snapshot_id : SnapshotId → Outcome (Unit {0})
validate_snapshot_id id = if is_blank id then err (message "snapshot_id is required" "") else ok tt

abbrev pub default_guest_memory_mib : ℤ
default_guest_memory_mib = pos 3072

-- resolveRequestedMemoryMiB.
abbrev pub resolve_requested_memory_mib : ℤ → ℤ
resolve_requested_memory_mib memory_mib =
    if leb_ℤ memory_mib (pos 0) then default_guest_memory_mib else memory_mib

abbrev runtime_phase : MachinePhase → Phase
runtime_phase MachinePhase.starting = Phase.running
runtime_phase MachinePhase.running = Phase.running
runtime_phase MachinePhase.stopped = Phase.stopped
runtime_phase MachinePhase.failed = Phase.failed

-- machineToRuntimeState.
abbrev pub machine_to_runtime_state : MachineRecord → MachineState
machine_to_runtime_state r = record {
  id = r.id;
  phase = runtime_phase r.phase;
  pid = r.pid;
  runtime_host = r.runtime_host;
  socket_path = r.socket_path;
  tap_name = r.tap_device;
  started_at = r.started_at;
  error = r.error;
}
