-- ===== src/Daemon/Create.antt =====
-- internal/daemon/create.go: what CreateMachine gathers, and the disks it makes. Records has what it
-- writes and undoes in the store, Machine the whole of it.
pub mod Records
pub mod Machine
use computer_host.Base.{
  String, Bool, true, false, not, none, some, List, [], ◌∷◌, ◌++◌, Option, message, Outcome, ok,
  err, ℤ, pos, leb_ℤ, ltb_ℤ, is_not_found, is_blank, trim_space, ◌=?◌, string_key, dir, join,
  if◌then◌else◌,
}
use Prim.Native.String.{◌++◌ as ◌+++◌}
use computer_host.Model.{
  MachineId, VolumeId, MachineRecord, MachinePhase, VolumeRecord, VolumeKind, VolumePurpose,
  StoragePool, ArtifactRef, ArtifactRecord, GuestConfig, MachineOperation, Time,
}
use computer_host.Host.Exec.{
  Attempt, value, failed, ◌>>=◌, ◌>>◌, pure, raise, gets, try, ignore, lift, refuse_if, for_each,
  on_error, wrapping, when,
}
use computer_host.Host.World.{
  DiskCloneMode, MachineState, boot, delete_vm, nonce, host_key, stat_file, mkdir, remove_file,
  remove_all, truncate_file, edit_image, create_image, reflink_file, copy_file, download,
}
use computer_host.Host.Calls.{Host, on_store, call, run, now, with_machine_lock}
use computer_host.Store.Artifacts.{get_artifact, put_artifact}
use computer_host.Store.Machines.{get_machine, create_machine}
use computer_host.Store.Volumes.{get_volume, create_volume, update_volume, delete_volume}
use computer_host.Daemon.MachinePorts.{default_machine_ports}
use computer_host.Daemon.Files.{
  system_volume_id, system_volume_path, workspace_volume_id, workspace_volume_path,
  validate_machine_id, resolve_requested_memory_mib,
}
use computer_host.Daemon.GuestConfigs.{
  validate_artifact_ref, validate_guest_config, merged_guest_config, has_guest_config,
}
use computer_host.Daemon.Disks.{
  resolve_requested_storage_bytes, clone_disk, create_workspace_volume, inject_machine_identity,
  inject_guest_config, inject_guest_ssh_host_key,
}
use computer_host.Daemon.Startup.{complete_machine_startup}
use computer_host.Daemon.Boot.{list_running_networks, load_attachable_user_volumes, spec_for}
use computer_host.Daemon.Lifecycle.{operation_of, journaled}
use computer_host.Daemon.Artifacts.{ensure_artifact}

pub record CreateMachineRequest : Type 0 where
  pub machine_id : MachineId
  pub artifact : ArtifactRef
  pub memory_mib : ℤ
  pub storage_bytes : ℤ
  pub user_volume_ids : List VolumeId
  pub guest_config : Option GuestConfig

-- What the four goroutines of CreateMachine found.
pub record Gathered : Type 0 where
  pub artifact : ArtifactRecord
  pub user_volumes : List VolumeRecord
  pub guest_host_key : String
  pub ready_nonce : String

unfoldable pub all_gathered :
    Attempt ArtifactRecord
    → Attempt (List VolumeRecord)
    → Attempt String
    → Attempt String
    → Host Gathered
unfolding pure raise
all_gathered (failed e) u k n = raise e
all_gathered (value a) (failed e) k n = raise e
all_gathered (value a) (value u) (failed e) n = raise e
all_gathered (value a) (value u) (value k) (failed e) = raise e
all_gathered (value a) (value u) (value k) (value n) =
    pure (record { artifact = a; user_volumes = u; guest_host_key = k; ready_nonce = n })

-- The error group. Only one of its goroutines writes the store, and none reads what it writes.
unfoldable pub gather : CreateMachineRequest → Host Gathered
unfolding ◌>>=◌ try ensure_artifact all_gathered
gather req = do
  artifact ← try (ensure_artifact req.artifact)
  user_volumes ← try (load_attachable_user_volumes req.machine_id req.user_volume_ids)
  guest_host_key ← try (call host_key (λ env n. trim_space (env.text n)))
  ready_nonce ← try (call nonce (λ env n. env.text n))
  all_gathered artifact user_volumes guest_host_key ready_nonce

-- The disk of the machine is made ready: CreateMachine from the expansion of the disk to the workspace.
unfoldable pub make_disks :
    CreateMachineRequest → String → ℤ → GuestConfig → String → Host VolumeRecord
unfolding ◌>>=◌ wrapping inject_machine_identity inject_guest_config inject_guest_ssh_host_key
make_disks req path storage_bytes config key = do
  wrapping "expand system volume" (run (truncate_file path storage_bytes))
  wrapping "inject machine identity" (inject_machine_identity path req.machine_id)
  wrapping "inject guest config" (inject_guest_config path config)
  wrapping "prepare workspace root" (run (edit_image path))
  wrapping "inject guest ssh host key" (inject_guest_ssh_host_key path key)
  wrapping "create workspace volume" (create_workspace_volume req.machine_id storage_bytes)

abbrev pub system_volume_of : MachineId → ArtifactRef → String → Time → VolumeRecord
system_volume_of id artifact path created_at = record {
  id = system_volume_id id;
  kind = VolumeKind.system;
  attached_machine_id = some id;
  source_artifact = some artifact;
  pool = StoragePool.machine_disks;
  path = path;
  purpose = VolumePurpose.none_given;
  delete_on_machine_delete = false;
  created_at = created_at;
}
