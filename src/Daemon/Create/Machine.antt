-- ===== src/Daemon/Create/Machine.antt =====
-- internal/daemon/create.go: CreateMachine.
use computer_host.Base.{
  String, some, ◌∷◌, message, ℤ, pos, is_not_found, string_key, dir, if◌then◌else◌,
}
use computer_host.Model.{MachineId, MachineRecord, GuestConfig, MachineOperation}
use computer_host.Host.Exec.{
  Attempt, value, failed, ◌>>=◌, ◌>>◌, pure, raise, gets, try, ignore, lift, on_error, wrapping,
}
use computer_host.Host.World.{boot, mkdir, remove_file}
use computer_host.Host.Calls.{Host, on_store, remove_tree, call, run, now, with_machine_lock}
use computer_host.Store.Machines.{get_machine}
use computer_host.Daemon.Files.{
  system_volume_path, validate_machine_id, resolve_requested_memory_mib,
}
use computer_host.Daemon.GuestConfigs.{
  validate_artifact_ref, validate_guest_config, merged_guest_config,
}
use computer_host.Daemon.Disks.{resolve_requested_storage_bytes, clone_disk}
use computer_host.Daemon.Boot.{list_running_networks, spec_for}
use computer_host.Daemon.Lifecycle.{operation_of, journaled}
use computer_host.Daemon.Create.{CreateMachineRequest, Gathered, gather, make_disks}
use computer_host.Daemon.Create.Records.{record_machine}

-- CreateMachine from the copy of the disk on; the disk is removed again where any of this fails.
unfoldable pub boot_created :
    CreateMachineRequest → ℤ → GuestConfig → String → Gathered → Host MachineRecord
unfolding ◌>>=◌ make_disks record_machine
boot_created req storage_bytes config path g = do
  workspace ← make_disks req path storage_bytes config g.guest_host_key
  spec ←
      spec_for req.machine_id (resolve_requested_memory_mib req.memory_mib) g.artifact
        (workspace ∷ g.user_volumes) path (some config) g.ready_nonce
  used_networks ← list_running_networks req.machine_id
  state ← call (boot spec used_networks) (λ env n. env.booted n)
  record_machine req storage_bytes config path g workspace state

-- CreateMachine after its journal entry was written.
unfoldable pub create_entered : CreateMachineRequest → GuestConfig → Host MachineRecord
unfolding ◌>>=◌ gets ignore on_error wrapping gather resolve_requested_storage_bytes clone_disk
    boot_created
create_entered req config = do
  settings ← gets (λ w. w.config)
  g ← gather req
  storage_bytes ← resolve_requested_storage_bytes req.storage_bytes g.artifact.rootfs_path
  let path = system_volume_path settings req.machine_id
  wrapping "create system volume dir" (run (mkdir (dir path)))
  wrapping "clone rootfs" (clone_disk g.artifact.rootfs_path path)
  on_error (ignore (run (remove_file path)) >> ignore (remove_tree (dir path)))
      (boot_created req storage_bytes config path g)

-- A machine with the id is refused, an error other than a missing one is returned.
unfoldable pub refuse_present : MachineId → Attempt MachineRecord → Host (Unit {0})
unfolding pure raise
refuse_present id (value r) = raise (message "machine already exists" id)
refuse_present id (failed e) = if is_not_found e then pure tt else raise e

-- CreateMachine.
unfoldable pub create_new_machine : CreateMachineRequest → Host MachineRecord
unfolding ◌>>=◌ gets try lift with_machine_lock refuse_present create_entered
create_new_machine req = do
  parsed_url ← gets (λ w. w.env.parsed_url)
  lift (validate_machine_id req.machine_id)
  lift (validate_artifact_ref parsed_url req.artifact)
  lift (validate_guest_config parsed_url req.guest_config)
  config ← merged_guest_config req.guest_config
  with_machine_lock req.machine_id (do
    found ← try (on_store (get_machine req.machine_id))
    refuse_present req.machine_id found
    started_at ← now
    journaled req.machine_id
        (operation_of req.machine_id MachineOperation.create (pos 0) (pos 0) started_at)
        (create_entered req config))
