-- ===== src/Daemon/Safe/Creation.antt =====
-- Machines are created safely.
use computer_host.Base.{String, List, [], ◌∷◌, ◌++◌, ℤ, Option}
use computer_host.Model.{
  MachineId, VolumeId, MachineRecord, VolumeRecord, ArtifactRef, ArtifactRecord, GuestConfig,
}
use computer_host.Host.Exec.{Attempt, value, failed}
use computer_host.Host.World.{DiskCloneMode, MachineState}
use computer_host.Host.Calls.{Host}
use computer_host.Daemon.GuestConfigs.{merged_guest_config}
use computer_host.Daemon.Disks
use computer_host.Daemon.Disks.{
  resolve_requested_storage_bytes, clone_disk, create_workspace_volume, inject_machine_identity,
  inject_guest_config, inject_guest_ssh_host_key,
}
use computer_host.Daemon.Create
use computer_host.Daemon.Create.{CreateMachineRequest}
use computer_host.Daemon.Artifacts
use computer_host.Daemon.Artifacts.{ensure_artifact}
use computer_host.Daemon.Create.Records
use computer_host.Daemon.Create.Machine
use computer_host.Daemon.Create.Machine.{create_new_machine}
use computer_host.Daemon.Safe.{Safe, host_rules}
use computer_host.Daemon.Safe.Records.{complete_machine_startup-Safe}
use computer_host.Daemon.Safe.Requests.{
  list_running_networks-Safe, load_attachable_user_volumes-Safe, spec_for-Safe, journaled-Safe,
}

module _ (held : List MachineId) where
  pub merged_guest_config-Safe : (c : Option GuestConfig) → Safe held (merged_guest_config c)
  unfolding merged_guest_config
  merged_guest_config-Safe c = search host_rules

  pub resolve_requested_storage_bytes-Safe :
      (n : ℤ) (path : String) → Safe held (resolve_requested_storage_bytes n path)
  unfolding resolve_requested_storage_bytes
  resolve_requested_storage_bytes-Safe n path = search host_rules

  clone_disk_as-Safe :
      (mode : DiskCloneMode) (s t : String) → Safe held (Disks.clone_disk_as mode s t)
  unfolding Disks.clone_disk_as
  clone_disk_as-Safe DiskCloneMode.reflink s t = search host_rules
  clone_disk_as-Safe DiskCloneMode.copy s t = search host_rules
  clone_disk_as-Safe (DiskCloneMode.other_mode m) s t = search host_rules

  pub clone_disk-Safe : (s t : String) → Safe held (clone_disk s t)
  unfolding clone_disk
  clone_disk-Safe s t = search (host_rules, clone_disk_as-Safe)

  create_workspace_volume-Safe : (id : MachineId) (n : ℤ) → Safe held (create_workspace_volume id n)
  unfolding create_workspace_volume Disks.create_ext4_volume_image
  create_workspace_volume-Safe id n = search host_rules depth 9

  pub inject_machine_identity-Safe :
      (path : String) (id : MachineId) → Safe held (inject_machine_identity path id)
  unfolding inject_machine_identity
  inject_machine_identity-Safe path id = search host_rules

  pub inject_guest_config-Safe :
      (path : String) (c : GuestConfig) → Safe held (inject_guest_config path c)
  unfolding inject_guest_config
  inject_guest_config-Safe path c = search host_rules

  pub inject_guest_ssh_host_key-Safe :
      (path key : String) → Safe held (inject_guest_ssh_host_key path key)
  unfolding inject_guest_ssh_host_key
  inject_guest_ssh_host_key-Safe path key = search host_rules

  both_done-Safe : (a b : Attempt (Unit {0})) → Safe held (Artifacts.both_done a b)
  unfolding Artifacts.both_done
  both_done-Safe (failed e) b = search host_rules
  both_done-Safe (value u) (failed e) = search host_rules
  both_done-Safe (value u) (value v) = search host_rules

  fetch_artifact-Safe : (ref : ArtifactRef) → Safe held (Artifacts.fetch_artifact ref)
  unfolding Artifacts.fetch_artifact
  fetch_artifact-Safe ref = search (host_rules, both_done-Safe) depth 14

  known_or_fetched-Safe :
      (ref : ArtifactRef) (a : Attempt ArtifactRecord)
      → Safe held (Artifacts.known_or_fetched ref a)
  unfolding Artifacts.known_or_fetched
  known_or_fetched-Safe ref (value a) = search host_rules
  known_or_fetched-Safe ref (failed e) = search (host_rules, fetch_artifact-Safe)

  pub ensure_artifact-Safe : (ref : ArtifactRef) → Safe held (ensure_artifact ref)
  unfolding ensure_artifact
  ensure_artifact-Safe ref = search (host_rules, known_or_fetched-Safe)

  all_gathered-Safe :
      (a : Attempt ArtifactRecord) (u : Attempt (List VolumeRecord)) (k n : Attempt String)
      → Safe held (Create.all_gathered a u k n)
  unfolding Create.all_gathered
  all_gathered-Safe (failed e) u k n = search host_rules
  all_gathered-Safe (value a) (failed e) k n = search host_rules
  all_gathered-Safe (value a) (value u) (failed e) n = search host_rules
  all_gathered-Safe (value a) (value u) (value k) (failed e) = search host_rules
  all_gathered-Safe (value a) (value u) (value k) (value n) = search host_rules

  gather-Safe : (req : CreateMachineRequest) → Safe held (Create.gather req)
  unfolding Create.gather
  gather-Safe req =
      search
        (host_rules, ensure_artifact-Safe, load_attachable_user_volumes-Safe, all_gathered-Safe)
        depth 9

  make_disks-Safe :
      (req : CreateMachineRequest) (path : String) (n : ℤ) (c : GuestConfig) (key : String)
      → Safe held (Create.make_disks req path n c key)
  unfolding Create.make_disks
  make_disks-Safe req path n c key =
      search
        (
          host_rules, inject_machine_identity-Safe, inject_guest_config-Safe,
          inject_guest_ssh_host_key-Safe, create_workspace_volume-Safe,
        )
        depth 10

  release_volume-Safe :
      (id : VolumeId) (a : Attempt VolumeRecord) → Safe held (Records.release_volume id a)
  unfolding Records.release_volume
  release_volume-Safe id (failed e) = search host_rules
  release_volume-Safe id (value v) = search host_rules

  release_by_id-Safe : (id : VolumeId) → Safe held (Records.release_by_id id)
  unfolding Records.release_by_id
  release_by_id-Safe id = search (host_rules, release_volume-Safe)

  pub drop_machine-Safe :
      (id : VolumeId) (state : MachineState) → Safe held (Records.drop_machine id state)
  unfolding Records.drop_machine
  drop_machine-Safe id state = search host_rules

  attach_then-Safe :
      (id : MachineId) (state : MachineState) (attached : List VolumeId) (v : VolumeRecord)
      (rest : Host (List VolumeId))
      → Safe held rest
      → Safe held (Records.attach_then id state attached v rest)
  unfolding Records.attach_then
  attach_then-Safe id state attached v rest k =
      search (host_rules, release_by_id-Safe, drop_machine-Safe)

  attach_volumes-Safe :
      (id : MachineId) (state : MachineState) (attached : List VolumeId) (vs : List VolumeRecord)
      → Safe held (Records.attach_volumes id state attached vs)
  unfolding Records.attach_volumes
  attach_volumes-Safe id state attached [] = search host_rules
  attach_volumes-Safe id state attached (v ∷ vs) =
      attach_then-Safe id state attached v _
        (attach_volumes-Safe id state (attached ++ v.id ∷ []) vs)

  undo_records-Safe :
      (id : MachineId) (state : MachineState) (w : VolumeRecord) (vs : List VolumeRecord)
      → Safe held (Records.undo_records id state w vs)
  unfolding Records.undo_records
  undo_records-Safe id state w vs = search (host_rules, drop_machine-Safe) depth 10

  record_machine-Safe :
      (req : CreateMachineRequest) (n : ℤ) (c : GuestConfig) (path : String) (g : Create.Gathered)
      (w : VolumeRecord) (state : MachineState)
      → Safe held (Records.record_machine req n c path g w state)
  unfolding Records.record_machine
  record_machine-Safe req n c path g w state =
      search
        (
          host_rules, drop_machine-Safe, attach_volumes-Safe, undo_records-Safe,
          complete_machine_startup-Safe,
        )
        depth 10

  boot_created-Safe :
      (req : CreateMachineRequest) (n : ℤ) (c : GuestConfig) (path : String) (g : Create.Gathered)
      → Safe held (Machine.boot_created req n c path g)
  unfolding Machine.boot_created
  boot_created-Safe req n c path g =
      search (
        host_rules, make_disks-Safe, spec_for-Safe, list_running_networks-Safe, record_machine-Safe,
      )

  create_entered-Safe :
      (req : CreateMachineRequest) (c : GuestConfig) → Safe held (Machine.create_entered req c)
  unfolding Machine.create_entered
  create_entered-Safe req c =
      search
        (
          host_rules, gather-Safe, resolve_requested_storage_bytes-Safe, clone_disk-Safe,
          boot_created-Safe,
        )
        depth 10

  pub refuse_present-Safe :
      (id : MachineId) (a : Attempt MachineRecord) → Safe held (Machine.refuse_present id a)
  unfolding Machine.refuse_present
  refuse_present-Safe id (value r) = search host_rules
  refuse_present-Safe id (failed e) = search host_rules

module _ (held : List MachineId) where
  pub create_new_machine-Safe : (req : CreateMachineRequest) → Safe held (create_new_machine req)
  unfolding create_new_machine
  create_new_machine-Safe req =
      search
        (
          host_rules, merged_guest_config-Safe, refuse_present-Safe, journaled-Safe,
          create_entered-Safe,
        )
        depth 12
