-- ===== src/Daemon/Safe/Requests.antt =====
-- Every request of the daemon on a machine is safe.
use computer_host.Base.{Option, Bool, String, List, [], ◌∷◌, ℤ}
use computer_host.Model.{
  GuestConfig, MachineId, Time, VolumeId, MountId, MachineRecord, OperationRecord, VolumeRecord,
  ArtifactRecord, MountRecord, MountStatus,
}
use computer_host.Host.Exec.{Attempt, value, failed}
use computer_host.Host.World.{MachineState}
use computer_host.Host.Calls.{Host}
use computer_host.Daemon.Boot
use computer_host.Daemon.Boot.{
  list_running_networks, load_attachable_user_volumes, prepare, boot_stopped,
}
use computer_host.Daemon.Lifecycle
use computer_host.Daemon.Lifecycle.{
  reconcile_active, reconcile_machine, journaled, start_locked, start_machine, stop_machine,
  resize_to, resize_machine, delete_machine,
}
use computer_host.Daemon.Mounts
use computer_host.Daemon.Mounts.{
  CreateMountRequest, settle, create_mount, delete_mount, ensure_mount, ensure_mounts_for_machine,
}
use computer_host.Daemon.Safe.{Safe, host_rules}
use computer_host.Daemon.Safe.Relays.{stop_machine_relays-Safe, ensure_machine_relays-Safe}
use computer_host.Daemon.Safe.Ports.{stop_published_ports_for_machine-Safe}
use computer_host.Daemon.Safe.Records.{
  complete_machine_startup-Safe, stop_machine_record-Safe, resize_machine_record-Safe,
  delete_machine_record-Safe,
}

module _ (held : List MachineId) where
  reconcile_active-Safe : (r : MachineRecord) → Safe held (reconcile_active r)
  unfolding reconcile_active
  reconcile_active-Safe r =
      search
        (
          host_rules, complete_machine_startup-Safe, ensure_machine_relays-Safe,
          stop_machine_relays-Safe, stop_published_ports_for_machine-Safe,
        )
        depth 10

  pub list_running_networks-Safe : (id : MachineId) → Safe held (list_running_networks id)
  unfolding list_running_networks
  list_running_networks-Safe id = search host_rules

  load_then-Safe :
      (id volume_id : MachineId) (rest : Host (List VolumeRecord))
      → Safe held rest
      → Safe held (Boot.load_then id volume_id rest)
  unfolding Boot.load_then
  load_then-Safe id volume_id rest k = search host_rules depth 9

  pub load_attachable_user_volumes-Safe :
      (id : MachineId) (ids : List VolumeId) → Safe held (load_attachable_user_volumes id ids)
  unfolding load_attachable_user_volumes
  load_attachable_user_volumes-Safe id [] = search host_rules
  load_attachable_user_volumes-Safe id (x ∷ xs) =
      load_then-Safe id x _ (load_attachable_user_volumes-Safe id xs)

  all_prepared-Safe :
      (v : Attempt VolumeRecord) (a : Attempt ArtifactRecord) (u : Attempt (List VolumeRecord))
      (n : Attempt String)
      → Safe held (Boot.all_prepared v a u n)
  unfolding Boot.all_prepared
  all_prepared-Safe (failed e) a u n = search host_rules
  all_prepared-Safe (value v) (failed e) u n = search host_rules
  all_prepared-Safe (value v) (value a) (failed e) n = search host_rules
  all_prepared-Safe (value v) (value a) (value u) (failed e) = search host_rules
  all_prepared-Safe (value v) (value a) (value u) (value n) = search host_rules

  prepare-Safe : (r : MachineRecord) → Safe held (prepare r)
  unfolding prepare
  prepare-Safe r = search (host_rules, load_attachable_user_volumes-Safe, all_prepared-Safe) depth 9

  pub spec_for-Safe :
      (id : MachineId) (m : ℤ) (a : ArtifactRecord) (v : List VolumeRecord) (path : String)
      (c : Option GuestConfig) (n : String)
      → Safe held (Boot.spec_for id m a v path c n)
  unfolding Boot.spec_for
  spec_for-Safe id m a v path c n = search host_rules

  booted_or_deleted-Safe :
      (r : MachineRecord) (state : MachineState) (a : Attempt (Unit {0}))
      → Safe held (Boot.booted_or_deleted r state a)
  unfolding Boot.booted_or_deleted
  booted_or_deleted-Safe r state (value _) = search host_rules
  booted_or_deleted-Safe r state (failed e) = search host_rules

  pub boot_stopped-Safe : (r : MachineRecord) → Safe held (boot_stopped r)
  unfolding boot_stopped
  boot_stopped-Safe r =
      search
        (
          host_rules, prepare-Safe, list_running_networks-Safe, spec_for-Safe,
          booted_or_deleted-Safe, complete_machine_startup-Safe,
        )
        depth 15

  pub journaled-Safe :
      {A : Type 0} (id : MachineId) (o : OperationRecord) (body : Host A)
      → Safe held body
      → Safe held (journaled id o body)
  unfolding journaled
  journaled-Safe id o body k = search host_rules depth 9

  stop_active-Safe :
      (id : MachineId) (r : MachineRecord) (t : Time) → Safe held (Lifecycle.stop_active id r t)
  unfolding Lifecycle.stop_active
  stop_active-Safe id r t = search (host_rules, journaled-Safe, stop_machine_record-Safe)

  resize_to-Safe : (id : MachineId) (r : MachineRecord) (m n : ℤ) → Safe held (resize_to id r m n)
  unfolding resize_to
  resize_to-Safe id r m n = search (host_rules, resize_machine_record-Safe)

  delete_found-Safe :
      (id : MachineId) (a : Attempt MachineRecord) → Safe held (Lifecycle.delete_found id a)
  unfolding Lifecycle.delete_found
  delete_found-Safe id (value r) = search (host_rules, journaled-Safe, delete_machine_record-Safe)
  delete_found-Safe id (failed e) = search host_rules

  settle-Safe : (m : MountRecord) → Safe held (settle m)
  unfolding settle
  settle-Safe m = search host_rules

  refuse_existing-Safe :
      (id : MountId) (a : Attempt MountRecord) → Safe held (Mounts.refuse_existing id a)
  unfolding Mounts.refuse_existing
  refuse_existing-Safe id (value _) = search host_rules
  refuse_existing-Safe id (failed e) = search host_rules

  unmounted-Safe : (path : String) → Safe held (Mounts.unmounted path)
  unfolding Mounts.unmounted
  unmounted-Safe path = search host_rules

  delete_found_mount-Safe :
      (machine_id : MachineId) (id : MountId) (a : Attempt MountRecord)
      → Safe held (Mounts.delete_found machine_id id a)
  unfolding Mounts.delete_found
  delete_found_mount-Safe machine_id id (value m) = search (host_rules, unmounted-Safe) depth 9
  delete_found_mount-Safe machine_id id (failed e) = search host_rules

  remounted-Safe : (m : MountRecord) (a : Attempt Bool) → Safe held (Mounts.remounted m a)
  unfolding Mounts.remounted
  remounted-Safe m a = search (host_rules, settle-Safe)

  ensure_from-Safe :
      (status : MountStatus) (m : MountRecord) → Safe held (Mounts.ensure_from status m)
  unfolding Mounts.ensure_from
  ensure_from-Safe MountStatus.failed m = search host_rules
  ensure_from-Safe MountStatus.mounted m = search (host_rules, remounted-Safe)
  ensure_from-Safe MountStatus.pending m = search (host_rules, settle-Safe)
  ensure_from-Safe MountStatus.mounting m = search (host_rules, settle-Safe)

  pub ensure_mounts_for_machine-Safe : (r : MachineRecord) → Safe held (ensure_mounts_for_machine r)
  unfolding ensure_mounts_for_machine
  ensure_mounts_for_machine-Safe r = search (host_rules, ensure_from-Safe)

module _ (held : List MachineId) where
  pub reconcile_machine-Safe : (id : MachineId) → Safe held (reconcile_machine id)
  unfolding reconcile_machine
  reconcile_machine-Safe id = search (host_rules, reconcile_active-Safe)

  pub stop_machine-Safe : (id : MachineId) → Safe held (stop_machine id)
  unfolding stop_machine
  stop_machine-Safe id = search (host_rules, stop_active-Safe) depth 9

  pub resize_machine-Safe : (id : MachineId) (m n : ℤ) → Safe held (resize_machine id m n)
  unfolding resize_machine
  resize_machine-Safe id m n = search (host_rules, journaled-Safe, resize_to-Safe) depth 9

  pub delete_machine-Safe : (id : MachineId) → Safe held (delete_machine id)
  unfolding delete_machine
  delete_machine-Safe id = search (host_rules, delete_found-Safe)

  pub create_mount-Safe :
      (id : MachineId) (req : CreateMountRequest) → Safe held (create_mount id req)
  unfolding create_mount
  create_mount-Safe id req = search (host_rules, refuse_existing-Safe, settle-Safe) depth 14

  pub delete_mount-Safe :
      (machine_id : MachineId) (id : MountId) → Safe held (delete_mount machine_id id)
  unfolding delete_mount
  delete_mount-Safe machine_id id = search (host_rules, delete_found_mount-Safe)
