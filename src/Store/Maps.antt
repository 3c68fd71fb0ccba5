-- ===== src/Store/Maps.antt =====
-- The methods of the store on machines, volumes, snapshots and mounts implement finite maps.
use computer_host.Base.{message, ◌≡◌, String, string_key}
use computer_host.Model.{MachineId, MachineRecord, VolumeRecord, SnapshotRecord, MountRecord}
use computer_host.Host.File.Atomic.{Holds, NoFaults, reported}
use computer_host.Store.Persisted.{PersistedState}
use computer_host.Store.Table.{IsUnique}
use computer_host.Store.FileStore.{FileStore}
use computer_host.Store.Refines.{
  creates, updates, deletes, Refines, update_state-Refines, map_change, map_of, update_state_report,
}
use computer_host.Store.Machines.{machines, create_machine, update_machine, delete_machine}
use computer_host.Store.Volumes.{volumes, create_volume, update_volume, delete_volume}
use computer_host.Store.Snapshots.{snapshots, create_snapshot, delete_snapshot}
use computer_host.Store.Mounts.{mounts, create_mount, update_mount, delete_mount}

module _ (s : FileStore) (before : PersistedState) (held : Holds s.state before) where
  -- Creating, updating and deleting a machine does to the machines in the state file what it does to a
  -- finite map with the ids as keys (refusing a taken or a missing id); unless a system call fails or
  -- the process dies, when the file is as before or wholly new. The journal is left alone.
  pub machine_methods-Refines :
      (machine : MachineRecord) (id : MachineId)
      → IsUnique machines.key before.machines
      → Refines machines
          (creates (message "store: machine already exists" machine.id) machine)
          before
          s
          (create_machine machine s)
        × Refines machines (updates machine) before s (update_machine machine s)
        × Refines machines (deletes id) before s (delete_machine id s)
  unfolding create_machine update_machine delete_machine
  machine_methods-Refines machine id u = (
    update_state-Refines machines _ before s held u,
    update_state-Refines machines _ before s held u,
    update_state-Refines machines _ before s held u,
  )

  -- Creating and deleting a volume, a snapshot or a mount, and updating a volume or a mount, does to the
  -- slice of the state file what it does to a finite map with the ids as keys (refusing a taken or a
  -- missing id); unless a system call fails or the process dies, when the file is as before or wholly
  -- new. The journal is left alone.
  pub other_methods-Refine :
      (volume : VolumeRecord) (snapshot : SnapshotRecord) (mount : MountRecord) (id : String)
      → IsUnique volumes.key before.volumes
      → IsUnique snapshots.key before.snapshots
      → IsUnique mounts.key before.mounts
      → (Refines volumes
            (creates (message "store: volume already exists" volume.id) volume)
            before
            s
            (create_volume volume s)
          × Refines volumes (updates volume) before s (update_volume volume s)
          × Refines volumes (deletes id) before s (delete_volume id s))
        × (Refines snapshots
              (creates (message "store: snapshot already exists" snapshot.id) snapshot)
              before
              s
              (create_snapshot snapshot s)
            × Refines snapshots (deletes id) before s (delete_snapshot id s))
        × (Refines mounts
              (creates (message "store: mount already exists" mount.id) mount)
              before
              s
              (create_mount mount s)
            × Refines mounts (updates mount) before s (update_mount mount s)
            × Refines mounts (deletes id) before s (delete_mount id s))
  unfolding create_volume update_volume delete_volume create_snapshot delete_snapshot create_mount
      update_mount delete_mount
  other_methods-Refine volume snapshot mount id u v w = (
    (
      update_state-Refines volumes _ before s held u,
      update_state-Refines volumes _ before s held u,
      update_state-Refines volumes _ before s held u,
    ),
    (
      update_state-Refines snapshots _ before s held v,
      update_state-Refines snapshots _ before s held v,
    ),
    (
      update_state-Refines mounts _ before s held w,
      update_state-Refines mounts _ before s held w,
      update_state-Refines mounts _ before s held w,
    ),
  )

  -- Where no system call fails, a call on a machine reports success or the error that the finite map
  -- asks for: a taken id on creation, a missing one on update and deletion.
  pub machine_methods_report :
      (machine : MachineRecord) (id : MachineId)
      → NoFaults s.state
      → IsUnique machines.key before.machines
      → ((create_machine machine s).0
          ≡ reported (
              map_change machines.key
                (creates (message "store: machine already exists" machine.id) machine)
                (map_of machines before)))
        × ((update_machine machine s).0
            ≡ reported (map_change machines.key (updates machine) (map_of machines before)))
        × ((delete_machine id s).0
            ≡ reported (map_change machines.key (deletes id) (map_of machines before)))
  unfolding create_machine update_machine delete_machine
  machine_methods_report machine id n u = (
    update_state_report machines
        (creates (message "store: machine already exists" machine.id) machine) before s n held u,
    update_state_report machines (updates machine) before s n held u,
    update_state_report machines (deletes id) before s n held u,
  )
