-- ===== src/Store/Consistent.antt =====
-- The mutating methods of the store as data, and what makes its files consistent.
pub mod Slices
pub mod Keeps
pub mod Kept
pub mod Rules
use computer_host.Base.{
  ◌≡◌, refl, ◌∙◌, inl, inr, ◌⊎◌, Error, Outcome, ok, Option, none, some, List, [], ◌∷◌, string_key,
  nat_key,
}
use computer_host.Model.{
  ArtifactRecord, MachineRecord, VolumeRecord, SnapshotRecord, PublishedPortRecord, MountRecord,
  OperationRecord, ref_key, MachineId, VolumeId, SnapshotId, PublishedPortId, MountId,
}
use computer_host.Host.Exec.{Exec, or_error}
use computer_host.Host.File.{Disk, update_file}
use computer_host.Host.File.Atomic.{Holds, IsUnreadable, update-Updated}
use computer_host.Store.Persisted.{PersistedState, PersistedOperations}
use computer_host.Store.Table.{IsUnique}
use computer_host.Store.FileStore.{FileStore, update_state, update_operations}
use computer_host.Store.Artifacts.{put_artifact}
use computer_host.Store.Machines.{machines, create_machine, update_machine, delete_machine}
use computer_host.Store.Volumes.{volumes, create_volume, update_volume, delete_volume}
use computer_host.Store.Snapshots.{snapshots, create_snapshot, delete_snapshot}
use computer_host.Store.Mounts.{mounts, create_mount, update_mount, delete_mount}
use computer_host.Store.Ports.{published_ports, create_published_port, delete_published_port}
use computer_host.Store.Operations.{upsert_operation, delete_operation}

-- The methods that write.
pub data StoreCall : Type 0 where
  put_artifacts : ArtifactRecord → StoreCall
  create_machines update_machines : MachineRecord → StoreCall
  delete_machines : MachineId → StoreCall
  create_volumes update_volumes : VolumeRecord → StoreCall
  delete_volumes : VolumeId → StoreCall
  upsert_operations : OperationRecord → StoreCall
  delete_operations : MachineId → StoreCall
  create_snapshots : SnapshotRecord → StoreCall
  delete_snapshots : SnapshotId → StoreCall
  create_published_ports : PublishedPortRecord → StoreCall
  delete_published_ports : PublishedPortId → StoreCall
  create_mounts update_mounts : MountRecord → StoreCall
  delete_mounts : MountId → StoreCall

pub call_store : StoreCall → Exec FileStore (Unit {0})
call_store (put_artifacts a) = put_artifact a
call_store (create_machines m) = create_machine m
call_store (update_machines m) = update_machine m
call_store (delete_machines id) = delete_machine id
call_store (create_volumes v) = create_volume v
call_store (update_volumes v) = update_volume v
call_store (delete_volumes id) = delete_volume id
call_store (upsert_operations o) = upsert_operation o
call_store (delete_operations id) = delete_operation id
call_store (create_snapshots x) = create_snapshot x
call_store (delete_snapshots id) = delete_snapshot id
call_store (create_published_ports p) = create_published_port p
call_store (delete_published_ports id) = delete_published_port id
call_store (create_mounts m) = create_mount m
call_store (update_mounts m) = update_mount m
call_store (delete_mounts id) = delete_mount id

-- The calls of a run, each whatever the one before it returned.
pub call_all : List StoreCall → FileStore → FileStore
call_all [] s = s
call_all (c ∷ cs) s = call_all cs (call_store c s).1

pub record IsConsistent (s : PersistedState) : Type 0 where
  pub artifact_refs : IsUnique (λ a. a.ref) s.artifacts
  pub machine_ids : IsUnique machines.key s.machines
  pub volume_ids : IsUnique volumes.key s.volumes
  pub snapshot_ids : IsUnique snapshots.key s.snapshots
  pub port_ids : IsUnique published_ports.key s.published_ports
  pub host_ports : IsUnique (λ p. p.host_port) s.published_ports
  pub mount_ids : IsUnique mounts.key s.mounts

abbrev pub HasOneEach : PersistedOperations → Type 0
HasOneEach j = IsUnique (λ o. o.machine_id) j.operations

-- A file is lost, which `Lost` allows, and unreadable, or it holds a whole value that is `P`.
abbrev pub KeepsFile : {A : Type 0} → Type 0 → (A → Type 0) → Disk A → Type 0
KeepsFile {A} Lost P d = (Lost × IsUnreadable d.file.current) ⊎ ((a : A) × Holds d a × P a)

-- The same of each file, unless it is lost.
pub record IsKept (StateLost JournalLost : Type 0) (s : FileStore) : Type 0 where
  pub state : KeepsFile StateLost IsConsistent s.state
  pub journal : KeepsFile JournalLost HasOneEach s.operations

-- Both files hold whole values that are consistent.
pub record IsSound (s : FileStore) : Type 0 where
  pub state : (st : PersistedState) × Holds s.state st × IsConsistent st
  pub journal : (j : PersistedOperations) × Holds s.operations j × HasOneEach j
