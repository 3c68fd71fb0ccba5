-- ===== src/Store/Consistent/Rules.antt =====
-- The methods of the store keep the files sound, as rules for the calls that are made of them.
use computer_host.Base.{Outcome, ok, err, halt, inl, inr, ◌∙◌, Key, ap, sym, subst, string_key}
use computer_host.Model.{
  ref_key, MachineId, VolumeId, PublishedPortId, MountId, SnapshotId, MachineRecord, VolumeRecord,
  PublishedPortRecord, MountRecord, OperationRecord, ArtifactRef, ArtifactRecord, SnapshotRecord,
}
use computer_host.Host.Exec.{Exec, lift}
use computer_host.Host.Exec.Post.{After, Keeps, keeps_rules}
use computer_host.Host.File.{Disk, read_json_file, initialize_json_file}
use computer_host.Host.File.Atomic.{Holds, IsUnreadable, read_current, initialize_kept}
use computer_host.Store.FileStore.{
  FileStore, on_state, on_operations, new_file_store, read_state, read_operations,
}
use computer_host.Store.Collection.{Collection, get_from}
use computer_host.Store.Artifacts.{artifacts, get_artifact, put_artifact}
use computer_host.Store.Machines.{
  create_machine, machines, get_machine, list_machines, update_machine, delete_machine,
}
use computer_host.Store.Volumes.{
  create_volume, volumes, get_volume, list_volumes, update_volume, delete_volume,
}
use computer_host.Store.Snapshots.{
  snapshots, get_snapshot, create_snapshot, delete_snapshot, list_snapshots,
}
use computer_host.Store.Mounts.{
  mounts, get_mount, list_mounts, create_mount, update_mount, delete_mount,
}
use computer_host.Store.Ports.{
  published_ports, get_published_port, list_published_ports, create_published_port,
  delete_published_port,
}
use computer_host.Store.Operations.{list_operations, upsert_operation, delete_operation}
use computer_host.Store.Consistent.{
  put_artifacts, create_machines, create_volumes, create_snapshots, delete_snapshots, StoreCall,
  update_machines, delete_machines, update_volumes, delete_volumes, create_mounts, update_mounts,
  delete_mounts, create_published_ports, delete_published_ports, upsert_operations,
  delete_operations, call_store, KeepsFile, IsKept, IsConsistent, HasOneEach,
}
use computer_host.Store.Consistent.Kept.{call_store-IsKept, empty_state-IsConsistent}
use computer_host.Store.Persisted.{empty_persisted_state, empty_persisted_operations}

-- A method that keeps each file consistent, or unreadable.
abbrev pub Sound : {A : Type 0} → Exec FileStore A → Type 1
Sound m =
    (StateLost JournalLost : Type 0)
    → Keeps (IsKept StateLost JournalLost) (IsKept StateLost JournalLost) m

module _ (StateLost JournalLost : Type 0) where
  abbrev Kept : FileStore → Type 0
  Kept s = IsKept StateLost JournalLost s

  IsKept-after : {A : Type 0} (r : Outcome A) (s : FileStore) → Kept s → After Kept Kept (r, s)
  IsKept-after (ok a) s k = k
  IsKept-after (err e) s k = k
  IsKept-after (halt x) s k = k

call_store-Sound : (c : StoreCall) → Sound (call_store c)
call_store-Sound c G J = record {
  run = λ s k. IsKept-after G J (call_store c s).0 (call_store c s).1 (call_store-IsKept G J c s k);
}

-- A read leaves the file as it was.
pub read_file_kept : {A : Type 0} (d : Disk A) (a : A) → Holds d a → Holds (read_json_file d).1 a
read_file_kept d a h = ap (λ f. f.current) (read_current d) ∙ h

read_file_gone :
    {A : Type 0} (d : Disk A)
    → IsUnreadable d.file.current
    → IsUnreadable (read_json_file d).1.file.current
read_file_gone d g = subst IsUnreadable (sym (ap (λ f. f.current) (read_current d))) g

pub read_state-Sound : Sound read_state
unfolding read_state on_state
read_state-Sound G J = record {
  run = λ s k.
      let (r, d) = read_json_file s.state in
      IsKept-after G J r (record s { state = d })
        (record {
          state = elim k.state [
            | inl (g, e) ↦ inl (g, read_file_gone s.state e)
            | inr (st, h, c) ↦ inr (st, read_file_kept s.state st h, c)
          ];
          journal = k.journal;
        });
}

pub read_operations-Sound : Sound read_operations
unfolding read_operations on_operations
read_operations-Sound G J = record {
  run = λ s k.
      let (r, d) = read_json_file s.operations in
      IsKept-after G J r (record s { operations = d })
        (record {
          state = k.state;
          journal = elim k.journal [
            | inl (g, e) ↦ inl (g, read_file_gone s.operations e)
            | inr (j, h, c) ↦ inr (j, read_file_kept s.operations j h, c)
          ];
        });
}

initialized_part :
    {A Lost : Type 0} (P : A → Type 0) (a : A) (d : Disk A)
    → P a
    → KeepsFile Lost P d
    → KeepsFile Lost P (initialize_json_file a d).1
initialized_part P a d p k = elim (initialize_kept a d) [
  | inl e ↦ elim k [
    | inl (g, n) ↦ inl (g, subst IsUnreadable (sym e) n)
    | inr (b, h, q) ↦ inr (b, e ∙ h, q)
  ]
  | inr (n, h) ↦ inr (a, h, p)
]

initialize_state-Sound : Sound (on_state (initialize_json_file empty_persisted_state))
unfolding on_state
initialize_state-Sound G J = record {
  run = λ s k.
      let (r, d) = initialize_json_file empty_persisted_state s.state in
      IsKept-after G J r (record s { state = d })
        (record {
          state =
              initialized_part IsConsistent empty_persisted_state s.state empty_state-IsConsistent
                k.state;
          journal = k.journal;
        });
}

initialize_operations-Sound :
    Sound (on_operations (initialize_json_file empty_persisted_operations))
unfolding on_operations
initialize_operations-Sound G J = record {
  run = λ s k.
      let (r, d) = initialize_json_file empty_persisted_operations s.operations in
      IsKept-after G J r (record s { operations = d })
        (record {
          state = k.state;
          journal =
              initialized_part HasOneEach empty_persisted_operations s.operations tt k.journal;
        });
}

-- NewFileStore makes the files that are missing.
pub new_file_store-Sound : Sound new_file_store
unfolding new_file_store
new_file_store-Sound G J = search (keeps_rules, initialize_state-Sound, initialize_operations-Sound)

lift-Sound : {A : Type 0} (r : Outcome A) → Sound (lift r)
unfolding lift
lift-Sound r G J = record { run = λ s k. IsKept-after G J r s k }

pub get_from-Sound :
    {A K : Type 0} ⦃key : Key K⦄ (c : Collection A K) (id : K) → Sound (get_from c id)
unfolding get_from
get_from-Sound c id = search (keeps_rules, read_state-Sound, lift-Sound)

pub get_machine-Sound : (id : MachineId) → Sound (get_machine id)
unfolding get_machine
get_machine-Sound id = get_from-Sound machines id

pub get_volume-Sound : (id : VolumeId) → Sound (get_volume id)
unfolding get_volume
get_volume-Sound id = get_from-Sound volumes id

pub get_snapshot-Sound : (id : SnapshotId) → Sound (get_snapshot id)
unfolding get_snapshot
get_snapshot-Sound id = get_from-Sound snapshots id

pub get_mount-Sound : (id : MountId) → Sound (get_mount id)
unfolding get_mount
get_mount-Sound id = get_from-Sound mounts id

pub get_published_port-Sound : (id : PublishedPortId) → Sound (get_published_port id)
unfolding get_published_port
get_published_port-Sound id = get_from-Sound published_ports id

pub get_artifact-Sound : (id : ArtifactRef) → Sound (get_artifact id)
unfolding get_artifact
get_artifact-Sound id = get_from-Sound artifacts id

pub list_machines-Sound : Sound (list_machines)
unfolding list_machines
list_machines-Sound = search (keeps_rules, read_state-Sound)

pub list_volumes-Sound : Sound (list_volumes)
unfolding list_volumes
list_volumes-Sound = search (keeps_rules, read_state-Sound)

pub list_mounts-Sound : (id : MachineId) → Sound (list_mounts id)
unfolding list_mounts
list_mounts-Sound id = search (keeps_rules, read_state-Sound)

pub list_published_ports-Sound : (id : MachineId) → Sound (list_published_ports id)
unfolding list_published_ports
list_published_ports-Sound id = search (keeps_rules, read_state-Sound)

pub list_operations-Sound : Sound (list_operations)
unfolding list_operations
list_operations-Sound = search (keeps_rules, read_operations-Sound)

pub update_machine-Sound : (m : MachineRecord) → Sound (update_machine m)
unfolding call_store
update_machine-Sound m = call_store-Sound (update_machines m)

pub delete_machine-Sound : (id : MachineId) → Sound (delete_machine id)
unfolding call_store
delete_machine-Sound id = call_store-Sound (delete_machines id)

pub update_volume-Sound : (v : VolumeRecord) → Sound (update_volume v)
unfolding call_store
update_volume-Sound v = call_store-Sound (update_volumes v)

pub delete_volume-Sound : (id : VolumeId) → Sound (delete_volume id)
unfolding call_store
delete_volume-Sound id = call_store-Sound (delete_volumes id)

pub create_mount-Sound : (m : MountRecord) → Sound (create_mount m)
unfolding call_store
create_mount-Sound m = call_store-Sound (create_mounts m)

pub update_mount-Sound : (m : MountRecord) → Sound (update_mount m)
unfolding call_store
update_mount-Sound m = call_store-Sound (update_mounts m)

pub delete_mount-Sound : (id : MountId) → Sound (delete_mount id)
unfolding call_store
delete_mount-Sound id = call_store-Sound (delete_mounts id)

pub create_published_port-Sound : (p : PublishedPortRecord) → Sound (create_published_port p)
unfolding call_store
create_published_port-Sound p = call_store-Sound (create_published_ports p)

pub delete_published_port-Sound : (id : PublishedPortId) → Sound (delete_published_port id)
unfolding call_store
delete_published_port-Sound id = call_store-Sound (delete_published_ports id)

pub upsert_operation-Sound : (o : OperationRecord) → Sound (upsert_operation o)
unfolding call_store
upsert_operation-Sound o = call_store-Sound (upsert_operations o)

pub delete_operation-Sound : (id : MachineId) → Sound (delete_operation id)
unfolding call_store
delete_operation-Sound id = call_store-Sound (delete_operations id)

pub put_artifact-Sound : (a : ArtifactRecord) → Sound (put_artifact a)
unfolding call_store
put_artifact-Sound a = call_store-Sound (put_artifacts a)

pub create_machine-Sound : (m : MachineRecord) → Sound (create_machine m)
unfolding call_store
create_machine-Sound m = call_store-Sound (create_machines m)

pub create_volume-Sound : (v : VolumeRecord) → Sound (create_volume v)
unfolding call_store
create_volume-Sound v = call_store-Sound (create_volumes v)

pub create_snapshot-Sound : (x : SnapshotRecord) → Sound (create_snapshot x)
unfolding call_store
create_snapshot-Sound x = call_store-Sound (create_snapshots x)

pub delete_snapshot-Sound : (id : SnapshotId) → Sound (delete_snapshot id)
unfolding call_store
delete_snapshot-Sound id = call_store-Sound (delete_snapshots id)

pub list_snapshots-Sound : Sound (list_snapshots)
unfolding list_snapshots
list_snapshots-Sound = search (keeps_rules, read_state-Sound)

pub ruleset sound_rules = (
  get_machine-Sound, get_volume-Sound, get_snapshot-Sound, get_mount-Sound,
  get_published_port-Sound, get_artifact-Sound, list_machines-Sound, list_volumes-Sound,
  list_mounts-Sound, list_published_ports-Sound, list_operations-Sound, update_machine-Sound,
  delete_machine-Sound, update_volume-Sound, delete_volume-Sound, create_mount-Sound,
  update_mount-Sound, delete_mount-Sound, create_published_port-Sound, delete_published_port-Sound,
  upsert_operation-Sound, delete_operation-Sound, put_artifact-Sound, create_machine-Sound,
  create_volume-Sound, create_snapshot-Sound, delete_snapshot-Sound, list_snapshots-Sound,
)
