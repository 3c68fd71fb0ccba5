-- ===== src/Store/Persisted.antt =====
-- internal/store/file_store.go: what the two files hold. A nil slice and an empty one are one list.
use computer_host.Base.{List, []}
use computer_host.Model.{
  ArtifactRecord, MachineRecord, VolumeRecord, SnapshotRecord, PublishedPortRecord, MountRecord,
  OperationRecord,
}

pub record PersistedState : Type 0 where
  pub artifacts : List ArtifactRecord
  pub machines : List MachineRecord
  pub volumes : List VolumeRecord
  pub snapshots : List SnapshotRecord
  pub published_ports : List PublishedPortRecord
  pub mounts : List MountRecord

pub record PersistedOperations : Type 0 where
  pub operations : List OperationRecord

abbrev pub empty_persisted_state : PersistedState
empty_persisted_state = record {
  artifacts = [];
  machines = [];
  volumes = [];
  snapshots = [];
  published_ports = [];
  mounts = [];
}

abbrev pub empty_persisted_operations : PersistedOperations
empty_persisted_operations = record { operations = [] }
