-- ===== src/Store/Consistent/Kept.antt =====
-- A call of the store keeps each of its files consistent, or unreadable.
use computer_host.Base.{refl, Outcome, none, some, inl, inr}
use computer_host.Host.File.{Disk, Event, whole}
use computer_host.Host.File.Atomic.{update_gone}
use computer_host.Store.Persisted.{
  PersistedState, PersistedOperations, empty_persisted_state, empty_persisted_operations,
}
use computer_host.Store.FileStore.{
  FileStore, update_state, update_operations, on_state, on_operations,
}
use computer_host.Store.Artifacts.{put_artifact}
use computer_host.Store.Machines.{create_machine, update_machine, delete_machine}
use computer_host.Store.Volumes.{create_volume, update_volume, delete_volume}
use computer_host.Store.Snapshots.{create_snapshot, delete_snapshot}
use computer_host.Store.Mounts.{create_mount, update_mount, delete_mount}
use computer_host.Store.Ports.{create_published_port, delete_published_port}
use computer_host.Store.Operations.{upsert_operation, delete_operation}
use computer_host.Store.Consistent.{
  StoreCall, put_artifacts, create_machines, update_machines, delete_machines, create_volumes,
  update_volumes, delete_volumes, upsert_operations, delete_operations, create_snapshots,
  delete_snapshots, create_published_ports, delete_published_ports, create_mounts, update_mounts,
  delete_mounts, call_store, IsConsistent, IsSound, IsKept,
}
use computer_host.Store.Consistent.Keeps.{call_store-IsSound}

-- A disk that holds a value.
abbrev disk_of : {A : Type 0} → A → Disk A
disk_of a = record {
  events = λ n. Event.succeeds;
  clock = 0;
  file = record { current = some (whole a); temp = none };
}

pub empty_state-IsConsistent : IsConsistent empty_persisted_state
empty_state-IsConsistent = record {
  artifact_refs = tt;
  machine_ids = tt;
  volume_ids = tt;
  snapshot_ids = tt;
  port_ids = tt;
  host_ports = tt;
  mount_ids = tt;
}

module _ (StateLost JournalLost : Type 0) where
  abbrev Kept : FileStore → Type 0
  Kept s = IsKept StateLost JournalLost s

  update_state-IsKept :
      (f : PersistedState → Outcome PersistedState) (s : FileStore)
      → ((t : FileStore) → IsSound t → IsSound (update_state f t).1)
      → Kept s
      → Kept (update_state f s).1
  unfolding update_state on_state
  update_state-IsKept f s sound h = record {
    state = elim h.state [
      | inl (g, e) ↦ inl (g, (update_gone f s.state e).0)
      | inr k ↦
          let t : FileStore = record s { operations = disk_of empty_persisted_operations } in
          inr
            (sound t (record { state = k; journal = (empty_persisted_operations, refl, tt) })).state
    ];
    journal = h.journal;
  }

  update_operations-IsKept :
      (f : PersistedOperations → Outcome PersistedOperations) (s : FileStore)
      → ((t : FileStore) → IsSound t → IsSound (update_operations f t).1)
      → Kept s
      → Kept (update_operations f s).1
  unfolding update_operations on_operations
  update_operations-IsKept f s sound h = record {
    state = h.state;
    journal = elim h.journal [
      | inl (g, e) ↦ inl (g, (update_gone f s.operations e).0)
      | inr k ↦
          let t : FileStore = record s { state = disk_of empty_persisted_state } in
          inr
            (sound t (record {
              state = (empty_persisted_state, refl, empty_state-IsConsistent);
              journal = k;
            })).journal
    ];
  }

  pub call_store-IsKept : (c : StoreCall) (s : FileStore) → Kept s → Kept (call_store c s).1
  unfolding call_store put_artifact create_machine update_machine delete_machine create_volume
      update_volume delete_volume upsert_operation delete_operation create_snapshot delete_snapshot
      create_published_port delete_published_port create_mount update_mount delete_mount
  call_store-IsKept (put_artifacts x) s =
      update_state-IsKept _ s (call_store-IsSound (put_artifacts x))
  call_store-IsKept (create_machines x) s =
      update_state-IsKept _ s (call_store-IsSound (create_machines x))
  call_store-IsKept (update_machines x) s =
      update_state-IsKept _ s (call_store-IsSound (update_machines x))
  call_store-IsKept (delete_machines x) s =
      update_state-IsKept _ s (call_store-IsSound (delete_machines x))
  call_store-IsKept (create_volumes x) s =
      update_state-IsKept _ s (call_store-IsSound (create_volumes x))
  call_store-IsKept (update_volumes x) s =
      update_state-IsKept _ s (call_store-IsSound (update_volumes x))
  call_store-IsKept (delete_volumes x) s =
      update_state-IsKept _ s (call_store-IsSound (delete_volumes x))
  call_store-IsKept (upsert_operations x) s =
      update_operations-IsKept _ s (call_store-IsSound (upsert_operations x))
  call_store-IsKept (delete_operations x) s =
      update_operations-IsKept _ s (call_store-IsSound (delete_operations x))
  call_store-IsKept (create_snapshots x) s =
      update_state-IsKept _ s (call_store-IsSound (create_snapshots x))
  call_store-IsKept (delete_snapshots x) s =
      update_state-IsKept _ s (call_store-IsSound (delete_snapshots x))
  call_store-IsKept (create_published_ports x) s =
      update_state-IsKept _ s (call_store-IsSound (create_published_ports x))
  call_store-IsKept (delete_published_ports x) s =
      update_state-IsKept _ s (call_store-IsSound (delete_published_ports x))
  call_store-IsKept (create_mounts x) s =
      update_state-IsKept _ s (call_store-IsSound (create_mounts x))
  call_store-IsKept (update_mounts x) s =
      update_state-IsKept _ s (call_store-IsSound (update_mounts x))
  call_store-IsKept (delete_mounts x) s =
      update_state-IsKept _ s (call_store-IsSound (delete_mounts x))
