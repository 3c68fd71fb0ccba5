-- ===== src/Store/Snapshots.antt =====
-- internal/store/file_store.go: the snapshots.
use computer_host.Base.{refl, List, message, string_key, ◌=?◌, select}
use computer_host.Model.{MachineId, SnapshotId, SnapshotRecord}
use computer_host.Host.Exec.{Exec, ◌>>=◌, pure}
use computer_host.Store.FileStore.{FileStore, read_state, update_state}
use computer_host.Store.Collection.{Collection, created, deleted, get_from}

abbrev pub snapshots : Collection SnapshotRecord SnapshotId
snapshots = record {
  key = λ x. x.id;
  items = λ s. s.snapshots;
  with_items = λ s xs. record s { snapshots = xs };
  items-with_items = λ s xs. refl;
}

unfoldable pub create_snapshot : SnapshotRecord → Exec FileStore (Unit {0})
unfolding update_state
create_snapshot snapshot =
    update_state (created snapshots (message "store: snapshot already exists" snapshot.id) snapshot)

unfoldable pub get_snapshot : SnapshotId → Exec FileStore SnapshotRecord
unfolding get_from
get_snapshot id = get_from snapshots id

unfoldable pub list_snapshots_by_machine : MachineId → Exec FileStore (List SnapshotRecord)
unfolding ◌>>=◌ pure read_state
list_snapshots_by_machine machine_id = do
  state ← read_state
  pure (select (λ snap. snap.machine_id =? machine_id) state.snapshots)

unfoldable pub list_snapshots : Exec FileStore (List SnapshotRecord)
unfolding ◌>>=◌ pure read_state
list_snapshots = do state ← read_state; pure state.snapshots

unfoldable pub delete_snapshot : SnapshotId → Exec FileStore (Unit {0})
unfolding update_state
delete_snapshot id = update_state (deleted snapshots id)
