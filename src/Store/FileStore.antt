-- ===== src/Store/FileStore.antt =====
-- internal/store/file_store.go: the store over its two files. Its mutex makes each method one step.
use computer_host.Base.{Outcome}
use computer_host.Host.Exec.{Exec, ◌>>=◌, ◌>>◌, pure}
use computer_host.Host.File.{Disk, read_json_file, initialize_json_file, update_file}
use computer_host.Store.Persisted.{
  PersistedState, PersistedOperations, empty_persisted_state, empty_persisted_operations,
}

pub record FileStore : Type 0 where
  pub state : Disk PersistedState
  pub operations : Disk PersistedOperations

-- A call on one of the two files.
unfoldable pub on_state : {A : Type 0} → Exec (Disk PersistedState) A → Exec FileStore A
on_state m s = let (r, d) = m s.state in (r, record s { state = d })

unfoldable pub on_operations : {A : Type 0} → Exec (Disk PersistedOperations) A → Exec FileStore A
on_operations m s = let (r, d) = m s.operations in (r, record s { operations = d })

-- NewFileStore, over the files as they are found.
unfoldable pub new_file_store : Exec FileStore (Unit {0})
unfolding on_state on_operations ◌>>=◌ pure
new_file_store = do
  on_state (initialize_json_file empty_persisted_state)
  on_operations (initialize_json_file empty_persisted_operations)
  pure tt

unfoldable pub read_state : Exec FileStore PersistedState
unfolding on_state
read_state = on_state read_json_file

unfoldable pub read_operations : Exec FileStore PersistedOperations
unfolding on_operations
read_operations = on_operations read_json_file

unfoldable pub update_state : (PersistedState → Outcome PersistedState) → Exec FileStore (Unit {0})
unfolding on_state
update_state update = on_state (update_file update)

unfoldable pub update_operations :
    (PersistedOperations → Outcome PersistedOperations) → Exec FileStore (Unit {0})
unfolding on_operations
update_operations update = on_operations (update_file update)
